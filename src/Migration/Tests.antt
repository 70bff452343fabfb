-- ===== src/Migration/Tests.antt =====
-- The theorems on the migrations, at concrete inputs.
use reearth_accounts.Migration.Alias.{cut as migration_alias_cut}
use reearth_accounts.Migration.Alias.{pad as migration_alias_pad}
use reearth_accounts.Migration.Alias.{trim_right as migration_alias_trim_right}
use reearth_accounts.Migration.Alias.{trim_left as migration_alias_trim_left}
use reearth_accounts.Migration.Alias.{collapse as migration_alias_collapse}
use reearth_accounts.Migration.Alias.{replaced as migration_alias_replaced}
use reearth_accounts.Prelude.{
  String, ℕ, ◌≡◌, ◌≤◌, refl, true, false, not, ◌&&◌, ◌||◌, none, List, [], ◌∷◌, str_eq,
}
use reearth_accounts.Prelude.Lists.{length}
use reearth_accounts.Role.{contains_text}
use reearth_accounts.Documents.Mongo.Roles.{RoleDocument}
use reearth_accounts.Documents.Mongo.Permittables.{PermittableDocument}
use reearth_accounts.Documents.Mongo.Hash.{WorkspaceMemberDocument}
use reearth_accounts.Documents.Mongo.Workspaces.{WorkspaceDocument}
use reearth_accounts.Migration.Alias.{sanitize_alias}
use reearth_accounts.Migration.Alias.Bounds.{IsTrimmed, sanitize_alias_lem}
use reearth_accounts.Migration.Move.{find, move_roles}
use reearth_accounts.Migration.Move.Moved.{shows, move_roles_lem}
use reearth_accounts.Migration.Roles.{fix_role_ids, fix_workspace_roles, afterwards}
use reearth_accounts.Migration.Roles.Named.{names}
use reearth_accounts.Migration.Roles.Fixed.{is_workspace_role, fix_role_ids_lem}

-- "-a__b-"
abbrev odd : List ℕ
odd = b'-' ∷ b'a' ∷ b'_' ∷ b'_' ∷ b'b' ∷ b'-' ∷ []

-- "a-baa"
odd_alias : sanitize_alias odd ≡ b'a' ∷ b'-' ∷ b'b' ∷ b'a' ∷ b'a' ∷ []
unfolding sanitize_alias migration_alias_cut migration_alias_pad migration_alias_trim_right
    migration_alias_trim_left migration_alias_collapse migration_alias_replaced
odd_alias = refl

sanitize_alias_lem_example :
    IsTrimmed (sanitize_alias odd)
    × (5 ≤ length (sanitize_alias odd))
    × (length (sanitize_alias odd) ≤ 30)
sanitize_alias_lem_example = sanitize_alias_lem odd

-- The roles "o" for owners and "s" for users themselves
abbrev roles : List RoleDocument
roles =
    record { id = "o"; name = "owner"; updated_at = 1 }
    ∷ record { id = "s"; name = "self"; updated_at = 1 }
    ∷ []

-- A user with the role of owners for themself, and with none in a workspace
abbrev wrong : PermittableDocument
wrong = record {
  id = "2";
  user_id = "1";
  role_ids = "o" ∷ "x" ∷ [];
  workspace_roles = [];
  updated_at = 1;
}

fix_role_ids_lem_example :
    (contains_text "o" (afterwards wrong (fix_role_ids roles wrong)).role_ids ≡ (
      not (str_eq "o" "")
      && ((contains_text "o" wrong.role_ids && not (is_workspace_role roles "o"))
          || names roles "self" "o")))
    × (fix_role_ids roles (afterwards wrong (fix_role_ids roles wrong)) ≡ none)
fix_role_ids_lem_example = fix_role_ids_lem roles wrong "o"

abbrev owning : WorkspaceMemberDocument
owning = record { role = "owner"; invited_by = "1"; disabled = false }

abbrev workspace : WorkspaceDocument
workspace = record {
  id = "4";
  name = "n";
  alias = "a";
  email = "";
  metadata = record {
    description = "";
    website = "";
    location = "";
    billing_email = "";
    photo_url = "";
  };
  members = ("1", owning) ∷ [];
  integrations = [];
  members_hash = "";
  personal = false;
  policy = "";
  created_at = none;
  created_by = "";
  updated_at = 1;
  deleted_at = none;
}

abbrev fixed : PermittableDocument
fixed = afterwards wrong (fix_workspace_roles roles (workspace ∷ []) wrong)

abbrev fresh : String → String
fresh user = "7"

-- The document of a user who has none is made.
move_roles_lem_example :
    shows "s"
      (record { workspace_id = "4"; role_id = "o" })
      (find "1" (move_roles fresh roles (workspace ∷ []) []))
    ≡ true
move_roles_lem_example =
    move_roles_lem fresh roles "1" "o" "s" [] [] workspace [] [] owning [] refl refl refl
