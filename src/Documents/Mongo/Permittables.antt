-- ===== src/Documents/Mongo/Permittables.antt =====
-- server/internal/infrastructure/mongo/mongodoc/permittable.go. `now` is `time.Now()`; a nil slice is
-- the empty one.
use reearth_accounts.Prelude.{
  ℕ, String, Bool, Option, none, some, List, [], ◌∷◌, map, Result, ok, ◌>>=◌,
}
use reearth_accounts.Documents.Texts.{Texts, or_invalid, or_now}
use reearth_accounts.Permittable.{
  Permittable, WorkspaceRole, new_workspace_role, build, new, with_id, with_user_id, with_role_ids,
  with_workspace_roles, with_updated_at,
}

pub record WorkspaceRoleDocument : Type 0 where
  pub workspace_id : String
  pub role_id : String

pub record PermittableDocument : Type 0 where
  pub id : String
  pub user_id : String
  pub role_ids : List String
  pub workspace_roles : List WorkspaceRoleDocument
  pub updated_at : ℕ

module _ (t : Texts) where
  -- The bodies of the loops of `NewPermittable` and `Model` over the roles in workspaces
  abbrev pub role_document : WorkspaceRole → WorkspaceRoleDocument
  role_document r = record { workspace_id = t.id_text r.id; role_id = t.id_text r.role_id }

  abbrev pub read_roles : List WorkspaceRoleDocument → Result (List WorkspaceRole)
  read_roles [] = ok []
  read_roles (r ∷ l) = do
    w ← or_invalid (t.id_from r.workspace_id)
    role ← or_invalid (t.id_from r.role_id)
    rest ← read_roles l
    ok (new_workspace_role w role ∷ rest)

  -- `NewPermittable`
  unfoldable pub new_permittable : Permittable → ℕ → PermittableDocument × String
  new_permittable p now =
      let doc : PermittableDocument = record {
        id = t.id_text p.id;
        user_id = t.id_text p.user_id;
        role_ids = map t.id_text p.role_ids;
        workspace_roles = map role_document p.workspace_roles;
        updated_at = or_now p.updated_at now;
      } in
      (doc, t.id_text p.id)

  -- `PermittableDocument.Model`
  unfoldable pub model : (ℕ → Bool) → Option PermittableDocument → ℕ → Result (Option Permittable)
  unfolding build
  model is_nil none now = ok none
  model is_nil (some d) now = do
    uid ← or_invalid (t.id_from d.id)
    user ← or_invalid (t.id_from d.user_id)
    roles ← or_invalid (t.ids_from d.role_ids)
    workspace_roles ← read_roles d.workspace_roles
    let b = with_user_id (with_updated_at (with_id new uid) d.updated_at) user
    p ← build is_nil (with_workspace_roles (with_role_ids b roles) workspace_roles) now
    ok (some p)
