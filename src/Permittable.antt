-- ===== src/Permittable.antt =====
-- server/pkg/permittable: the roles of a user, globally and by workspace. `none` is a nil receiver
-- and `now` is `time.Now()`.
pub mod Laws
use reearth_accounts.Prelude.{
  ℕ, Bool, true, false, Option, none, some, List, [], ◌∷◌, ◌++◌, ◌==◌, if◌then◌else◌, Result, ok,
  err, invalid_id,
}

pub record WorkspaceRole : Type 0 where
  pub id : ℕ
  pub role_id : ℕ

-- `NewWorkspaceRole`
abbrev pub new_workspace_role : ℕ → ℕ → WorkspaceRole
new_workspace_role workspace_id role_id = record { id = workspace_id; role_id = role_id }

pub record Permittable : Type 0 where
  pub id : ℕ
  pub user_id : ℕ
  pub role_ids : List ℕ
  pub workspace_roles : List WorkspaceRole
  pub updated_at : ℕ

-- `EditRoleIDs`
unfoldable pub edit_role_ids : Option Permittable → List ℕ → ℕ → Option Permittable
edit_role_ids none role_ids now = none
edit_role_ids (some p) role_ids now = some (record p { role_ids = role_ids; updated_at = now })

-- `EditWorkspaceRoles`
unfoldable pub edit_workspace_roles :
    Option Permittable → List WorkspaceRole → ℕ → Option Permittable
edit_workspace_roles none roles now = none
edit_workspace_roles (some p) roles now =
    some (record p { workspace_roles = roles; updated_at = now })

-- The loop of `RemoveWorkspaceRole`: the roles without the first of the workspace, if there is one.
abbrev pub without_role : ℕ → List WorkspaceRole → Option (List WorkspaceRole)
without_role w [] = none
without_role w (wr ∷ l) =
    let rest = without_role w l in
    if wr.id == w then some l else elim rest [ none ↦ none | some l' ↦ some (wr ∷ l') ]

-- `RemoveWorkspaceRole`
unfoldable pub remove_workspace_role : Option Permittable → ℕ → ℕ → Option Permittable
remove_workspace_role none w now = none
remove_workspace_role (some p) w now = elim (without_role w p.workspace_roles) [
  | none ↦ some p
  | some l ↦ some (record p { workspace_roles = l; updated_at = now })
]

-- The loop of `UpdateWorkspaceRole`, with what follows it: the first role of the workspace is
-- changed, or a new one is put at the end.
abbrev pub put_role : ℕ → ℕ → List WorkspaceRole → List WorkspaceRole
put_role w r [] = new_workspace_role w r ∷ []
put_role w r (wr ∷ l) =
    let rest = put_role w r l in if wr.id == w then record wr { role_id = r } ∷ l else wr ∷ rest

-- `UpdateWorkspaceRole`
unfoldable pub update_workspace_role : Option Permittable → ℕ → ℕ → ℕ → Option Permittable
update_workspace_role none w r now = none
update_workspace_role (some p) w r now =
    some (record p { workspace_roles = put_role w r p.workspace_roles; updated_at = now })

-- `Builder.Build`, on what the setters have put in; `is_nil` is the test `IsNil` of idx.ID.
unfoldable pub build : (ℕ → Bool) → Permittable → ℕ → Result Permittable
build is_nil p now =
    if is_nil p.id
    then err invalid_id
    else if is_nil p.user_id
    then err invalid_id
    else if p.updated_at == 0
    then ok (record p { updated_at = now })
    else ok p

-- builder.go: `New`, and the setters `ID`, `UserID`, `RoleIDs`, `WorkspaceRoles` and `UpdatedAt`. A
-- builder is the permittable that it fills.
abbrev pub new : Permittable
new = record { id = 0; user_id = 0; role_ids = []; workspace_roles = []; updated_at = 0 }

abbrev pub with_id : Permittable → ℕ → Permittable
with_id b id = record b { id = id }

abbrev pub with_user_id : Permittable → ℕ → Permittable
with_user_id b u = record b { user_id = u }

abbrev pub with_role_ids : Permittable → List ℕ → Permittable
with_role_ids b ids = record b { role_ids = ids }

abbrev pub with_workspace_roles : Permittable → List WorkspaceRole → Permittable
with_workspace_roles b roles = record b { workspace_roles = roles }

abbrev pub with_updated_at : Permittable → ℕ → Permittable
with_updated_at b t = record b { updated_at = t }
