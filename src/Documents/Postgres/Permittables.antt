-- ===== src/Documents/Postgres/Permittables.antt =====
-- server/internal/infrastructure/postgres/pgdoc/permittable.go. `now` is `time.Now()`.
use reearth_accounts.Prelude.{ℕ, String, Bool, List, [], ◌∷◌, map, Result, ok, ◌>>=◌}
use reearth_accounts.Documents.Texts.{Texts, or_invalid, or_now}
use reearth_accounts.Permittable.{
  Permittable, WorkspaceRole, new_workspace_role, build, new, with_id, with_user_id, with_role_ids,
  with_workspace_roles, with_updated_at,
}

pub record PermittableWorkspaceRoleRow : Type 0 where
  pub permittable_id : String
  pub workspace_id : String
  pub role_id : String

pub record PermittableRow : Type 0 where
  pub id : String
  pub user_id : String
  pub role_ids : List String
  pub updated_at : ℕ

module _ (t : Texts) where
  -- The bodies of the loops of `NewPermittableRow` and `PermittableModel`
  abbrev pub role_row : String → WorkspaceRole → PermittableWorkspaceRoleRow
  role_row pid r = record {
    permittable_id = pid;
    workspace_id = t.id_text r.id;
    role_id = t.id_text r.role_id;
  }

  abbrev pub read_ids : List String → Result (List ℕ)
  read_ids [] = ok []
  read_ids (s ∷ l) = do rid ← or_invalid (t.id_from s); rest ← read_ids l; ok (rid ∷ rest)

  abbrev pub read_roles : List PermittableWorkspaceRoleRow → Result (List WorkspaceRole)
  read_roles [] = ok []
  read_roles (r ∷ l) = do
    w ← or_invalid (t.id_from r.workspace_id)
    role ← or_invalid (t.id_from r.role_id)
    rest ← read_roles l
    ok (new_workspace_role w role ∷ rest)

  -- `NewPermittableRow`
  unfoldable pub new_permittable_row :
      Permittable → ℕ → PermittableRow × List PermittableWorkspaceRoleRow
  new_permittable_row p now =
      let row : PermittableRow = record {
        id = t.id_text p.id;
        user_id = t.id_text p.user_id;
        role_ids = map t.id_text p.role_ids;
        updated_at = or_now p.updated_at now;
      } in
      (row, map (role_row (t.id_text p.id)) p.workspace_roles)

  -- `PermittableModel`
  unfoldable pub model :
      (ℕ → Bool) → PermittableRow → List PermittableWorkspaceRoleRow → ℕ → Result Permittable
  unfolding build
  model is_nil r wrs now = do
    pid ← or_invalid (t.id_from r.id)
    uid ← or_invalid (t.id_from r.user_id)
    roles ← read_ids r.role_ids
    workspace_roles ← read_roles wrs
    let b = with_role_ids (with_user_id (with_id new pid) uid) roles
    build is_nil (with_updated_at (with_workspace_roles b workspace_roles) r.updated_at) now
