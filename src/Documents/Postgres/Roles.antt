-- ===== src/Documents/Postgres/Roles.antt =====
-- server/internal/infrastructure/postgres/pgdoc/role.go. `now` is `time.Now()`.
use reearth_accounts.Prelude.{ℕ, String, Bool, Result, ◌>>=◌}
use reearth_accounts.Documents.Texts.{Texts, or_invalid}
use reearth_accounts.Role.{Role, build, new, with_id, with_name}

pub record RoleRow : Type 0 where
  pub id : String
  pub name : String

module _ (t : Texts) where
  -- `NewRoleRow`
  unfoldable pub new_role_row : Role → RoleRow
  new_role_row r = record { id = t.id_text r.id; name = r.name }

  -- `RoleRow.Model`
  unfoldable pub model : (ℕ → Bool) → RoleRow → ℕ → Result Role
  unfolding build
  model is_nil r now = do
    rid ← or_invalid (t.id_from r.id)
    build is_nil (with_name (with_id new rid) r.name) now
