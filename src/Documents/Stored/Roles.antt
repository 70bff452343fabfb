-- ===== src/Documents/Stored/Roles.antt =====
-- A role that is stored and loaded: mongodoc/role.go and pgdoc/role.go.
use reearth_accounts.Prelude.{ℕ, ◌<◌, ◌≡◌, ◌≢◌, Bool, false, some, ok, arith, eq_iff}
use reearth_accounts.Documents.Texts.{Texts, IsTexts}
use reearth_accounts.Documents.Mongo.Roles as M
use reearth_accounts.Documents.Postgres.Roles as P
use reearth_accounts.Role.{Role}

-- A role with an identifier that is set, a name and a time of update is loaded from its document as it was
-- stored, and from its row with the time of loading for its time of update.
pub role_stored :
    (t : Texts) (is_nil : ℕ → Bool) (r : Role) (now now' : ℕ)
    → IsTexts t
    → is_nil r.id ≡ false
    → 0 < r.id
    → r.name ≢ ""
    → 0 < r.updated_at
    → (M.model t is_nil (some (M.new_role t r now).0) now' ≡ ok (some r))
      × (P.model t is_nil (P.new_role_row t r) now' ≡ ok (record r { updated_at = now' }))
unfolding M.model M.new_role P.model P.new_role_row
role_stored t is_nil r now now' laws id set name updated =
    rw (laws.id_from-id_text r.id set) (ground (arith, eq_iff r.name ""))
