-- ===== src/Documents/Mongo/Roles.antt =====
-- server/internal/infrastructure/mongo/mongodoc/role.go. `now` is `time.Now()`.
use reearth_accounts.Prelude.{ℕ, String, Bool, Option, none, some, Result, ok, ◌>>=◌}
use reearth_accounts.Documents.Texts.{Texts, or_invalid, or_now}
use reearth_accounts.Role.{Role, build, new, with_id, with_name, with_updated_at}

pub record RoleDocument : Type 0 where
  pub id : String
  pub name : String
  pub updated_at : ℕ

module _ (t : Texts) where
  -- `NewRole`
  unfoldable pub new_role : Role → ℕ → RoleDocument × String
  new_role g now =
      let doc : RoleDocument = record {
        id = t.id_text g.id;
        name = g.name;
        updated_at = or_now g.updated_at now;
      } in
      (doc, t.id_text g.id)

  -- `RoleDocument.Model`; `none` is a nil document, and the nil role that it gives.
  unfoldable pub model : (ℕ → Bool) → Option RoleDocument → ℕ → Result (Option Role)
  unfolding build
  model is_nil none now = ok none
  model is_nil (some d) now = do
    rid ← or_invalid (t.id_from d.id)
    r ← build is_nil (with_updated_at (with_name (with_id new rid) d.name) d.updated_at) now
    ok (some r)
