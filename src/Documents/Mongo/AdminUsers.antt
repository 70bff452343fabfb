-- ===== src/Documents/Mongo/AdminUsers.antt =====
-- server/internal/infrastructure/mongo/mongodoc/adminuser.go. `now` is `time.Now()`, `created` is the
-- time in an identifier, which is when its user was made, and `is_nil` is `IsEmpty` and `IsNil`.
use reearth_accounts.Prelude.{
  ℕ, String, Bool, Option, none, some, Result, ok, ◌>>=◌, str_eq, if◌then◌else◌,
}
use reearth_accounts.Documents.Texts.{Texts, or_invalid, or_now}
use reearth_accounts.AdminUser.{AdminUser, MailText, status_from, role_from, build}
use reearth_accounts.AdminUser.Setters.{
  new, with_id, with_email, with_name, with_picture_url, with_status, with_approved_at,
  with_updated_at, with_role, with_approved_by,
}

pub record AdminUserDocument : Type 0 where
  pub id : String
  pub email : String
  pub name : String
  pub picture_url : String
  pub role : String
  pub status : String
  pub approved_by : String
  pub approved_at : ℕ
  pub created_at : ℕ
  pub updated_at : ℕ

-- `v, err := f(s); if err != nil { return nil, err }`
abbrev pub or_fail : String × Result (Unit {0}) → Result String
or_fail (s, r) = r >>= λ _. ok s

module _ (t : Texts) (is_nil : ℕ → Bool) where
  -- The text of an approver, if there is one
  abbrev pub approver_text : ℕ → String
  approver_text by = if is_nil by then "" else t.id_text by

  -- `NewAdminUser`
  unfoldable pub new_admin_user : (ℕ → ℕ) → AdminUser → ℕ → AdminUserDocument × String
  new_admin_user created u now =
      let doc : AdminUserDocument = record {
        id = t.id_text u.id;
        email = u.email;
        name = u.name;
        picture_url = u.picture_url;
        role = u.role;
        status = u.status;
        approved_by = approver_text u.approved_by;
        approved_at = u.approved_at;
        created_at = created u.id;
        updated_at = or_now u.updated_at now;
      } in
      (doc, t.id_text u.id)

  -- `if d.Role != ""`
  abbrev pub read_role : AdminUser → String → Result AdminUser
  read_role b text =
      if str_eq text "" then ok b else do r ← or_fail (role_from t.lower text); ok (with_role b r)

  -- `if d.ApprovedBy != ""`
  abbrev pub read_approver : AdminUser → String → Result AdminUser
  read_approver b text =
      if str_eq text ""
      then ok b
      else do by ← or_invalid (t.id_from text); ok (with_approved_by b by)

  -- `AdminUserDocument.Model`
  unfoldable pub model : MailText → Option AdminUserDocument → ℕ → Result (Option AdminUser)
  unfolding build role_from status_from
  model m none now = ok none
  model m (some d) now = do
    uid ← or_invalid (t.id_from d.id)
    status ← or_fail (status_from t.lower d.status)
    let b = with_picture_url (with_name (with_email (with_id new uid) d.email) d.name) d.picture_url
    let b' = with_updated_at (with_approved_at (with_status b status) d.approved_at) d.updated_at
    ranked ← read_role b' d.role
    filled ← read_approver ranked d.approved_by
    u ← build is_nil m filled now
    ok (some u)
