-- ===== src/Documents/Postgres/AdminUsers.antt =====
-- server/internal/infrastructure/postgres/pgdoc/adminuser.go. `now` is `time.Now()`, `created` is the
-- time in an identifier, and `is_nil` is `IsEmpty` and `IsNil`.
use reearth_accounts.Prelude.{
  ℕ, String, Bool, Option, none, some, Result, ok, ◌>>=◌, str_eq, if◌then◌else◌, ◌==◌,
}
use reearth_accounts.Documents.Texts.{Texts, or_invalid}
use reearth_accounts.AdminUser.{AdminUser, MailText, status_from, role_from, build}
use reearth_accounts.AdminUser.Setters.{
  new, with_id, with_email, with_name, with_picture_url, with_status, with_approved_at,
  with_updated_at, with_role, with_approved_by,
}
use reearth_accounts.Documents.Mongo.AdminUsers.{or_fail}

pub record AdminUserRow : Type 0 where
  pub id : String
  pub email : String
  pub name : String
  pub picture_url : String
  pub role : String
  pub status : String
  pub approved_by : String
  pub approved_at : Option ℕ
  pub created_at : ℕ
  pub updated_at : ℕ

-- `if r.ApprovedAt != nil`
abbrev pub read_time : AdminUser → Option ℕ → AdminUser
read_time b none = b
read_time b (some time) = with_approved_at b time

module _ (t : Texts) (is_nil : ℕ → Bool) where
  -- `NewAdminUserRow`
  unfoldable pub new_admin_user_row : (ℕ → ℕ) → AdminUser → AdminUserRow
  new_admin_user_row created u = record {
    id = t.id_text u.id;
    email = u.email;
    name = u.name;
    picture_url = u.picture_url;
    role = u.role;
    status = u.status;
    approved_by = if is_nil u.approved_by then "" else t.id_text u.approved_by;
    approved_at = if u.approved_at == 0 then none else some u.approved_at;
    created_at = created u.id;
    updated_at = u.updated_at;
  }

  -- `if r.Role != ""`
  abbrev pub read_role : AdminUser → String → Result AdminUser
  read_role b text =
      if str_eq text "" then ok b else do r ← or_fail (role_from t.lower text); ok (with_role b r)

  -- `if r.ApprovedBy != ""`
  abbrev pub read_approver : AdminUser → String → Result AdminUser
  read_approver b text =
      if str_eq text ""
      then ok b
      else do by ← or_invalid (t.id_from text); ok (with_approved_by b by)

  -- `AdminUserRow.Model`
  unfoldable pub model : MailText → AdminUserRow → ℕ → Result AdminUser
  unfolding build role_from status_from
  model m r now = do
    uid ← or_invalid (t.id_from r.id)
    status ← or_fail (status_from t.lower r.status)
    let b = with_picture_url (with_name (with_email (with_id new uid) r.email) r.name) r.picture_url
    let b' = with_updated_at (with_status b status) r.updated_at
    ranked ← read_role b' r.role
    filled ← read_approver (read_time ranked r.approved_at) r.approved_by
    build is_nil m filled now
