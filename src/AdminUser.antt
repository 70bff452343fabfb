-- ===== src/AdminUser.antt =====
-- server/pkg/adminuser: the administrators of the admin application. Statuses and roles are any
-- strings, as in enum.go; the zero time and the zero identifier are 0, and `now` is `time.Now()`.
-- Receivers are not nil.
pub mod Setters
pub mod Rebuilt
pub mod Life
pub mod Memory
pub mod UseCase
pub mod SignIn
pub mod Building
pub mod Admission
mod Tests
mod SignInTests
use reearth_accounts.Prelude.{
  ℕ, String, Bool, true, false, not, ◌&&◌, ◌||◌, Option, none, some, List, [], ◌∷◌, ◌==◌, str_eq,
  if◌then◌else◌, Result, ok, err, ◌>>=◌, invalid_id, invalid_role, invalid_status, empty_name,
  invalid_email,
}

abbrev pub pending : String
pending = "pending"

abbrev pub approved : String
approved = "approved"

abbrev pub rejected : String
rejected = "rejected"

-- `Status.Valid`
abbrev pub status_valid : String → Bool
status_valid s = str_eq s pending || str_eq s approved || str_eq s rejected

-- `StatusFrom`; `lower` is `strings.ToLower`.
unfoldable pub status_from : (String → String) → String → String × Result (Unit {0})
status_from lower s =
    let status = lower s in
    if status_valid status then (status, ok tt) else (status, err invalid_status)

abbrev pub system_admin : String
system_admin = "system_admin"

abbrev pub viewer : String
viewer = "viewer"

-- `Role.Valid`
abbrev pub role_valid : String → Bool
role_valid r = str_eq r system_admin || str_eq r viewer

-- `RoleFrom`
unfoldable pub role_from : (String → String) → String → String × Result (Unit {0})
role_from lower s =
    let role = lower s in if role_valid role then (role, ok tt) else (role, err invalid_role)

pub record AdminUser : Type 0 where
  pub approved_at : ℕ
  pub approved_by : ℕ
  pub email : String
  pub id : ℕ
  pub name : String
  pub picture_url : String
  pub role : String
  pub status : String
  pub updated_at : ℕ

-- `IsApproved`, `IsPending`, `IsRejected`
abbrev pub is_approved : AdminUser → Bool
is_approved u = str_eq u.status approved

abbrev pub is_pending : AdminUser → Bool
is_pending u = str_eq u.status pending

abbrev pub is_rejected : AdminUser → Bool
is_rejected u = str_eq u.status rejected

-- `Approve`
unfoldable pub approve : AdminUser → ℕ → ℕ → AdminUser
approve u by now =
    if str_eq u.status approved
    then u
    else record u { status = approved; approved_by = by; approved_at = now; updated_at = now }

-- `Reject`
unfoldable pub reject : AdminUser → ℕ → AdminUser
reject u now = record u { status = rejected; updated_at = now }

-- `SetRole`
unfoldable pub set_role : AdminUser → String → ℕ → Result AdminUser
set_role u r now =
    if not (role_valid r) then err invalid_role else ok (record u { role = r; updated_at = now })

-- `UpdateProfile`
unfoldable pub update_profile : AdminUser → String → String → ℕ → Result AdminUser
update_profile u name picture_url now =
    if str_eq name ""
    then err empty_name
    else ok (record u { name = name; picture_url = picture_url; updated_at = now })

-- `mail.ParseAddress` with the address that it finds, `strings.ToLower` and `strings.TrimSpace`
pub record MailText : Type 0 where
  pub parse_address : String → Option String
  pub lower : String → String
  pub trim : String → String

-- `NormalizeEmail`
unfoldable pub normalize_email : MailText → String → String
normalize_email m email = elim (m.parse_address email) [
  | some address ↦ m.lower (m.trim address)
  | none ↦ m.lower (m.trim email)
]

-- `normalizeAndValidateEmail`
unfoldable pub normalize_and_validate_email : MailText → String → Result String
normalize_and_validate_email m email = elim (m.parse_address email) [
  | none ↦ err invalid_email
  | some address ↦ ok (m.lower (m.trim address))
]

-- The last step of `Builder.Build`, by the status
settle_approval : AdminUser → AdminUser
settle_approval u =
    if str_eq u.status approved
    then (if u.approved_at == 0 then record u { approved_at = u.updated_at } else u)
    else if str_eq u.status pending
    then record u { approved_at = 0; approved_by = 0 }
    else u

or_pending : AdminUser → AdminUser
or_pending u = if str_eq u.status "" then record u { status = pending } else u

or_now : ℕ → AdminUser → AdminUser
or_now now u = if u.updated_at == 0 then record u { updated_at = now } else u

-- The tests of `Build` on the status and the role, and what follows them
abbrev check_enums : AdminUser → ℕ → Result AdminUser
check_enums u now =
    if not (status_valid u.status)
    then err invalid_status
    else if not (str_eq u.role "") && not (role_valid u.role)
    then err invalid_role
    else ok (settle_approval (or_now now u))

-- `Builder.Build`, on what the setters have put in
unfoldable pub build : (ℕ → Bool) → MailText → AdminUser → ℕ → Result AdminUser
unfolding settle_approval or_pending or_now
build is_nil m u now =
    if is_nil u.id then err invalid_id else if str_eq u.name "" then err empty_name else do
      email ← normalize_and_validate_email m u.email
      check_enums (or_pending (record u { email = email })) now
