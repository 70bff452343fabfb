-- ===== src/Prelude/Results.antt =====
-- The errors that the modelled packages return, and results that may be errors.
use mathlib.Core.Path.{◌≡◌, refl}
use mathlib.Core.Bool.{Bool, true, false}

-- One constructor for each error value of the packages; `failed` is an error of code outside them.
pub data Error : Type 0 where
  -- reearthx/rerror
  not_found already_exists : Error
  -- pkg/id, pkg/role, pkg/adminuser, pkg/user
  invalid_id invalid_role invalid_status empty_name invalid_email invalid_name : Error
  password_length password_lower password_upper password_number encoding_password : Error
  -- pkg/workspace
  user_already_joined cannot_modify_personal_workspace target_user_not_in_the_workspace : Error
  no_specified_users cannot_change_role_to_owner duplicate_workspace_alias : Error
  cursor_pagination_unsupported : Error
  -- internal/usecase/interfaces
  operation_denied invalid_operator invalid_photo_url cannot_change_owner_role : Error
  cannot_self_promote owner_cannot_leave_the_workspace permission_denied : Error
  too_many_workspace_ids workspace_alias_already_exists : Error
  -- internal/admin/usecase/adminuseruc, pkg/adminuser/repo.go
  cannot_modify_self last_approved_admin last_system_admin duplicated_admin_user : Error
  -- pkg/user/repo.go, internal/usecase/interfaces/user.go, and the errors made in the use cases
  invalid_params duplicated_user invalid_password_confirmation invalid_password_reset : Error
  signup_invalid_secret invalid_user_email not_verified_user invalid_email_or_password : Error
  user_already_exists user_alias_already_exists no_authenticator invalid_user_id : Error
  verification_expired invalid_access_token invalid_issuer no_repo : Error
  -- internal/admin/usecase/authuc
  invalid_token email_not_verified domain_not_allowed : Error
  failed : Error

pub data Result {ℓ} (A : Type ℓ) : Type ℓ where
  err : Error → Result A
  ok : A → Result A

-- `if c { return e }`
abbrev pub fail_if : Bool → Error → Result (Unit {0})
fail_if true e = err e
fail_if false e = ok tt

module _ {ℓ κ} {A : Type ℓ} {B : Type κ} where
  -- `v, err := m; if err != nil { return err }`, and what follows
  infixl 5 ◌>>=◌
  abbrev pub ◌>>=◌ : Result A → (A → Result B) → Result B
  ◌>>=◌ (err e) rest = err e
  ◌>>=◌ (ok v) rest = rest v

  -- A bind that succeeds has succeeded in both parts.
  pub >>=-eq-ok :
      (m : Result A) (rest : A → Result B) {b : B}
      → (m >>= rest) ≡ ok b
      → (v : A) × (m ≡ ok v) × (rest v ≡ ok b)
  >>=-eq-ok (err e) rest h = cc
  >>=-eq-ok (ok v) rest h = (v, refl, h)

infixl 5 ◌>>◌
abbrev pub ◌>>◌ {ℓ} : {B : Type ℓ} → Result (Unit {0}) → Result B → Result B
check >> rest = check >>= λ _. rest
