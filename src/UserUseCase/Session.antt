-- ===== src/UserUseCase/Session.antt =====
-- server/internal/usecase/interactor/user.go: signing in and out, the verification of an address and
-- the reset of a password. `now` stands for the readings of the clock in one call.
use reearth_accounts.Prelude.{
  ℕ, String, Bool, true, not, ◌||◌, Option, none, some, List, str_eq, Result, ok, err,
  invalid_user_email, invalid_email_or_password, not_verified_user, verification_expired, is_some,
  invalid_password_reset,
}
use reearth_accounts.User.Auth.{Auth, provider_reearth}
use reearth_accounts.User.Auth.{get_by_provider}
use reearth_accounts.User.Account.{
  User, match_password, set_latest_logout_at, set_password, set_password_reset,
}
use reearth_accounts.User.Tokens.{
  is_verified, is_expired, set_verified, new_password_reset, validate,
}
use reearth_accounts.Workspace.Operator.{Operator}
use reearth_accounts.Action.{Action, pure, lift, reads, fail_when, ◌>>=◌, ◌>>◌}
use reearth_accounts.Interactor.Env.{run, usecase}
use reearth_accounts.Interactor.Guard.{operator_user, or_absent}
use reearth_accounts.UserUseCase.Env.{UserEnv, run_without_operator}

-- `else if u == nil { return nil, interfaces.ErrInvalidUserEmail }`
abbrev pub known_email : Option User → Result User
known_email none = err invalid_user_email
known_email (some u) = ok u

-- `a == nil || a.Sub == ""`
abbrev pub lacks_sub : Option Auth → Bool
lacks_sub none = true
lacks_sub (some a) = str_eq a.sub ""

module _ {S : Type 0} (env : UserEnv S) (now : ℕ) where
  -- The body of `GetUserByCredentials`
  unfoldable pub signing_in : String → List ℕ → Action S User
  signing_in email password = do
    found ← reads (λ s. or_absent (env.users.find_by_name_or_email email s))
    u ← lift (known_email found)
    matched ← lift (match_password env.outside.encoder (some u) password)
    fail_when (not matched) invalid_email_or_password
    fail_when (not (is_some u.verification) || not (is_verified u.verification)) not_verified_user
    pure u

  -- `GetUserByCredentials`
  unfoldable pub get_user_by_credentials : String → List ℕ → Action S User
  unfolding signing_in
  get_user_by_credentials email password = run_without_operator env (signing_in email password)

  -- `GetUserBySubject`
  unfoldable pub get_user_by_subject : String → Action S User
  get_user_by_subject sub = run_without_operator env (reads (env.users.find_by_sub sub))

  -- `Logout`
  unfoldable pub logout : Operator → Action S User
  logout op = do
    user ← lift (operator_user op)
    run env.base usecase op (do
      u ← reads (env.users.find_by_id user)
      env.users.save (set_latest_logout_at u now now)
      pure (set_latest_logout_at u now now))

  -- The body of `VerifyUser`
  unfoldable pub verifying : String → Action S User
  verifying code = do
    u ← reads (env.users.find_by_verification code)
    fail_when (is_expired u.verification now) verification_expired
    env.users.save (record u { verification = set_verified u.verification true })
    pure (record u { verification = set_verified u.verification true })

  -- `VerifyUser`
  unfoldable pub verify_user : String → Action S User
  verify_user code = run_without_operator env (verifying code)

  -- The body of `StartPasswordReset`, with the token that `NewPasswordReset` draws
  unfoldable pub starting_reset : String → String → Action S User
  starting_reset token email = do
    u ← reads (env.users.find_by_email email)
    fail_when (lacks_sub (get_by_provider u.auths provider_reearth)) invalid_password_reset
    env.users.save (set_password_reset u (some (new_password_reset token now)) now)
    pure (set_password_reset u (some (new_password_reset token now)) now)

  -- `StartPasswordReset`: the mail goes out behind the transaction.
  unfoldable pub start_password_reset : String → String → Action S (Unit {0})
  start_password_reset token email = do
    u ← run_without_operator env (starting_reset token email)
    env.send_mail u.email u.name token

  abbrev pub encoded : User → List ℕ → Result User
  encoded u password =
      set_password env.outside.is_number env.outside.is_upper env.outside.is_lower
        env.outside.encoder u password now

  -- The body of `PasswordReset`, with the user that it saves
  unfoldable pub resetting : List ℕ → String → Action S User
  resetting password token = do
    u ← reads (env.users.find_by_password_reset_request token)
    fail_when (not (validate u.password_reset token now)) invalid_password_reset
    fail_when (lacks_sub (get_by_provider u.auths provider_reearth)) invalid_password_reset
    u' ← lift (encoded u password)
    env.users.save (set_password_reset u' none now)
    pure (set_password_reset u' none now)

  -- `PasswordReset`
  unfoldable pub password_reset : List ℕ → String → Action S (Unit {0})
  password_reset password token =
      run_without_operator env (do u ← resetting password token; pure tt)
