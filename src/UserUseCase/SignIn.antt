-- ===== src/UserUseCase/SignIn.antt =====
-- server/internal/usecase/interactor/user.go: who is let in, and what a code or a token is good for.
use reearth_accounts.Prelude.{
  ℕ, String, ◌≡◌, refl, Bool, true, false, not, ◌||◌, Option, none, some, List, Result, ok, err,
  arith, is_some,
}
use reearth_accounts.User.Auth.{get_by_provider, provider_reearth}
use reearth_accounts.User.Account.{User, match_password, set_password_reset}
use reearth_accounts.User.Credentials.{IsEncoder, match_password-set_password}
use reearth_accounts.User.Tokens.{is_verified, is_expired, set_verified, validate}
use reearth_accounts.Action.Post.{Gives, Gives-pure, Gives-fail, Gives-any, Gives-lift, Gives-reads}
use reearth_accounts.Interactor.Guard.{or_absent}
use reearth_accounts.UserUseCase.Env.{UserEnv, Gives-run_without_operator}
use reearth_accounts.UserUseCase.Session.{
  signing_in, get_user_by_credentials, known_email, verifying, verify_user, resetting, lacks_sub,
}

known_value :
    (r : Result User) (found : Option User) (u : User)
    → or_absent r ≡ ok found
    → known_email found ≡ ok u
    → r ≡ ok u
known_value (ok v) found u e f = ground arith
known_value (err x) found u e f = ground arith

not-false : (b : Bool) → not b ≡ false → b ≡ true
not-false b h = ground arith

or_false : (a b : Bool) → (not a || not b) ≡ false → (a ≡ true) × (b ≡ true)
or_false a b h = ground arith

module _ {S : Type 0} (env : UserEnv S) (now : ℕ) where
  -- The user that has the name or the address, with the password and a verified address
  abbrev IsKnown : S → String → List ℕ → User → Type 0
  IsKnown s email password u =
      (env.users.find_by_name_or_email email s ≡ ok u)
      × (match_password env.outside.encoder (some u) password ≡ ok true)
      × (is_verified u.verification ≡ true)

  checking :
      (email : String) (password : List ℕ) (s : S)
      → Gives s (signing_in env now email password) (IsKnown s email password)
  unfolding signing_in
  checking email password s = Gives-reads s (IsKnown s email password) _ _ (λ found e.
      Gives-lift s (IsKnown s email password) _ _ (λ u known.
        Gives-lift s (IsKnown s email password) _ _ (λ matched m.
          Gives-fail s (IsKnown s email password) _ _ _ (λ not_wrong.
            Gives-fail s (IsKnown s email password) _ _ _ (λ not_open.
              Gives-pure s (IsKnown s email password) u (
                known_value (env.users.find_by_name_or_email email s) found u e known,
                ground (arith, not-false matched not_wrong),
                (or_false (is_some u.verification) (is_verified u.verification) not_open).1,
              ))))))

  -- Whoever `GetUserByCredentials` gives is the user that the repository finds for the name or the
  -- address; the password matches the stored one, and the address is verified.
  pub get_user_by_credentials_lem :
      (email : String) (password : List ℕ) (s s' : S) (u : User)
      → get_user_by_credentials env now email password s ≡ (ok u, s')
      → (env.users.find_by_name_or_email email s ≡ ok u)
        × (match_password env.outside.encoder (some u) password ≡ ok true)
        × (is_verified u.verification ≡ true)
  unfolding get_user_by_credentials
  get_user_by_credentials_lem email password s s' u e =
      (Gives-run_without_operator env s (IsKnown s email password) _ (checking email password s)).at
        u s' e

  -- The user found by the code, whose time has not run out, now verified
  abbrev pub IsNowVerified : S → String → User → Type 0
  IsNowVerified s code u =
      (v : User) × (env.users.find_by_verification code s ≡ ok v)
      × (is_expired v.verification now ≡ false)
      × (u ≡ record v { verification = set_verified v.verification true })
      × (is_verified u.verification ≡ true)

  open_verified :
      (v : User)
      → is_expired v.verification now ≡ false
      → is_verified (set_verified v.verification true) ≡ true
  unfolding is_expired is_verified set_verified
  open_verified v h = ground arith

  -- `VerifyUser` gives the user found by the code with the address verified and nothing else
  -- changed, and only if the code had not expired.
  pub verify_user_lem :
      (code : String) (s s' : S) (u : User)
      → verify_user env now code s ≡ (ok u, s')
      → IsNowVerified s code u
  unfolding verify_user verifying
  verify_user_lem code s s' u e =
      (Gives-run_without_operator env s (IsNowVerified s code) _ (
          Gives-reads s (IsNowVerified s code) _ _ (λ v found.
            Gives-fail s (IsNowVerified s code) _ _ _ (λ open_still.
              Gives-any s (IsNowVerified s code) _ _ (λ x s1.
                Gives-pure s1 (IsNowVerified s code) _
                  (v, found, open_still, refl, open_verified v open_still)))))).at
        u s' e

  -- What holds of the user that a reset leaves
  abbrev IsReset : S → List ℕ → String → User → Type 0
  IsReset s password token u =
      (match_password env.outside.encoder (some u) password ≡ ok true)
      × (u.password_reset ≡ none)
      × ((v : User) × (env.users.find_by_password_reset_request token s ≡ ok v)
          × (validate v.password_reset token now ≡ true)
          × (lacks_sub (get_by_provider v.auths provider_reearth) ≡ false))

  -- The token does not matter for a match.
  pub same_match :
      (u : User) (password : List ℕ)
      → match_password env.outside.encoder (some u) password ≡ ok true
      → match_password env.outside.encoder (some (set_password_reset u none now)) password ≡ ok true
  unfolding match_password
  same_match u password h = h

  -- With an encoder that verifies what it encodes, the new password matches that of the user that
  -- `PasswordReset` saves, who has no token left; the token that was given belonged to that user and
  -- was still valid, and the user has an identity of the program itself.
  pub resetting_lem :
      (password : List ℕ) (token : String) (s s' : S) (u : User)
      → IsEncoder env.outside.encoder
      → resetting env now password token s ≡ (ok u, s')
      → IsReset s password token u
  unfolding resetting
  resetting_lem password token s s' u laws e =
      (Gives-reads s (IsReset s password token) _ _ (λ v found.
          Gives-fail s (IsReset s password token) _ _ _ (λ valid.
            Gives-fail s (IsReset s password token) _ _ _ (λ has_sub.
              Gives-lift s (IsReset s password token) _ _ (λ w changed.
                Gives-any s (IsReset s password token) _ _ (λ x s1.
                  Gives-pure s1 (IsReset s password token) _ (
                    same_match w password
                        (match_password-set_password env.outside.is_number env.outside.is_upper
                          env.outside.is_lower env.outside.encoder laws v w password now changed).0,
                    refl,
                    (v, found, not-false _ valid, has_sub),
                  ))))))).at
        u s' e
