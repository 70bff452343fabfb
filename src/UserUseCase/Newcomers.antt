-- ===== src/UserUseCase/Newcomers.antt =====
-- server/internal/usecase/interactor/user_signup.go: whom a sign-up lets in, and as what
use reearth_accounts.Prelude.{
  ℕ, String, ◌≡◌, refl, true, false, Option, none, some, [], ◌∷◌, str_eq, Error, Result, ok, err,
  arith, is_some, not_found, eq_iff, ◌⊎◌, inl, inr, Bool-cases,
}
use reearth_accounts.User.Auth.{auth_from}
use reearth_accounts.User.Account.{User, set_verification}
use reearth_accounts.User.Tokens.{is_verified, new_verification}
use reearth_accounts.Workspace.Entity.{Workspace}
use reearth_accounts.Workspace.Init.{InitParams, init_lem, init_sub}
use reearth_accounts.Action.Post.{Gives, Gives-pure, Gives-fail, Gives-any, Gives-lift, Gives-reads}
use reearth_accounts.Interactor.Guard.{or_absent, is_not_found}
use reearth_accounts.UserUseCase.Env.{Gives-run_without_operator}
use reearth_accounts.UserUseCase.SignUp.{
  SignUpEnv, New, SignupParam, verify_signup_secret, signing_up, signup, made, compared,
}
use reearth_accounts.UserUseCase.Sso.{
  SsoParam, or_existing, from_issuer, synced, syncing, sync_sso_user,
}

only_not_found : (e : Error) → is_not_found e ≡ true → e ≡ not_found
only_not_found e h = ground arith

absent_value :
    {A : Type 0} (r : Result A) (found : Option A)
    → or_absent r ≡ ok found
    → is_some found ≡ false
    → r ≡ err not_found
absent_value (ok v) found e f = ground arith
absent_value (err x) found e f = ground (arith, only_not_found x)

known_value : {A : Type 0} (r : Result A) (a : A) → or_absent r ≡ ok (some a) → r ≡ ok a
known_value (ok v) a e = ground arith
known_value (err x) a e = ground arith

module _ {S : Type 0} (i : SignUpEnv S) (now : ℕ) (new : New) where
  asked :
      (secret : Option String)
      → compared i.signup_secret secret ≡ ok tt
      → secret ≡ some i.signup_secret
  asked none h = cc
  asked (some t) h = ground (arith, eq_iff t i.signup_secret)

  -- The secret that is asked for, if one is
  secret_given :
      (secret : Option String)
      → verify_signup_secret i now new secret ≡ ok tt
      → (i.signup_secret ≡ "") ⊎ (secret ≡ some i.signup_secret)
  unfolding verify_signup_secret
  secret_given secret h = elim (Bool-cases (str_eq i.signup_secret "")) [
    | inl unset ↦ inl (ground (arith, eq_iff i.signup_secret ""))
    | inr set ↦ inr (asked secret (ground arith))
  ]

  -- A new user of the address, whose address is still to be verified with the code
  abbrev pub IsNewUser : S → SignupParam → User → Type 0
  IsNewUser s p u =
      (i.env.users.find_by_email p.init_params.email s ≡ err not_found)
      × (u.email ≡ p.init_params.email)
      × (i.texts.outside.parses u.email ≡ true)
      × (u.auths ≡ init_sub i.texts p.init_params u.id ∷ [])
      × (u.verification ≡ some (new_verification new.code now))
      × (is_verified u.verification ≡ false)

  new_user :
      (s : S) (p : SignupParam) (u : User) (w : Workspace)
      → i.env.users.find_by_email p.init_params.email s ≡ err not_found
      → made i now new p.init_params ≡ ok (u, w)
      → IsNewUser s p (set_verification u (some (new_verification new.code now)) now)
  unfolding made is_verified new_verification
  new_user s p u w absent e =
      let (same_id, email, parsed, auths, own, same_ws, personal, owning) =
        init_lem i.texts p.init_params new.user_id new.workspace_id now now u w e in
      (absent, email, ground arith, auths, refl, refl)

  -- If `Signup` succeeds, the secret was given where one is configured, nobody had the address, and
  -- the user has that address, one identity, and the new code, with which the address is still to
  -- be verified.
  pub signup_lem :
      (p : SignupParam) (s s' : S) (u : User)
      → signup i now new p s ≡ (ok u, s')
      → IsNewUser s p u × ((i.signup_secret ≡ "") ⊎ (p.secret ≡ some i.signup_secret))
  unfolding signup signing_up
  signup_lem p s s' u e =
      (Gives-lift s IsAdmitted _ _ (λ t given. Gives-run_without_operator i.env s IsAdmitted _ (
          Gives-reads s IsAdmitted _ _ (λ existing found. Gives-fail s IsAdmitted _ _ _ (λ free.
            Gives-lift s IsAdmitted _ _ (λ x made_it. Gives-any s IsAdmitted _ _ (λ t1 s1.
              Gives-any s1 IsAdmitted _ _ (λ t2 s2. Gives-any s2 IsAdmitted _ _ (λ t3 s3.
                Gives-any s3 IsAdmitted _ _ (λ t4 s4. Gives-pure s4 IsAdmitted _ (
                  new_user s p x.0 x.1 (absent_value _ existing found free) made_it,
                  secret_given p.secret given,
                ))))))))))).at
        u s' e
    where
      IsAdmitted : User → Type 0
      IsAdmitted v = IsNewUser s p v × ((i.signup_secret ≡ "") ⊎ (p.secret ≡ some i.signup_secret))

  -- A user of the subject's identity alone, which nobody had before, as nobody had the address
  abbrev pub IsFresh : S → String → String → User → Type 0
  IsFresh s sub email u =
      (i.env.users.find_by_sub sub s ≡ err not_found)
      × (i.env.users.find_by_email email s ≡ err not_found)
      × (u.auths ≡ auth_from i.split sub ∷ [])
      × (u.email ≡ email)

  fresh :
      (s : S) (sub email : String) (p : InitParams) (u : User) (w : Workspace)
      → i.env.users.find_by_sub sub s ≡ err not_found
      → i.env.users.find_by_email email s ≡ err not_found
      → made i now new (from_issuer i now new sub email p) ≡ ok (u, w)
      → IsFresh s sub email u
  unfolding made
  fresh s sub email p u w no_sub no_email e =
      let (same_id, mail, parsed, auths, own, same_ws, personal, owning) =
        init_lem i.texts (from_issuer i now new sub email p) new.user_id new.workspace_id now now u
          w e in
      (no_sub, no_email, auths, mail)

  made_fresh :
      (s : S) (p : SsoParam)
      → i.env.users.find_by_sub p.sub s ≡ err not_found
      → Gives s (synced i now new p) (IsFresh s p.sub p.init_params.email)
  unfolding synced
  made_fresh s p no_sub = Gives-reads s (IsFresh s p.sub p.init_params.email) _ _ (λ existing found.
      Gives-fail s (IsFresh s p.sub p.init_params.email) _ _ _ (λ free.
        Gives-lift s (IsFresh s p.sub p.init_params.email) _ _ (λ x made_it.
          Gives-any s (IsFresh s p.sub p.init_params.email) _ _ (λ t1 s1.
            Gives-any s1 (IsFresh s p.sub p.init_params.email) _ _ (λ t2 s2.
              Gives-any s2 (IsFresh s p.sub p.init_params.email) _ _ (λ t3 s3.
                Gives-pure s3 (IsFresh s p.sub p.init_params.email) _ (
                  fresh s p.sub p.init_params.email p.init_params x.0 x.1 no_sub
                    (absent_value _ existing found free) made_it)))))))

  -- The user of the subject, who was there before or is made
  abbrev pub IsSynced : S → SsoParam → User → Type 0
  IsSynced s p u = (i.env.users.find_by_sub p.sub s ≡ ok u) ⊎ IsFresh s p.sub p.init_params.email u

  either :
      (s : S) (p : SsoParam) (found : Option User)
      → or_absent (i.env.users.find_by_sub p.sub s) ≡ ok found
      → Gives s (or_existing i now new (synced i now new p) found) (IsSynced s p)
  either s p none e = record {
    at = λ u s' q. inr ((made_fresh s p (absent_value _ none e refl)).at u s' q);
  }
  either s p (some u) e = Gives-pure s (IsSynced s p) u (inl (known_value _ u e))

  -- `SyncSSOUser` gives the user whom the repository finds by the subject, or, where nobody has the
  -- subject nor the address, a new one with that address and the subject's identity alone.
  pub sync_sso_user_lem :
      (p : SsoParam) (s s' : S) (u : User)
      → sync_sso_user i now new p s ≡ (ok u, s')
      → IsSynced s p u
  unfolding sync_sso_user syncing
  sync_sso_user_lem p s s' u e =
      (Gives-run_without_operator i.env s (IsSynced s p) _
          (Gives-reads s (IsSynced s p) _ _ (λ found q. either s p found q))).at
        u s' e
