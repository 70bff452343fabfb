-- ===== src/AdminUser/Admission.antt =====
-- server/internal/admin/usecase/authuc/signin.go: whom a sign-in lets in, and with which rights
use reearth_accounts.Prelude.{
  not_found, ℕ, String, ◌≡◌, refl, Bool, true, false, not, Option, none, some, str_eq, Error,
  Result, ok, err, arith, eq_iff, sym, subst, ◌⊎◌, inl, inr, Bool-cases,
}
use reearth_accounts.AdminUser.{
  AdminUser, pending, approved, system_admin, is_approved, approve, set_role, update_profile,
  normalize_email, build,
}
use reearth_accounts.AdminUser.Building.{built_lem}
use reearth_accounts.Action.Post.{Gives, Gives-pure, Gives-fail, Gives-any, Gives-lift, Gives-reads}
use reearth_accounts.Interactor.Guard.{or_absent}
use reearth_accounts.AdminUser.SignIn.{
  SignInEnv, Claims, verified, is_refused, is_bootstrapped, refreshed, approved_again, reconciled,
  signing_in_again, new_account, settled, signing_in_anew, for_found, or_stored, is_duplicated,
  admitting, sign_in,
}

absent_value : (r : Result AdminUser) → or_absent r ≡ ok none → r ≡ err not_found
absent_value (ok v) e = cc
absent_value (err not_found) e = refl
absent_value (err x) e = absurd (ground arith)

known_value : (r : Result AdminUser) (a : AdminUser) → or_absent r ≡ ok (some a) → r ≡ ok a
known_value (ok v) a e = ground arith
known_value (err x) a e = ground arith

module _ {S : Type 0} (env : SignInEnv S) (now : ℕ) where
  -- In the store, the repository finds an account of the address with the status and the role.
  abbrev pub IsStoredIn : S → String → AdminUser → Type 0
  IsStoredIn s email u =
      (v : AdminUser) × (env.find_by_email email s ≡ ok v)
      × (u.status ≡ v.status)
      × (u.role ≡ v.role)

  -- Nobody has the address in the store.
  abbrev pub IsFree : S → String → Type 0
  IsFree s email = env.find_by_email email s ≡ err not_found

  -- The repository refused to save an account because another one has its identity, and the account
  -- is as it is stored behind that.
  abbrev pub IsStoredMeanwhile : S → String → AdminUser → Type 0
  IsStoredMeanwhile s email u =
      (n : AdminUser) × (x : Error) × (s1 : S) × IsFree s email
      × (env.save n s ≡ (err x, s1))
      × (is_duplicated x ≡ true)
      × IsStoredIn s1 email u

  -- A bootstrapped address is that of an approved system admin, and any other account is pending if
  -- nobody has the address, and else as it is stored; or a save was refused, and the account is as it
  -- is stored behind that.
  abbrev pub HasStanding : S → Bool → String → AdminUser → Type 0
  HasStanding s true email u =
      ((is_approved u ≡ true) × (u.role ≡ system_admin)) ⊎ IsStoredMeanwhile s email u
  HasStanding s false email u =
      (IsFree s email × (u.status ≡ pending)) ⊎ (IsStoredIn s email u ⊎ IsStoredMeanwhile s email u)

  refreshed_lem :
      (c : Claims) (u v : AdminUser)
      → refreshed env now c u ≡ ok v
      → (v.status ≡ u.status) × (v.role ≡ u.role)
  unfolding update_profile
  refreshed_lem c u v e = ground arith

  approved_again_lem :
      (u : AdminUser)
      → (is_approved (approved_again env now u) ≡ true) × ((approved_again env now u).role ≡ u.role)
  unfolding approve
  approved_again_lem u = elim (Bool-cases (is_approved u)) [
    | inl e ↦ rw e (e, refl)
    | inr e ↦ rw e (refl, refl)
  ]

  reconciled_lem :
      (u v : AdminUser)
      → reconciled env now true u ≡ ok v
      → (is_approved v ≡ true) × (v.role ≡ system_admin)
  unfolding set_role
  reconciled_lem u v e = elim (Bool-cases (str_eq u.role system_admin)) [
    | inl same ↦ ground (arith, rw same at e, approved_again_lem u, eq_iff u.role system_admin)
    | inr other ↦ ground (arith, rw other at e, approved_again_lem u)
  ]

  raised :
      (b : Bool) (c : Claims) (email : String) (s : S) (u v w : AdminUser)
      → env.find_by_email email s ≡ ok u
      → refreshed env now c u ≡ ok v
      → reconciled env now b v ≡ ok w
      → HasStanding s b email w
  raised true c email s u v w found e f = inl (reconciled_lem v w f)
  raised false c email s u v w found e f =
      let (status, role) = refreshed_lem c u v e in
      inr (inl (u, found, ground (arith, status), ground (arith, role)))

  again :
      (c : Claims) (email : String) (u : AdminUser) (s : S)
      → env.find_by_email email s ≡ ok u
      → Gives s
          (signing_in_again env now c email u)
          (HasStanding s (is_bootstrapped env now email) email)
  unfolding signing_in_again
  again c email u s found =
      let P = HasStanding s (is_bootstrapped env now email) email in
      Gives-lift s P _ _ (λ v e. Gives-lift s P _ _ (λ w f. Gives-any s P _ _ (λ x s1.
        Gives-pure s1 P w (raised (is_bootstrapped env now email) c email s u v w found e f))))

  built :
      (id : ℕ) (c : Claims) (email : String) (s : S) (u : AdminUser) (b : Bool)
      → IsFree s email
      → is_bootstrapped env now email ≡ b
      → build env.is_nil env.mail (new_account env now id c email) now ≡ ok u
      → HasStanding s b email u
  built id c email s u true free boot e =
      let (role, status) = built_lem env.is_nil env.mail (new_account env now id c email) u now e in
      let is_status : u.status ≡ approved = rw boot at status in
      inl (subst (λ x. str_eq x approved ≡ true) (sym is_status) refl, rw boot at role)
  built id c email s u false free boot e =
      let (role, status) = built_lem env.is_nil env.mail (new_account env now id c email) u now e in
      inl (free, rw boot at status)

  meanwhile :
      (s : S) (b : Bool) (email : String) (u : AdminUser)
      → IsStoredMeanwhile s email u
      → HasStanding s b email u
  meanwhile s true email u h = inr h
  meanwhile s false email u h = inr (inr h)

  stored_value :
      (x : Error) (s s' : S) (r : Result AdminUser) (v : AdminUser)
      → or_stored x s r ≡ (ok v, s')
      → r ≡ ok v
  stored_value x s s' (ok w) v e = ground arith
  stored_value x s s' (err y) v e = absurd (ground arith)

  anew_settled :
      (b : Bool) (email : String) (u : AdminUser) (s : S) (r : Result (Unit {0}) × S)
      (v : AdminUser) (s' : S)
      → IsFree s email
      → env.save u s ≡ r
      → HasStanding s b email u
      → settled env now email u r ≡ (ok v, s')
      → HasStanding s b email v
  anew_settled b email u s (ok x, s1) v s' free saved h e =
      subst (HasStanding s b email) (ground arith) h
  anew_settled b email u s (err x, s1) v s' free saved h e = elim (Bool-cases (is_duplicated x)) [
    | inl taken ↦
        let found = stored_value x s1 s' _ v (rw taken at e) in
        meanwhile s b email v (u, x, s1, free, saved, taken, (v, found, refl, refl))
    | inr other ↦ absurd (ground (arith, rw other at e))
  ]

  anew :
      (id : ℕ) (c : Claims) (email : String) (s : S)
      → IsFree s email
      → Gives s
          (signing_in_anew env now id c email)
          (HasStanding s (is_bootstrapped env now email) email)
  unfolding signing_in_anew
  anew id c email s free =
      Gives-lift s (HasStanding s (is_bootstrapped env now email) email) _ _ (λ u e. record {
        at = λ v s' q.
            anew_settled (is_bootstrapped env now email) email u s _ v s' free refl
              (built id c email s u (is_bootstrapped env now email) free refl e) q;
      })

  -- The claims of a token that are accepted, and the standing of the account of their address
  abbrev pub IsAdmitted : S → String → AdminUser → Type 0
  IsAdmitted s token u =
      (c : Claims) × (env.verify token ≡ some c)
      × (c.email_verified ≡ true)
      × (str_eq (normalize_email env.mail c.email) "" ≡ false)
      × (is_refused env now (normalize_email env.mail c.email) c.hd ≡ false)
      × HasStanding s (is_bootstrapped env now (normalize_email env.mail c.email))
          (normalize_email env.mail c.email) u

  stood :
      (id : ℕ) (c : Claims) (email : String) (s : S) (found : Option AdminUser)
      → or_absent (env.find_by_email email s) ≡ ok found
      → Gives s
          (for_found env now id c email found)
          (HasStanding s (is_bootstrapped env now email) email)
  stood id c email s none e = anew id c email s (absent_value _ e)
  stood id c email s (some u) e = again c email u s (known_value _ u e)

  not-false : (b : Bool) → not b ≡ false → b ≡ true
  not-false b h = ground arith

  verified_value : (c : Option Claims) (d : Claims) → verified c ≡ ok d → c ≡ some d
  verified_value none d e = cc
  verified_value (some c) d e = ground arith

  -- If a sign-in succeeds, the verifier accepts the token, the address of its claims is verified, not
  -- empty when normalised, and of the domain that is allowed. The account is an approved system admin
  -- if its address is a bootstrapped one. Otherwise it is pending if nobody has the address when the
  -- sign-in starts, and else has the status and the role of the account that is stored for it then. In
  -- both cases, if nobody has the address, the account can instead have the status and the role of the
  -- one that is stored after the repository has refused, as a duplicate, to save a new one.
  pub sign_in_lem :
      (id : ℕ) (token : String) (s s' : S) (u : AdminUser)
      → sign_in env now id token s ≡ (ok u, s')
      → IsAdmitted s token u
  unfolding sign_in admitting
  sign_in_lem id token s s' u e =
      (Gives-lift s (IsAdmitted s token) _ _ (λ c e1.
          Gives-fail s (IsAdmitted s token) _ _ _ (λ is_verified.
            Gives-fail s (IsAdmitted s token) _ _ _ (λ given.
              Gives-fail s (IsAdmitted s token) _ _ _ (λ of_domain.
                Gives-reads s (IsAdmitted s token) _ _ (λ found e2. record {
                  at = λ v s1 q. (
                    c,
                    verified_value (env.verify token) c e1,
                    not-false _ is_verified,
                    given,
                    of_domain,
                    (stood id c _ s found e2).at v s1 q,
                  );
                })))))).at
        u s' e
