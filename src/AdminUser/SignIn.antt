-- ===== src/AdminUser/SignIn.antt =====
-- server/internal/admin/usecase/authuc: signing in to the admin application with a Google token, and
-- `me.go`; and the checker of server/internal/admin/usecase/authz.
use Prim.Native.String.{◌++◌}
use reearth_accounts.Prelude.{
  ℕ, String, Bool, true, false, not, ◌&&◌, ◌||◌, Option, none, some, List, [], ◌∷◌, str_eq, Error,
  Result, ok, err, invalid_token, email_not_verified, domain_not_allowed, duplicated_admin_user,
  if◌then◌else◌,
}
use reearth_accounts.Role.{contains_text}
use reearth_accounts.AdminUser.{
  AdminUser, MailText, pending, approved, system_admin, role_valid, is_approved, approve, set_role,
  update_profile, normalize_email, build,
}
use reearth_accounts.Action.{Action, pure, lift, reads, fail_when, only_when, ◌>>=◌, ◌>>◌}
use reearth_accounts.Interactor.Guard.{or_absent}

-- `google.Claims`
pub record Claims : Type 0 where
  pub email : String
  pub email_verified : Bool
  pub hd : String
  pub name : String
  pub picture_url : String

pub record SignInEnv (S : Type 0) : Type 0 where
  pub find_by_email : String → S → Result AdminUser
  pub find_by_id : ℕ → S → Result AdminUser
  pub save : AdminUser → Action S (Unit {0})
  -- What Google's verifier makes of a token; `none` for an error or nil
  pub verify : String → Option Claims
  pub mail : MailText
  pub is_nil : ℕ → Bool
  -- `strings.EqualFold`, `strings.HasSuffix`, and the part of an address before its first @, if there
  -- is one and it is not empty
  pub equal_fold : String → String → Bool
  pub has_suffix : String → String → Bool
  pub local_part : String → Option String
  pub allowed_domain : String
  -- `opts.BootstrapEmails`, normalised, without the empty ones
  pub bootstrap : List String

-- What NewGoogleSignInUseCase makes of `opts.BootstrapEmails`
abbrev pub bootstrap_emails : MailText → List String → List String
bootstrap_emails m [] = []
bootstrap_emails m (e ∷ es) =
    let rest = bootstrap_emails m es in
    if str_eq (normalize_email m e) "" then rest else normalize_email m e ∷ rest

abbrev pub verified : Option Claims → Result Claims
verified none = err invalid_token
verified (some c) = ok c

-- `errors.Is(err, adminuser.ErrDuplicatedAdminUser)`
abbrev pub is_duplicated : Error → Bool
is_duplicated duplicated_admin_user = true
is_duplicated _ = false

-- The account that is there, or else the error of the save
abbrev pub or_stored : {S : Type 0} → Error → S → Result AdminUser → Result AdminUser × S
or_stored x s (ok v) = (ok v, s)
or_stored x s (err e) = (err x, s)

-- The value of a claim, or the stored one for an empty claim
abbrev pub claim_or : String → String → String
claim_or claim stored = if str_eq claim "" then stored else claim

module _ {S : Type 0} (env : SignInEnv S) (now : ℕ) where
  -- `checkDomain`, turned round: the domain is refused.
  unfoldable pub is_refused : String → String → Bool
  is_refused email hd =
      not (str_eq env.allowed_domain "")
      && (not (env.equal_fold hd env.allowed_domain)
          || not (env.has_suffix email ("@" ++ env.allowed_domain)))

  -- `displayName`
  abbrev pub display_name : String → String → String
  display_name name email =
      if str_eq name ""
      then elim (env.local_part email) [ none ↦ email | some part ↦ part ]
      else name

  abbrev pub is_bootstrapped : String → Bool
  is_bootstrapped email = contains_text email env.bootstrap

  -- The profile of a user who signs in again
  abbrev pub is_refreshed : Claims → AdminUser → Bool
  is_refreshed c u =
      not (str_eq (claim_or c.name u.name) u.name)
      || not (str_eq (claim_or c.picture_url u.picture_url) u.picture_url)

  abbrev pub refreshed : Claims → AdminUser → Result AdminUser
  refreshed c u =
      if is_refreshed c u
      then update_profile u (claim_or c.name u.name) (claim_or c.picture_url u.picture_url) now
      else ok u

  -- A bootstrapped user is approved and a system admin.
  abbrev pub approved_again : AdminUser → AdminUser
  approved_again u = if is_approved u then u else approve u 0 now

  abbrev pub reconciled : Bool → AdminUser → Result AdminUser
  reconciled false u = ok u
  reconciled true u =
      if str_eq u.role system_admin
      then ok (approved_again u)
      else set_role (approved_again u) system_admin now

  abbrev pub is_changed : Claims → Bool → AdminUser → Bool
  is_changed c b u =
      is_refreshed c u || (b && (not (is_approved u) || not (str_eq u.role system_admin)))

  -- `Execute` for a user who is there
  unfoldable pub signing_in_again : Claims → String → AdminUser → Action S AdminUser
  unfolding update_profile set_role approve
  signing_in_again c email u = do
    u1 ← lift (refreshed c u)
    u2 ← lift (reconciled (is_bootstrapped email) u1)
    only_when (is_changed c (is_bootstrapped email) u) (env.save u2)
    pure u2

  -- What the builder of a new account holds; `id` is what `NewID` gives.
  abbrev pub new_account : ℕ → Claims → String → AdminUser
  new_account id c email = record {
    approved_at = 0;
    approved_by = 0;
    email = email;
    id = id;
    name = display_name c.name email;
    picture_url = c.picture_url;
    role = if is_bootstrapped email then system_admin else "";
    status = if is_bootstrapped email then approved else pending;
    updated_at = 0;
  }

  -- What follows the attempt to save a new account: where the address is taken by now, the account
  -- that has it.
  abbrev pub settled : String → AdminUser → Result (Unit {0}) × S → Result AdminUser × S
  settled email u (ok x, s) = (ok u, s)
  settled email u (err x, s) =
      if is_duplicated x then or_stored x s (env.find_by_email email s) else (err x, s)

  -- `Execute` for an address that nobody has
  unfoldable pub signing_in_anew : ℕ → Claims → String → Action S AdminUser
  unfolding build
  signing_in_anew id c email = do
    u ← lift (build env.is_nil env.mail (new_account id c email) now)
    (λ s. settled email u (env.save u s))

  abbrev pub for_found : ℕ → Claims → String → Option AdminUser → Action S AdminUser
  for_found id c email none = signing_in_anew id c email
  for_found id c email (some u) = signing_in_again c email u

  -- `Execute` for claims; `email` is the normalised address.
  unfoldable pub admitting : ℕ → Claims → String → Action S AdminUser
  admitting id c email = do
    fail_when (not c.email_verified) email_not_verified
    fail_when (str_eq email "") invalid_token
    fail_when (is_refused email c.hd) domain_not_allowed
    found ← reads (λ s. or_absent (env.find_by_email email s))
    for_found id c email found

  -- `GoogleSignInUseCase.Execute`
  unfoldable pub sign_in : ℕ → String → Action S AdminUser
  unfolding normalize_email
  sign_in id token = do
    c ← lift (verified (env.verify token))
    admitting id c (normalize_email env.mail c.email)

-- `GetMeUseCase.Execute`
abbrev pub get_me : {S : Type 0} → SignInEnv S → ℕ → S → Result AdminUser
get_me env id s = env.find_by_id id s

-- One result of a response: whether the effect of an action is to allow it
abbrev pub Effects : Type 0
Effects = List (String → Bool)

abbrev pub some_allows : String → Effects → Bool
some_allows action [] = false
some_allows action (r ∷ rs) = r action || some_allows action rs

-- `Checker.Allowed` of a checker that is not nil. `client` is the service, asked for a role, a
-- resource and an action; a nil response is `none`.
unfoldable pub allowed :
    Option (String → String → String → Result (Option Effects))
    → String
    → String
    → String
    → Result Bool
allowed none role resource action = ok true
allowed (some client) role resource action =
    if not (role_valid role) then ok false else elim (client role resource action) [
      | err e ↦ err e
      | ok none ↦ ok false
      | ok (some results) ↦ ok (some_allows action results)
    ]
