-- ===== src/UserUseCase/Sso.antt =====
-- server/internal/usecase/interactor/user_signup.go: how users of an outside issuer come in, and
-- `CreateVerification`. `now` stands for the readings of the clock in one call.
use reearth_accounts.Prelude.{
  ℕ, String, Bool, true, false, not, ◌||◌, Option, none, some, List, [], ◌∷◌, str_eq, ok, is_some,
  if◌then◌else◌, duplicated_user, user_already_exists, not_found,
}
use reearth_accounts.Role.{owner, self}
use reearth_accounts.User.Auth.{Auth, auth_from}
use reearth_accounts.User.Account.{User, set_verification}
use reearth_accounts.User.Tokens.{is_verified, is_expired, new_verification}
use reearth_accounts.Workspace.Entity.{Workspace}
use reearth_accounts.Workspace.Init.{InitParams}
use reearth_accounts.Action.{Action, pure, lift, reads, fail_when, ◌>>=◌, ◌>>◌}
use reearth_accounts.Interactor.Guard.{or_absent}
use reearth_accounts.UserUseCase.Env.{Authenticator, authenticator_for, run_without_operator}
use reearth_accounts.UserUseCase.SignUp.{
  SignUpEnv, New, UserInfo, verify_signup_secret, get_user_info_from_iss, made, granting,
  with_error, user_error, synced_workspace_error,
}

-- `interfaces.SignupOIDCParam`; the subject of `init_params` is not read.
pub record OidcParam : Type 0 where
  pub secret : Option String
  pub sub : String
  pub issuer : String
  pub access_token : String
  pub init_params : InitParams

-- `interfaces.SyncSSOUserParam`; the subject of `init_params` is not read.
pub record SsoParam : Type 0 where
  pub sub : String
  pub init_params : InitParams

module _ {S : Type 0} (i : SignUpEnv S) (now : ℕ) (new : New) where
  -- The parameters of `Init` for a subject and an address
  abbrev pub from_issuer : String → String → InitParams → InitParams
  from_issuer sub email p = record p {
    sub = some (auth_from i.split sub);
    email = email;
    password = none;
  }

  -- What `SignupOIDC` and `SyncSSOUser` do behind their own tests
  abbrev grant_found : User → Workspace → Action S (Unit {0})
  grant_found u w =
      granting i now new (reads (i.env.base.repos.find_role self))
        (reads (i.env.base.repos.find_role owner)) u w

  -- The part of `SignupOIDC` in the transaction
  unfoldable pub signing_up_oidc : String → String → InitParams → Action S User
  unfolding auth_from
  signing_up_oidc sub email p = do
    same_email ← reads (λ s. or_absent (i.env.users.find_by_email email s))
    fail_when (is_some same_email) duplicated_user
    same_sub ← reads (λ s. or_absent (i.env.users.find_by_sub sub s))
    fail_when (is_some same_sub) duplicated_user
    x ← lift (made i now new (from_issuer sub email p))
    i.env.users.create x.0
    i.env.base.repos.save_workspace x.1
    grant_found x.0 x.1
    pure x.0

  -- The subject and the address, from the issuer if one of them is not given
  abbrev identified : OidcParam → Action S (String × String)
  identified p s =
      if str_eq p.sub "" || str_eq p.init_params.email ""
      then (do
        ui ← get_user_info_from_iss i now new p.issuer p.access_token
        pure (ui.sub, ui.email))
          s
      else (ok (p.sub, p.init_params.email), s)

  -- `SignupOIDC`
  unfoldable pub signup_oidc : OidcParam → Action S User
  signup_oidc p = do
    lift (verify_signup_secret i now new p.secret)
    x ← identified p
    run_without_operator i.env (signing_up_oidc x.0 x.1 p.init_params)

  -- `SyncSSOUser` for a subject that nobody has
  unfoldable pub synced : SsoParam → Action S User
  unfolding auth_from
  synced p = do
    same_email ← reads (λ s. or_absent (i.env.users.find_by_email p.init_params.email s))
    fail_when (is_some same_email) user_already_exists
    x ← lift (made i now new (from_issuer p.sub p.init_params.email p.init_params))
    (λ s. with_error user_error (i.env.users.create x.0 s))
    (λ s. with_error synced_workspace_error (i.env.base.repos.save_workspace x.1 s))
    grant_found x.0 x.1
    pure x.0

  abbrev pub or_existing : Action S User → Option User → Action S User
  or_existing otherwise none = otherwise
  or_existing otherwise (some u) = pure u

  -- The body of `SyncSSOUser`
  unfoldable pub syncing : SsoParam → Action S User
  syncing p = do
    same_sub ← reads (λ s. or_absent (i.env.users.find_by_sub p.sub s))
    or_existing (synced p) same_sub

  -- `SyncSSOUser`
  unfoldable pub sync_sso_user : SsoParam → Action S User
  sync_sso_user p = run_without_operator i.env (syncing p)

  abbrev from_user_info : String → UserInfo → InitParams
  from_user_info sub ui = record {
    email = ui.email;
    name = ui.name;
    sub = some (auth_from i.split sub);
    password = none;
    lang = none;
    theme = none;
    user_id = none;
    workspace_id = none;
  }

  -- `FindOrCreate` for a subject that nobody has
  unfoldable pub creating_user : String → String → String → Action S User
  unfolding auth_from
  creating_user sub iss token = do
    ui ← get_user_info_from_iss i now new iss token
    x ← lift (made i now new (from_user_info sub ui))
    u ← i.env.users.find_by_sub_or_create x.0 sub
    i.env.base.repos.save_workspace x.1
    pure u

  -- `FindOrCreate`
  unfoldable pub find_or_create : String → String → String → Action S User
  find_or_create sub iss token = run_without_operator i.env (do
    fail_when (str_eq sub "") not_found
    existing ← reads (λ s. or_absent (i.env.users.find_by_sub sub s))
    or_existing (creating_user sub iss token) existing)

  abbrev resend_by : Action S (Unit {0}) → Option (Authenticator S) → String → Action S (Unit {0})
  resend_by rest none sub = rest
  resend_by rest (some t) sub = t.resend_verification_email sub

  -- The loop of `CreateVerification`: the first identity with an authenticator
  abbrev resend_all : List Auth → Action S (Unit {0})
  resend_all [] = pure tt
  resend_all (a ∷ auths) = resend_by (resend_all auths) (authenticator_for i.env a.provider) a.sub

  abbrev renew_unless : Bool → User → Action S (Unit {0})
  renew_unless true u = pure tt
  renew_unless false u = do
    i.env.users.save (set_verification u (some (new_verification new.code now)) now)
    resend_all u.auths

  -- `CreateVerification`: nothing where the address is verified or the code is still good
  unfoldable pub create_verification : String → Action S (Unit {0})
  create_verification email = run_without_operator i.env (do
    u ← reads (i.env.users.find_by_email email)
    renew_unless (is_verified u.verification || not (is_expired u.verification now)) u)
