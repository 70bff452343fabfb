-- ===== src/UserUseCase/SignUp.antt =====
-- server/internal/usecase/interactor/user_signup.go: how users come in. `now` stands for the readings
-- of the clock in one call, and `New` holds what `NewID` and `GenerateVerificationCode` give in it.
use reearth_accounts.Prelude.{
  ℕ, String, Bool, false, not, ◌&&◌, Option, none, some, List, [], ◌∷◌, str_eq, Error, Result, ok,
  err, is_some, if◌then◌else◌, signup_invalid_secret, user_already_exists, duplicated_user,
  user_alias_already_exists, duplicate_workspace_alias, workspace_alias_already_exists,
  invalid_access_token, invalid_issuer, failed,
}
use reearth_accounts.Role.{Role, owner, self, contains_text}
use reearth_accounts.Role.{build as build_role}
use reearth_accounts.Permittable.{Permittable, new_workspace_role}
use reearth_accounts.Permittable.{build as build_permittable}
use reearth_accounts.User.Account.{User, set_verification}
use reearth_accounts.User.Tokens.{new_verification}
use reearth_accounts.Workspace.Entity.{Workspace}
use reearth_accounts.Workspace.Init.{Texts, InitParams, init}
use reearth_accounts.Action.{Action, pure, lift, reads, fail_when, only_when, ◌>>=◌, ◌>>◌}
use reearth_accounts.Interactor.Guard.{or_absent, is_not_found}
use reearth_accounts.UserUseCase.Env.{UserEnv, run_without_operator}

-- `UserInfo`
pub record UserInfo : Type 0 where
  pub sub : String
  pub name : String
  pub email : String
  pub error : String

pub record New : Type 0 where
  pub user_id : ℕ
  pub workspace_id : ℕ
  pub self_id : ℕ
  pub owner_id : ℕ
  pub permittable_id : ℕ
  pub code : String

-- What these use cases have besides: their configuration, the texts of `Init`, `strings.SplitN`,
-- and the requests to an issuer
pub record SignUpEnv (S : Type 0) : Type 0 where
  pub env : UserEnv S
  pub signup_secret : String
  pub allowed_iss : List String
  pub texts : Texts
  pub split : String → List String
  -- `getOpenIDConfiguration`: the endpoint that the issuer names
  pub userinfo_endpoint : String → S → Result String
  -- `issToURL(iss, "/userinfo")`
  pub userinfo_url : String → Option String
  -- What the endpoint answers with the token, decoded
  pub request_user_info : String → String → S → Result UserInfo

-- The last checks of `getUserInfo`
abbrev pub checked_info : UserInfo → Result UserInfo
checked_info ui =
    if not (str_eq ui.error "")
    then err failed
    else if str_eq ui.sub ""
    then err failed
    else if str_eq ui.email ""
    then err failed
    else ok ui

-- `interfaces.SignupParam` besides what it hands to `Init`
pub record SignupParam : Type 0 where
  pub secret : Option String
  pub init_params : InitParams
  pub mock_auth : Bool

-- What `Signup` makes of an error of `User.Create`, and of `Workspace.Save`
abbrev pub user_error : Error → Error
user_error duplicated_user = user_already_exists
user_error e = e

abbrev pub workspace_error : Error → Error
workspace_error duplicated_user = user_alias_already_exists
workspace_error duplicate_workspace_alias = workspace_alias_already_exists
workspace_error e = e

-- What `SyncSSOUser` makes of an error of `Workspace.Save`
abbrev pub synced_workspace_error : Error → Error
synced_workspace_error duplicate_workspace_alias = workspace_alias_already_exists
synced_workspace_error e = e

abbrev pub with_error : {S A : Type 0} → (Error → Error) → Result A × S → Result A × S
with_error f (ok a, s) = (ok a, s)
with_error f (err e, s) = (err (f e), s)

-- `secret == nil || *secret != i.signupSecret`
abbrev pub compared : String → Option String → Result (Unit {0})
compared wanted none = err signup_invalid_secret
compared wanted (some t) = if str_eq t wanted then ok tt else err signup_invalid_secret

module _ {S : Type 0} (i : SignUpEnv S) (now : ℕ) (new : New) where
  -- `verifySignupSecret`
  unfoldable pub verify_signup_secret : Option String → Result (Unit {0})
  verify_signup_secret secret =
      if str_eq i.signup_secret "" then ok tt else compared i.signup_secret secret

  abbrev made_role : String → ℕ → Action S Role
  made_role name id = do
    r ←
        lift
          (build_role i.env.base.idx.is_empty (record { id = id; name = name; updated_at = 0 }) now)
    i.env.base.repos.save_role r
    pure r

  -- `findOrCreateRole`
  unfoldable pub find_or_create_role : String → Bool → ℕ → Action S Role
  find_or_create_role name mock id s = elim (i.env.base.repos.find_role name s) [
    | ok r ↦ (ok r, s)
    | err e ↦ if is_not_found e && mock then made_role name id s else (err e, s)
  ]

  -- The permittable of a new user: the role self, and owner of the workspace
  abbrev pub newcomer : User → Workspace → Role → Role → Permittable
  newcomer u w self_role owner_role = record {
    id = new.permittable_id;
    user_id = u.id;
    role_ids = self_role.id ∷ [];
    workspace_roles = new_workspace_role w.id owner_role.id ∷ [];
    updated_at = 0;
  }

  -- The steps by which a sign-up ends: the roles and the permittable
  unfoldable pub granting : Action S Role → Action S Role → User → Workspace → Action S (Unit {0})
  granting find_self find_owner u w = do
    self_role ← find_self
    owner_role ← find_owner
    p ← lift (build_permittable i.env.base.idx.is_empty (newcomer u w self_role owner_role) now)
    i.env.base.repos.save_permittable p

  unfoldable pub made : InitParams → Result (User × Workspace)
  made p = init i.texts p new.user_id new.workspace_id now now

  -- The body of `Signup`
  unfoldable pub signing_up : SignupParam → Action S User
  signing_up p = do
    existing ← reads (λ s. or_absent (i.env.users.find_by_email p.init_params.email s))
    fail_when (is_some existing) user_already_exists
    x ← lift (made p.init_params)
    let u = set_verification x.0 (some (new_verification new.code now)) now
    (λ s. with_error user_error (i.env.users.create u s))
    (λ s. with_error workspace_error (i.env.base.repos.save_workspace x.1 s))
    granting (find_or_create_role self p.mock_auth new.self_id)
        (find_or_create_role owner p.mock_auth new.owner_id) u x.1
    only_when (not p.mock_auth) (i.env.send_mail u.email u.name new.code)
    pure u

  -- `Signup`
  unfoldable pub signup : SignupParam → Action S User
  signup p = do lift (verify_signup_secret p.secret); run_without_operator i.env (signing_up p)

  -- `getUserInfoFromISS`
  unfoldable pub get_user_info_from_iss : String → String → Action S UserInfo
  get_user_info_from_iss iss token = do
    fail_when (str_eq token "") invalid_access_token
    fail_when (str_eq iss "") invalid_issuer
    fail_when (elim i.allowed_iss [ [] ↦ false | a ∷ l ↦ not (contains_text iss (a ∷ l)) ])
        invalid_issuer
    url ← reads (λ s. elim (i.userinfo_endpoint iss s) [
      | ok u ↦ ok u
      | err e ↦ elim (i.userinfo_url iss) [ some u ↦ ok u | none ↦ err failed ]
    ])
    ui ← reads (i.request_user_info url token)
    lift (checked_info ui)
