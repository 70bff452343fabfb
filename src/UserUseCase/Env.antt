-- ===== src/UserUseCase/Env.antt =====
-- What the use cases on users stand on: the repositories of a store `S` as far as they are called,
-- the permission service, the authenticators and the mailer; `AuthenticatorFor` of
-- server/internal/usecase/gateway/container.go; and `checkMaintainerPermission`.
use reearth_accounts.Prelude.{
  ℕ, String, Bool, false, not, ◌||◌, Option, none, some, List, [], ◌∷◌, str_eq, Result, ok, err,
  permission_denied, if◌then◌else◌, ◌≡◌, arith,
}
use reearth_accounts.Role.{Role, maintainer, owner}
use reearth_accounts.Permittable.{Permittable}
use reearth_accounts.User.Account.{User}
use reearth_accounts.User.Builder.{Outside}
use reearth_accounts.Workspace.Entity.{Workspace}
use reearth_accounts.Action.{Action, lift, reads, fail_when, ◌>>=◌}
use reearth_accounts.Interactor.Env.{Env, IsTransaction, settled, settled_failure, failure_store}
use reearth_accounts.Action.Post.{Gives}
use reearth_accounts.Interactor.Guard.{or_absent}

-- The methods of `user.Repo`, `workspace.Repo` and `role.Repo` that only these use cases call
pub record UserRepos (S : Type 0) : Type 0 where
  pub find_by_id : ℕ → S → Result User
  pub find_by_sub : String → S → Result User
  pub find_by_email : String → S → Result User
  pub find_by_alias : String → S → Result User
  pub find_by_name_or_email : String → S → Result User
  pub find_by_verification : String → S → Result User
  pub find_by_password_reset_request : String → S → Result User
  pub find_by_sub_or_create : User → String → Action S User
  pub create : User → Action S (Unit {0})
  pub save : User → Action S (Unit {0})
  pub remove : ℕ → Action S (Unit {0})
  pub find_workspaces_of : ℕ → S → Result (List Workspace)
  pub save_workspaces : List Workspace → Action S (Unit {0})
  pub remove_workspaces : List ℕ → Action S (Unit {0})
  pub find_roles : List ℕ → S → Result (List Role)

-- `gateway.Authenticator`, an outside service
pub record Authenticator (S : Type 0) : Type 0 where
  pub disable_mfa : String → Action S (Unit {0})
  pub enable_mfa : String → Action S String
  pub get_mfa_status : String → Action S Bool
  pub regenerate_mfa_recovery_code : String → Action S String
  pub resend_verification_email : String → Action S (Unit {0})
  pub update_user : String → Option String → Option String → Option (List ℕ) → Action S (Unit {0})

pub record UserEnv (S : Type 0) : Type 0 where
  pub base : Env S
  pub users : UserRepos S
  -- The service's answer to a user and an action on users; `none` when it has no say
  pub cerbos : Option (ℕ → String → S → Result (Option Bool))
  -- `gateways.Authenticators`
  pub authenticators : String → Option (Authenticator S)
  -- `Mailer.SendMail` to an address and a name, with the token of the link in the mail
  pub send_mail : String → String → String → Action S (Unit {0})
  pub outside : Outside

-- `AuthenticatorFor`
abbrev pub authenticator_for : {S : Type 0} → UserEnv S → String → Option (Authenticator S)
authenticator_for env provider = env.authenticators (if str_eq provider "" then "cip" else provider)

-- `Run1` and `Run0` with a nil operator and a transaction
unfoldable pub run_without_operator : {S A : Type 0} → UserEnv S → Action S A → Action S A
run_without_operator env f s = settled env.base.settle s (f s)

module _ {S A : Type 0} (s : S) (P : A → Type 0) (settle : Bool → S → S → S) where
  settled_gives :
      (r : Result A × S)
      → ((a : A) (s1 : S) → r ≡ (ok a, s1) → P a)
      → (a : A) (s' : S) → settled settle s r ≡ (ok a, s')
      → P a
  settled_gives (ok b, s1) h a s' e = h a s1 (ground arith)
  settled_gives (err x, s1) h a s' e = cc

-- What holds of the value holds of the value behind the transaction.
pub Gives-run_without_operator :
    {S A : Type 0} (env : UserEnv S) (s : S) (P : A → Type 0) (f : Action S A)
    → Gives s f P
    → Gives s (run_without_operator env f) P
unfolding run_without_operator
Gives-run_without_operator env s P f h = record {
  at = settled_gives s P env.base.settle (f s) h.at;
}

-- Without an operator too, a use case that fails leaves the store as it found it.
pub failure_store-run_without_operator :
    {S A : Type 0} (env : UserEnv S) (f : Action S A) (s : S)
    → IsTransaction env.base.settle
    → failure_store s (run_without_operator env f s) ≡ s
unfolding run_without_operator
failure_store-run_without_operator env f s t = settled_failure env.base.settle s (f s) t

-- The last loop of `checkMaintainerPermission`
abbrev pub has_maintainer_role : List Role → Bool
has_maintainer_role [] = false
has_maintainer_role (r ∷ rs) =
    (str_eq r.name maintainer || str_eq r.name owner) || has_maintainer_role rs

module _ {S : Type 0} (env : UserEnv S) where
  abbrev pub roles_of : Option Permittable → Action S (List Role)
  roles_of none = lift (err permission_denied)
  roles_of (some p) = reads (env.users.find_roles p.role_ids)

  -- `checkMaintainerPermission` where the service has no say
  unfoldable pub check_maintainer_role : ℕ → Action S (Unit {0})
  check_maintainer_role user = do
    p ← reads (λ s. or_absent (env.base.repos.find_permittable user s))
    roles ← roles_of p
    fail_when (not (has_maintainer_role roles)) permission_denied

  abbrev pub decided : ℕ → Option Bool → Action S (Unit {0})
  decided user none = check_maintainer_role user
  decided user (some allowed) = fail_when (not allowed) permission_denied

  abbrev pub check_by :
      Option (ℕ → String → S → Result (Option Bool)) → ℕ → String → Action S (Unit {0})
  check_by none user action = check_maintainer_role user
  check_by (some cerbos) user action = reads (cerbos user action) >>= decided user

  -- `checkMaintainerPermission`, with `user` for `*operator.User`
  unfoldable pub check_maintainer_permission : ℕ → String → Action S (Unit {0})
  check_maintainer_permission user action = check_by env.cerbos user action
