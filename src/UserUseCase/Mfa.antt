-- ===== src/UserUseCase/Mfa.antt =====
-- server/internal/usecase/interactor/user.go: the calls on the second factor, which go to the
-- authenticator of the user's auth0 identity. They run in no transaction.
use reearth_accounts.Prelude.{String, Bool, false, Option, none, some, err, no_authenticator}
use reearth_accounts.User.Auth.{Auth, get_by_provider, provider_auth0}
use reearth_accounts.Workspace.Operator.{Operator}
use reearth_accounts.Action.{Action, pure, lift, reads, ◌>>=◌}
use reearth_accounts.Interactor.Guard.{operator_user}
use reearth_accounts.UserUseCase.Env.{UserEnv, Authenticator, authenticator_for}

module _ {S : Type 0} (env : UserEnv S) (op : Operator) where
  -- The identity and its authenticator, if there are both
  abbrev routed : Option Auth → Option (Authenticator S × String)
  routed none = none
  routed (some a) = elim (authenticator_for env a.provider) [
    | none ↦ none
    | some t ↦ some (t, a.sub)
  ]

  abbrev through :
      {A : Type 0}
      → Action S A
      → (Authenticator S → String → Action S A)
      → Option (Authenticator S × String)
      → Action S A
  through otherwise call none = otherwise
  through otherwise call (some (t, sub)) = call t sub

  -- What the four calls share; `otherwise` is for a user who has no such identity, or where no
  -- authenticator is configured.
  unfoldable pub with_authenticator :
      {A : Type 0} → Action S A → (Authenticator S → String → Action S A) → Action S A
  with_authenticator otherwise call = do
    user ← lift (operator_user op)
    u ← reads (env.users.find_by_id user)
    through otherwise call (routed (get_by_provider u.auths provider_auth0))

  -- `DisableMFA`
  unfoldable pub disable_mfa : Action S (Unit {0})
  disable_mfa = with_authenticator (lift (err no_authenticator)) (λ t. t.disable_mfa)

  -- `EnableMFA`
  unfoldable pub enable_mfa : Action S String
  enable_mfa = with_authenticator (lift (err no_authenticator)) (λ t. t.enable_mfa)

  -- `GetMFAStatus`: whether a factor is enrolled
  unfoldable pub get_mfa_status : Action S Bool
  get_mfa_status = with_authenticator (pure false) (λ t. t.get_mfa_status)

  -- `RegenerateMFARecoveryCode`
  unfoldable pub regenerate_mfa_recovery_code : Action S String
  regenerate_mfa_recovery_code =
      with_authenticator (lift (err no_authenticator)) (λ t. t.regenerate_mfa_recovery_code)
