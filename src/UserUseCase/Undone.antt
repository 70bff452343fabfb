-- ===== src/UserUseCase/Undone.antt =====
-- server/internal/usecase/interactor/user.go and user_signup.go: what a failure leaves
use reearth_accounts.Prelude.{ℕ, String, List, Option}
use reearth_accounts.Workspace.Operator.{Operator}
use reearth_accounts.Action.{Action}
use reearth_accounts.Interactor.Env.{IsTransaction}
use reearth_accounts.Interactor.Refusals.{IsUndone, lift-IsUndone, run-IsUndone}
use reearth_accounts.UserUseCase.Env.{run_without_operator, failure_store-run_without_operator}
use reearth_accounts.UserUseCase.Session.{
  get_user_by_credentials, logout, verify_user, password_reset,
}
use reearth_accounts.UserUseCase.Me.{UpdateMeParam, update_me, remove_my_auth}
use reearth_accounts.UserUseCase.Leaving.{delete_me}
use reearth_accounts.UserUseCase.Life.{deactivate_user, restore_user}
use reearth_accounts.UserUseCase.SignUp.{SignUpEnv, New, SignupParam, signup}
use reearth_accounts.UserUseCase.Sso.{SsoParam, sync_sso_user, find_or_create, create_verification}

module _ {S : Type 0} (i : SignUpEnv S) (op : Operator) (now : ℕ) (new : New) where
  without_operator :
      {A : Type 0} (f : Action S A)
      → IsTransaction i.env.base.settle
      → IsUndone (run_without_operator i.env f)
  without_operator f t s = failure_store-run_without_operator i.env f s t

  -- If the transaction undoes a failure, a use case on users that fails leaves the store as it was:
  -- signing in and out, the verification of an address, the reset of a password, an update of one's
  -- own user, the removal of an identity, leaving for good, deactivating and restoring a user, and
  -- signing up.
  pub user_failed-IsUndone :
      (lang_text : ℕ → String) (parse_lang : String → Option ℕ) (id : ℕ) (a b c : String)
      (password : List ℕ) (p : UpdateMeParam) (q : SignupParam) (r : SsoParam)
      → IsTransaction i.env.base.settle
      → IsUndone (get_user_by_credentials i.env now a password)
        × IsUndone (logout i.env now op)
        × IsUndone (verify_user i.env now a)
        × IsUndone (password_reset i.env now password a)
        × IsUndone (update_me i.env op now lang_text parse_lang p)
        × IsUndone (remove_my_auth i.env op now a)
        × IsUndone (delete_me i.env op id)
        × IsUndone (deactivate_user i.env op now id)
        × IsUndone (restore_user i.env op now id)
        × IsUndone (signup i now new q)
        × IsUndone (sync_sso_user i now new r)
        × IsUndone (find_or_create i now new a b c)
        × IsUndone (create_verification i now new a)
  unfolding get_user_by_credentials logout verify_user password_reset update_me remove_my_auth
      delete_me deactivate_user restore_user signup sync_sso_user find_or_create create_verification
  user_failed-IsUndone lang_text parse_lang id a b c password p q r t = (
    without_operator _ t,
    lift-IsUndone _ _ (λ u. run-IsUndone i.env.base _ op _ t),
    without_operator _ t,
    without_operator _ t,
    lift-IsUndone _ _ (λ u. run-IsUndone i.env.base _ op _ t),
    lift-IsUndone _ _ (λ u. run-IsUndone i.env.base _ op _ t),
    lift-IsUndone _ _ (λ u. run-IsUndone i.env.base _ op _ t),
    lift-IsUndone _ _ (λ u. run-IsUndone i.env.base _ op _ t),
    lift-IsUndone _ _ (λ u. run-IsUndone i.env.base _ op _ t),
    lift-IsUndone _ _ (λ x. without_operator _ t),
    without_operator _ t,
    without_operator _ t,
    without_operator _ t,
  )
