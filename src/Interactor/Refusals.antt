-- ===== src/Interactor/Refusals.antt =====
-- server/internal/usecase/interactor/workspace.go: what the use cases refuse, and the store that a
-- refusal leaves.
use reearth_accounts.Prelude.{
  ℕ, ◌≡◌, refl, Bool, true, false, List, [], ◌∷◌, arith, ap, ◌∙◌, some, Error, Result, ok, err,
  cannot_modify_personal_workspace, operation_denied,
}
use reearth_accounts.Role.{RoleType}
use reearth_accounts.Workspace.Entity.{Workspace, is_personal}
use reearth_accounts.Workspace.Operator.{Operator, is_owning}
use reearth_accounts.Action.{Action, lift, reads, fail_when, continue, ◌>>=◌, ◌>>◌}
use reearth_accounts.Interactor.Env.{
  Env, Uc, IsTransaction, run, failure_store, failure_store-run, check_permission,
}
use reearth_accounts.Interactor.Guard.{operator_user}
use reearth_accounts.Interactor.Members.{
  removing, updating, updating_via_service, transferring, transfer_ownership,
  remove_multiple_user_members, update_user_member, update_user_member_via_service,
}
use reearth_accounts.Interactor.Life.{
  removing_workspace, switching, remove, deactivate, restore_workspace,
}
use reearth_accounts.Interactor.Integrations.{changing}

-- An action that reads a value and goes on with it
reads_found :
    {S A B : Type 0} (g : S → Result A) (f : A → Action S B) (s : S) (a : A)
    → g s ≡ ok a
    → (reads g >>= f) s ≡ f a s
unfolding ◌>>=◌
reads_found g f s a e = ap (λ r. continue f (r, s)) e

refused :
    {S B : Type 0} (b : Bool) (e : Error) (k : Action S B) (s : S)
    → b ≡ true
    → (fail_when b e >> k) s ≡ (err e, s)
unfolding ◌>>=◌
refused true e k s h = refl
refused false e k s h = cc

-- Where the action fails, it leaves the store as it was.
abbrev pub IsUndone : {S B : Type 0} → Action S B → Type 0
IsUndone {S} m = (s : S) → failure_store s (m s) ≡ s

pub lift-IsUndone :
    {S A B : Type 0} (r : Result A) (f : A → Action S B)
    → ((a : A) → IsUndone (f a))
    → IsUndone (lift r >>= f)
unfolding ◌>>=◌
lift-IsUndone (ok a) f h = h a
lift-IsUndone (err x) f h = λ s. refl

fail-IsUndone :
    {S B : Type 0} (b : Bool) (x : Error) (k : Action S B)
    → IsUndone k
    → IsUndone (fail_when b x >> k)
unfolding ◌>>=◌
fail-IsUndone true x k h s = refl
fail-IsUndone false x k h s = h s

pub run-IsUndone :
    {S B : Type 0} (env : Env S) (u : Uc) (op : Operator) (f : Action S B)
    → IsTransaction env.settle
    → IsUndone (run env u op f)
run-IsUndone env u op f t s = failure_store-run env u op f s t

module _ {S : Type 0} (env : Env S) (op : Operator) (now : ℕ) (fresh : ℕ → ℕ) where
  -- Whoever asks, a personal workspace refuses, with nothing written: that users are removed, that
  -- a role is updated, from a service too, that the ownership is transferred, and that the
  -- workspace is removed.
  pub personal_refused :
      (user id u : ℕ) (users : List ℕ) (r : RoleType) (s : S) (w : Workspace)
      → env.repos.find_workspace id s ≡ ok w
      → is_personal w ≡ true
      → (removing env op now fresh user id users s ≡ (err cannot_modify_personal_workspace, s))
        × (updating env op now fresh user id u r s ≡ (err cannot_modify_personal_workspace, s))
        × (updating_via_service env op now fresh user id u r s
            ≡ (err cannot_modify_personal_workspace, s))
        × (transferring env op now fresh user id u s ≡ (err cannot_modify_personal_workspace, s))
        × (removing_workspace env op now now id s ≡ (err cannot_modify_personal_workspace, s))
  unfolding removing updating updating_via_service transferring removing_workspace
  personal_refused user id u users r s w found personal = (
    reads_found _ _ s w found ∙ refused _ _ _ s personal,
    reads_found _ _ s w found ∙ refused _ _ _ s personal,
    reads_found _ _ s w found ∙ refused _ _ _ s personal,
    reads_found _ _ s w found ∙ refused _ _ _ s personal,
    reads_found _ _ s w found ∙ refused _ _ _ s personal,
  )

  -- An operator who does not own the workspace can neither transfer nor remove it: the call is
  -- denied and the store stays, if a failed transaction is undone.
  pub not_owning_refused :
      (user id u : ℕ) (s : S)
      → IsTransaction env.settle
      → op.user ≡ some user
      → is_owning env.idx op (id ∷ []) ≡ false
      → (transfer_ownership env op now fresh id u s ≡ (err operation_denied, s))
        × (remove env op now now id s ≡ (err operation_denied, s))
  unfolding transfer_ownership remove run operator_user check_permission ◌>>=◌
  not_owning_refused user id u s t is_user denied =
      (ground (arith, t.rollback s s), ground (arith, t.rollback s s))

  -- If a failed transaction is undone, these use cases leave the store as it was wherever they fail:
  -- the removals of users, the two updates of a role, the transfer, the removal and the switches of a
  -- workspace, and the changes of its integrations.
  pub failed-IsUndone :
      (id u : ℕ) (users : List ℕ) (r : RoleType) (change : ℕ → Workspace → Result Workspace)
      → IsTransaction env.settle
      → IsUndone (remove_multiple_user_members env op now fresh id users)
        × IsUndone (update_user_member env op now fresh id u r)
        × IsUndone (update_user_member_via_service env op now fresh id u r)
        × IsUndone (transfer_ownership env op now fresh id u)
        × IsUndone (remove env op now now id)
        × IsUndone (deactivate env op now now id)
        × IsUndone (restore_workspace env op now now id)
        × IsUndone (changing env op now id change)
  unfolding remove_multiple_user_members update_user_member update_user_member_via_service
      transfer_ownership remove deactivate restore_workspace switching changing
  failed-IsUndone id u users r change t = (
    lift-IsUndone _ _ (λ v. fail-IsUndone _ _ _ (run-IsUndone env _ op _ t)),
    lift-IsUndone _ _ (λ v. run-IsUndone env _ op _ t),
    lift-IsUndone _ _ (λ v. fail-IsUndone _ _ _ (run-IsUndone env _ op _ t)),
    lift-IsUndone _ _ (λ v. run-IsUndone env _ op _ t),
    lift-IsUndone _ _ (λ v. run-IsUndone env _ op _ t),
    lift-IsUndone _ _ (λ v. run-IsUndone env _ op _ t),
    lift-IsUndone _ _ (λ v. run-IsUndone env _ op _ t),
    lift-IsUndone _ _ (λ v. run-IsUndone env _ op _ t),
  )
