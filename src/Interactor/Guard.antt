-- ===== src/Interactor/Guard.antt =====
-- server/internal/usecase/interactor/workspace.go: the checks that the use cases share
use reearth_accounts.Prelude.{
  ℕ, String, ◌≡◌, Bool, true, false, not, Option, none, some, [], ◌∷◌, Error, Result, ok, err,
  invalid_operator, permission_denied, operation_denied, not_found, arith, if◌then◌else◌,
}
use reearth_accounts.Workspace.Entity.{Workspace, set_policy}
use reearth_accounts.Workspace.Operator.{Operator, is_owning}
use reearth_accounts.Action.{Action, reads, fail_when, ◌>>=◌}
use reearth_accounts.Interactor.Env.{Env}

-- `if operator.User == nil { return nil, interfaces.ErrInvalidOperator }`
unfoldable pub operator_user : Operator → Result ℕ
operator_user op = elim op.user [ none ↦ err invalid_operator | some u ↦ ok u ]

-- `errors.Is(err, rerror.ErrNotFound)`
abbrev pub is_not_found : Error → Bool
is_not_found not_found = true
is_not_found _ = false

-- `if err != nil && !errors.Is(err, rerror.ErrNotFound) { return err }`: then there may be none.
abbrev pub or_absent : {A : Type 0} → Result A → Result (Option A)
or_absent (ok a) = ok (some a)
or_absent (err e) = if is_not_found e then ok none else err e

-- The fallback of `checkOwnerLikePermission`
abbrev pub check_ownership : {S : Type 0} → Env S → Operator → Workspace → Action S (Unit {0})
check_ownership env op w = fail_when (not (is_owning env.idx op (w.id ∷ []))) operation_denied

abbrev pub decided : {S : Type 0} → Env S → Operator → Workspace → Option Bool → Action S (Unit {0})
decided env op w none = check_ownership env op w
decided env op w (some allowed) = fail_when (not allowed) permission_denied

-- `checkOwnerLikePermission`, with `user` for `*operator.User`
unfoldable pub check_owner_like_permission :
    {S : Type 0} → Env S → Operator → ℕ → Workspace → String → Action S (Unit {0})
unfolding ◌>>=◌
check_owner_like_permission env op user w action s = elim env.cerbos [
  | none ↦ check_ownership env op w s
  | some cerbos ↦ (reads (cerbos user action w.alias) >>= decided env op w) s
]

-- `applyDefaultPolicy`; `now` is `time.Now()`.
unfoldable pub apply_default_policy : Workspace → Operator → ℕ → Workspace
apply_default_policy w op now = elim w.policy [
  | some p ↦ w
  | none ↦ elim op.default_policy [ none ↦ w | some d ↦ set_policy w (some d) now ]
]

pub apply_default_policy_members :
    (w : Workspace) (op : Operator) (now : ℕ) → (apply_default_policy w op now).members ≡ w.members
unfolding apply_default_policy
apply_default_policy_members w op now = ground arith

pub operator_user_value :
    (op : Operator) (u v : ℕ) → op.user ≡ some u → operator_user op ≡ ok v → v ≡ u
unfolding operator_user
operator_user_value op u v e f = ground arith

pub apply_default_policy_id :
    (w : Workspace) (op : Operator) (now : ℕ) → (apply_default_policy w op now).id ≡ w.id
unfolding apply_default_policy
apply_default_policy_id w op now = ground arith
