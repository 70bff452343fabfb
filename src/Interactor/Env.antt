-- ===== src/Interactor/Env.antt =====
-- What the workspace use cases of server/internal/usecase/interactor stand on: the repositories of
-- a store `S` as far as they are called, the permission service, and usecase.go, which runs a use
-- case behind its check of the operator's rights and in a transaction.
use reearth_accounts.Prelude.{
  ℕ, String, ◌≡◌, refl, refl, arith, Bool, true, false, ◌&&◌, Option, none, some, List, [], ◌∷◌,
  if◌then◌else◌, Result, ok, err, operation_denied,
}
use reearth_accounts.Prelude.Idx.{Idx}
use reearth_accounts.Role.{Role}
use reearth_accounts.Permittable.{Permittable}
use reearth_accounts.User.Account.{User}
use reearth_accounts.Workspace.Entity.{Workspace}
use reearth_accounts.Workspace.Operator.{
  Operator, is_readable, is_writable, is_maintaining, is_owning,
}
use reearth_accounts.Action.{Action}
use reearth_accounts.Action.Post.{Gives}

-- `repo.Container`: the methods of the repositories that the use cases call, and `UserQuery`
pub record Repos (S : Type 0) : Type 0 where
  pub find_workspace : ℕ → S → Result Workspace
  pub create_workspace : Workspace → Action S (Unit {0})
  pub save_workspace : Workspace → Action S (Unit {0})
  pub remove_workspace : ℕ → Action S (Unit {0})
  pub find_permittable : ℕ → S → Result Permittable
  pub find_permittables : List ℕ → S → Result (List Permittable)
  pub save_permittable : Permittable → Action S (Unit {0})
  pub save_permittables : List Permittable → Action S (Unit {0})
  pub find_role : String → S → Result Role
  pub save_role : Role → Action S (Unit {0})
  pub fetch_users : List ℕ → S → Result (List (Option User))

-- The service: its answer to a user, an action and a workspace alias, `none` when it has no say
abbrev pub Cerbos : Type 0 → Type 0
Cerbos S = ℕ → String → String → S → Result (Option Bool)

-- `WorkspaceMemberCountEnforcer`
abbrev pub Enforcer : Type 0 → Type 0
Enforcer S = Workspace → List (Option User) → Operator → S → Result (Unit {0})

pub record Env (S : Type 0) : Type 0 where
  pub idx : Idx
  pub repos : Repos S
  pub cerbos : Option (Cerbos S)
  pub enforce_member_count : Option (Enforcer S)
  -- `os.Getenv("REEARTH_MOCK_AUTH") == "true"`
  pub mock_auth : Bool
  -- What the transaction of reearthx/usecasex leaves, by whether the use case succeeds, from the
  -- store at the start and the store at the end
  pub settle : Bool → S → S → S

-- What is relied on of transactions: they keep a success and undo a failure.
pub record IsTransaction {S : Type 0} (settle : Bool → S → S → S) : Type 0 where
  pub commit : (s s' : S) → settle true s s' ≡ s'
  pub rollback : (s s' : S) → settle false s s' ≡ s

-- `uc` of usecase.go; a list that is not set is `none`.
pub record Uc : Type 0 where
  pub readable : Option (List ℕ)
  pub writable : Option (List ℕ)
  pub maintainable : Option (List ℕ)
  pub ownable : Option (List ℕ)

-- `Usecase().Transaction()`
abbrev pub usecase : Uc
usecase = record { readable = none; writable = none; maintainable = none; ownable = none }

-- `WithOwnableWorkspaces`
abbrev pub with_ownable_workspaces : Uc → ℕ → Uc
with_ownable_workspaces u id = record u { ownable = some (id ∷ []) }

abbrev unless_none : (List ℕ → Bool) → Option (List ℕ) → Bool
unless_none p none = true
unless_none p (some ids) = p ids

-- `checkPermission`, for an operator that is not nil
unfoldable pub check_permission : Idx → Uc → Operator → Bool
check_permission x u op =
    unless_none (is_readable x op) u.readable
    && unless_none (is_writable x op) u.writable
    && unless_none (is_maintaining x op) u.maintainable
    && unless_none (is_owning x op) u.ownable

abbrev pub settled : {S A : Type 0} → (Bool → S → S → S) → S → Result A × S → Result A × S
settled settle s (ok a, s') = (ok a, settle true s s')
settled settle s (err e, s') = (err e, settle false s s')

-- `Run1`, `Run0`: the rights are checked inside the transaction, before the use case.
unfoldable pub run : {S A : Type 0} → Env S → Uc → Operator → Action S A → Action S A
unfolding check_permission
run env u op f s =
    settled env.settle s (if check_permission env.idx u op then f s else (err operation_denied, s))

module _ {S A : Type 0} (s : S) (P : A → Type 0) (settle : Bool → S → S → S) where
  settled_value :
      (allowed : Bool) (r : Result A × S)
      → (allowed ≡ true → (a : A) (s1 : S) → r ≡ (ok a, s1) → P a)
      → (a : A) (s' : S)
      → settled settle s (if allowed then r else (err operation_denied, s)) ≡ (ok a, s')
      → P a
  settled_value false r h a s' e = cc
  settled_value true (ok b, s1) h a s' e = h refl a s1 (ground arith)
  settled_value true (err x, s1) h a s' e = cc

-- What holds of the value of a use case: `run` gives it only if the operator has the rights.
pub Gives-run :
    {S A : Type 0} (s : S) (P : A → Type 0) (env : Env S) (u : Uc) (op : Operator) (f : Action S A)
    → (check_permission env.idx u op ≡ true → Gives s f P)
    → Gives s (run env u op f) P
unfolding run
Gives-run s P env u op f h = record {
  at = settled_value s P env.settle (check_permission env.idx u op) (f s) (λ e. (h e).at);
}

-- The store that a failed call leaves; of a call that succeeds, the store that it started from
abbrev pub failure_store : {S A : Type 0} → S → Result A × S → S
failure_store s (ok a, s') = s
failure_store s (err e, s') = s'

pub settled_failure :
    {S A : Type 0} (settle : Bool → S → S → S) (s : S) (r : Result A × S)
    → IsTransaction settle
    → failure_store s (settled settle s r) ≡ s
settled_failure settle s (ok a, s1) t = refl
settled_failure settle s (err y, s1) t = t.rollback s s1

-- A use case that fails leaves the store as it found it.
pub failure_store-run :
    {S A : Type 0} (env : Env S) (u : Uc) (op : Operator) (f : Action S A) (s : S)
    → IsTransaction env.settle
    → failure_store s (run env u op f s) ≡ s
unfolding run
failure_store-run env u op f s t =
    settled_failure env.settle s
      (if check_permission env.idx u op then f s else (err operation_denied, s)) t
