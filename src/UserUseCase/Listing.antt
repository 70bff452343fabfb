-- ===== src/UserUseCase/Listing.antt =====
-- The listings behind a check: `FindAll` of server/internal/usecase/interactor/user.go and of
-- workspace.go, with checkMaintainerPermission of the latter.
use reearth_accounts.Prelude.{
  ℕ, String, Bool, not, Option, none, some, List, Result, err, str_eq, if◌then◌else◌,
  permission_denied,
}
use reearth_accounts.Role.{Role}
use reearth_accounts.Permittable.{Permittable}
use reearth_accounts.Pagination.{Offset, to_pagination}
use reearth_accounts.User.Account.{User}
use reearth_accounts.Workspace.Entity.{Workspace}
use reearth_accounts.Workspace.Operator.{Operator}
use reearth_accounts.Action.{Action, lift, reads, fail_when, ◌>>=◌, ◌>>◌}
use reearth_accounts.Interactor.Env.{Env, Cerbos}
use reearth_accounts.Interactor.Guard.{operator_user, or_absent}
use reearth_accounts.Interactor.Reading.{Reads, all_workspaces}
use reearth_accounts.UserUseCase.Env.{UserEnv, check_maintainer_permission, has_maintainer_role}

-- `FindAllWithPagination` of the first repository of `UserQuery`, which gives a page and the number
-- of all users, and `FindByIDsWithPagination`
pub record UserPages (S : Type 0) : Type 0 where
  pub find_all_with_pagination : Option String → String → Offset → S → Result (List User × ℕ)
  pub find_by_ids_with_pagination : List ℕ → Option String → Offset → S → Result (List User × ℕ)

-- An empty status asks for the active ones.
abbrev pub status_or_active : String → String
status_or_active status = if str_eq status "" then "active" else status

module _ {S : Type 0} (env : UserEnv S) (pages : UserPages S) where
  -- `UserQuery.FindAll`
  abbrev pub query_all : Option String → String → ℕ → ℕ → S → Result (List User × ℕ)
  query_all keyword status page size s =
      pages.find_all_with_pagination keyword (status_or_active status) (to_pagination page size) s

  -- `User.FindAll`
  unfoldable pub list_users : Operator → Option String → String → ℕ → ℕ → Action S (List User × ℕ)
  list_users op keyword status page size = do
    user ← lift (operator_user op)
    check_maintainer_permission env user "list"
    reads (query_all keyword status page size)

  -- `FetchByIDsWithPagination`
  abbrev pub fetch_by_ids_with_pagination :
      List ℕ → Option String → ℕ → ℕ → S → Result (List User × ℕ)
  fetch_by_ids_with_pagination ids alias page size s =
      pages.find_by_ids_with_pagination ids alias (to_pagination page size) s

module _ {S : Type 0} (env : Env S) (r : Reads S) where
  abbrev roles_of : Option Permittable → Action S (List Role)
  roles_of none = lift (err permission_denied)
  roles_of (some p) = reads (r.find_roles p.role_ids)

  -- checkMaintainerPermission of workspace.go where the service has no say
  abbrev check_global_role : ℕ → Action S (Unit {0})
  check_global_role user = do
    p ← reads (λ s. or_absent (env.repos.find_permittable user s))
    roles ← roles_of p
    fail_when (not (has_maintainer_role roles)) permission_denied

  abbrev decided : ℕ → Option Bool → Action S (Unit {0})
  decided user none = check_global_role user
  decided user (some allowed) = fail_when (not allowed) permission_denied

  -- checkMaintainerPermission of workspace.go: the question names no workspace.
  abbrev pub check_global : Option (Cerbos S) → ℕ → String → Action S (Unit {0})
  check_global none user action = check_global_role user
  check_global (some cerbos) user action = reads (cerbos user action "") >>= decided user

  -- `Workspace.FindAll`
  unfoldable pub list_workspaces :
      Operator → Option String → String → ℕ → ℕ → Bool → Action S (List Workspace × ℕ)
  list_workspaces op keyword status page size exclude_personal = do
    user ← lift (operator_user op)
    check_global env.cerbos user "list"
    reads (all_workspaces env r keyword status page size exclude_personal)
