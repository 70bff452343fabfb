-- ===== src/AdminUser/UseCase.antt =====
-- server/internal/admin/usecase/adminuseruc: approving, rejecting and giving roles. The repository
-- is an interface over a store `S`, as far as the use cases call it; each use case returns its
-- result and the store that it leaves.
pub mod Guards
use reearth_accounts.Prelude.{
  ℕ, String, Bool, true, false, not, ◌&&◌, Option, none, some, ◌==◌, leb, str_eq, if◌then◌else◌,
  Result, ok, err, invalid_role, cannot_modify_self, last_approved_admin, last_system_admin,
}
use reearth_accounts.AdminUser.{
  AdminUser, approved, viewer, system_admin, role_valid, is_approved, approve, reject, set_role,
}
use reearth_accounts.AdminUser.Memory
use reearth_accounts.AdminUser.Memory.{Data, IdOrder}

-- `Repo` of pkg/adminuser/repo.go. `count_with_status` is `List` with that status, of which the
-- total of the page information is used; the information is never nil.
pub record Repo (S : Type 0) : Type 0 where
  pub find_by_id : S → ℕ → Result AdminUser
  pub count_with_status : S → String → Result ℕ
  pub save : S → AdminUser → Result (Unit {0}) × S
  pub save_guarding_last_system_admin : S → AdminUser → Bool → Result Bool × S

module _ {S : Type 0} (repo : Repo S) where
  abbrev pub saved : AdminUser → Result (Unit {0}) × S → Result AdminUser × S
  saved u (ok x, s) = (ok u, s)
  saved u (err e, s) = (err e, s)

  -- `ApproveAdminUserUseCase.Execute` on the user that it has found
  abbrev approve_found : S → ℕ → AdminUser → ℕ → ℕ → Result AdminUser × S
  approve_found s operator target now now' =
      if is_approved target
      then (ok target, s)
      else let target' = approve target operator now in
        if str_eq target'.role ""
        then elim (set_role target' viewer now') [
          | err e ↦ (err e, s)
          | ok target'' ↦ saved target'' (repo.save s target'')
        ]
        else saved target' (repo.save s target')

  -- `ApproveAdminUserUseCase.Execute`
  unfoldable pub approve_admin : S → ℕ → ℕ → ℕ → ℕ → Result AdminUser × S
  approve_admin s operator target now now' =
      if operator == target then (err cannot_modify_self, s) else elim (repo.find_by_id s target) [
        | err e ↦ (err e, s)
        | ok found ↦ approve_found s operator found now now'
      ]

  -- `RejectAdminUserUseCase.Execute` behind its guard
  abbrev pub reject_found : S → AdminUser → ℕ → Result AdminUser × S
  reject_found s target now = let target' = reject target now in saved target' (repo.save s target')

  -- The guard of `RejectAdminUserUseCase.Execute`, by the count of approved users
  abbrev reject_counted : S → AdminUser → ℕ → Result ℕ → Result AdminUser × S
  reject_counted s target now (err e) = (err e, s)
  reject_counted s target now (ok total) =
      if leb total 1 then (err last_approved_admin, s) else reject_found s target now

  -- `RejectAdminUserUseCase.Execute`
  unfoldable pub reject_admin : S → ℕ → ℕ → ℕ → Result AdminUser × S
  reject_admin s operator target now =
      if operator == target then (err cannot_modify_self, s) else elim (repo.find_by_id s target) [
        | err e ↦ (err e, s)
        | ok found ↦
            if is_approved found
            then reject_counted s found now (repo.count_with_status s approved)
            else reject_found s found now
      ]

  abbrev guarded : AdminUser → Result Bool × S → Result AdminUser × S
  guarded u (err e, s) = (err e, s)
  guarded u (ok true, s) = (ok u, s)
  guarded u (ok false, s) = (err last_system_admin, s)

  -- `SetRoleUseCase.Execute` on the user that it has found
  abbrev pub set_role_found : S → AdminUser → String → ℕ → Result AdminUser × S
  set_role_found s target role now =
      let demoting =
        is_approved target && str_eq target.role system_admin && not (str_eq role system_admin) in
      elim (set_role target role now) [
        | err e ↦ (err e, s)
        | ok target' ↦ guarded target' (repo.save_guarding_last_system_admin s target' demoting)
      ]

  -- `SetRoleUseCase.Execute`
  unfoldable pub set_role_admin : S → ℕ → String → ℕ → Result AdminUser × S
  set_role_admin s target role now =
      if not (role_valid role) then (err invalid_role, s) else elim (repo.find_by_id s target) [
        | err e ↦ (err e, s)
        | ok found ↦ set_role_found s found role now
      ]

abbrev total_of : {A : Type 0} → Result (A × Memory.PageInfo) → Result ℕ
total_of (err e) = err e
total_of (ok (us, info)) = ok info.total_count

-- The first row of the approved users
abbrev pub approved_filter : Memory.ListFilter
approved_filter = record {
  status = some approved;
  role = none;
  pagination = some (Memory.Pagination.offset 0 1);
}

-- The repository in memory fills the interface; only the total of the list is read.
abbrev pub memory_repo : IdOrder → Repo Data
memory_repo o = record {
  find_by_id = Memory.find_by_id;
  count_with_status =
      λ d status. total_of (Memory.list o d (record approved_filter { status = some status }));
  save = Memory.save;
  save_guarding_last_system_admin = Memory.save_guarding_last_system_admin;
}
