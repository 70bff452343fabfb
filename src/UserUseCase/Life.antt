-- ===== src/UserUseCase/Life.antt =====
-- server/internal/usecase/interactor/user.go: what only a maintainer may do to another user. `now`
-- stands for the readings of the clock in one call.
use reearth_accounts.Prelude.{
  ℕ, String, ◌||◌, Option, none, some, List, [], ◌∷◌, str_eq, Result, ok, err, if◌then◌else◌,
  failed,
}
use reearth_accounts.Permittable.{Permittable, edit_role_ids}
use reearth_accounts.Permittable.{build as build_permittable}
use reearth_accounts.User.Account.{User, deactivate, reactivate, update_name}
use reearth_accounts.Workspace.Entity.{Workspace, is_personal, rename}
use reearth_accounts.Workspace.Operator.{Operator}
use reearth_accounts.Action.{Action, pure, lift, reads, ◌>>=◌, ◌>>◌}
use reearth_accounts.Interactor.Env.{run, usecase}
use reearth_accounts.Interactor.Guard.{operator_user, or_absent}
use reearth_accounts.Interactor.Permits.{new_permittable}
use reearth_accounts.UserUseCase.Env.{UserEnv, check_maintainer_permission}

module _ {S : Type 0} (env : UserEnv S) (op : Operator) (now : ℕ) where
  -- The bodies of `Deactivate` and `Restore` around their change of the user
  unfoldable pub switching : ℕ → ℕ → (User → User) → Action S User
  switching user id change = do
    u ← reads (env.users.find_by_id id)
    check_maintainer_permission env user "edit"
    env.users.save (change u)
    pure (change u)

  -- `Deactivate`
  unfoldable pub deactivate_user : ℕ → Action S User
  deactivate_user id = do
    user ← lift (operator_user op)
    run env.base usecase op (switching user id (λ u. deactivate u now now))

  -- `Restore`
  unfoldable pub restore_user : ℕ → Action S User
  restore_user id = do
    user ← lift (operator_user op)
    run env.base usecase op (switching user id (λ u. reactivate u now))

  -- A failure to save the workspace is only logged.
  abbrev despite_failure : Result (Unit {0}) × S → Result (Unit {0}) × S
  despite_failure (r, s) = (ok tt, s)

  abbrev rename_along : String → String → Option Workspace → Action S (Unit {0})
  rename_along old_name name none s = (ok tt, s)
  rename_along old_name name (some w) s =
      if is_personal w
      then (if str_eq w.name "" || str_eq w.name old_name
          then despite_failure (env.base.repos.save_workspace (rename w name now) s)
          else (ok tt, s))
      else (ok tt, s)

  abbrev renaming : String → Option String → Action S (Unit {0})
  renaming sub none = pure tt
  renaming sub (some name) = do
    u ← reads (env.users.find_by_sub sub)
    env.users.save (update_name u name now)
    ws ← reads (λ s. or_absent (env.base.repos.find_workspace u.workspace s))
    rename_along u.name name ws

  -- `UpdateUserBySub`, which runs in no transaction
  unfoldable pub update_user_by_sub : String → Option String → Action S (Unit {0})
  update_user_by_sub sub name = do
    user ← lift (operator_user op)
    check_maintainer_permission env user "edit"
    renaming sub name

  -- The loop of `SetPlatformRolesBySub`
  abbrev pub role_ids_of : List String → S → Result (List ℕ)
  role_ids_of [] s = ok []
  role_ids_of (name ∷ names) s =
      let rest = role_ids_of names s in
      elim (env.base.repos.find_role name s) [
        | err e ↦ err e
        | ok r ↦ elim rest [ err e ↦ err e | ok ids ↦ ok (r.id ∷ ids) ]
      ]

  abbrev pub permittable_or_new : ℕ → ℕ → Option Permittable → Result Permittable
  permittable_or_new new_id user (some p) = ok p
  permittable_or_new new_id user none =
      build_permittable env.base.idx.is_empty (new_permittable new_id user) now

  -- `*p` of a nil pointer panics.
  abbrev save_found : Option Permittable → Action S (Unit {0})
  save_found none = lift (err failed)
  save_found (some p) = env.base.repos.save_permittable p

  -- `SetPlatformRolesBySub`, which runs in no transaction; `new_id` is what `NewID` gives.
  unfoldable pub set_platform_roles_by_sub : ℕ → String → List String → Action S (Unit {0})
  set_platform_roles_by_sub new_id sub names = do
    user ← lift (operator_user op)
    check_maintainer_permission env user "edit"
    u ← reads (env.users.find_by_sub sub)
    ids ← reads (role_ids_of names)
    found ← reads (λ s. or_absent (env.base.repos.find_permittable u.id s))
    p ← lift (permittable_or_new new_id u.id found)
    save_found (edit_role_ids (some p) ids now)
