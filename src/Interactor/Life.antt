-- ===== src/Interactor/Life.antt =====
-- server/internal/usecase/interactor/workspace.go: the use cases that remove, deactivate and
-- restore a workspace. `now` and `now'` are what successive readings of the clock give.
use reearth_accounts.Prelude.{ℕ, cannot_modify_personal_workspace}
use reearth_accounts.Workspace.Entity.{Workspace, is_personal, delete, restore}
use reearth_accounts.Workspace.Member.{keys}
use reearth_accounts.Workspace.Operator.{Operator}
use reearth_accounts.Action.{Action, pure, lift, reads, fail_when, ◌>>=◌, ◌>>◌}
use reearth_accounts.Interactor.Env.{Env, usecase, with_ownable_workspaces, run}
use reearth_accounts.Interactor.Guard.{operator_user, check_owner_like_permission}
use reearth_accounts.Interactor.Permits.{bulk_remove_permittable}

module _ {S : Type 0} (env : Env S) (op : Operator) (now now' : ℕ) where
  -- The body of `Remove`
  unfoldable pub removing_workspace : ℕ → Action S (Unit {0})
  removing_workspace id = do
    w ← reads (env.repos.find_workspace id)
    fail_when (is_personal w) cannot_modify_personal_workspace
    bulk_remove_permittable env now id (keys w.members.users)
    env.repos.remove_workspace id

  -- `Remove`
  unfoldable pub remove : ℕ → Action S (Unit {0})
  remove id = do
    user ← lift (operator_user op)
    run env (with_ownable_workspaces usecase id) op (removing_workspace id)

  -- What `Deactivate` and `Restore` do around their change of the workspace
  unfoldable pub switching : ℕ → (Workspace → Workspace) → Action S Workspace
  switching id change = do
    user ← lift (operator_user op)
    run env usecase op (do
      w ← reads (env.repos.find_workspace id)
      fail_when (is_personal w) cannot_modify_personal_workspace
      check_owner_like_permission env op user w "edit"
      env.repos.save_workspace (change w)
      pure (change w))

  -- `Deactivate`
  unfoldable pub deactivate : ℕ → Action S Workspace
  deactivate id = switching id (λ w. delete w now now')

  -- `Restore`
  unfoldable pub restore_workspace : ℕ → Action S Workspace
  restore_workspace id = switching id (λ w. restore w now)
