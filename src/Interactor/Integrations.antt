-- ===== src/Interactor/Integrations.antt =====
-- server/internal/usecase/interactor/workspace.go: the use cases that change the integrations of a
-- workspace. `now` stands for the readings of the clock in one call.
use reearth_accounts.Prelude.{ℕ, List, Result, ok, err}
use reearth_accounts.Role.{RoleType}
use reearth_accounts.Workspace.Entity.{Workspace, remove_integrations}
use reearth_accounts.Workspace.Member.{
  Members, add_integration, delete_integration, update_integration_role,
}
use reearth_accounts.Workspace.Operator.{Operator}
use reearth_accounts.Action.{Action, pure, lift, reads, ◌>>=◌, ◌>>◌}
use reearth_accounts.Interactor.Env.{Env, usecase, with_ownable_workspaces, run}
use reearth_accounts.Interactor.Guard.{operator_user, apply_default_policy}
use reearth_accounts.Interactor.Members.{with_members}

-- The workspace with the members that a call gives
abbrev pub on_members : Workspace → Result Members → Result Workspace
on_members w (ok members) = ok (with_members w members)
on_members w (err e) = err e

module _ {S : Type 0} (env : Env S) (op : Operator) (now : ℕ) where
  -- What the four use cases do around a change of the workspace, made by a user
  unfoldable pub changing : ℕ → (ℕ → Workspace → Result Workspace) → Action S Workspace
  changing id change = do
    user ← lift (operator_user op)
    run env (with_ownable_workspaces usecase id) op (do
      w ← reads (env.repos.find_workspace id)
      w' ← lift (change user w)
      env.repos.save_workspace w'
      pure (apply_default_policy w' op now))

  -- `AddIntegrationMember`
  unfoldable pub add_integration_member : ℕ → ℕ → RoleType → Action S Workspace
  add_integration_member id iid role =
      changing id (λ user w. on_members w (add_integration w.members iid role user))

  -- `RemoveIntegration`
  unfoldable pub remove_integration : ℕ → ℕ → Action S Workspace
  remove_integration id iid =
      changing id (λ user w. on_members w (delete_integration w.members iid))

  -- `RemoveIntegrations`
  unfoldable pub remove_all_integrations : ℕ → List ℕ → Action S Workspace
  remove_all_integrations id iids = changing id (λ user w. remove_integrations w iids now)

  -- `UpdateIntegration`
  unfoldable pub update_integration : ℕ → ℕ → RoleType → Action S Workspace
  update_integration id iid role =
      changing id (λ user w. on_members w (update_integration_role w.members iid role))
