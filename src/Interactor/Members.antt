-- ===== src/Interactor/Members.antt =====
-- server/internal/usecase/interactor/workspace.go: the use cases that change the users of a
-- workspace. `now` stands for the readings of the clock in one call, and `fresh` for the
-- identifiers that `NewID` gives.
use reearth_accounts.Prelude.{
  ℕ, Bool, true, false, not, ◌&&◌, ◌||◌, List, [], ◌∷◌, ◌==◌, str_eq,
  cannot_modify_personal_workspace, cannot_change_role_to_owner, cannot_self_promote,
  cannot_change_owner_role, no_specified_users, target_user_not_in_the_workspace,
}
use reearth_accounts.Role.{RoleType, owner, maintainer, reader, includes}
use reearth_accounts.Workspace.Entity.{Workspace, is_personal}
use reearth_accounts.Workspace.Member.{
  Members, has_user, user_role, is_only_owner, update_user_role,
}
use reearth_accounts.Workspace.Operator.{Operator, is_writable, is_maintaining}
use reearth_accounts.Action.{Action, pure, lift, reads, fail_when, only_when, ◌>>=◌, ◌>>◌}
use reearth_accounts.Interactor.Env.{Env, usecase, with_ownable_workspaces, run}
use reearth_accounts.Interactor.Guard.{
  operator_user, check_owner_like_permission, apply_default_policy,
}
use reearth_accounts.Interactor.Permits.{update_permittable, bulk_remove_permittable}
use reearth_accounts.Interactor.Leaving.{leave_all}

abbrev pub with_members : Workspace → Members → Workspace
with_members w members = record w { members = members }

-- `len(userIds) == 0`
abbrev pub none_given : List ℕ → Bool
none_given [] = true
none_given (u ∷ us) = false

module _ {S : Type 0} (env : Env S) (op : Operator) (now : ℕ) (fresh : ℕ → ℕ) where
  -- The body of `RemoveMultipleUserMembers`, by a user
  unfoldable pub removing : ℕ → ℕ → List ℕ → Action S Workspace
  removing user id user_ids = do
    w ← reads (env.repos.find_workspace id)
    fail_when (is_personal w) cannot_modify_personal_workspace
    only_when (not (is_writable env.idx op (id ∷ [])))
        (check_owner_like_permission env op user w "delete_member")
    members ← lift (leave_all env.idx.later user w.members user_ids)
    bulk_remove_permittable env now id user_ids
    env.repos.save_workspace (with_members w members)
    pure (apply_default_policy (with_members w members) op now)

  -- `RemoveMultipleUserMembers`
  unfoldable pub remove_multiple_user_members : ℕ → List ℕ → Action S Workspace
  remove_multiple_user_members id user_ids = do
    user ← lift (operator_user op)
    fail_when (none_given user_ids) no_specified_users
    run env usecase op (removing user id user_ids)

  -- `RemoveUserMember`
  unfoldable pub remove_user_member : ℕ → ℕ → Action S Workspace
  remove_user_member id u = remove_multiple_user_members id (u ∷ [])

  -- What the updates of a role end with: the role is set in the members and in the permittable, and
  -- the workspace is saved.
  unfoldable pub store_role : Workspace → ℕ → RoleType → Action S Workspace
  store_role w u new_role = do
    members ← lift (update_user_role w.members u new_role)
    update_permittable env now u w.id new_role (fresh 0) (fresh 1)
    env.repos.save_workspace (with_members w members)
    pure (apply_default_policy (with_members w members) op now)

  -- The body of `UpdateUserMember`
  unfoldable pub updating : ℕ → ℕ → ℕ → RoleType → Action S Workspace
  updating user id u new_role = do
    w ← reads (env.repos.find_workspace id)
    fail_when (is_personal w) cannot_modify_personal_workspace
    fail_when (str_eq new_role owner) cannot_change_role_to_owner
    only_when (str_eq (user_role w.members u) owner || not (is_writable env.idx op (id ∷ [])))
        (check_owner_like_permission env op user w "edit_member")
    fail_when (u == user && not (includes (user_role w.members u) new_role)) cannot_self_promote
    fail_when (u == user && str_eq (user_role w.members u) owner) cannot_change_owner_role
    store_role w u new_role

  -- `UpdateUserMember`
  unfoldable pub update_user_member : ℕ → ℕ → RoleType → Action S Workspace
  update_user_member id u new_role = do
    user ← lift (operator_user op)
    run env usecase op (updating user id u new_role)

  -- The body of `UpdateUserMemberViaService`
  unfoldable pub updating_via_service : ℕ → ℕ → ℕ → RoleType → Action S Workspace
  updating_via_service user id u new_role = do
    w ← reads (env.repos.find_workspace id)
    fail_when (is_personal w) cannot_modify_personal_workspace
    fail_when (is_only_owner env.idx.later w.members u) cannot_change_owner_role
    only_when (not (is_maintaining env.idx op (id ∷ [])))
        (check_owner_like_permission env op user w "edit_member")
    store_role w u new_role

  -- `UpdateUserMemberViaService`
  unfoldable pub update_user_member_via_service : ℕ → ℕ → RoleType → Action S Workspace
  update_user_member_via_service id u new_role = do
    user ← lift (operator_user op)
    fail_when (str_eq new_role owner) cannot_change_role_to_owner
    run env usecase op (updating_via_service user id u new_role)

  -- The body of `TransferOwnership`
  unfoldable pub transferring : ℕ → ℕ → ℕ → Action S Workspace
  transferring user id new_owner = do
    w ← reads (env.repos.find_workspace id)
    fail_when (is_personal w) cannot_modify_personal_workspace
    fail_when (not (has_user w.members new_owner)) target_user_not_in_the_workspace
    fail_when (str_eq (user_role w.members new_owner) reader) cannot_change_role_to_owner
    given ← lift (update_user_role w.members new_owner owner)
    update_permittable env now new_owner w.id owner (fresh 0) (fresh 1)
    members ← lift (update_user_role given user maintainer)
    update_permittable env now user w.id maintainer (fresh 2) (fresh 3)
    env.repos.save_workspace (with_members w members)
    pure (apply_default_policy (with_members w members) op now)

  -- `TransferOwnership`
  unfoldable pub transfer_ownership : ℕ → ℕ → Action S Workspace
  transfer_ownership id new_owner = do
    user ← lift (operator_user op)
    run env (with_ownable_workspaces usecase id) op (transferring user id new_owner)
