-- ===== src/Interactor/Adding.antt =====
-- server/internal/usecase/interactor/workspace.go: `AddUserMember`. `now` stands for the readings of
-- the clock in one call; `role_id` and `new_id` give the identifiers of new roles and permittables.
use reearth_accounts.Prelude.{
  ℕ, ◌≡◌, ap, ◌∙◌, false, not, Option, none, some, List, [], ◌∷◌, str_eq, is_some, ok,
  cannot_modify_personal_workspace, cannot_change_role_to_owner, if◌then◌else◌,
}
use reearth_accounts.Prelude.Dict.{Dict}
use reearth_accounts.Prelude.Lists.{length}
use reearth_accounts.Role.{RoleType, owner}
use reearth_accounts.User.Account.{User}
use reearth_accounts.Workspace.Entity.{Workspace, is_personal}
use reearth_accounts.Workspace.Member.{Members, keys, user_role}
use reearth_accounts.Workspace.Operator.{Operator, is_writable}
use reearth_accounts.Action.{Action, pure, lift, reads, fail_when, only_when, ◌>>=◌, ◌>>◌}
use reearth_accounts.Action.Post.{
  Gives, Gives-pure, Gives-fail, Gives-any, Gives-lift, Gives-reads, same_value,
}
use reearth_accounts.Interactor.Env.{Env, usecase, run, Gives-run}
use reearth_accounts.Interactor.Guard.{
  operator_user, or_absent, check_owner_like_permission, apply_default_policy,
  apply_default_policy_members,
}
use reearth_accounts.Interactor.Permits.{role_for, list_or_empty}
use reearth_accounts.Interactor.Members.{with_members}
use reearth_accounts.Interactor.Joining.{
  RoleIds, role_id_of, gives_role, join_all, join_all-owner, by_user_id, updates,
}

module _ {S : Type 0} (env : Env S) (op : Operator) (now : ℕ) (role_id new_id : ℕ → ℕ) where
  -- The first loop of `bulkUpdatePermittable`: each role is looked up once.
  unfoldable pub role_ids : RoleIds → Dict RoleType → Action S RoleIds
  role_ids known [] = pure known
  role_ids known ((u, role) ∷ users) =
      if is_some (role_id_of known role) then role_ids known users else (do
        r ← role_for env now role (role_id (length known))
        role_ids ((role, r.id) ∷ known) users)

  -- `bulkUpdatePermittable`
  unfoldable pub bulk_update_permittable : ℕ → Dict RoleType → Action S (Unit {0})
  bulk_update_permittable workspace_id [] = pure tt
  bulk_update_permittable workspace_id ((u, role) ∷ users) = do
    known ← role_ids [] ((u, role) ∷ users)
    existing ← reads (λ s. or_absent (env.repos.find_permittables (keys ((u, role) ∷ users)) s))
    to_save ← lift (
        updates env.idx.is_empty now new_id workspace_id known
          (by_user_id [] (list_or_empty existing)) 0 ((u, role) ∷ users))
    env.repos.save_permittables to_save

  -- `if i.enforceMemberCount != nil { … }`
  unfoldable pub enforce : Workspace → List (Option User) → Action S (Unit {0})
  enforce w fetched s = elim env.enforce_member_count [
    | none ↦ (ok tt, s)
    | some enforcer ↦ (enforcer w fetched op s, s)
  ]

  -- The body of `AddUserMember`, by a user, for the users that were fetched
  unfoldable pub adding : ℕ → ℕ → Dict RoleType → List (Option User) → Action S Workspace
  adding user id users fetched = do
    w ← reads (env.repos.find_workspace id)
    fail_when (is_personal w) cannot_modify_personal_workspace
    fail_when (gives_role owner users) cannot_change_role_to_owner
    only_when (not (is_writable env.idx op (id ∷ [])))
        (check_owner_like_permission env op user w "add_member")
    enforce w fetched
    joins ← lift (join_all users user w.members [] fetched)
    bulk_update_permittable w.id joins.1
    env.repos.save_workspace (with_members w joins.0)
    pure (apply_default_policy (with_members w joins.0) op now)

  -- `AddUserMember`
  unfoldable pub add_user_member : ℕ → Dict RoleType → Action S Workspace
  add_user_member id users = do
    user ← lift (operator_user op)
    fetched ← reads (env.repos.fetch_users (keys users))
    run env usecase op (adding user id users fetched)

  -- The workspace was not personal, and its owners are as before.
  abbrev pub Added : Members → Workspace → Type 0
  Added m w' =
      (m.fixed ≡ false)
      × ((v : ℕ) → str_eq (user_role w'.members v) owner ≡ str_eq (user_role m v) owner)

  added :
      (user id : ℕ) (users : Dict RoleType) (fetched : List (Option User)) (s : S) (w : Workspace)
      → env.repos.find_workspace id s ≡ ok w
      → Gives s (adding user id users fetched) (Added w.members)
  unfolding adding
  added user id users fetched s w found =
      let P = Added w.members in
      Gives-reads s P _ _ (λ w1 e. Gives-fail s P _ _ _ (λ not_personal.
        Gives-fail s P _ _ _ (λ no_owner. Gives-any s P _ _ (λ x s1. Gives-any s1 P _ _ (λ y s2.
          Gives-lift s2 P _ _ (λ joins joined. Gives-any s2 P _ _ (λ z s3.
            Gives-any s3 P _ _ (λ z' s4. Gives-pure s4 P _ (
              same_value
                (λ w0. Added w0.members (apply_default_policy (with_members w1 joins.0) op now)) e
                found
                (
                  not_personal,
                  λ v.
                      ap (λ m. str_eq (user_role m v) owner)
                        (apply_default_policy_members (with_members w1 joins.0) op now)
                      ∙ join_all-owner users user w1.members joins.0 [] joins.1 fetched v no_owner
                          joined,
                ))))))))))

  -- If `AddUserMember` succeeds, the workspace was not personal, and exactly those users are owners
  -- afterwards who were before, whatever roles were asked for.
  pub add_user_member_keeps_owners :
      (id : ℕ) (users : Dict RoleType) (s s' : S) (w w' : Workspace)
      → env.repos.find_workspace id s ≡ ok w
      → add_user_member id users s ≡ (ok w', s')
      → Added w.members w'
  unfolding add_user_member
  add_user_member_keeps_owners id users s s' w w' found e =
      let P = Added w.members in
      (Gives-lift s P _ _ (λ user given. Gives-reads s P _ _ (λ fetched fetches.
          Gives-run s P env _ op _ (λ allowed. added user id users fetched s w found)))).at
        w' s' e
