-- ===== src/Interactor/Ownership.antt =====
-- server/internal/usecase/interactor/workspace.go: when a workspace still has an owner after a use
-- case.
use reearth_accounts.Prelude.{
  ℕ, ◌≡◌, ◌≢◌, eq_iff, Bool, false, [], ◌∷◌, arith, some, sym, subst, ok, ==_refl,
}
use reearth_accounts.Prelude.Dict.{HasDistinctKeys, erase, lookup-erase}
use reearth_accounts.Role.{RoleType, owner}
use reearth_accounts.Workspace.Entity.{Workspace}
use reearth_accounts.Workspace.Member.{Members, user_role, leave, update_user_role}
use reearth_accounts.Workspace.Member.Owners.{
  HasOwner, IsSoleOwner, leave-HasOwner, update_user_role-HasOwner,
}
use reearth_accounts.Workspace.Operator.{Operator}
use reearth_accounts.Action.Post.{
  Gives, Gives-pure, Gives-fail, Gives-any, Gives-lift, Gives-reads, same_value,
}
use reearth_accounts.Interactor.Env.{Env, Gives-run}
use reearth_accounts.Interactor.Guard.{apply_default_policy_members, operator_user_value}
use reearth_accounts.Interactor.Leaving.{leave_all}
use reearth_accounts.Interactor.Members.{
  with_members, store_role, update_user_member_via_service, updating_via_service,
  remove_user_member, remove_multiple_user_members, removing,
}

abbrev KeepsOwner : Workspace → Type 0
KeepsOwner w = HasOwner w.members

-- The members of a stored workspace, which are a map, with an owner
abbrev IsOwned : Workspace → Type 0
IsOwned w = HasDistinctKeys w.members.users × HasOwner w.members

-- One user leaves by the loop: not the operator as the last owner.
leave_all-HasOwner :
    (later : ℕ → ℕ → Bool) (operator : ℕ) (m m' : Members)
    → HasDistinctKeys m.users
    → HasOwner m
    → leave_all later operator m (operator ∷ []) ≡ ok m'
    → HasOwner m'
unfolding leave_all
leave_all-HasOwner later u m m' distinct owned e =
    leave-HasOwner later m u distinct m' owned (ground (arith, ==_refl u))
      (ground (arith, ==_refl u))

-- The loop lets an operator who is someone else take out the only owner: if the user is the sole
-- owner of a workspace that is not personal, the loop succeeds and nobody is left with the role.
pub sole_owner_removed :
    (later : ℕ → ℕ → Bool) (operator u : ℕ) (m : Members)
    → operator ≢ u
    → m.fixed ≡ false
    → IsSoleOwner m u
    → (m' : Members) × (leave_all later operator m (u ∷ []) ≡ ok m')
      × ((v : ℕ) → user_role m' v ≢ owner)
unfolding leave_all leave user_role
sole_owner_removed later operator u m ne not_fixed (is_owner, alone) = (
  record m { users = erase u m.users },
  ground (arith, eq_iff "" owner),
  λ v e. ground (arith, lookup-erase u v m.users, alone v, eq_iff "" owner),
)

module _ {S : Type 0} (env : Env S) (op : Operator) (now : ℕ) (fresh : ℕ → ℕ) where
  stored :
      (P : Members → Type 0) (w : Workspace) (u : ℕ) (r : RoleType) (s : S)
      → ((m : Members) → update_user_role w.members u r ≡ ok m → P m)
      → Gives s (store_role env op now fresh w u r) (λ w'. P w'.members)
  unfolding store_role
  stored P w u r s h =
      Gives-lift s (λ w'. P w'.members) _ _
        (λ m e.
          Gives-any s (λ w'. P w'.members) _ _
            (λ x s1.
              Gives-any s1 (λ w'. P w'.members) _ _
                (λ y s2.
                  Gives-pure s2 (λ w'. P w'.members) _
                    (subst P (sym (apply_default_policy_members (with_members w m) op now))
                      (h m e)))))

  via_service :
      (user id u : ℕ) (r : RoleType) (s : S) (w : Workspace)
      → env.repos.find_workspace id s ≡ ok w
      → IsOwned w
      → Gives s (updating_via_service env op now fresh user id u r) KeepsOwner
  unfolding updating_via_service
  via_service user id u r s w found owned = Gives-reads s KeepsOwner _ _ (λ w1 e.
      let (distinct, has_owner) = same_value IsOwned found e owned in
      Gives-fail s KeepsOwner _ _ _ (λ not_personal. Gives-fail s KeepsOwner _ _ _ (λ not_only.
        Gives-any s KeepsOwner _ _ (λ x s1. stored HasOwner w1 u r s1 (λ m updated.
          update_user_role-HasOwner env.idx.later w1.members u distinct r m has_owner not_only
            updated)))))

  -- If the stored members have distinct keys and an owner, then the workspace that
  -- `UpdateUserMemberViaService` returns, for any user and role, has an owner too.
  pub update_user_member_via_service-HasOwner :
      (id u : ℕ) (r : RoleType) (s s' : S) (w w' : Workspace)
      → env.repos.find_workspace id s ≡ ok w
      → HasDistinctKeys w.members.users
      → HasOwner w.members
      → update_user_member_via_service env op now fresh id u r s ≡ (ok w', s')
      → HasOwner w'.members
  unfolding update_user_member_via_service
  update_user_member_via_service-HasOwner id u r s s' w w' found distinct owned e =
      (Gives-lift s KeepsOwner _ _ (λ user given. Gives-fail s KeepsOwner _ _ _ (λ not_owner.
          Gives-run s KeepsOwner env _ op _
            (λ allowed. via_service user id u r s w found (distinct, owned))))).at
        w' s' e

  leaving :
      (user id : ℕ) (s : S) (w : Workspace)
      → env.repos.find_workspace id s ≡ ok w
      → IsOwned w
      → Gives s (removing env op now fresh user id (user ∷ [])) KeepsOwner
  unfolding removing
  leaving user id s w found owned = Gives-reads s KeepsOwner _ _ (λ w1 e.
      let (distinct, has_owner) = same_value IsOwned found e owned in
      Gives-fail s KeepsOwner _ _ _ (λ not_personal. Gives-any s KeepsOwner _ _ (λ x s1.
        Gives-lift s1 KeepsOwner _ _ (λ m left. Gives-any s1 KeepsOwner _ _ (λ y s2.
          Gives-any s2 KeepsOwner _ _ (λ z s3. Gives-pure s3 KeepsOwner _ (
            subst HasOwner (sym (apply_default_policy_members (with_members w1 m) op now))
              (leave_all-HasOwner env.idx.later user w1.members m distinct has_owner left))))))))

  -- If the stored members have distinct keys and an owner, and the operator removes themself by
  -- `RemoveUserMember`, then the workspace that it returns still has an owner.
  pub remove_user_member-HasOwner :
      (id u : ℕ) (s s' : S) (w w' : Workspace)
      → op.user ≡ some u
      → env.repos.find_workspace id s ≡ ok w
      → HasDistinctKeys w.members.users
      → HasOwner w.members
      → remove_user_member env op now fresh id u s ≡ (ok w', s')
      → HasOwner w'.members
  unfolding remove_user_member remove_multiple_user_members
  remove_user_member-HasOwner id u s s' w w' self found distinct owned e =
      (Gives-lift s KeepsOwner _ _ (λ user given. Gives-fail s KeepsOwner _ _ _ (λ some_given.
          Gives-run s KeepsOwner env _ op _ (λ allowed.
            subst (λ v. Gives s (removing env op now fresh user id (v ∷ [])) KeepsOwner)
              (operator_user_value op u user self given)
              (leaving user id s w found (distinct, owned)))))).at
        w' s' e
