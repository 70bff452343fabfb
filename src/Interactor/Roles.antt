-- ===== src/Interactor/Roles.antt =====
-- server/internal/usecase/interactor/workspace.go: the members after the use cases that succeed
use reearth_accounts.Prelude.{
  ℕ, ◌≡◌, refl, true, false, not, ◌&&◌, [], ◌∷◌, ◌==◌, arith, some, sym, ◌∙◌, ap, subst, ok,
  if◌then◌else◌, str_eq,
}
use reearth_accounts.Role.{RoleType, owner, maintainer, valid, includes}
use reearth_accounts.Workspace.Entity.{Workspace}
use reearth_accounts.Workspace.Member.{Members, user_role, update_user_role, has_user}
use reearth_accounts.Workspace.Member.Effects.{update_user_role_effect}
use reearth_accounts.Workspace.Operator.{Operator, is_owning}
use reearth_accounts.Action.Post.{
  Gives, Gives-pure, Gives-fail, Gives-any, Gives-lift, Gives-reads, same_value,
}
use reearth_accounts.Interactor.Env.{Env, Gives-run, check_permission}
use reearth_accounts.Interactor.Guard.{
  apply_default_policy, apply_default_policy_members, operator_user_value,
}
use reearth_accounts.Interactor.Members.{
  with_members, transfer_ownership, transferring, update_user_member, updating, store_role,
}

valid-owner : valid owner ≡ true
unfolding valid
valid-owner = refl

valid-maintainer : valid maintainer ≡ true
unfolding valid
valid-maintainer = refl

module _ {S : Type 0} (env : Env S) (op : Operator) (now : ℕ) (fresh : ℕ → ℕ) where
  -- What `TransferOwnership` does to the members, and when
  abbrev pub Transferred : ℕ → ℕ → Members → Workspace → Type 0
  Transferred user new_owner m w' =
      (m.fixed ≡ false)
      × (has_user m new_owner ≡ true)
      × ((v : ℕ)
          → user_role w'.members v
            ≡ (if user == v then maintainer else if new_owner == v then owner else user_role m v))

  transferred :
      (user new_owner : ℕ) (w : Workspace) (m1 m2 : Members)
      → (has_user w.members new_owner ≡ true)
      → update_user_role w.members new_owner owner ≡ ok m1
      → update_user_role m1 user maintainer ≡ ok m2
      → Transferred user new_owner w.members (apply_default_policy (with_members w m2) op now)
  transferred user new_owner w m1 m2 is_there e1 e2 =
      subst
        (λ m.
          (w.members.fixed ≡ false)
          × (has_user w.members new_owner ≡ true)
          × ((v : ℕ)
              → user_role m v ≡ (
                  if user == v
                  then maintainer
                  else if new_owner == v
                  then owner
                  else user_role w.members v)))
        (sym (apply_default_policy_members (with_members w m2) op now))
        (
          (update_user_role_effect w.members m1 new_owner owner user e1).0,
          is_there,
          λ v. ground (
            arith,
            (update_user_role_effect m1 m2 user maintainer v e2).2,
            (update_user_role_effect w.members m1 new_owner owner v e1).2,
            valid-owner,
            valid-maintainer,
          ),
        )

  transferring-Transferred :
      (user id new_owner : ℕ) (s : S) (w : Workspace)
      → env.repos.find_workspace id s ≡ ok w
      → Gives s
          (transferring env op now fresh user id new_owner)
          (Transferred user new_owner w.members)
  unfolding transferring
  transferring-Transferred user id new_owner s w found =
      let P = Transferred user new_owner w.members in
      Gives-reads s P _ _ (λ w1 e. Gives-fail s P _ _ _ (λ not_personal.
        Gives-fail s P _ _ _ (λ is_there. Gives-fail s P _ _ _ (λ not_reader.
          Gives-lift s P _ _ (λ m1 e1. Gives-any s P _ _ (λ x s1. Gives-lift s1 P _ _ (λ m2 e2.
            Gives-any s1 P _ _ (λ y s2. Gives-any s2 P _ _ (λ z s3. Gives-pure s3 P _ (
              same_value
                (λ w0.
                  Transferred user new_owner w0.members
                    (apply_default_policy (with_members w1 m2) op now))
                e found (transferred user new_owner w1 m1 m2 (ground arith) e1 e2)))))))))))

  -- If `TransferOwnership` succeeds, the operator owned the workspace, which was not personal, and
  -- the new owner was a member; afterwards the operator is a maintainer, even if the operator is
  -- the new owner, a new owner who is someone else is an owner, and every other user's role is as
  -- before.
  pub transfer_ownership_effect :
      (user id new_owner : ℕ) (s s' : S) (w w' : Workspace)
      → op.user ≡ some user
      → env.repos.find_workspace id s ≡ ok w
      → transfer_ownership env op now fresh id new_owner s ≡ (ok w', s')
      → (is_owning env.idx op (id ∷ []) ≡ true) × Transferred user new_owner w.members w'
  unfolding transfer_ownership check_permission
  transfer_ownership_effect user id new_owner s s' w w' is_user found e =
      let P : Workspace → Type 0 =
        λ w0. (is_owning env.idx op (id ∷ []) ≡ true) × Transferred user new_owner w.members w0 in
      (Gives-lift s P _ _ (λ u given. Gives-run s P env _ op _ (λ allowed.
          subst (λ v. Gives s (transferring env op now fresh v id new_owner) P)
            (sym (operator_user_value op user u is_user given))
            (record {
              at = λ w0 s0 e0.
                  (allowed, (transferring-Transferred user id new_owner s w found).at w0 s0 e0);
            })))).at
        w' s' e

  -- What `UpdateUserMember` lets through: an operator who is the member gets a role that the old
  -- one includes, and was no owner; then what it does.
  abbrev pub Updated : ℕ → ℕ → RoleType → Members → Workspace → Type 0
  Updated user u r m w' =
      (m.fixed ≡ false)
      × (str_eq r owner ≡ false)
      × ((u == user && not (includes (user_role m u) r)) ≡ false)
      × ((u == user && str_eq (user_role m u) owner) ≡ false)
      × ((v : ℕ) → user_role w'.members v ≡ (if valid r && u == v then r else user_role m v))

  storing :
      (w : Workspace) (u : ℕ) (r : RoleType) (s : S) (P : Workspace → Type 0)
      → ((w' : Workspace)
          → ((v : ℕ)
              → user_role w'.members v ≡ (if valid r && u == v then r else user_role w.members v))
          → P w')
      → Gives s (store_role env op now fresh w u r) P
  unfolding store_role
  storing w u r s P h = Gives-lift s P _ _ (λ m e. Gives-any s P _ _ (λ x s1.
      Gives-any s1 P _ _ (λ y s2. Gives-pure s2 P _ (
        h _ (λ v.
          ap (λ mm. user_role mm v) (apply_default_policy_members (with_members w m) op now)
          ∙ (update_user_role_effect w.members m u r v e).2)))))

  updated :
      (user id u : ℕ) (r : RoleType) (s : S) (w : Workspace)
      → env.repos.find_workspace id s ≡ ok w
      → Gives s (updating env op now fresh user id u r) (Updated user u r w.members)
  unfolding updating
  updated user id u r s w found =
      let P = Updated user u r w.members in
      Gives-reads s P _ _ (λ w1 e. Gives-fail s P _ _ _ (λ not_personal.
        Gives-fail s P _ _ _ (λ not_owner. Gives-any s P _ _ (λ x s1.
          Gives-fail s1 P _ _ _ (λ no_promotion. Gives-fail s1 P _ _ _ (λ no_owner.
            storing w1 u r s1 P (λ w' roles.
              same_value (λ w0. Updated user u r w0.members w') e found
                (not_personal, not_owner, no_promotion, no_owner, roles))))))))

  -- If `UpdateUserMember` succeeds, the workspace was not personal and the new role is not owner;
  -- an operator who is the user was no owner and had a role that includes the new one; afterwards
  -- the user has the new role, if it is valid, and every other role is as before.
  pub update_user_member_effect :
      (user id u : ℕ) (r : RoleType) (s s' : S) (w w' : Workspace)
      → op.user ≡ some user
      → env.repos.find_workspace id s ≡ ok w
      → update_user_member env op now fresh id u r s ≡ (ok w', s')
      → Updated user u r w.members w'
  unfolding update_user_member
  update_user_member_effect user id u r s s' w w' is_user found e =
      let P = Updated user u r w.members in
      (Gives-lift s P _ _ (λ v given. Gives-run s P env _ op _ (λ allowed.
          subst (λ a. Gives s (updating env op now fresh a id u r) P)
            (sym (operator_user_value op user v is_user given))
            (updated user id u r s w found)))).at
        w' s' e
