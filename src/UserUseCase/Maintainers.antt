-- ===== src/UserUseCase/Maintainers.antt =====
-- server/internal/usecase/interactor/user.go: what takes a maintainer
use reearth_accounts.Prelude.{
  ℕ, String, ◌≡◌, Bool, true, not, Option, none, some, List, Result, ok, err, arith,
  permission_denied, ◌⊎◌, inl, inr,
}
use reearth_accounts.Role.{Role}
use reearth_accounts.Permittable.{Permittable}
use reearth_accounts.User.Account.{User}
use reearth_accounts.Workspace.Operator.{Operator}
use reearth_accounts.Action.{Action, lift, fail_when, ◌>>=◌, ◌>>◌}
use reearth_accounts.Action.Post.{Gives, Gives-lift, Gives-reads, Gives-bind, Gives-test}
use reearth_accounts.Interactor.Env.{usecase, Gives-run}
use reearth_accounts.Interactor.Guard.{or_absent, operator_user}
use reearth_accounts.UserUseCase.Env.{
  UserEnv, check_maintainer_role, check_maintainer_permission, has_maintainer_role, roles_of,
  decided, check_by,
}
use reearth_accounts.UserUseCase.Life.{
  switching, deactivate_user, restore_user, update_user_by_sub, set_platform_roles_by_sub,
}

module _ {S : Type 0} (env : UserEnv S) where
  -- The user has a global role of a maintainer or an owner.
  abbrev pub HasMaintainerRole : S → ℕ → Type 0
  HasMaintainerRole s user =
      (p : Permittable) × (roles : List Role) × (env.base.repos.find_permittable user s ≡ ok p)
      × (env.users.find_roles p.role_ids s ≡ ok roles)
      × (has_maintainer_role roles ≡ true)

  abbrev MaintainsBy : Option (ℕ → String → S → Result (Option Bool)) → S → ℕ → String → Type 0
  MaintainsBy none s user action = HasMaintainerRole s user
  MaintainsBy (some cerbos) s user action =
      (cerbos user action s ≡ ok (some true))
      ⊎ ((cerbos user action s ≡ ok none) × HasMaintainerRole s user)

  -- The service allows it, or has no say and the user has the role.
  abbrev pub MayMaintain : S → ℕ → String → Type 0
  MayMaintain s user action = MaintainsBy env.cerbos s user action

  present_permittable :
      (r : Result Permittable) (p : Permittable) → or_absent r ≡ ok (some p) → r ≡ ok p
  present_permittable (ok q) p e = ground arith
  present_permittable (err x) p e = ground arith

  tested :
      (s : S) (user : ℕ) (found : Option Permittable)
      → or_absent (env.base.repos.find_permittable user s) ≡ ok found
      → Gives s
          (roles_of env found >>= λ roles.
            fail_when (not (has_maintainer_role roles)) permission_denied)
          (λ x. HasMaintainerRole s user)
  tested s user none e = Gives-lift s (λ x. HasMaintainerRole s user) _ _ (λ roles absent. cc)
  tested s user (some p) e =
      Gives-reads s (λ x. HasMaintainerRole s user) _ _
        (λ roles given. record {
          at = λ x s' q. (
            p,
            roles,
            present_permittable (env.base.repos.find_permittable user s) p e,
            given,
            ground (
              arith,
              (Gives-test s (not (has_maintainer_role roles)) permission_denied).at x s' q,
            ),
          );
        })

  role_checked :
      (s : S) (user : ℕ) → Gives s (check_maintainer_role env user) (λ x. HasMaintainerRole s user)
  unfolding check_maintainer_role
  role_checked s user =
      Gives-reads s (λ x. HasMaintainerRole s user) _ _ (λ found e. tested s user found e)

  said :
      (s : S) (user : ℕ) (answer : Result (Option Bool)) (says : Option Bool)
      → answer ≡ ok says
      → Gives s
          (decided env user says)
          (λ x. (answer ≡ ok (some true)) ⊎ ((answer ≡ ok none) × HasMaintainerRole s user))
  said s user answer none e = record { at = λ x s' q. inr (e, (role_checked s user).at x s' q) }
  said s user answer (some allowed) e = record {
    at = λ x s' q. inl (ground (arith, (Gives-test s (not allowed) permission_denied).at x s' q));
  }

  checked_by :
      (c : Option (ℕ → String → S → Result (Option Bool))) (s : S) (user : ℕ) (action : String)
      → Gives s (check_by env c user action) (λ x. MaintainsBy c s user action)
  checked_by none s user action = role_checked s user
  checked_by (some cerbos) s user action =
      Gives-reads s (λ x. MaintainsBy (some cerbos) s user action) _ _
        (λ says e. said s user (cerbos user action s) says e)

  -- The check passes only for those who may maintain.
  permission_checked :
      (s : S) (user : ℕ) (action : String)
      → Gives s (check_maintainer_permission env user action) (λ x. MayMaintain s user action)
  unfolding check_maintainer_permission
  permission_checked s user action = checked_by env.cerbos s user action

  switch_checked :
      (s : S) (op : Operator) (now user id : ℕ) (change : User → User)
      → Gives s (switching env op now user id change) (λ u. MayMaintain s user "edit")
  unfolding switching
  switch_checked s op now user id change =
      Gives-reads s (λ u. MayMaintain s user "edit") _ _
        (λ u found.
          Gives-bind s (λ u. MayMaintain s user "edit") _ _
            (λ x s1 e. record { at = λ v s' q. (permission_checked s user "edit").at x s1 e }))

  -- The operator is a user who may maintain users.
  abbrev pub IsMaintainer : S → Operator → Type 0
  IsMaintainer s op = (user : ℕ) × (op.user ≡ some user) × MayMaintain s user "edit"

  user_given : (op : Operator) (user : ℕ) → operator_user op ≡ ok user → op.user ≡ some user
  unfolding operator_user
  user_given op user e = ground arith

  by_operator :
      {A : Type 0} (s : S) (op : Operator) (f : ℕ → Action S A)
      → ((user : ℕ) → Gives s (f user) (λ a. MayMaintain s user "edit"))
      → Gives s (lift (operator_user op) >>= f) (λ a. IsMaintainer s op)
  by_operator s op f h =
      Gives-lift s (λ a. IsMaintainer s op) _ _
        (λ user given. record {
          at = λ a s' e. (user, user_given op user given, (h user).at a s' e);
        })

  first_checked :
      {A : Type 0} (s : S) (user : ℕ) (k : Action S A)
      → Gives s (check_maintainer_permission env user "edit" >> k) (λ a. MayMaintain s user "edit")
  first_checked s user k =
      Gives-bind s (λ a. MayMaintain s user "edit") _ _
        (λ x s1 e. record { at = λ v s' q. (permission_checked s user "edit").at x s1 e })

  -- Only a maintainer can deactivate a user, restore one, rename one by the subject, or set a user's
  -- global roles: if the call succeeds, the operator is a user whom the permission service allows to
  -- edit users, or, where there is no service or it has no say, one with the global role of a
  -- maintainer or an owner in the store at the start.
  pub IsMaintainer-needed :
      (op : Operator) (now id new_id : ℕ) (sub : String) (name : Option String)
      (names : List String) (s s' : S) (u : User)
      → (deactivate_user env op now id s ≡ (ok u, s'))
        ⊎ ((restore_user env op now id s ≡ (ok u, s'))
            ⊎ ((update_user_by_sub env op now sub name s ≡ (ok tt, s'))
                ⊎ (set_platform_roles_by_sub env op now new_id sub names s ≡ (ok tt, s'))))
      → IsMaintainer s op
  unfolding deactivate_user restore_user update_user_by_sub set_platform_roles_by_sub
  IsMaintainer-needed op now id new_id sub name names s s' u (inl e) =
      (by_operator s op _ (λ user.
          Gives-run s (λ v. MayMaintain s user "edit") env.base usecase op _
            (λ allowed. switch_checked s op now user id _))).at
        u s' e
  IsMaintainer-needed op now id new_id sub name names s s' u (inr (inl e)) =
      (by_operator s op _ (λ user.
          Gives-run s (λ v. MayMaintain s user "edit") env.base usecase op _
            (λ allowed. switch_checked s op now user id _))).at
        u s' e
  IsMaintainer-needed op now id new_id sub name names s s' u (inr (inr (inl e))) =
      (by_operator s op _ (λ user. first_checked s user _)).at tt s' e
  IsMaintainer-needed op now id new_id sub name names s s' u (inr (inr (inr e))) =
      (by_operator s op _ (λ user. first_checked s user _)).at tt s' e
