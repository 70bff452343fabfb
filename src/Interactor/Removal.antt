-- ===== src/Interactor/Removal.antt =====
-- server/internal/usecase/interactor/workspace.go: the members after `RemoveMultipleUserMembers`
use reearth_accounts.Prelude.{
  ℕ, ◌≡◌, Bool, false, not, ◌&&◌, List, [], ◌∷◌, ◌==◌, ◌≢◌, arith, ◌∙◌, ap, ok, >>=-eq-ok, fail_if,
  owner_cannot_leave_the_workspace,
}
use reearth_accounts.Prelude.Dict.{has_key, erase}
use reearth_accounts.Prelude.Lists.{contains}
use reearth_accounts.Workspace.Entity.{Workspace}
use reearth_accounts.Workspace.Member.{Members, is_only_owner, leave, erase_all, has_user}
use reearth_accounts.Workspace.Member.Effects.{has_key-erase_all}
use reearth_accounts.Workspace.Operator.{Operator}
use reearth_accounts.Action.Post.{
  Gives, Gives-pure, Gives-fail, Gives-any, Gives-lift, Gives-reads, same_value,
}
use reearth_accounts.Interactor.Env.{Env, Gives-run}
use reearth_accounts.Interactor.Guard.{apply_default_policy, apply_default_policy_members}
use reearth_accounts.Interactor.Leaving.{leave_all}
use reearth_accounts.Interactor.Members.{
  with_members, none_given, remove_multiple_user_members, removing,
}

left_users : (m m' : Members) (u : ℕ) → leave m u ≡ ok m' → m'.users ≡ erase u m.users
unfolding leave
left_users m m' u e = ground arith

-- The loop takes the listed users out, who were members, and the workspace was not personal.
leave_all_users :
    (later : ℕ → ℕ → Bool) (operator : ℕ) (m m' : Members) (users : List ℕ)
    → leave_all later operator m users ≡ ok m'
    → m'.users ≡ erase_all users m.users
unfolding leave_all leave
leave_all_users later operator m m' [] e = ground arith
leave_all_users later operator m m' (u ∷ users) e =
    let (t, guarded, rest) =
      >>=-eq-ok
        (fail_if (operator == u && is_only_owner later m u) owner_cannot_leave_the_workspace) _ e in
    let (m1, left, more) = >>=-eq-ok (leave m u) _ rest in
    leave_all_users later operator m1 m' users more ∙ ap (erase_all users) (left_users m m1 u left)

module _ {S : Type 0} (env : Env S) (op : Operator) (now : ℕ) (fresh : ℕ → ℕ) where
  abbrev pub Removed : List ℕ → Members → Workspace → Type 0
  Removed users m w' =
      (users ≢ [])
      × (m.fixed ≡ false)
      × ((v : ℕ) → has_user w'.members v ≡ (has_user m v && not (contains v users)))

  removed :
      (user id : ℕ) (users : List ℕ) (s : S) (w : Workspace)
      → users ≢ []
      → env.repos.find_workspace id s ≡ ok w
      → Gives s (removing env op now fresh user id users) (Removed users w.members)
  unfolding removing
  removed user id users s w listed found =
      let P = Removed users w.members in
      Gives-reads s P _ _ (λ w1 e. Gives-fail s P _ _ _ (λ not_personal. Gives-any s P _ _ (λ x s1.
        Gives-lift s1 P _ _ (λ m left. Gives-any s1 P _ _ (λ y s2. Gives-any s2 P _ _ (λ z s3.
          Gives-pure s3 P _ (
            same_value
              (λ w0. Removed users w0.members (apply_default_policy (with_members w1 m) op now)) e
              found
              (
                listed,
                not_personal,
                λ v.
                    ap (λ mm. has_user mm v)
                      (apply_default_policy_members (with_members w1 m) op now)
                    ∙ ap (λ d. has_key v d)
                        (leave_all_users env.idx.later user w1.members m users left)
                    ∙ has_key-erase_all users v w1.members.users,
              ))))))))

  some_listed : (users : List ℕ) → none_given users ≡ false → users ≢ []
  some_listed [] given = absurd (ground arith)
  some_listed (u ∷ users) given = λ e. cc

  -- If `RemoveMultipleUserMembers` succeeds, some user was listed and the workspace was not
  -- personal; exactly the members who are not listed are left.
  pub remove_multiple_user_members_effect :
      (id : ℕ) (users : List ℕ) (s s' : S) (w w' : Workspace)
      → env.repos.find_workspace id s ≡ ok w
      → remove_multiple_user_members env op now fresh id users s ≡ (ok w', s')
      → Removed users w.members w'
  unfolding remove_multiple_user_members
  remove_multiple_user_members_effect id users s s' w w' found e =
      let P = Removed users w.members in
      (Gives-lift s P _ _ (λ u given. Gives-fail s P _ _ _ (λ some_given.
          Gives-run s P env _ op _
            (λ allowed. removed u id users s w (some_listed users some_given) found)))).at
        w' s' e
