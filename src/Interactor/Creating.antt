-- ===== src/Interactor/Creating.antt =====
-- server/internal/usecase/interactor/workspace.go: `Create`. `trim` is `strings.TrimSpace`, `id_text`
-- the text of an identifier, `wid` what `NewID` gives, `now` the readings of the clock in one call,
-- and `role_id` and `new_id` the identifiers of a new role and a new permittable. The operator that
-- `AddNewWorkspace` changes is a part of the result.
use Prim.Native.String.{◌++◌}
use reearth_accounts.Prelude.{
  ℕ, String, ◌≡◌, refl, ap, subst, ◌∙◌, sym, Bool, true, false, not, Option, none, some, List, [],
  ◌∷◌, str_eq, arith, Result, ok, err, invalid_name, not_found, failed, duplicate_workspace_alias,
  workspace_alias_already_exists, if◌then◌else◌,
}
use reearth_accounts.Role.{owner}
use reearth_accounts.User.Account.{User}
use reearth_accounts.Workspace.Entity.{Workspace, new_metadata, set_description}
use reearth_accounts.Workspace.Builder.{
  Builder, new, build, with_id, with_alias, with_name, with_metadata, with_created_at,
  with_created_by,
}
use reearth_accounts.Workspace.Member.{Members, new_members, new_member, join}
use reearth_accounts.Workspace.Operator.{Operator, add_new_workspace}
use reearth_accounts.Action.{Action, pure, lift, reads, fail_when, only_when, ◌>>=◌, ◌>>◌}
use reearth_accounts.Action.Post.{
  Gives, Gives-pure, Gives-fail, Gives-any, Gives-lift, Gives-reads, same_value,
}
use reearth_accounts.Interactor.Env.{Env, usecase, run, Gives-run}
use reearth_accounts.Interactor.Guard.{
  operator_user, apply_default_policy, apply_default_policy_members, apply_default_policy_id,
  operator_user_value,
}
use reearth_accounts.Interactor.Permits.{update_permittable}
use reearth_accounts.Interactor.Members.{with_members}

-- `firstUsers[0]`, or the error if there is none
abbrev first_of : List (Option User) → Result (Option User)
first_of [] = err not_found
first_of (u ∷ us) = ok u

first_value :
    (us : List (Option User)) (first : Option User) (u : User)
    → us ≡ some u ∷ []
    → first_of us ≡ ok first
    → some u ≡ first
first_value [] first u e f = cc
first_value (v ∷ us) first u e f = ground arith

-- A method of a nil user panics.
abbrev present : Option User → Result User
present none = err failed
present (some u) = ok u

-- What `Create` makes of an error of the repository
abbrev known_error : {S : Type 0} → Result (Unit {0}) × S → Result (Unit {0}) × S
known_error (err duplicate_workspace_alias, s) = (err workspace_alias_already_exists, s)
known_error (r, s) = (r, s)

abbrev join_as_owner : Bool → ℕ → Members → Option User → Result Members
join_as_owner true by m u = ok m
join_as_owner false by m none = err failed
join_as_owner false by m (some u) = join m u.id u.host owner by

module _ {S : Type 0} (env : Env S) (op : Operator) (now : ℕ) (wid role_id new_id : ℕ)
    (trim : String → String) (id_text : ℕ → String) where
  -- The alias that is asked for, or one of the identifier
  abbrev alias_for : String → String
  alias_for alias = if str_eq (trim alias) "" then "w-" ++ id_text wid else trim alias

  -- The chain of builder calls in `Create`
  abbrev builder : String → String → String → Builder
  builder alias name description =
      with_created_by
        (with_created_at
          (with_name
            (with_metadata (with_alias (with_id new wid) (alias_for alias))
              (set_description new_metadata description))
            name)
          (some now))
        op.user

  abbrev grant : Option User → ℕ → Action S (Unit {0})
  grant u workspace_id = do
    first ← lift (present u)
    update_permittable env now first.id workspace_id owner role_id new_id

  -- The body of `Create`, by a user, for the first user that was fetched
  unfoldable pub creating :
      ℕ → String → String → String → Option User → Bool → Action S (Workspace × Operator)
  creating user alias name description first skip = do
    w ← lift (build env.idx.is_empty (builder alias name description) now now)
    members ← lift (join_as_owner skip user w.members first)
    (λ s. known_error (env.repos.create_workspace (with_members w members) s))
    only_when (not skip) (grant first w.id)
    pure (
      apply_default_policy (with_members w members) op now,
      if skip then op else add_new_workspace op w.id,
    )

  -- `Create`
  unfoldable pub create : String → String → String → ℕ → Bool → Action S (Workspace × Operator)
  create alias name description first_user skip = do
    user ← lift (operator_user op)
    fail_when (str_eq (trim name) "") invalid_name
    fetched ← reads (env.repos.fetch_users (first_user ∷ []))
    first ← lift (first_of fetched)
    run env usecase op (creating user alias name description first skip)

  -- The workspace is not personal; either nobody is a member and the operator is as before, or the
  -- first user is its only member and an owner, and the operator owns it.
  abbrev pub Created : ℕ → User → Bool → Workspace × Operator → Type 0
  Created user u skip r =
      (r.0.id ≡ wid)
      × (r.0.members.fixed ≡ false)
      × (r.0.members.users ≡ (if skip then [] else (u.id, new_member owner user u.host) ∷ []))
      × (r.1 ≡ (if skip then op else add_new_workspace op wid))

  built :
      (alias name description : String) (w : Workspace)
      → build env.idx.is_empty (builder alias name description) now now ≡ ok w
      → (w.id ≡ wid) × (w.members ≡ new_members)
  unfolding build
  built alias name description w e = ground arith

  joined :
      (user : ℕ) (u : User) (skip : Bool) (m : Members)
      → join_as_owner skip user new_members (some u) ≡ ok m
      → (m.fixed ≡ false)
        × (m.users ≡ (if skip then [] else (u.id, new_member owner user u.host) ∷ []))
  unfolding join
  joined user u true m e = ground arith
  joined user u false m e = ground arith

  created :
      (user : ℕ) (alias name description : String) (u : User) (skip : Bool) (s : S)
      → Gives s (creating user alias name description (some u) skip) (Created user u skip)
  unfolding creating
  created user alias name description u skip s =
      let P = Created user u skip in
      Gives-lift s P _ _ (λ w e.
        let (same_id, empty) = built alias name description w e in
        Gives-lift s P _ _ (λ m joins.
          let (not_fixed, users) = joined user u skip m (rw empty at joins) in
          Gives-any s P _ _ (λ x s1. Gives-any s1 P _ _ (λ y s2. Gives-pure s2 P _ (
            apply_default_policy_id (with_members w m) op now ∙ same_id,
            ap (λ (ms : Members). ms.fixed) (apply_default_policy_members (with_members w m) op now)
                ∙ not_fixed,
            ap (λ (ms : Members). ms.users) (apply_default_policy_members (with_members w m) op now)
                ∙ users,
            ap (λ i. if skip then op else add_new_workspace op i) same_id,
          )))))

  -- If `Create` succeeds for a first user who was fetched, the new workspace has the new identifier
  -- and is not personal. With `skipOwnerMembership` nobody is a member and the operator is as
  -- before; otherwise the first user is the only member and has the role of owner, and the operator
  -- has been given the workspace to own.
  pub create_effect :
      (user first_user : ℕ) (alias name description : String) (u : User) (skip : Bool) (s s' : S)
      (r : Workspace × Operator)
      → op.user ≡ some user
      → env.repos.fetch_users (first_user ∷ []) s ≡ ok (some u ∷ [])
      → create alias name description first_user skip s ≡ (ok r, s')
      → Created user u skip r
  unfolding create
  create_effect user first_user alias name description u skip s s' r is_user fetches e =
      let P = Created user u skip in
      (Gives-lift s P _ _ (λ v given. Gives-fail s P _ _ _ (λ named.
          Gives-reads s P _ _ (λ fetched e1. Gives-lift s P _ _ (λ first e2.
            Gives-run s P env _ op _ (λ allowed.
              subst (λ t. Gives s (creating t alias name description first skip) P)
                (sym (operator_user_value op user v is_user given))
                (subst (λ t. Gives s (creating user alias name description t skip) P)
                  (first_value fetched first u (same_value (λ l. l ≡ some u ∷ []) fetches e1 refl)
                    e2)
                  (created user alias name description u skip s)))))))).at
        r s' e
