-- ===== src/Interactor/Permission/Allowed.antt =====
-- What the service was asked, and what it answered, when `CheckPermission` allows something.
use Prim.Native.String.{◌++◌}
use reearth_accounts.Prelude.{
  ℕ, Error, String, ◌≡◌, refl, ap, ◌∙◌, >>=-eq-ok, ◌&&◌, Bool, true, false, Option, none, some,
  List, [], ◌∷◌, ◌++◌ as append, ◌==◌, str_eq, Result, ok, err, not_found, map, sym, ◌⊎◌, inl, inr,
  Bool-cases, Option-cases, arith, ◌>>=◌,
}
use reearth_accounts.Prelude.Lists.{contains, some_where}
use reearth_accounts.Role.{Role}
use reearth_accounts.Permittable.{Permittable, WorkspaceRole}
use reearth_accounts.Workspace.Entity.{Workspace}
use reearth_accounts.Interactor.Guard.{or_absent}
use reearth_accounts.Interactor.Permission.{
  PermissionParam, Response, Gateway, PermissionEnv, roles_in, names, is_allowed, given,
  resource_kind, roles_at, check_workspace_permission, workspace_role_ids, resource_id, check_with,
  check_found, asked_by, check_permission_by_service,
}

-- The roles of a workspace are the roles that some entry gives for it.
contains-roles_in :
    (w role : ℕ) (rs : List WorkspaceRole)
    → contains role (roles_in w rs)
      ≡ some_where (λ (r : WorkspaceRole). r.id == w && r.role_id == role) rs
contains-roles_in w role [] = refl
contains-roles_in w role (r ∷ rs) = ground (arith, contains-roles_in w role rs)

names-eq-map : (roles : List Role) → map (λ (r : Role). r.name) roles ≡ names roles
names-eq-map [] = refl
names-eq-map (r ∷ roles) = ap (λ l. r.name ∷ l) (names-eq-map roles)

module _ {S : Type 0} (env : PermissionEnv S) (user : ℕ) (q : PermissionParam) (s : S) where
  -- Some result of the response names the action and allows it.
  abbrev pub HasAllowed : Response → Type 0
  HasAllowed response =
      (before : Response) × (result : String → Option Bool) × (after : Response) × (response
        ≡ append before (result ∷ after))
      × (result q.action ≡ some true)

  -- Nobody has the alias, and there are no roles; or they are those that some entry of the permittable
  -- gives for the workspace with the alias.
  abbrev pub IsOfWorkspace : Permittable → List ℕ → Type 0
  IsOfWorkspace p in_workspace =
      ((env.find_by_alias q.workspace_alias s ≡ err not_found) × (in_workspace ≡ []))
      ⊎ ((w : Workspace) × (env.find_by_alias q.workspace_alias s ≡ ok w)
          × ((role : ℕ)
              → contains role in_workspace
                ≡ some_where (λ (r : WorkspaceRole). r.id == w.id && r.role_id == role)
                    p.workspace_roles))

  -- The roles in the workspace, and the identifier of the resource: they depend on whether a
  -- workspace is named.
  abbrev pub IsAsked : Permittable → List ℕ → String → Type 0
  IsAsked p in_workspace resource =
      ((str_eq q.workspace_alias "" ≡ true)
        × (in_workspace ≡ [])
        × (resource ≡ (q.service ++ ":" ++ q.resource) ++ ":" ++ env.id_text user))
      ⊎ ((str_eq q.workspace_alias "" ≡ false)
          × IsOfWorkspace p in_workspace
          × (resource
              ≡ (q.service ++ ":" ++ q.resource)
                ++ ":"
                ++ q.workspace_alias
                ++ ":"
                ++ env.id_text user))

  -- The service allows the action to the names of the user's roles: the global ones, and before them
  -- those in the workspace.
  abbrev pub IsAllowedWith : Gateway S → Permittable → Type 0
  IsAllowedWith gateway p =
      (in_workspace : List ℕ) × (resource : String) × (roles : List Role) × (response : Response)
      × IsAsked p in_workspace resource
      × (env.find_roles (append in_workspace p.role_ids) s ≡ ok roles)
      × (gateway (env.id_text user) (map (λ (r : Role). r.name) roles)
            (q.service ++ ":" ++ q.resource) resource q.action s
          ≡ ok (some response))
      × HasAllowed response

  allowed_result : (rs : Response) → is_allowed q.action rs ≡ true → HasAllowed rs
  allowed_result [] h = cc
  allowed_result (r ∷ rs) h = elim (Option-cases (r q.action)) [
    | inl e ↦
        let (before, result, after, split, allows) = allowed_result rs (rw e at h) in
        (r ∷ before, result, after, ap (λ l. r ∷ l) split, allows)
    | inr (b, e) ↦ elim (Bool-cases b) [
      | inl yes_b ↦ ([], r, rs, refl, e ∙ ap some yes_b)
      | inr no_b ↦
          let (before, result, after, split, allows) =
            allowed_result rs (rw (e ∙ ap some no_b) at h) in
          (r ∷ before, result, after, ap (λ l. r ∷ l) split, allows)
    ]
  ]

  right_value : (ids ids' : List ℕ) → ok ids ≡ ok ids' → ids ≡ ids'
  right_value ids ids' e = ground arith

  of_workspace :
      (p : Permittable) (ids : List ℕ) (r : Result Workspace)
      → env.find_by_alias q.workspace_alias s ≡ r
      → (or_absent r >>= λ w. ok (roles_at env p w)) ≡ ok ids
      → IsOfWorkspace p ids
  of_workspace p ids (ok w) found e = inr (
    w,
    found,
    λ role.
        ap (contains role) (sym (right_value _ ids e))
        ∙ contains-roles_in w.id role p.workspace_roles,
  )
  of_workspace p ids (err not_found) found e = inl (found, ground arith)
  of_workspace p ids (err x) found e = absurd (ground arith)

  asked :
      (p : Permittable) (ids : List ℕ)
      → workspace_role_ids env p q.workspace_alias s ≡ ok ids
      → IsAsked p ids (resource_id env q user)
  unfolding check_workspace_permission
  asked p ids e = elim (Bool-cases (str_eq q.workspace_alias "")) [
    | inl unnamed ↦ inl (unnamed, ground (arith, rw unnamed at e), rw unnamed refl)
    | inr named ↦ inr (named, of_workspace p ids _ refl (rw named at e), rw named refl)
  ]

  given_value : (r : Option Response) (results : Response) → given r ≡ ok results → r ≡ some results
  given_value none results e = cc
  given_value (some r) results e = ground arith

  allowed_with :
      (gateway : Gateway S) (p : Permittable)
      → check_with env gateway user q p s ≡ ok true
      → IsAllowedWith gateway p
  unfolding check_with
  allowed_with gateway p e =
      let (ids, e1, rest1) = >>=-eq-ok (workspace_role_ids env p q.workspace_alias s) _ e in
      let (roles, e2, rest2) = >>=-eq-ok (env.find_roles (append ids p.role_ids) s) _ rest1 in
      let (response, e3, rest3) =
        >>=-eq-ok
          (gateway (env.id_text user) (names roles) (resource_kind q) (resource_id env q user)
            q.action s)
          _ rest2 in
      let (results, e4, rest4) = >>=-eq-ok (given response) _ rest3 in
      let answered =
        ap (λ l. gateway (env.id_text user) l (resource_kind q) (resource_id env q user) q.action s)
          (sym (names-eq-map roles))
        ∙ e3
        ∙ ap ok (given_value response results e4) in
      (
        ids,
        resource_id env q user,
        roles,
        results,
        asked p ids e1,
        e2,
        answered,
        allowed_result results (ground arith),
      )

  only_true : (r : Result Bool) → (r >>= λ b. ok (some b)) ≡ ok (some true) → r ≡ ok true
  only_true (err e) h = cc
  only_true (ok b) h = ground arith

  never_present :
      (x : Error) (v : Permittable) → or_absent {A = Permittable} (err x) ≡ ok (some v) → ⊥
  never_present x v e = ground arith

  found_value :
      (r : Result Permittable) (found : Option Permittable) (gateway : Gateway S)
      → or_absent r ≡ ok found
      → check_found env gateway user q found s ≡ ok (some true)
      → (p : Permittable) × (r ≡ ok p) × (check_with env gateway user q p s ≡ ok true)
  found_value (ok p) none gateway e f = cc
  found_value (ok p) (some v) gateway e f = (v, ground arith, only_true _ f)
  found_value (err x) none gateway e f = cc
  found_value (err x) (some v) gateway e f = absurd (never_present x v e)

  allowed_by :
      (g : Option (Gateway S))
      → asked_by env g user q s ≡ ok (some true)
      → (gateway : Gateway S) × (p : Permittable) × (g ≡ some gateway)
        × (env.find_permittable user s ≡ ok p)
        × IsAllowedWith gateway p
  allowed_by none h = absurd (ground arith)
  allowed_by (some gateway) h =
      let (found, e1, rest) =
        >>=-eq-ok (or_absent (env.find_permittable user s))
          (λ p. check_found env gateway user q p s) h in
      let (p, e2, checked) = found_value (env.find_permittable user s) found gateway e1 rest in
      (gateway, p, refl, e2, allowed_with gateway p checked)

  -- If `CheckPermission` allows something, a service is configured, the user has a permittable, and
  -- the service was asked for the action, the identifier of the resource and the names of the roles
  -- that are found for the permittable, and some result of its response allows the action. The roles
  -- are its global ones and, where a workspace is named and found, exactly those that an entry of the
  -- permittable gives for that very workspace.
  pub check_permission_allowed :
      check_permission_by_service env user q s ≡ ok (some true)
      → (gateway : Gateway S) × (p : Permittable) × (env.gateway ≡ some gateway)
        × (env.find_permittable user s ≡ ok p)
        × IsAllowedWith gateway p
  unfolding check_permission_by_service
  check_permission_allowed h = allowed_by env.gateway h
