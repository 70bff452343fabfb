-- ===== src/Interactor/Permission.antt =====
-- server/internal/usecase/interactor/cerbos.go: `CheckPermission`, which asks the service with the
-- names of a user's roles. `Gateway` is the service of server/internal/infrastructure/cerbos.
pub mod Allowed
use Prim.Native.String.{◌++◌}
use reearth_accounts.Prelude.{
  ℕ, Error, String, ◌≡◌, refl, ap, ◌∙◌, >>=-eq-ok, ◌&&◌, Bool, true, false, Option, none, some,
  List, [], ◌∷◌, ◌++◌ as append, ◌==◌, str_eq, Result, ok, err, operation_denied, not_found, map,
  sym, ◌⊎◌, inl, inr, Bool-cases, Option-cases, arith, ◌>>=◌, if◌then◌else◌,
}
use reearth_accounts.Prelude.Lists.{contains, some_where}
use reearth_accounts.Role.{Role}
use reearth_accounts.Permittable.{Permittable, WorkspaceRole}
use reearth_accounts.Workspace.Entity.{Workspace}
use reearth_accounts.Interactor.Guard.{or_absent}

-- `interfaces.CheckPermissionParam`
pub record PermissionParam : Type 0 where
  pub service : String
  pub resource : String
  pub action : String
  pub workspace_alias : String

-- One result of a response: whether the effect of an action is to allow it, `none` if the result does
-- not name the action
abbrev pub Response : Type 0
Response = List (String → Option Bool)

-- `CheckPermissions` for a principal with its roles, a kind and an identifier of a resource and an
-- action; a nil response is `none`.
abbrev pub Gateway : Type 0 → Type 0
Gateway S = String → List String → String → String → String → S → Result (Option Response)

pub record PermissionEnv (S : Type 0) : Type 0 where
  pub gateway : Option (Gateway S)
  pub find_permittable : ℕ → S → Result Permittable
  pub find_by_alias : String → S → Result Workspace
  pub find_roles : List ℕ → S → Result (List Role)
  pub id_text : ℕ → String

-- The loop of `checkWorkspacePermission`
abbrev pub roles_in : ℕ → List WorkspaceRole → List ℕ
roles_in w [] = []
roles_in w (r ∷ rs) = let rest = roles_in w rs in if r.id == w then r.role_id ∷ rest else rest

abbrev pub names : List Role → List String
names [] = []
names (r ∷ rs) = r.name ∷ names rs

-- The last loop of `CheckPermission`
abbrev pub is_allowed : String → Response → Bool
is_allowed action [] = false
is_allowed action (r ∷ rs) =
    let rest = is_allowed action rs in
    elim (r action) [ none ↦ rest | some allow ↦ if allow then true else rest ]

abbrev pub given : Option Response → Result Response
given none = err operation_denied
given (some r) = ok r

abbrev pub resource_kind : PermissionParam → String
resource_kind q = q.service ++ ":" ++ q.resource

module _ {S : Type 0} (env : PermissionEnv S) where
  abbrev pub roles_at : Permittable → Option Workspace → List ℕ
  roles_at p none = []
  roles_at p (some w) = roles_in w.id p.workspace_roles

  -- `checkWorkspacePermission`
  unfoldable pub check_workspace_permission : Permittable → String → S → Result (List ℕ)
  check_workspace_permission p alias s =
      or_absent (env.find_by_alias alias s) >>= λ w. ok (roles_at p w)

  -- The roles of the workspace, where one is named
  abbrev pub workspace_role_ids : Permittable → String → S → Result (List ℕ)
  workspace_role_ids p alias s =
      let found = check_workspace_permission p alias s in if str_eq alias "" then ok [] else found

  abbrev pub resource_id : PermissionParam → ℕ → String
  resource_id q user =
      if str_eq q.workspace_alias ""
      then resource_kind q ++ ":" ++ env.id_text user
      else resource_kind q ++ ":" ++ q.workspace_alias ++ ":" ++ env.id_text user

  -- `CheckPermission` for a user with a permittable
  unfoldable pub check_with : Gateway S → ℕ → PermissionParam → Permittable → S → Result Bool
  check_with gateway user q p s = do
    in_workspace ← workspace_role_ids p q.workspace_alias s
    roles ← env.find_roles (append in_workspace p.role_ids) s
    response ←
        gateway (env.id_text user) (names roles) (resource_kind q) (resource_id q user) q.action s
    results ← given response
    ok (is_allowed q.action results)

  abbrev pub check_found :
      Gateway S → ℕ → PermissionParam → Option Permittable → S → Result (Option Bool)
  check_found gateway user q none s = ok (some false)
  check_found gateway user q (some p) s = check_with gateway user q p s >>= λ b. ok (some b)

  abbrev pub asked_by : Option (Gateway S) → ℕ → PermissionParam → S → Result (Option Bool)
  asked_by none user q s = ok none
  asked_by (some gateway) user q s =
      or_absent (env.find_permittable user s) >>= λ p. check_found gateway user q p s

  -- `CheckPermission`; `none` where no service is configured
  unfoldable pub check_permission_by_service : ℕ → PermissionParam → S → Result (Option Bool)
  check_permission_by_service user q s = asked_by env.gateway user q s
