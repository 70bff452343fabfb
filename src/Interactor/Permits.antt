-- ===== src/Interactor/Permits.antt =====
-- server/internal/usecase/interactor/workspace.go: how the use cases keep the permittables in step
-- with the members. `now` stands for the readings of the clock in one call.
use reearth_accounts.Prelude.{
  ℕ, String, ◌&&◌, Option, none, some, List, [], ◌∷◌, ◌==◌, ok, err, failed, if◌then◌else◌,
}
use reearth_accounts.Role.{Role, RoleType, build as build_role}
use reearth_accounts.Permittable.{
  Permittable, build as build_permittable, remove_workspace_role, update_workspace_role,
}
use reearth_accounts.Action.{Action, pure, lift, reads, ◌>>=◌, ◌>>◌}
use reearth_accounts.Interactor.Env.{Env}
use reearth_accounts.Interactor.Guard.{is_not_found, or_absent}

abbrev pub new_permittable : ℕ → ℕ → Permittable
new_permittable id user_id = record {
  id = id;
  user_id = user_id;
  role_ids = [];
  workspace_roles = [];
  updated_at = 0;
}

-- `RemoveWorkspaceRole` of the permittables of a loop, and those whose `UpdatedAt` is another then
abbrev pub removals : ℕ → ℕ → List Permittable → List Permittable
removals workspace_id now [] = []
removals workspace_id now (p ∷ ps) =
    let rest = removals workspace_id now ps in
    elim (remove_workspace_role (some p) workspace_id now) [
      | none ↦ rest
      | some p' ↦ if p'.updated_at == p.updated_at then rest else p' ∷ rest
    ]

abbrev pub list_or_empty : Option (List Permittable) → List Permittable
list_or_empty none = []
list_or_empty (some ps) = ps

module _ {S : Type 0} (env : Env S) (now : ℕ) where
  -- `FindByName`, or the role made in its place when authentication is mocked
  abbrev pub role_for : String → ℕ → Action S Role
  role_for name new_role_id s = elim (env.repos.find_role name s) [
    | ok r ↦ (ok r, s)
    | err e ↦
        if is_not_found e && env.mock_auth
        then (do
          r ← lift (
              build_role env.idx.is_empty (record { id = new_role_id; name = name; updated_at = 0 })
                now)
          env.repos.save_role r
          pure r)
            s
        else (err e, s)
  ]

  abbrev permittable_for : ℕ → ℕ → Action S Permittable
  permittable_for user_id new_id = do
    found ← reads (λ s. or_absent (env.repos.find_permittable user_id s))
    elim found [
      | some p ↦ pure p
      | none ↦ lift (build_permittable env.idx.is_empty (new_permittable new_id user_id) now)
    ]

  -- `*p` of a nil pointer panics
  abbrev save_found : Option Permittable → Action S (Unit {0})
  save_found none = lift (err failed)
  save_found (some p) = env.repos.save_permittable p

  -- `updatePermittable`; the two identifiers are what `NewID` gives for a role and a permittable.
  unfoldable pub update_permittable : ℕ → ℕ → RoleType → ℕ → ℕ → Action S (Unit {0})
  update_permittable user_id workspace_id role_name new_role_id new_id = do
    r ← role_for role_name new_role_id
    p ← permittable_for user_id new_id
    save_found (update_workspace_role (some p) workspace_id r.id now)

  abbrev save_some : List Permittable → Action S (Unit {0})
  save_some [] = pure tt
  save_some (p ∷ ps) = env.repos.save_permittables (p ∷ ps)

  -- `bulkRemovePermittable`
  unfoldable pub bulk_remove_permittable : ℕ → List ℕ → Action S (Unit {0})
  bulk_remove_permittable workspace_id [] = pure tt
  bulk_remove_permittable workspace_id (u ∷ us) = do
    existing ← reads (λ s. or_absent (env.repos.find_permittables (u ∷ us) s))
    save_some (removals workspace_id now (list_or_empty existing))
