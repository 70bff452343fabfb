-- ===== src/Memory/Permittables.antt =====
-- server/internal/infrastructure/memory/permittable.go
use reearth_accounts.Prelude.{ℕ, none, some, List, [], ◌∷◌, ◌==◌, Result, ok, err, not_found}
use reearth_accounts.Prelude.Dict.{Dict, insert}
use reearth_accounts.Prelude.Lists.{contains}
use reearth_accounts.Permittable.{Permittable}
use reearth_accounts.Memory.Texts.{first_value, all_values, found_or_not_found}

abbrev pub Permittables : Type 0
Permittables = Dict Permittable

-- `if len(results) == 0 { return nil, rerror.ErrNotFound }`
abbrev unless_empty : List Permittable → Result (List Permittable)
unless_empty [] = err not_found
unless_empty (p ∷ ps) = ok (p ∷ ps)

-- `FindByUserID`
unfoldable pub find_by_user_id : Permittables → ℕ → Result Permittable
find_by_user_id d u = found_or_not_found (first_value (λ (p : Permittable). p.user_id == u) d)

-- The loops of `FindByUserIDs`
abbrev of_users : Permittables → List ℕ → List Permittable
of_users d [] = []
of_users d (u ∷ us) =
    let rest = of_users d us in
    elim (first_value (λ (p : Permittable). p.user_id == u) d) [ none ↦ rest | some p ↦ p ∷ rest ]

-- `FindByUserIDs`
unfoldable pub find_by_user_ids : Permittables → List ℕ → Result (List Permittable)
find_by_user_ids d us = unless_empty (of_users d us)

-- `FindByRoleID`
unfoldable pub find_by_role_id : Permittables → ℕ → Result (List Permittable)
find_by_role_id d role =
    unless_empty (all_values (λ k (p : Permittable). contains role p.role_ids) d)

-- `Save`
abbrev pub save : Permittables → Permittable → Permittables
save d p = insert p.id p d

-- `SaveMany`
abbrev pub save_many : Permittables → List Permittable → Permittables
save_many d [] = d
save_many d (p ∷ ps) = save_many (save d p) ps
