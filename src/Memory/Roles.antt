-- ===== src/Memory/Roles.antt =====
-- server/internal/infrastructure/memory/role.go
use reearth_accounts.Prelude.{ℕ, String, none, some, List, [], ◌∷◌, str_eq, Result}
use reearth_accounts.Prelude.Dict.{Dict, lookup, insert, erase}
use reearth_accounts.Role.{Role}
use reearth_accounts.Memory.Texts.{first_value, found_or_not_found}

abbrev pub Roles : Type 0
Roles = Dict Role

-- `FindAll`
abbrev pub find_all : Roles → List Role
find_all [] = []
find_all ((k, r) ∷ d) = r ∷ find_all d

-- `FindByID`
unfoldable pub find_by_id : Roles → ℕ → Result Role
find_by_id d id = found_or_not_found (lookup id d)

-- `FindByIDs`
unfoldable pub find_by_ids : Roles → List ℕ → List Role
find_by_ids d [] = []
find_by_ids d (id ∷ ids) =
    let rest = find_by_ids d ids in elim (lookup id d) [ none ↦ rest | some r ↦ r ∷ rest ]

-- `FindByName`
unfoldable pub find_by_name : Roles → String → Result Role
find_by_name d name = found_or_not_found (first_value (λ (r : Role). str_eq r.name name) d)

-- `Save`
abbrev pub save : Roles → Role → Roles
save d r = insert r.id r d

-- `Remove`
abbrev pub remove : Roles → ℕ → Roles
remove d id = erase id d
