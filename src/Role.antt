-- ===== src/Role.antt =====
-- server/pkg/role: the role types of enum.go, in their order, and the `Role` records of role.go and
-- builder.go. A `RoleType` is any string, as in the source.
pub mod Order
mod Tests
use reearth_accounts.Prelude.{
  ℕ, String, ◌≡◌, Bool, true, false, ◌||◌, ◌&&◌, Option, none, some, List, [], ◌∷◌, str_eq, ◌==◌,
  if◌then◌else◌, Result, ok, err, invalid_role, invalid_id, empty_name,
}

abbrev pub RoleType : Type 0
RoleType = String

abbrev pub owner : RoleType
owner = "owner"

abbrev pub maintainer : RoleType
maintainer = "maintainer"

abbrev pub writer : RoleType
writer = "writer"

abbrev pub reader : RoleType
reader = "reader"

abbrev pub self : RoleType
self = "self"

abbrev pub role_types : List RoleType
role_types = owner ∷ maintainer ∷ writer ∷ reader ∷ self ∷ []

-- `slices.Contains` on strings
abbrev pub contains_text : String → List String → Bool
contains_text s [] = false
contains_text s (t ∷ ts) = str_eq s t || contains_text s ts

-- `RoleType.Valid`
unfoldable pub valid : RoleType → Bool
valid r = contains_text r role_types

-- `RoleFrom`: the role comes back beside the error too. `lower` is `strings.ToLower`.
unfoldable pub role_from : (String → String) → String → RoleType × Result (Unit {0})
unfolding valid
role_from lower r =
    let role = lower r in if valid role then (role, ok tt) else (role, err invalid_role)

-- The two loops of `RoleType.Includes`, from one position of `roleTypes` on.
includes_from : RoleType → RoleType → List RoleType → Bool
includes_from r role [] = false
includes_from r role (r2 ∷ rest) =
    let later = includes_from r role rest in
    if str_eq r r2 then (if contains_text role (r2 ∷ rest) then true else later) else later

-- `RoleType.Includes`
unfoldable pub includes : RoleType → RoleType → Bool
unfolding valid includes_from
includes r role = if valid r then includes_from r role role_types else false

-- role.go. An identifier is the number that its 16 bytes spell, and the zero `ID{}` is 0.
pub record Role : Type 0 where
  pub id : ℕ
  pub name : String
  pub updated_at : ℕ

-- `Role.Rename`, on a pointer that may be nil; `now` is `time.Now()`.
unfoldable pub rename : Option Role → String → ℕ → Option Role
rename none name now = none
rename (some r) name now = some (record r { name = name; updated_at = now })

-- `Builder.Build`; `is_nil` is the test `IsNil` of idx.ID.
unfoldable pub build : (ℕ → Bool) → Role → ℕ → Result Role
build is_nil r now =
    if is_nil r.id
    then err invalid_id
    else if str_eq r.name ""
    then err empty_name
    else if r.updated_at == 0
    then ok (record r { updated_at = now })
    else ok r

-- builder.go: `New`, and the setters `ID`, `Name` and `UpdatedAt`. A builder is the role it fills.
abbrev pub new : Role
new = record { id = 0; name = ""; updated_at = 0 }

abbrev pub with_id : Role → ℕ → Role
with_id b id = record b { id = id }

abbrev pub with_name : Role → String → Role
with_name b name = record b { name = name }

abbrev pub with_updated_at : Role → ℕ → Role
with_updated_at b t = record b { updated_at = t }
