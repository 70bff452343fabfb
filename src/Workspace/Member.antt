-- ===== src/Workspace/Member.antt =====
-- server/pkg/workspace/member.go: the members of a workspace. Each method takes the members and
-- returns the new ones; it holds the lock throughout, so a call is one step. A failed call returns
-- an error and leaves the members as they were. `later a b` is the test `a.Compare(b) > 0` of
-- idx.ID, by which the listings are sorted.
pub mod Invariant
pub mod Owners
pub mod Listing
pub mod Effects
pub mod Samples
mod Tests
use reearth_accounts.Prelude.{
  ℕ, String, ◌≡◌, Bool, true, false, not, ◌&&◌, ◌||◌, Option, none, some, List, [], ◌∷◌, str_eq,
  ◌==◌, if◌then◌else◌, is_some, map, Error, Result, ok, err, user_already_joined,
  cannot_modify_personal_workspace, target_user_not_in_the_workspace, no_specified_users,
}
use reearth_accounts.Prelude.Dict.{Dict, lookup, has_key, insert, erase}
use reearth_accounts.Prelude.Lists.{length, select, some_where}
use reearth_accounts.Role.{RoleType, owner, maintainer, reader, valid}

pub record Member : Type 0 where
  pub role : RoleType
  pub disabled : Bool
  pub invited_by : ℕ
  pub host : String

pub record Members : Type 0 where
  pub users : Dict Member
  pub integrations : Dict Member
  pub fixed : Bool

-- `NewMembers`
abbrev pub new_members : Members
new_members = record { users = []; integrations = []; fixed = false }

-- `NewMembersWith`
abbrev pub new_members_with : Dict Member → Dict Member → Bool → Members
new_members_with users integrations fixed = record {
  users = users;
  integrations = integrations;
  fixed = fixed;
}

-- `InitMembers`
unfoldable pub init_members : ℕ → Members
init_members u =
    new_members_with
      ((u, record { role = owner; disabled = false; invited_by = u; host = "" }) ∷ []) [] true

-- `HasUser`, `HasIntegration`, `User`, `Integration`, `Count`, `IsEmpty`
abbrev pub has_user : Members → ℕ → Bool
has_user m u = has_key u m.users

abbrev pub has_integration : Members → ℕ → Bool
has_integration m i = has_key i m.integrations

abbrev pub user : Members → ℕ → Option Member
user m u = lookup u m.users

abbrev pub integration : Members → ℕ → Option Member
integration m i = lookup i m.integrations

abbrev pub count : Members → ℕ
count m = length m.users

abbrev pub is_empty : Members → Bool
is_empty m = count m == 0

-- `m.users[u].Role`: of a missing key, the role of the zero `Member`.
abbrev pub role_or_empty : Option Member → RoleType
role_or_empty none = ""
role_or_empty (some m) = m.role

-- `UserRole`
unfoldable pub user_role : Members → ℕ → RoleType
user_role m u = role_or_empty (lookup u m.users)

-- `IntegrationRole`
unfoldable pub integration_role : Members → ℕ → RoleType
integration_role m i = role_or_empty (lookup i m.integrations)

-- `IsOwnerOrMaintainer`
unfoldable pub is_owner_or_maintainer : Members → ℕ → Bool
unfolding user_role
is_owner_or_maintainer m u = str_eq (user_role m u) owner || str_eq (user_role m u) maintainer

-- `lo.Keys`
abbrev pub keys {ℓ} : {V : Type ℓ} → Dict V → List ℕ
keys [] = []
keys ((k, v) ∷ d) = k ∷ keys d

-- The identifiers that the loop of `UsersByRole` collects.
abbrev pub with_role : RoleType → Dict Member → List ℕ
with_role role [] = []
with_role role ((u, m) ∷ d) =
    let rest = with_role role d in if str_eq m.role role then u ∷ rest else rest

module _ (later : ℕ → ℕ → Bool) where
  -- `sort.SliceStable` with `users[a].Compare(users[b]) > 0` for its order, as an insertion sort:
  -- every stable sort has this result.
  abbrev pub place : ℕ → List ℕ → List ℕ
  place a [] = a ∷ []
  place a (b ∷ bs) = let rest = place a bs in if later b a then b ∷ rest else a ∷ b ∷ bs

  abbrev pub sort : List ℕ → List ℕ
  sort [] = []
  sort (a ∷ xs) = place a (sort xs)

  -- `UserIDs`
  unfoldable pub user_ids : Members → List ℕ
  user_ids m = sort (keys m.users)

  -- `IntegrationIDs`
  unfoldable pub integration_ids : Members → List ℕ
  integration_ids m = sort (keys m.integrations)

  -- `UsersByRole`
  unfoldable pub users_by_role : Members → RoleType → List ℕ
  users_by_role m role = sort (with_role role m.users)

  -- `IsOnlyOwner`
  unfoldable pub is_only_owner : Members → ℕ → Bool
  unfolding users_by_role user_role
  is_only_owner m u = length (users_by_role m owner) == 1 && str_eq (user_role m u) owner

-- The field `role` of the entry at a key that is there.
abbrev pub set_role : ℕ → RoleType → Dict Member → Dict Member
set_role k role d = elim (lookup k d) [ none ↦ d | some m ↦ insert k (record m { role = role }) d ]

-- `UpdateUserRole`
unfoldable pub update_user_role : Members → ℕ → RoleType → Result Members
update_user_role m u role =
    if m.fixed
    then err cannot_modify_personal_workspace
    else if not (valid role)
    then ok m
    else if not (has_key u m.users)
    then err target_user_not_in_the_workspace
    else ok (record m { users = set_role u role m.users })

-- `UpdateIntegrationRole`
unfoldable pub update_integration_role : Members → ℕ → RoleType → Result Members
update_integration_role m i role =
    if not (valid role)
    then ok m
    else if not (has_key i m.integrations)
    then err target_user_not_in_the_workspace
    else ok (record m { integrations = set_role i role m.integrations })

abbrev pub or_reader : RoleType → RoleType
or_reader role = if str_eq role "" then reader else role

-- What `Join` and `AddIntegration` store.
abbrev pub new_member : RoleType → ℕ → String → Member
new_member role i host = record {
  role = or_reader role;
  disabled = false;
  invited_by = i;
  host = host;
}

-- `Join`, of the user with identifier `u` and the given host
unfoldable pub join : Members → ℕ → String → RoleType → ℕ → Result Members
join m u host role i =
    if m.fixed
    then err cannot_modify_personal_workspace
    else if has_key u m.users
    then err user_already_joined
    else ok (record m { users = insert u (new_member role i host) m.users })

-- `AddIntegration`
unfoldable pub add_integration : Members → ℕ → RoleType → ℕ → Result Members
add_integration m iid role i =
    if has_key iid m.integrations
    then err user_already_joined
    else ok (record m { integrations = insert iid (new_member role i "") m.integrations })

-- `Leave`
unfoldable pub leave : Members → ℕ → Result Members
leave m u =
    if m.fixed
    then err cannot_modify_personal_workspace
    else if has_key u m.users
    then ok (record m { users = erase u m.users })
    else err target_user_not_in_the_workspace

-- `DeleteIntegration`
unfoldable pub delete_integration : Members → ℕ → Result Members
delete_integration m iid =
    if has_key iid m.integrations
    then ok (record m { integrations = erase iid m.integrations })
    else err target_user_not_in_the_workspace

-- The second loop of `DeleteIntegrations`
abbrev pub erase_all {ℓ} : {V : Type ℓ} → List ℕ → Dict V → Dict V
erase_all [] d = d
erase_all (k ∷ ks) d = erase_all ks (erase k d)

-- The first loop of `DeleteIntegrations`: `len(missing) > 0`
abbrev pub some_missing {ℓ} : {V : Type ℓ} → List ℕ → Dict V → Bool
some_missing [] d = false
some_missing (k ∷ ks) d = not (has_key k d) || some_missing ks d

-- `Members.DeleteIntegrations`; the text that lists what is missing is not modelled.
unfoldable pub delete_integrations : Members → List ℕ → Result Members
delete_integrations m [] = err no_specified_users
delete_integrations m (i ∷ iids) =
    if some_missing (i ∷ iids) m.integrations
    then err target_user_not_in_the_workspace
    else ok (record m { integrations = erase_all (i ∷ iids) m.integrations })
