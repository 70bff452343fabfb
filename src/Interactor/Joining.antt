-- ===== src/Interactor/Joining.antt =====
-- server/internal/usecase/interactor/workspace.go: the loops of `AddUserMember` and
-- `bulkUpdatePermittable`. The users to add are a map from identifiers to roles.
use reearth_accounts.Prelude.{
  ℕ, suc, String, ◌≡◌, refl, ◌∙◌, Bool, false, ◌||◌, Option, none, some, List, [], ◌∷◌, ◌==◌, ==→eq,
  ap, sym, str_eq, Bool-cases, inl, inr, arith, Result, ok, err, ◌>>=◌, >>=-eq-ok, failed,
  if◌then◌else◌,
}
use reearth_accounts.Prelude.Dict.{Dict, lookup, insert}
use reearth_accounts.Role.{RoleType, owner}
use reearth_accounts.Permittable.{Permittable, build, update_workspace_role}
use reearth_accounts.User.Account.{User}
use reearth_accounts.Workspace.Member.{Members, join, user_role, has_user, or_reader}
use reearth_accounts.Workspace.Member.Effects.{join_effect}

-- `slices.Contains(slices.Collect(maps.Values(users)), role)`
abbrev pub gives_role : RoleType → Dict RoleType → Bool
gives_role role [] = false
gives_role role ((u, r) ∷ users) = str_eq r role || gives_role role users

-- `users[id]`: of a missing key, the empty text
abbrev pub role_given : Dict RoleType → ℕ → RoleType
role_given users u = elim (lookup u users) [ none ↦ "" | some r ↦ r ]

-- The members with the fetched users, and the map `joined`; `operator` is `*operator.User`.
unfoldable pub join_all :
    Dict RoleType
    → ℕ
    → Members
    → Dict RoleType
    → List (Option User)
    → Result (Members × Dict RoleType)
join_all users operator m joined [] = ok (m, joined)
join_all users operator m joined (none ∷ us) = join_all users operator m joined us
join_all users operator m joined (some u ∷ us) = do
  m' ← join m u.id u.host (role_given users u.id) operator
  join_all users operator m' (insert u.id (role_given users u.id) joined) us

-- `roleIDByName`
abbrev pub RoleIds : Type 0
RoleIds = List (String × ℕ)

abbrev pub role_id_of : RoleIds → String → Option ℕ
role_id_of [] name = none
role_id_of ((s, id) ∷ known) name = if str_eq s name then some id else role_id_of known name

abbrev id_or_zero : Option ℕ → ℕ
id_or_zero none = 0
id_or_zero (some id) = id

-- `permByUserID`
abbrev pub by_user_id : Dict Permittable → List Permittable → Dict Permittable
by_user_id d [] = d
by_user_id d (p ∷ ps) = by_user_id (insert p.user_id p d) ps

abbrev found_or_built : (ℕ → Bool) → ℕ → ℕ → ℕ → Option Permittable → Result Permittable
found_or_built is_nil now new_id u none =
    build is_nil
      (record { id = new_id; user_id = u; role_ids = []; workspace_roles = []; updated_at = 0 }) now
found_or_built is_nil now new_id u (some p) = ok p

abbrev pointed : Option Permittable → Result Permittable
pointed none = err failed
pointed (some p) = ok p

-- The last loop of `bulkUpdatePermittable`; `new_id n` is what `NewID` gives for its `n`th user.
unfoldable pub updates :
    (ℕ → Bool)
    → ℕ
    → (ℕ → ℕ)
    → ℕ
    → RoleIds
    → Dict Permittable
    → ℕ
    → Dict RoleType
    → Result (List Permittable)
updates is_nil now new_id workspace_id known found n [] = ok []
updates is_nil now new_id workspace_id known found n ((u, role) ∷ users) = do
  p ← found_or_built is_nil now (new_id n) u (lookup u found)
  p' ←
      pointed (update_workspace_role (some p) workspace_id (id_or_zero (role_id_of known role)) now)
  ps ← updates is_nil now new_id workspace_id known found (suc n) users
  ok (p' ∷ ps)

not_given :
    (role : RoleType) (users : Dict RoleType) (u : ℕ)
    → gives_role role users ≡ false
    → str_eq "" role ≡ false
    → str_eq (role_given users u) role ≡ false
not_given role [] u h e = e
not_given role ((k, r) ∷ users) u h e = ground (arith, not_given role users u)

-- The empty text becomes the role of reader, and no other text becomes that of owner.
or_reader-owner : (r : RoleType) → str_eq r owner ≡ false → str_eq (or_reader r) owner ≡ false
or_reader-owner r n = elim (Bool-cases (str_eq r "")) [ inl e ↦ rw e | inr e ↦ rw e n ]

absent_role : (m : Members) (u : ℕ) → has_user m u ≡ false → user_role m u ≡ ""
unfolding user_role
absent_role m u e = ground arith

-- One more member, who is no owner
join-owner :
    (m m' : Members) (u : ℕ) (host : String) (r : RoleType) (i v : ℕ)
    → str_eq r owner ≡ false
    → join m u host r i ≡ ok m'
    → str_eq (user_role m' v) owner ≡ str_eq (user_role m v) owner
unfolding user_role
join-owner m m' u host r i v n e =
    let (not_fixed, absent, counted, entry, same) = join_effect m m' u host r i v e in
    elim (Bool-cases (u == v)) [
      | inr ne ↦ rw (entry, ne)
      | inl eq ↦
          rw (entry, eq)
            (or_reader-owner r n
              ∙ sym (
                  ap (λ t. str_eq t owner)
                    (ap (user_role m) (sym (==→eq u v eq)) ∙ absent_role m u absent)))
    ]

-- If no user is given the role of owner, the loop of `AddUserMember` leaves the owners.
pub join_all-owner :
    (users : Dict RoleType) (operator : ℕ) (m m' : Members) (joined joined' : Dict RoleType)
    (us : List (Option User)) (v : ℕ)
    → gives_role owner users ≡ false
    → join_all users operator m joined us ≡ ok (m', joined')
    → str_eq (user_role m' v) owner ≡ str_eq (user_role m v) owner
unfolding join_all
join_all-owner users operator m m' joined joined' [] v n e = ground arith
join_all-owner users operator m m' joined joined' (none ∷ us) v n e =
    join_all-owner users operator m m' joined joined' us v n e
join_all-owner users operator m m' joined joined' (some u ∷ us) v n e =
    let (m1, joins, rest) = >>=-eq-ok (join m u.id u.host (role_given users u.id) operator) _ e in
    join_all-owner users operator m1 m' (insert u.id (role_given users u.id) joined) joined' us v n
      rest
    ∙ join-owner m m1 u.id u.host (role_given users u.id) operator v
        (not_given owner users u.id n refl) joins
