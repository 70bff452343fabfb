-- ===== src/Workspace/Member/Owners.antt =====
-- `IsOnlyOwner`, and how its guard keeps a workspace from losing its last owner.
use reearth_accounts.Prelude.{
  ℕ, ◌+◌, ◌≤◌, ◌≡◌, ◌≢◌, ◌↔◌, refl, Bool, true, false, none, List, [], ◌∷◌, arith, ◌==◌, str_eq,
  eq_iff, ok, Option-cases, Bool-cases, ==→eq, leb, inl, inr,
}
use reearth_accounts.Prelude.Dict.{Dict, lookup, HasDistinctKeys, lookup-insert, lookup-erase}
use reearth_accounts.Prelude.Lists.{length}
use reearth_accounts.Role.{RoleType, owner}
use reearth_accounts.Workspace.Member.{
  Member, Members, user_role, role_or_empty, with_role, place, sort, is_only_owner, set_role,
  update_user_role, leave,
}

-- The role that the entry of a user has; "" for a user who is not there.
abbrev role_in : Dict Member → ℕ → RoleType
role_in d u = role_or_empty (lookup u d)

module _ (later : ℕ → ℕ → Bool) where
  length-place : (a : ℕ) (xs : List ℕ) → length (place later a xs) ≡ length xs + 1
  length-place a [] = omega arith
  length-place a (b ∷ bs) = ground (arith, length-place a bs)

  length-sort : (xs : List ℕ) → length (sort later xs) ≡ length xs
  length-sort [] = refl
  length-sort (a ∷ xs) = omega (arith, length-place a (sort later xs), length-sort xs)

-- No owner in the map, then nothing is collected.
no_owner : (d : Dict Member) (v : ℕ) → length (with_role owner d) ≡ 0 → role_in d v ≢ owner
no_owner [] v h e = ground (arith, eq_iff "" owner)
no_owner ((u, m) ∷ d) v h e = ground (arith, no_owner d v, eq_iff m.role owner)

-- An entry in front does not hide an owner behind it.
behind :
    (k v : ℕ) (m : Member) (d : Dict Member)
    → lookup k d ≡ none
    → role_in d v ≡ owner
    → (k ≢ v) × (role_in ((k, m) ∷ d) v ≡ owner)
behind k v m d h e = ground (arith, eq_iff "" owner)

some_owner :
    (d : Dict Member)
    → HasDistinctKeys d
    → 1 ≤ length (with_role owner d)
    → (v : ℕ) × (role_in d v ≡ owner)
some_owner [] h p = absurd (omega arith)
some_owner ((k, m) ∷ d) h p = elim (Bool-cases (str_eq m.role owner)) [
  | inl e ↦ (k, ground (arith, eq_iff m.role owner))
  | inr e ↦
      let (v, is_owner) = some_owner d h.1 (ground arith) in (v, (behind k v m d h.0 is_owner).1)
]

other_owner :
    (u : ℕ) (d : Dict Member)
    → HasDistinctKeys d
    → 2 ≤ length (with_role owner d)
    → (v : ℕ) × (u ≢ v) × (role_in d v ≡ owner)
other_owner u [] h p = absurd (omega arith)
other_owner u ((k, m) ∷ d) h p = elim (Bool-cases (str_eq m.role owner)) [
  | inr e ↦
      let (v, ne, is_owner) = other_owner u d h.1 (ground arith) in
      (v, ne, (behind k v m d h.0 is_owner).1)
  | inl e ↦ elim (Bool-cases (u == k)) [
    | inr ne ↦ (k, ground arith, ground (arith, eq_iff m.role owner))
    | inl same ↦
        let (v, is_owner) = some_owner d h.1 (ground arith) in
        let (ne, still) = behind k v m d h.0 is_owner in (v, ground arith, still)
  ]
]

two_owners :
    (u v : ℕ) (d : Dict Member)
    → u ≢ v
    → role_in d u ≡ owner
    → role_in d v ≡ owner
    → 2 ≤ length (with_role owner d)
two_owners u v [] ne e f = ground (arith, eq_iff "" owner)
two_owners u v ((k, m) ∷ d) ne e f =
    ground (arith, two_owners u v d, no_owner d u, no_owner d v, eq_iff m.role owner)

-- Some user has the role of owner.
abbrev pub HasOwner : Members → Type 0
HasOwner m = (v : ℕ) × (user_role m v ≡ owner)

-- The user is an owner, and no other user is.
abbrev pub IsSoleOwner : Members → ℕ → Type 0
IsSoleOwner m u = (user_role m u ≡ owner) × ((v : ℕ) → u ≢ v → user_role m v ≢ owner)

-- The role of every other key stays under `set_role`.
lookup-set_role :
    (k j : ℕ) (r : RoleType) (d : Dict Member) → k ≢ j → lookup j (set_role k r d) ≡ lookup j d
lookup-set_role k j r d ne = elim (Option-cases (lookup k d)) [
  | inl e ↦ rw (e, set_role)
  | inr (m, e) ↦ rw (e, set_role) (ground (arith, lookup-insert k j (record m { role = r }) d))
]

module _ (later : ℕ → ℕ → Bool) (m : Members) (u : ℕ) (distinct : HasDistinctKeys m.users) where
  -- Unless `IsOnlyOwner` holds of a user, a workspace with an owner has one besides that user.
  pub owner_besides :
      HasOwner m → is_only_owner later m u ≡ false → (v : ℕ) × (u ≢ v) × (user_role m v ≡ owner)
  unfolding is_only_owner
  owner_besides (w, e) h = elim (Bool-cases (u == w)) [
    | inr ne ↦ (w, ground arith, e)
    | inl same ↦ other_owner u m.users distinct (
        ground (
          arith,
          length-sort later (with_role owner m.users),
          no_owner m.users w,
          eq_iff (role_in m.users u) owner,
          ==→eq u w,
        ))
  ]

  sole→is_only_owner : IsSoleOwner m u → is_only_owner later m u ≡ true
  unfolding is_only_owner
  sole→is_only_owner (is_owner, alone) =
      elim (Bool-cases (leb 2 (length (with_role owner m.users)))) [
        | inl many ↦
            let (v, ne, e) = other_owner u m.users distinct (ground arith) in absurd (alone v ne e)
        | inr few ↦ ground (
          arith,
          length-sort later (with_role owner m.users),
          no_owner m.users u,
          eq_iff (role_in m.users u) owner,
        )
      ]

  -- In members with distinct keys, `IsOnlyOwner` holds of a user exactly when that user has the
  -- role of owner and no other user has it.
  pub is_only_owner_iff : (is_only_owner later m u ≡ true) ↔ IsSoleOwner m u
  unfolding is_only_owner
  is_only_owner_iff = (
    λ h. (
      ground (arith, eq_iff (role_in m.users u) owner),
      λ v ne e. ground (
        arith,
        two_owners u v m.users ne,
        length-sort later (with_role owner m.users),
        eq_iff (role_in m.users u) owner,
      ),
    ),
    sole→is_only_owner,
  )

  -- In members with distinct keys and an owner, if `IsOnlyOwner` does not hold of a user, then
  -- the members still have an owner after that user has left.
  pub leave-HasOwner :
      (m' : Members)
      → HasOwner m
      → is_only_owner later m u ≡ false
      → leave m u ≡ ok m'
      → HasOwner m'
  unfolding leave user_role
  leave-HasOwner m' o h e =
      let (v, ne, is_owner) = owner_besides o h in (v, ground (arith, lookup-erase u v m.users))

  -- In members with distinct keys and an owner, if `IsOnlyOwner` does not hold of a user, then
  -- the members still have an owner after `UpdateUserRole` has given that user any role.
  pub update_user_role-HasOwner :
      (r : RoleType) (m' : Members)
      → HasOwner m
      → is_only_owner later m u ≡ false
      → update_user_role m u r ≡ ok m'
      → HasOwner m'
  unfolding update_user_role user_role
  update_user_role-HasOwner r m' o h e =
      let (v, ne, is_owner) = owner_besides o h in
      (v, ground (arith, lookup-set_role u v r m.users))
