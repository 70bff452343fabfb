-- ===== src/Workspace/Member/Listing.antt =====
-- The listings of the members do not show the order in which Go's `range` visits a map.
use mathlib.Core.List.{Permᴰ}
use reearth_accounts.Prelude.{
  ℕ, ◌≡◌, refl, ◌∙◌, sym, ap, Bool, true, false, ◌||◌, ◌&&◌, List, [], ◌∷◌, arith, ◌==◌, str_eq,
  if◌then◌else◌, ==→eq,
}
use reearth_accounts.Prelude.Dict.{Dict, lookup, has_key, HasDistinctKeys}
use reearth_accounts.Prelude.Lists.{contains}
use reearth_accounts.Role.{RoleType}
use reearth_accounts.Workspace.Member.{
  Member, Members, user_role, role_or_empty, has_user, with_role, place, sort, users_by_role,
}

-- What the listings need of `later`: `Compare` is a total order.
pub record IsTotalOrder (later : ℕ → ℕ → Bool) : Type 0 where
  pub asym : (a b : ℕ) → later a b ≡ true → later b a ≡ false
  pub total : (a b : ℕ) → later a b ≡ false → later b a ≡ false → a ≡ b
  pub trans : (a b c : ℕ) → later a b ≡ true → later b c ≡ true → later a c ≡ true

module _ (later : ℕ → ℕ → Bool) (order : IsTotalOrder later) where
  place_comm :
      (a b : ℕ) (xs : List ℕ) → place later a (place later b xs) ≡ place later b (place later a xs)
  place_comm a b [] = ground (arith, order.asym a b, order.asym b a, order.total a b)
  place_comm a b (x ∷ xs) = ground (
    arith,
    place_comm a b xs,
    order.asym a b,
    order.asym b a,
    order.total a b,
    order.asym a x,
    order.asym b x,
    order.total a x,
    order.total b x,
    order.trans a b x,
    order.trans b a x,
    order.trans x a b,
    order.trans x b a,
    order.trans b x a,
    order.trans a x b,
  )

  -- What one entry adds to a listing.
  abbrev list_entry : RoleType → ℕ × Member → List ℕ → List ℕ
  list_entry r (u, m) xs = if str_eq m.role r then place later u xs else xs

  sort-with_role-cons :
      (r : RoleType) (x : ℕ × Member) (d : Dict Member)
      → sort later (with_role r (x ∷ d)) ≡ list_entry r x (sort later (with_role r d))
  sort-with_role-cons r x d = ground arith

  list_entry_comm :
      (r : RoleType) (x y : ℕ × Member) (xs : List ℕ)
      → list_entry r x (list_entry r y xs) ≡ list_entry r y (list_entry r x xs)
  list_entry_comm r x y xs = ground (arith, place_comm x.0 y.0 xs)

  -- Entries in another order are listed the same.
  sort-with_role-perm :
      (r : RoleType) {d e : Dict Member}
      → Permᴰ d e
      → sort later (with_role r d) ≡ sort later (with_role r e)
  sort-with_role-perm r Permᴰ.nil = refl
  sort-with_role-perm r (Permᴰ.cons {a = a} {b = b} {l₁ = l₁} {l₂ = l₂} p q) =
      let ih = sort-with_role-perm r q in
      sort-with_role-cons r a l₁
      ∙ (λ i. list_entry r (p i) (ih i))
      ∙ sym (sort-with_role-cons r b l₂)
  sort-with_role-perm r (Permᴰ.swap {a = a} {b = b} {a' = a'} {b' = b'} {l = l} p q) =
      let rest = sort later (with_role r l) in
      sort-with_role-cons r a (b ∷ l)
      ∙ ap (list_entry r a) (sort-with_role-cons r b l)
      ∙ list_entry_comm r a b rest
      ∙ (λ i. list_entry r (q i) (list_entry r (p i) rest))
      ∙ sym (ap (list_entry r a') (sort-with_role-cons r b' l))
      ∙ sym (sort-with_role-cons r a' (b' ∷ l))
  sort-with_role-perm r (Permᴰ.trans p q) = sort-with_role-perm r p ∙ sort-with_role-perm r q

  -- If `Compare` is a total order, `UsersByRole` gives the same list whatever the order in which
  -- the entries of the map are visited.
  pub users_by_role-perm :
      (r : RoleType) (m m' : Members)
      → Permᴰ m.users m'.users
      → users_by_role later m r ≡ users_by_role later m' r
  unfolding users_by_role
  users_by_role-perm r m m' p = sort-with_role-perm r p

module _ (later : ℕ → ℕ → Bool) where
  contains-place :
      (v a : ℕ) (xs : List ℕ) → contains v (place later a xs) ≡ (a == v || contains v xs)
  contains-place v a [] = refl
  contains-place v a (x ∷ xs) = ground (arith, contains-place v a xs)

  contains-sort : (v : ℕ) (xs : List ℕ) → contains v (sort later xs) ≡ contains v xs
  contains-sort v [] = refl
  contains-sort v (x ∷ xs) = ground (arith, contains-place v x (sort later xs), contains-sort v xs)

  contains-with_role :
      (v : ℕ) (r : RoleType) (d : Dict Member)
      → HasDistinctKeys d
      → contains v (with_role r d) ≡ (has_key v d && str_eq (role_or_empty (lookup v d)) r)
  contains-with_role v r [] h = refl
  contains-with_role v r ((k, m) ∷ d) h = ground (arith, contains-with_role v r d h.1, ==→eq k v)

  -- In members with distinct keys, `UsersByRole` lists a user exactly when the user is a member
  -- whose role is the one that is asked for.
  pub contains-users_by_role :
      (m : Members) (r : RoleType) (v : ℕ)
      → HasDistinctKeys m.users
      → contains v (users_by_role later m r) ≡ (has_user m v && str_eq (user_role m v) r)
  unfolding users_by_role user_role
  contains-users_by_role m r v h =
      contains-sort v (with_role r m.users) ∙ contains-with_role v r m.users h
