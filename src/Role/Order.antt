-- ===== src/Role/Order.antt =====
-- `RoleType.Includes` is the order of the five roles.
use reearth_accounts.Prelude.{
  ℕ, ◌≡◌, ◌⊎◌, inl, inr, refl, sym, ◌∙◌, Bool, true, false, ◌&&◌, arith, str_eq, eq_iff, leb,
  if◌then◌else◌,
}
use reearth_accounts.Role.{RoleType, owner, maintainer, writer, reader, self, valid, includes}

-- How far a role stands below the owner; the names outside the list stand at 5.
abbrev pub rank : RoleType → ℕ
rank r =
    if str_eq r owner
    then 0
    else if str_eq r maintainer
    then 1
    else if str_eq r writer
    then 2
    else if str_eq r reader
    then 3
    else if str_eq r self
    then 4
    else 5

-- A role is one of the five or is not valid.
pub valid_cases :
    (r : RoleType)
    → (r ≡ owner) ⊎ (r ≡ maintainer) ⊎ (r ≡ writer) ⊎ (r ≡ reader) ⊎ (r ≡ self) ⊎ (valid r ≡ false)
unfolding valid
valid_cases r =
    ground
      (arith, eq_iff r owner, eq_iff r maintainer, eq_iff r writer, eq_iff r reader, eq_iff r self)

module _ (r s : RoleType) where
  includes_not_valid : valid r ≡ false → includes r s ≡ false
  unfolding includes
  includes_not_valid h = rw (h, includes)

  not_valid-includes : valid s ≡ false → includes r s ≡ false
  unfolding includes
  not_valid-includes h = ground arith

abbrev AgreesAt : RoleType → RoleType → Type 0
AgreesAt r s = includes r s ≡ (valid r && valid s && leb (rank r) (rank s))

AgreesAt_each :
    (r : RoleType)
    → AgreesAt r owner
    → AgreesAt r maintainer
    → AgreesAt r writer
    → AgreesAt r reader
    → AgreesAt r self
    → (s : RoleType) → AgreesAt r s
AgreesAt_each r at_owner at_maintainer at_writer at_reader at_self s = elim (valid_cases s) [
  | inl e ↦ rw e at_owner
  | inr (inl e) ↦ rw e at_maintainer
  | inr (inr (inl e)) ↦ rw e at_writer
  | inr (inr (inr (inl e))) ↦ rw e at_reader
  | inr (inr (inr (inr (inl e)))) ↦ rw e at_self
  | inr (inr (inr (inr (inr e)))) ↦ ground (arith, not_valid-includes r s)
]

-- `Includes` says that both names are roles and that the first stands no lower than the second.
pub includes-eq-rank :
    (r s : RoleType) → includes r s ≡ (valid r && valid s && leb (rank r) (rank s))
unfolding includes
includes-eq-rank r s = elim (valid_cases r) [
  | inl e ↦ rw e (AgreesAt_each owner refl refl refl refl refl s)
  | inr (inl e) ↦ rw e (AgreesAt_each maintainer refl refl refl refl refl s)
  | inr (inr (inl e)) ↦ rw e (AgreesAt_each writer refl refl refl refl refl s)
  | inr (inr (inr (inl e))) ↦ rw e (AgreesAt_each reader refl refl refl refl refl s)
  | inr (inr (inr (inr (inl e)))) ↦ rw e (AgreesAt_each self refl refl refl refl refl s)
  | inr (inr (inr (inr (inr e)))) ↦ ground (arith, includes_not_valid r s)
]

order_trans :
    (a b c : Bool) (i j k : ℕ)
    → (a && b && leb i j) ≡ true
    → (b && c && leb j k) ≡ true
    → (a && c && leb i k) ≡ true
order_trans a b c i j k p q = ground arith

-- If a role includes a second and the second a third, the first includes the third.
pub includes_trans :
    (r s t : RoleType) → includes r s ≡ true → includes s t ≡ true → includes r t ≡ true
includes_trans r s t h k =
    includes-eq-rank r t
    ∙ order_trans (valid r) (valid s) (valid t) (rank r) (rank s) (rank t)
        (sym (includes-eq-rank r s) ∙ h) (sym (includes-eq-rank s t) ∙ k)

-- The owner includes every role; nothing but the owner includes the owner.
pub includes-owner :
    (r : RoleType) → (includes owner r ≡ valid r) × (includes r owner ≡ str_eq r owner)
unfolding valid
includes-owner r = (
  ground (arith, includes-eq-rank owner r),
  ground (arith, includes-eq-rank r owner, eq_iff r owner),
)
