-- ===== src/Migration/Alias/Shape.antt =====
-- What the aliases look like that the migrations make.
use reearth_accounts.Prelude.{
  ℕ, zero, suc, ◌≤◌, ◌≡◌, refl, Bool, true, false, not, ◌&&◌, List, [], ◌∷◌, ◌++◌, map, arith,
  Bool-cases, inl, inr,
}
use reearth_accounts.Prelude.Lists.{length}
use reearth_accounts.Migration.Alias.{
  is_dash, is_allowed, replaced, starts_with_dash, collapse, trim_left, keep_unless_dash,
  trim_right, repeat_a,
}

-- Letters, digits and dashes only, with no two dashes side by side
abbrev pub is_clean : List ℕ → Bool
is_clean [] = true
is_clean (c ∷ l) = (is_allowed c && not (is_dash c && starts_with_dash l)) && is_clean l

abbrev pub ends_with_dash : List ℕ → Bool
ends_with_dash [] = false
ends_with_dash (c ∷ []) = is_dash c
ends_with_dash (c ∷ d ∷ l) = ends_with_dash (d ∷ l)

replaced-is_allowed : (c : ℕ) → is_allowed (replaced c) ≡ true
unfolding replaced
replaced-is_allowed c = elim (Bool-cases (is_allowed c)) [ inl e ↦ rw e e | inr e ↦ rw e ]

pub collapsed : (l : List ℕ) → is_clean (collapse (map replaced l)) ≡ true
unfolding collapse
collapsed [] = refl
collapsed (c ∷ l) =
    elim (Bool-cases (is_dash (replaced c) && starts_with_dash (collapse (map replaced l)))) [
      | inl e ↦ rw e (collapsed l)
      | inr e ↦ rw e (rw (replaced-is_allowed c, e, collapsed l) refl)
    ]

pub trim_left-is_clean : (l : List ℕ) → is_clean l ≡ true → is_clean (trim_left l) ≡ true
unfolding trim_left
trim_left-is_clean [] h = refl
trim_left-is_clean (c ∷ l) h = ground (arith, trim_left-is_clean l)

pub trim_left_lem : (l : List ℕ) → starts_with_dash (trim_left l) ≡ false
unfolding trim_left
trim_left_lem [] = refl
trim_left_lem (c ∷ l) = ground (arith, trim_left_lem l)

keep-is_clean :
    (c : ℕ) (r : List ℕ)
    → is_allowed c ≡ true
    → (is_dash c && starts_with_dash r) ≡ false
    → is_clean r ≡ true
    → is_clean (keep_unless_dash c r) ≡ true
keep-is_clean c [] a s h = ground arith
keep-is_clean c (d ∷ r) a s h = rw (a, s, h) refl

keep-ends :
    (c : ℕ) (r : List ℕ) → ends_with_dash r ≡ false → ends_with_dash (keep_unless_dash c r) ≡ false
keep-ends c [] h = ground arith
keep-ends c (d ∷ r) h = h

keep-starts :
    (c : ℕ) (r : List ℕ) → is_dash c ≡ false → starts_with_dash (keep_unless_dash c r) ≡ false
keep-starts c [] h = ground arith
keep-starts c (d ∷ r) h = h

length-keep : (c : ℕ) (r : List ℕ) → length (keep_unless_dash c r) ≤ suc (length r)
length-keep c [] = ground arith
length-keep c (d ∷ r) = omega arith

pub trim_right-starts :
    (l : List ℕ) → starts_with_dash l ≡ false → starts_with_dash (trim_right l) ≡ false
unfolding trim_right
trim_right-starts [] h = refl
trim_right-starts (c ∷ l) h = keep-starts c (trim_right l) h

pub trim_right-ends : (l : List ℕ) → ends_with_dash (trim_right l) ≡ false
unfolding trim_right
trim_right-ends [] = refl
trim_right-ends (c ∷ l) = keep-ends c (trim_right l) (trim_right-ends l)

pub length-trim_right : (l : List ℕ) → length (trim_right l) ≤ length l
unfolding trim_right
length-trim_right [] = omega arith
length-trim_right (c ∷ l) = omega (arith, length-keep c (trim_right l), length-trim_right l)

pub trim_right-is_clean : (l : List ℕ) → is_clean l ≡ true → is_clean (trim_right l) ≡ true
unfolding trim_right
trim_right-is_clean [] h = refl
trim_right-is_clean (c ∷ l) h =
    ground (arith, keep-is_clean c (trim_right l), trim_right-is_clean l, trim_right-starts l)

starts-repeat_a : (n : ℕ) → starts_with_dash (repeat_a n) ≡ false
starts-repeat_a zero = refl
starts-repeat_a (suc n) = refl

repeat_a-is_clean : (n : ℕ) → is_clean (repeat_a n) ≡ true
repeat_a-is_clean zero = refl
repeat_a-is_clean (suc n) = rw (repeat_a-is_clean n) refl

ends-repeat_a : (n : ℕ) → ends_with_dash (repeat_a n) ≡ false
ends-repeat_a zero = refl
ends-repeat_a (suc zero) = refl
ends-repeat_a (suc (suc n)) = ends-repeat_a (suc n)

pub length-repeat_a : (n : ℕ) → length (repeat_a n) ≡ n
length-repeat_a zero = refl
length-repeat_a (suc n) = omega (arith, length-repeat_a n)

pub starts-append : (l : List ℕ) (n : ℕ) → starts_with_dash (l ++ repeat_a n) ≡ starts_with_dash l
starts-append [] n = starts-repeat_a n
starts-append (c ∷ l) n = refl

pub append-is_clean : (l : List ℕ) (n : ℕ) → is_clean l ≡ true → is_clean (l ++ repeat_a n) ≡ true
append-is_clean [] n h = repeat_a-is_clean n
append-is_clean (c ∷ l) n h = ground (arith, append-is_clean l n, starts-append l n)

pub append-ends :
    (l : List ℕ) (n : ℕ) → ends_with_dash l ≡ false → ends_with_dash (l ++ repeat_a n) ≡ false
append-ends [] n h = ends-repeat_a n
append-ends (c ∷ []) zero h = h
append-ends (c ∷ []) (suc n) h = ends-repeat_a (suc n)
append-ends (c ∷ d ∷ l) n h = append-ends (d ∷ l) n h
