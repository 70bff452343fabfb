-- ===== src/Migration/Alias/Bounds.antt =====
-- The aliases that the migrations make are valid ones.
use reearth_accounts.Prelude.{
  ℕ, zero, suc, ◌-◌, ◌≤◌, ◌≡◌, refl, true, false, List, [], ◌∷◌, map, ltb, arith, Bool-cases, inl,
  inr,
}
use reearth_accounts.Prelude.Lists.{length, take, length-append, length-take}
use reearth_accounts.Migration.Alias.{
  starts_with_dash, replaced, collapse, trim_left, trim_right, repeat_a, pad, cut, sanitize_alias,
}
use reearth_accounts.Migration.Alias.Shape.{
  is_clean, ends_with_dash, collapsed, trim_left-is_clean, trim_left_lem, trim_right-is_clean,
  trim_right-starts, trim_right-ends, length-trim_right, starts-append, append-is_clean,
  append-ends, length-repeat_a,
}

-- Letters, digits and single dashes, with none at either end
abbrev pub IsTrimmed : List ℕ → Type 0
IsTrimmed l = (is_clean l ≡ true) × (starts_with_dash l ≡ false) × (ends_with_dash l ≡ false)

trimmed : (l : List ℕ) → is_clean l ≡ true → starts_with_dash l ≡ false → IsTrimmed (trim_right l)
trimmed l c s = (trim_right-is_clean l c, trim_right-starts l s, trim_right-ends l)

pad-IsTrimmed : (l : List ℕ) → IsTrimmed l → IsTrimmed (pad l)
unfolding pad
pad-IsTrimmed l (c, s, e) = ground (
  arith,
  append-is_clean l (5 - length l) c,
  starts-append l (5 - length l),
  append-ends l (5 - length l) e,
)

length-pad :
    (l : List ℕ) (n : ℕ) → length l ≤ n → 5 ≤ n → (5 ≤ length (pad l)) × (length (pad l) ≤ n)
unfolding pad
length-pad l n h k =
    ground (arith, length-append l (repeat_a (5 - length l)), length-repeat_a (5 - length l))

length-pad_long : (l : List ℕ) → 5 ≤ length (pad l)
unfolding pad
length-pad_long l =
    ground (arith, length-append l (repeat_a (5 - length l)), length-repeat_a (5 - length l))

take-starts :
    (n : ℕ) (l : List ℕ) → starts_with_dash l ≡ false → starts_with_dash (take n l) ≡ false
take-starts zero l h = refl
take-starts (suc n) [] h = h
take-starts (suc n) (c ∷ l) h = h

take-is_clean : (n : ℕ) (l : List ℕ) → is_clean l ≡ true → is_clean (take n l) ≡ true
take-is_clean zero l h = refl
take-is_clean (suc n) [] h = refl
take-is_clean (suc n) (c ∷ l) h = ground (arith, take-is_clean n l, take-starts n l)

-- What `cut` gives a text that is too long
shortened :
    (l : List ℕ)
    → IsTrimmed l
    → IsTrimmed (pad (trim_right (take 30 l)))
      × (5 ≤ length (pad (trim_right (take 30 l))))
      × (length (pad (trim_right (take 30 l))) ≤ 30)
shortened l (c, s, e) =
    let t = take 30 l in
    let short =
      pad-IsTrimmed (trim_right t) (trimmed t (take-is_clean 30 l c) (take-starts 30 l s)) in
    let most : length (trim_right t) ≤ 30 = omega (arith, length-trim_right t, length-take 30 l) in
    let (least, bound) = length-pad (trim_right t) 30 most (omega arith) in (short, least, bound)

cut_lem :
    (l : List ℕ)
    → IsTrimmed l
    → 5 ≤ length l
    → IsTrimmed (cut l) × (5 ≤ length (cut l)) × (length (cut l) ≤ 30)
unfolding cut
cut_lem l t h = elim (Bool-cases (ltb 30 (length l))) [
  | inl e ↦ rw e (shortened l t)
  | inr e ↦ rw e (t, h, ground arith)
]

-- Whatever the text, the alias has between 5 and 30 characters, all of them letters, digits and
-- dashes; it neither begins nor ends with a dash, and no two dashes stand side by side.
pub sanitize_alias_lem :
    (alias : List ℕ)
    → IsTrimmed (sanitize_alias alias)
      × (5 ≤ length (sanitize_alias alias))
      × (length (sanitize_alias alias) ≤ 30)
unfolding sanitize_alias
sanitize_alias_lem alias =
    let l = trim_left (collapse (map replaced alias)) in
    let clean = trim_left-is_clean (collapse (map replaced alias)) (collapsed alias) in
    let ok =
      pad-IsTrimmed (trim_right l)
        (trimmed l clean (trim_left_lem (collapse (map replaced alias)))) in
    cut_lem (pad (trim_right l)) ok (length-pad_long (trim_right l))
