-- ===== src/Prelude/Idx.antt =====
-- The package reearthx/idx, of which the program has no source: the operations on identifiers and
-- on lists of them that the program calls, and what it relies on of them. An identifier is the
-- number that its 16 bytes spell; the program compares identifiers by Go's `==`, and the zero
-- value `ID{}` is 0.
use reearth_accounts.Prelude.{ℕ, ◌≡◌, refl, Bool, ◌&&◌, List, [], ◌∷◌, arith, ltb, ◌==◌, ==→eq}
use reearth_accounts.Prelude.Lists.{length, contains, select}

pub record Idx : Type 0 where
  -- `a.Compare(b) > 0`
  pub later : ℕ → ℕ → Bool
  -- `IsEmpty`, `IsNil`
  pub is_empty : ℕ → Bool
  -- `List.Has`
  pub has : List ℕ → ℕ → Bool
  -- `List.Intersect`
  pub intersect : List ℕ → List ℕ → List ℕ

pub record IsIdx (x : Idx) : Type 0 where
  pub has_lem : (xs : List ℕ) (a : ℕ) → x.has xs a ≡ contains a xs
  pub contains-intersect :
      (xs ys : List ℕ) (a : ℕ) → contains a (x.intersect xs ys) ≡ (contains a xs && contains a ys)

module _ (x : Idx) (laws : IsIdx x) where
  -- `xs.Intersect([]ID{a}).Len() > 0` is the test of membership.
  pub intersect-singleton :
      (xs : List ℕ) (a : ℕ) → ltb 0 (length (x.intersect xs (a ∷ []))) ≡ contains a xs
  intersect-singleton xs a = go (x.intersect xs (a ∷ [])) (laws.contains-intersect xs (a ∷ []))
    where
      go :
          (zs : List ℕ)
          → ((b : ℕ) → contains b zs ≡ (contains b xs && contains b (a ∷ [])))
          → ltb 0 (length zs) ≡ contains a xs
      go [] h = ground (arith, h a)
      go (z ∷ zs) h = ground (arith, h z, ==→eq a z)

-- One such package: identifiers compared as numbers.
abbrev pub plain_idx : Idx
plain_idx = record {
  later = λ a b. ltb b a;
  is_empty = λ a. a == 0;
  has = λ xs a. contains a xs;
  intersect = λ xs ys. select (λ a. contains a ys) xs;
}

contains-select :
    (a : ℕ) (ys xs : List ℕ)
    → contains a (select (λ b. contains b ys) xs) ≡ (contains a xs && contains a ys)
contains-select a ys [] = refl
contains-select a ys (z ∷ xs) = ground (arith, contains-select a ys xs, ==→eq z a)

pub plain_idx-IsIdx : IsIdx plain_idx
plain_idx-IsIdx = record {
  has_lem = λ xs a. refl;
  contains-intersect = λ xs ys a. contains-select a ys xs;
}
