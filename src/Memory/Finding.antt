-- ===== src/Memory/Finding.antt =====
-- server/internal/infrastructure/memory: which value a search finds behind a write
use reearth_accounts.Prelude.{
  ℕ, ◌≡◌, refl, sym, subst, Bool, true, false, none, some, [], ◌∷◌, arith, Bool-cases, inl, inr,
}
use reearth_accounts.Prelude.Dict.{Dict, lookup, insert}
use reearth_accounts.Memory.Texts.{first_value}

insert_again :
    {A : Type 0} (k : ℕ) (v w : A) (d : Dict A) → insert k w (insert k v d) ≡ insert k w d
insert_again k v w [] = ground arith
insert_again k v w ((j, a) ∷ d) = ground (arith, insert_again k v w d)

module _ {A : Type 0} (p : A → Bool) where
  -- A value that passes the test is found where none did.
  pub first_value-insert :
      (k : ℕ) (v : A) (d : Dict A)
      → first_value p d ≡ none
      → p v ≡ true
      → first_value p (insert k v d) ≡ some v
  first_value-insert k v [] h e = ground arith
  first_value-insert k v ((j, w) ∷ d) h e = ground (arith, first_value-insert k v d)

  -- What is found passes the test.
  pub first_value_passes : (u : A) (d : Dict A) → first_value p d ≡ some u → p u ≡ true
  first_value_passes u [] h = cc
  first_value_passes u ((j, w) ∷ d) h = ground (arith, first_value_passes u d)

  module _ (key : A → ℕ) where
    -- Every value stands under its own key.
    abbrev pub IsFiled : Dict A → Type 0
    IsFiled [] = Unit
    IsFiled ((j, w) ∷ d) = (key w ≡ j) × IsFiled d

    pub IsFiled-insert : (v : A) (d : Dict A) → IsFiled d → IsFiled (insert (key v) v d)
    IsFiled-insert v [] h = (refl, tt)
    IsFiled-insert v ((j, w) ∷ d) h = ground (arith, IsFiled-insert v d)

    -- A value that is the first to pass stays the first, if what takes its place passes too.
    pub first_value-replace :
        (u v : A) (d : Dict A)
        → IsFiled d
        → first_value p d ≡ some u
        → lookup (key u) d ≡ some u
        → p v ≡ true
        → first_value p (insert (key u) v d) ≡ some v
    first_value-replace u v [] filed h e pv = cc
    first_value-replace u v ((j, w) ∷ d) (own, filed) h e pv = elim (Bool-cases (p w)) [
      | inl found ↦ ground (arith)
      | inr other ↦ ground (arith, first_value-replace u v d filed, first_value_passes u d)
    ]

  -- No value passes, if the one that did is replaced by one that does not.
  pub first_value-drop :
      (k : ℕ) (v : A) (d : Dict A)
      → first_value p d ≡ none
      → p v ≡ false
      → first_value p (insert k v d) ≡ none
  first_value-drop k v [] h e = ground arith
  first_value-drop k v ((j, w) ∷ d) h e = ground (arith, first_value-drop k v d)

  pub first_value-drop_twice :
      (k j : ℕ) (v w : A) (d : Dict A)
      → k ≡ j
      → first_value p d ≡ none
      → p w ≡ false
      → first_value p (insert j w (insert k v d)) ≡ none
  first_value-drop_twice k j v w d same h e =
      subst (λ i. first_value p (insert j w (insert i v d)) ≡ none) (sym same)
        (rw (insert_again j v w d) (first_value-drop j w d h e))
