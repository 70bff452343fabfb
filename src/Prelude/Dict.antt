-- ===== src/Prelude/Dict.antt =====
-- A Go map with identifiers for keys, as an association list whose order is one order in which
-- `range` may visit the map. A `nil` map is the empty one: the code reads and deletes from either
-- alike, and makes the map before the writes that could meet a `nil` one.
use reearth_accounts.Prelude.{
  ℕ, ◌+◌, ◌≡◌, refl, Bool, Option, none, some, List, [], ◌∷◌, arith, ◌==◌, if◌then◌else◌, is_some,
}
use reearth_accounts.Prelude.Lists.{length}

abbrev pub Dict {ℓ} : Type ℓ → Type ℓ
Dict V = List (ℕ × V)

module _ {ℓ} {V : Type ℓ} where
  -- `v, ok := d[k]`
  abbrev pub lookup : ℕ → Dict V → Option V
  lookup k [] = none
  lookup k ((j, v) ∷ d) = if j == k then some v else lookup k d

  abbrev pub has_key : ℕ → Dict V → Bool
  has_key k d = is_some (lookup k d)

  -- `d[k] = v`
  abbrev pub insert : ℕ → V → Dict V → Dict V
  insert k v [] = (k, v) ∷ []
  insert k v ((j, w) ∷ d) = if j == k then (k, v) ∷ d else (j, w) ∷ insert k v d

  -- `delete(d, k)`
  abbrev pub erase : ℕ → Dict V → Dict V
  erase k [] = []
  erase k ((j, v) ∷ d) = let rest = erase k d in if j == k then rest else (j, v) ∷ rest

  -- No key stands twice, as in every Go map.
  abbrev pub HasDistinctKeys : Dict V → Type ℓ
  HasDistinctKeys [] = Unit
  HasDistinctKeys ((k, v) ∷ d) = (lookup k d ≡ none) × HasDistinctKeys d

  pub lookup-insert :
      (k j : ℕ) (v : V) (d : Dict V)
      → lookup j (insert k v d) ≡ (if k == j then some v else lookup j d)
  lookup-insert k j v [] = refl
  lookup-insert k j v ((i, w) ∷ d) = ground (arith, lookup-insert k j v d)

  pub lookup-erase :
      (k j : ℕ) (d : Dict V) → lookup j (erase k d) ≡ (if k == j then none else lookup j d)
  lookup-erase k j [] = ground arith
  lookup-erase k j ((i, w) ∷ d) = ground (arith, lookup-erase k j d)

  pub HasDistinctKeys-insert :
      (k : ℕ) (v : V) (d : Dict V) → HasDistinctKeys d → HasDistinctKeys (insert k v d)
  HasDistinctKeys-insert k v [] h = (refl, tt)
  HasDistinctKeys-insert k v ((i, w) ∷ d) h =
      ground (arith, HasDistinctKeys-insert k v d h.1, lookup-insert k i v d)

  pub HasDistinctKeys-erase : (k : ℕ) (d : Dict V) → HasDistinctKeys d → HasDistinctKeys (erase k d)
  HasDistinctKeys-erase k [] h = tt
  HasDistinctKeys-erase k ((i, w) ∷ d) h =
      ground (arith, HasDistinctKeys-erase k d h.1, lookup-erase k i d)

  pub length-insert :
      (k : ℕ) (v : V) (d : Dict V)
      → length (insert k v d) ≡ (if has_key k d then length d else length d + 1)
  length-insert k v [] = ground arith
  length-insert k v ((i, w) ∷ d) = ground (arith, length-insert k v d)

  pub erase_absent : (k : ℕ) (d : Dict V) → lookup k d ≡ none → erase k d ≡ d
  erase_absent k [] h = refl
  erase_absent k ((i, w) ∷ d) h = ground (arith, erase_absent k d)

  -- `delete` takes one entry away, if the key is there.
  pub length-erase :
      (k : ℕ) (d : Dict V)
      → HasDistinctKeys d
      → length d ≡ (if has_key k d then length (erase k d) + 1 else length (erase k d))
  length-erase k [] h = refl
  length-erase k ((i, w) ∷ d) h = ground (arith, length-erase k d h.1, erase_absent k d)

  pub ruleset dict_laws = (lookup-insert, lookup-erase)
