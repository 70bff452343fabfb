-- ===== src/Prelude/Slices.antt =====
-- Go slices where the code tells a `nil` slice from an empty one.
use reearth_accounts.Prelude.{ℕ, ◌≡◌, refl, ◌||◌, Option, none, some, List, [], ◌∷◌, ◌++◌}
use reearth_accounts.Prelude.Lists.{contains, contains-append}

abbrev pub Slice {ℓ} : Type ℓ → Type ℓ
Slice A = Option (List A)

module _ {ℓ} {A : Type ℓ} where
  abbrev pub items : Slice A → List A
  items none = []
  items (some xs) = xs

  -- `append(s, t...)`, which is `nil` when `s` is and nothing is appended
  abbrev pub append : Slice A → Slice A → Slice A
  append (some xs) t = some (xs ++ items t)
  append none none = none
  append none (some []) = none
  append none (some (y ∷ ys)) = some (y ∷ ys)

  pub items-append : (s t : Slice A) → items (append s t) ≡ items s ++ items t
  items-append (some xs) t = refl
  items-append none none = refl
  items-append none (some []) = refl
  items-append none (some (y ∷ ys)) = refl

pub contains-items-append :
    (a : ℕ) (s t : Slice ℕ)
    → contains a (items (append s t)) ≡ (contains a (items s) || contains a (items t))
contains-items-append a s t = rw items-append (contains-append a (items s) (items t))
