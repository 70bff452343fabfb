-- ===== src/Action.antt =====
-- A call of a use case or a repository: it runs on a store and gives a result, which may be an
-- error, and the store that it leaves. What was written before an error stays written here; the
-- transaction around a use case decides what becomes of it.
pub mod Post
use reearth_accounts.Prelude.{Bool, true, false, Error, Result, ok, err}

abbrev pub Action : Type 0 → Type 0 → Type 0
Action S A = S → Result A × S

module _ {S A : Type 0} where
  pub pure : A → Action S A
  pure a s = (ok a, s)

  pub lift : Result A → Action S A
  lift r s = (r, s)

  -- A call that reads the store and leaves it
  pub reads : (S → Result A) → Action S A
  reads f s = (f s, s)

-- `if c { return e }`
pub fail_when : {S : Type 0} → Bool → Error → Action S (Unit {0})
fail_when true e s = (err e, s)
fail_when false e s = (ok tt, s)

-- `if c { … }`
pub only_when : {S : Type 0} → Bool → Action S (Unit {0}) → Action S (Unit {0})
only_when true m s = m s
only_when false m s = (ok tt, s)

module _ {S A B : Type 0} where
  abbrev pub continue : (A → Action S B) → Result A × S → Result B × S
  continue f (ok a, s) = f a s
  continue f (err e, s) = (err e, s)

  infixl 10 ◌>>=◌
  unfoldable pub ◌>>=◌ : Action S A → (A → Action S B) → Action S B
  unfolding pure lift reads fail_when only_when
  ◌>>=◌ m f s = continue f (m s)

infixl 10 ◌>>◌
abbrev pub ◌>>◌ : {S B : Type 0} → Action S (Unit {0}) → Action S B → Action S B
m >> k = m >>= λ _. k
