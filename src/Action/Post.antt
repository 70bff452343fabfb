-- ===== src/Action/Post.antt =====
-- What holds of the value that an action gives, if it gives one: one rule for each way to build an
-- action.
use reearth_accounts.Prelude.{◌≡◌, refl, subst, Bool, true, false, Error, Result, ok, err, arith}
use reearth_accounts.Action.{Action, pure, lift, reads, fail_when, continue, ◌>>=◌, ◌>>◌}

-- Run on `s`, the action ends in an error or gives a value with `P`.
pub record Gives {S A : Type 0} (s : S) (m : Action S A) (P : A → Type 0) : Type 0 where
  pub at : (a : A) (s' : S) → m s ≡ (ok a, s') → P a

module _ {S A : Type 0} (s : S) (P : A → Type 0) where
  pub Gives-pure : (a : A) → P a → Gives s (pure a) P
  unfolding pure
  Gives-pure a p = record { at = λ b s' e. ground arith }

  pub Gives-fail :
      (b : Bool) (e : Error) (k : Action S A)
      → (b ≡ false → Gives s k P)
      → Gives s (fail_when b e >> k) P
  unfolding ◌>>=◌
  Gives-fail true e k h = record { at = λ a s' q. cc }
  Gives-fail false e k h = record { at = (h refl).at }

module _ {S A B : Type 0} (s : S) (P : B → Type 0) where
  continued :
      (f : A → Action S B) (r : Result A × S)
      → ((a : A) (s1 : S) → r ≡ (ok a, s1) → Gives s1 (f a) P)
      → (b : B) (s' : S) → continue f r ≡ (ok b, s')
      → P b
  continued f (ok a, s1) h b s' e = (h a s1 refl).at b s' e
  continued f (err x, s1) h b s' e = cc

  pub Gives-bind :
      (m : Action S A) (f : A → Action S B)
      → ((a : A) (s1 : S) → m s ≡ (ok a, s1) → Gives s1 (f a) P)
      → Gives s (m >>= f) P
  unfolding ◌>>=◌
  Gives-bind m f h = record { at = continued f (m s) h }

  -- Where nothing is needed of the first part
  pub Gives-any :
      (m : Action S A) (f : A → Action S B)
      → ((a : A) (s1 : S) → Gives s1 (f a) P)
      → Gives s (m >>= f) P
  Gives-any m f h = Gives-bind m f (λ a s1 e. h a s1)

  pub Gives-lift :
      (r : Result A) (f : A → Action S B)
      → ((a : A) → r ≡ ok a → Gives s (f a) P)
      → Gives s (lift r >>= f) P
  unfolding ◌>>=◌
  Gives-lift (ok a) f h = record { at = (h a refl).at }
  Gives-lift (err x) f h = record { at = λ b s' e. cc }

  pub Gives-reads :
      (g : S → Result A) (f : A → Action S B)
      → ((a : A) → g s ≡ ok a → Gives s (f a) P)
      → Gives s (reads g >>= f) P
  unfolding ◌>>=◌
  Gives-reads g f h = record { at = (Gives-lift (g s) f h).at }

-- A call gives one value.
pub same_value :
    {A : Type 0} (P : A → Type 0) {r : Result A} {a b : A} → r ≡ ok a → r ≡ ok b → P a → P b
same_value P e f = subst P cc

-- A test at the end of an action has let it through.
pub Gives-test :
    {S : Type 0} (s : S) (b : Bool) (e : Error) → Gives s (fail_when b e) (λ x. b ≡ false)
unfolding ◌>>=◌
Gives-test s true e = record { at = λ x s' q. cc }
Gives-test s false e = record { at = λ x s' q. refl }
