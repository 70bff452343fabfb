-- ===== src/Memory/Texts.antt =====
-- What the repositories in memory call of the package strings, and of reearthx: `ErrIfNil` on the
-- list that `SyncMap.FindAll` gives, which may tell an empty list from one that is not.
use reearth_accounts.Prelude.{
  ℕ, String, Bool, true, not, is_some, str_eq, Option, none, some, List, [], ◌∷◌, Error, Result, ok,
  err, not_found, if◌then◌else◌,
}
use reearth_accounts.Prelude.Dict.{Dict}

pub record Texts : Type 0 where
  -- `ToLower`, `TrimSpace`, `strings.Contains(s, t)` and `len`
  pub lower : String → String
  pub trim : String → String
  pub has_text : String → String → Bool
  pub byte_len : String → ℕ
  -- Whether an empty result of `FindAll` is nil for `ErrIfNil`
  pub empty_is_nil : Bool

-- `rerror.ErrIfNil(list, rerror.ErrNotFound)`
abbrev pub listed_or_not_found : {A : Type 0} → Texts → List A → Result (List A)
listed_or_not_found t [] = if t.empty_is_nil then err not_found else ok []
listed_or_not_found t (a ∷ l) = ok (a ∷ l)

-- `rerror.ErrIfNil(value, rerror.ErrNotFound)`
abbrev pub found_or_not_found : {A : Type 0} → Option A → Result A
found_or_not_found none = err not_found
found_or_not_found (some a) = ok a

-- `if r.err != nil { return r.err }`
abbrev pub unless_failing : {A : Type 0} → Option Error → Result A → Result A
unless_failing none r = r
unless_failing (some e) r = err e

module _ {A : Type 0} where
  -- `SyncMap.Find`
  abbrev pub first_value : (A → Bool) → Dict A → Option A
  first_value p [] = none
  first_value p ((k, v) ∷ d) = if p v then some v else first_value p d

  -- `SyncMap.FindAll`
  abbrev pub all_values : (ℕ → A → Bool) → Dict A → List A
  all_values p [] = []
  all_values p ((k, v) ∷ d) = let rest = all_values p d in if p k v then v ∷ rest else rest

-- The test on a status that is one of the texts of `StatusFilter`: any other text lets all through.
abbrev pub fits_status : String → Option ℕ → Bool
fits_status status deleted_at =
    if str_eq status "active"
    then not (is_some deleted_at)
    else if str_eq status "deleted"
    then is_some deleted_at
    else true

-- The keyword of a search: nil is the empty one.
abbrev pub keyword_of : Texts → Option String → String
keyword_of t none = ""
keyword_of t (some k) = t.lower (t.trim k)
