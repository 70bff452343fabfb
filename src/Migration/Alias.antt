-- ===== src/Migration/Alias.antt =====
-- server/internal/infrastructure/mongo/migration/alias_utils.go. A text is the list of its code
-- points; behind the first replacement they are bytes too.
pub mod Shape
pub mod Bounds
use reearth_accounts.Prelude.{
  ℕ, zero, suc, ◌-◌, Bool, true, false, ◌&&◌, ◌||◌, List, [], ◌∷◌, ◌++◌, map, ltb, leb, ◌==◌,
  if◌then◌else◌,
}
use reearth_accounts.Prelude.Lists.{length, take}

abbrev pub is_dash : ℕ → Bool
is_dash c = c == b'-'

-- `[a-zA-Z0-9-]`
abbrev pub is_allowed : ℕ → Bool
is_allowed c =
    (leb b'a' c && leb c b'z')
    || (leb b'A' c && leb c b'Z')
    || (leb b'0' c && leb c b'9')
    || is_dash c

-- What the first regular expression makes of a character
unfoldable pub replaced : ℕ → ℕ
replaced c = if is_allowed c then c else b'-'

abbrev pub starts_with_dash : List ℕ → Bool
starts_with_dash [] = false
starts_with_dash (c ∷ l) = is_dash c

-- The second: a run of dashes becomes one.
unfoldable pub collapse : List ℕ → List ℕ
collapse [] = []
collapse (c ∷ l) =
    let rest = collapse l in if is_dash c && starts_with_dash rest then rest else c ∷ rest

-- `strings.Trim` and `strings.TrimRight` with the dash
unfoldable pub trim_left : List ℕ → List ℕ
trim_left [] = []
trim_left (c ∷ l) = let rest = trim_left l in if is_dash c then rest else c ∷ l

abbrev pub keep_unless_dash : ℕ → List ℕ → List ℕ
keep_unless_dash c [] = if is_dash c then [] else c ∷ []
keep_unless_dash c (d ∷ l) = c ∷ d ∷ l

unfoldable pub trim_right : List ℕ → List ℕ
trim_right [] = []
trim_right (c ∷ l) = keep_unless_dash c (trim_right l)

-- `strings.Repeat("a", n)`
abbrev pub repeat_a : ℕ → List ℕ
repeat_a zero = []
repeat_a (suc n) = b'a' ∷ repeat_a n

-- `if len(alias) < 5`
unfoldable pub pad : List ℕ → List ℕ
pad l = if ltb (length l) 5 then l ++ repeat_a (5 - length l) else l

-- `if len(alias) > 30`
unfoldable pub cut : List ℕ → List ℕ
cut l = if ltb 30 (length l) then pad (trim_right (take 30 l)) else l

-- `sanitizeAlias`
unfoldable pub sanitize_alias : List ℕ → List ℕ
sanitize_alias alias = cut (pad (trim_right (trim_left (collapse (map replaced alias)))))
