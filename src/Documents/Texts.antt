-- ===== src/Documents/Texts.antt =====
-- What the conversions call outside the program: identifiers (reearthx/idx) and languages
-- (x/text/language) as texts, `strings.ToLower`, and `strings.SplitN` at the first bar.
use reearth_accounts.Prelude.{
  ℕ, String, ◌≡◌, ◌≢◌, Option, none, some, List, [], ◌∷◌, ◌<◌, map, Result, ok, err, invalid_id,
  ◌==◌, if◌then◌else◌, false, arith, str_eq, eq_iff,
}

pub record Texts : Type 0 where
  -- `String` of an identifier
  pub id_text : ℕ → String
  -- `idx.From`
  pub id_from : String → Option ℕ
  -- `idx.ListFrom`
  pub ids_from : List String → Option (List ℕ)
  -- `Tag.String` and `language.Parse`
  pub lang_text : ℕ → String
  pub lang_parse : String → Option ℕ
  pub lower : String → String
  pub split : String → List String

-- No identifier of the list is the zero one.
abbrev pub HasSetIds : List ℕ → Type 0
HasSetIds [] = Unit
HasSetIds (i ∷ l) = (0 < i) × HasSetIds l

-- Every identifier but the zero one, and every language, is read back from its text, which is not
-- empty.
pub record IsTexts (t : Texts) : Type 0 where
  pub id_from-id_text : (i : ℕ) → 0 < i → t.id_from (t.id_text i) ≡ some i
  pub ids_from-map : (l : List ℕ) → HasSetIds l → t.ids_from (map t.id_text l) ≡ some l
  pub id_text_ne : (i : ℕ) → 0 < i → t.id_text i ≢ ""
  pub lang_parse-lang_text : (l : ℕ) → t.lang_parse (t.lang_text l) ≡ some l
  pub lang_text_ne : (l : ℕ) → t.lang_text l ≢ ""

-- The value, or the error that the identifier package returns
abbrev pub or_invalid {ℓ} : {A : Type ℓ} → Option A → Result A
or_invalid none = err invalid_id
or_invalid (some a) = ok a

-- `if t.IsZero() { t = time.Now() }`
abbrev pub or_now : ℕ → ℕ → ℕ
or_now t now = if t == 0 then now else t

-- The text of such an identifier is not the empty one.
pub id_text_lem : (t : Texts) (i : ℕ) → IsTexts t → 0 < i → str_eq (t.id_text i) "" ≡ false
id_text_lem t i laws h = ground (arith, eq_iff (t.id_text i) "", laws.id_text_ne i h)

pub or_now_set : (a now : ℕ) → 0 < a → or_now a now ≡ a
or_now_set a now h = ground arith
