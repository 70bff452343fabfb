-- ===== src/User/Account.antt =====
-- server/pkg/user/user.go and metadata.go. A field stands for its getter too, `none` for a nil
-- receiver where the method tests for it, and `now` is `time.Now()`.
use reearth_accounts.Prelude.{
  ℕ, String, Bool, true, false, not, ◌||◌, Option, none, some, List, [], ◌∷◌, ◌++◌, str_eq,
  if◌then◌else◌, is_some, Result, ok, err, ◌>>=◌, invalid_email,
}
use reearth_accounts.Prelude.Lists.{some_where}
use reearth_accounts.User.Auth.{Auth, auth_eq, is_auth0, has_provider_name}
use reearth_accounts.User.Password.{PasswordEncoder, new_encoded_password, verify_password}
use reearth_accounts.User.Tokens.{Verification, PasswordReset}

-- metadata.go; a language is the number of its tag, and 0 is `language.Und`.
pub record Metadata : Type 0 where
  pub photo_url : String
  pub description : String
  pub website : String
  pub lang : ℕ
  pub theme : String

-- `NewMetadata`
abbrev pub new_metadata : Metadata
new_metadata = record { photo_url = ""; description = ""; website = ""; lang = 0; theme = "" }

-- `LangFrom`, by what `language.Parse` gives
unfoldable pub lang_from : (String → Option ℕ) → Metadata → String → Metadata
lang_from parse m lang =
    if str_eq lang ""
    then record m { lang = 0 }
    else elim (parse lang) [ none ↦ m | some l ↦ record m { lang = l } ]

-- `MetadataFrom`
abbrev pub metadata_from : String → String → String → ℕ → String → Metadata
metadata_from photo_url description website lang theme = record {
  photo_url = photo_url;
  description = description;
  website = website;
  lang = lang;
  theme = theme;
}

-- `SetPhotoURL`, `SetDescription`, `SetWebsite`, `SetLang` and `SetTheme` of `Metadata`
abbrev pub set_photo_url : Metadata → String → Metadata
set_photo_url m url = record m { photo_url = url }

abbrev pub set_description : Metadata → String → Metadata
set_description m s = record m { description = s }

abbrev pub set_website : Metadata → String → Metadata
set_website m s = record m { website = s }

abbrev pub set_lang : Metadata → ℕ → Metadata
set_lang m lang = record m { lang = lang }

abbrev pub set_theme : Metadata → String → Metadata
set_theme m theme = record m { theme = theme }

-- `Theme.Valid` of theme.go
abbrev pub theme_valid : String → Bool
theme_valid t = str_eq t "dark" || str_eq t "light" || str_eq t "default"

-- `Metadata.Theme`
abbrev pub theme_of : Metadata → String
theme_of m = if not (theme_valid m.theme) then "default" else m.theme

pub record User : Type 0 where
  pub id : ℕ
  pub name : String
  pub alias : String
  pub email : String
  pub latest_logout_at : ℕ
  pub metadata : Metadata
  pub password : List ℕ
  pub workspace : ℕ
  pub auths : List Auth
  pub verification : Option Verification
  pub password_reset : Option PasswordReset
  pub host : String
  pub updated_at : ℕ
  pub deleted_at : Option ℕ
  pub created_at : Option ℕ

-- `UpdateName`
abbrev pub update_name : User → String → ℕ → User
update_name u name now = record u { name = name; updated_at = now }

-- `UpdateAlias`
abbrev pub update_alias : User → String → ℕ → User
update_alias u alias now = record u { alias = alias; updated_at = now }

-- `UpdateEmail`; `parses` says whether `mail.ParseAddress` accepts a text.
unfoldable pub update_email : (String → Bool) → User → String → ℕ → Result User
update_email parses u email now =
    if not (parses email)
    then err invalid_email
    else ok (record u { email = email; updated_at = now })

-- `UpdateWorkspace`
abbrev pub update_workspace : User → ℕ → ℕ → User
update_workspace u workspace now = record u { workspace = workspace; updated_at = now }

-- `ContainAuth`
unfoldable pub contain_auth : Option User → Auth → Bool
contain_auth none a = false
contain_auth (some u) a =
    some_where (λ (b : Auth). auth_eq a b || str_eq a.provider b.provider) u.auths

-- `HasAuthProvider`
unfoldable pub has_auth_provider : Option User → String → Bool
has_auth_provider none p = false
has_auth_provider (some u) p = some_where (has_provider_name p) u.auths

-- `AddAuth`
unfoldable pub add_auth : Option User → Auth → ℕ → Option User × Bool
unfolding contain_auth
add_auth none a now = (none, false)
add_auth (some u) a now =
    if not (contain_auth (some u) a)
    then (some (record u { auths = u.auths ++ a ∷ []; updated_at = now }), true)
    else (some u, false)

-- The loops of `RemoveAuth` and `RemoveAuthByProvider`: the list without the first that passes.
abbrev pub without_first : (Auth → Bool) → List Auth → Option (List Auth)
without_first p [] = none
without_first p (b ∷ l) =
    let rest = without_first p l in
    if p b then some l else elim rest [ none ↦ none | some l' ↦ some (b ∷ l') ]

abbrev pub store_auths : User → Option (List Auth) → ℕ → Option User × Bool
store_auths u none now = (some u, false)
store_auths u (some l) now = (some (record u { auths = l; updated_at = now }), true)

-- `RemoveAuth`
unfoldable pub remove_auth : Option User → Auth → ℕ → Option User × Bool
remove_auth none a now = (none, false)
remove_auth (some u) a now =
    if is_auth0 a then (some u, false) else store_auths u (without_first (auth_eq a) u.auths) now

-- The first identity of a provider
abbrev first_of_provider : String → List Auth → Option Auth
first_of_provider p [] = none
first_of_provider p (b ∷ l) = if str_eq p b.provider then some b else first_of_provider p l

-- `GetAuthByProvider`
unfoldable pub get_auth_by_provider : Option User → String → Option Auth
get_auth_by_provider none p = none
get_auth_by_provider (some u) p = first_of_provider p u.auths

-- `provider == b.Provider`
abbrev pub provider_is : String → Auth → Bool
provider_is p b = str_eq p b.provider

-- `RemoveAuthByProvider`
unfoldable pub remove_auth_by_provider : Option User → String → ℕ → Option User × Bool
remove_auth_by_provider none p now = (none, false)
remove_auth_by_provider (some u) p now =
    if str_eq p "auth0"
    then (some u, false)
    else store_auths u (without_first (provider_is p) u.auths) now

-- `ClearAuths`
abbrev pub clear_auths : User → ℕ → User
clear_auths u now = record u { auths = []; updated_at = now }

-- `Deactivate`, which reads the clock twice
abbrev pub deactivate : User → ℕ → ℕ → User
deactivate u now now' = record u { deleted_at = some now; updated_at = now' }

-- `IsDeleted`
abbrev pub is_deleted : User → Bool
is_deleted u = is_some u.deleted_at

-- `Reactivate`
abbrev pub reactivate : User → ℕ → User
reactivate u now = record u { deleted_at = none; updated_at = now }

-- `SetLatestLogoutAt`
abbrev pub set_latest_logout_at : User → ℕ → ℕ → User
set_latest_logout_at u t now = record u { latest_logout_at = t; updated_at = now }

-- `SetPasswordReset`
abbrev pub set_password_reset : User → Option PasswordReset → ℕ → User
set_password_reset u pr now = record u { password_reset = pr; updated_at = now }

-- `SetVerification`
abbrev pub set_verification : User → Option Verification → ℕ → User
set_verification u v now = record u { verification = v; updated_at = now }

-- `SetMetadata`
abbrev pub set_metadata : User → Metadata → ℕ → User
set_metadata u m now = record u { metadata = m; updated_at = now }

-- `Clone`, which leaves out the host
abbrev pub clone : User → ℕ → User
clone u now = record u { host = ""; updated_at = now }

-- `WithHost`
abbrev pub with_host : User → String → ℕ → User
with_host u host now = record (clone u now) { host = host }

module _ (is_number is_upper is_lower : ℕ → Bool) (enc : PasswordEncoder) where
  -- `SetPassword`
  unfoldable pub set_password : User → List ℕ → ℕ → Result User
  set_password u pass now = do
    p ← new_encoded_password is_number is_upper is_lower enc pass
    ok (record u { password = p; updated_at = now })

-- `MatchPassword`
unfoldable pub match_password : PasswordEncoder → Option User → List ℕ → Result Bool
match_password enc none pass = ok false
match_password enc (some u) pass = verify_password enc u.password pass
