-- ===== src/User/Builder.antt =====
-- server/pkg/user/user_builder.go. A chain of builder calls is a chain of functions on the builder.
use reearth_accounts.Prelude.{
  ℕ, String, ◌≡◌, Bool, true, false, not, Option, none, some, List, [], ◌∷◌, ◌==◌, if◌then◌else◌,
  arith, Error, Result, ok, err, ◌>>=◌, invalid_id, Bool-cases, inl, inr, >>=-eq-ok,
}
use reearth_accounts.User.Auth.{Auth}
use reearth_accounts.User.Password.{PasswordEncoder}
use reearth_accounts.User.Tokens.{Verification, PasswordReset}
use reearth_accounts.User.Account.{
  Metadata, new_metadata, theme_valid, User, update_email, set_password, add_auth,
}

-- What the code calls outside the program: `IsEmpty` of idx.ID, `mail.ParseAddress`, the tests of
-- package unicode, and the password encoder.
pub record Outside : Type 0 where
  pub is_empty : ℕ → Bool
  pub parses : String → Bool
  pub is_number : ℕ → Bool
  pub is_upper : ℕ → Bool
  pub is_lower : ℕ → Bool
  pub encoder : PasswordEncoder

pub record Builder : Type 0 where
  pub u : User
  pub error : Option Error
  pub password_text : List ℕ
  pub email : String

-- `New`
abbrev pub new : Builder
new = record {
  u = record {
    id = 0;
    name = "";
    alias = "";
    email = "";
    latest_logout_at = 0;
    metadata = new_metadata;
    password = [];
    workspace = 0;
    auths = [];
    verification = none;
    password_reset = none;
    host = "";
    updated_at = 0;
    deleted_at = none;
    created_at = none;
  };
  error = none;
  password_text = [];
  email = "";
}

-- The password step of `Build`
abbrev with_password_text : Outside → Builder → ℕ → Result User
with_password_text o b now =
    let stored = set_password o.is_number o.is_upper o.is_lower o.encoder b.u b.password_text now in
    elim b.password_text [ [] ↦ ok b.u | c ∷ cs ↦ stored ]

-- The theme step of `Build`
abbrev default_theme : User → User
default_theme u =
    if not (theme_valid u.metadata.theme)
    then record u { metadata = record u.metadata { theme = "default" } }
    else u

-- The last step of `Build`
abbrev restore_updated_at : ℕ → ℕ → User → User
restore_updated_at preserved now u =
    if preserved == 0 then record u { updated_at = now } else record u { updated_at = preserved }

-- `Build` behind its checks
abbrev checked : Outside → Builder → ℕ → ℕ → ℕ → Result User
checked o b now now' now'' = do
  u ← with_password_text o b now
  u' ← update_email o.parses (default_theme u) b.email now'
  ok (restore_updated_at b.u.updated_at now'' u')

-- `Build`, with the readings of the clock in their order
unfoldable pub build : Outside → Builder → ℕ → ℕ → ℕ → Result User
build o b now now' now'' = elim b.error [
  | some e ↦ err e
  | none ↦ if o.is_empty b.u.id then err invalid_id else checked o b now now' now''
]

-- The loop of `Builder.Auths`
abbrev pub add_all : Option User → List Auth → ℕ → Option User
add_all u [] now = u
add_all u (a ∷ l) now = add_all (add_auth u a now).0 l now

abbrev or_else : User → Option User → User
or_else u none = u
or_else u (some v) = v

module _ (b : Builder) where
  -- `ID`
  abbrev pub with_id : ℕ → Builder
  with_id id = record b { u = record b.u { id = id } }

  -- `ParseID`, by what `IDFrom` gives for the text
  abbrev pub parse_id : (String → ℕ × Option Error) → String → Builder
  parse_id id_from id = let (i, e) = id_from id in record b { u = record b.u { id = i }; error = e }

  -- `Name`
  abbrev pub with_name : String → Builder
  with_name name = record b { u = record b.u { name = name } }

  -- `Alias`
  abbrev pub with_alias : String → Builder
  with_alias alias = record b { u = record b.u { alias = alias } }

  -- `Email`
  abbrev pub with_email : String → Builder
  with_email email = record b { email = email }

  -- `EncodedPassword`
  abbrev pub with_encoded_password : List ℕ → Builder
  with_encoded_password p = record b { u = record b.u { password = p } }

  -- `PasswordPlainText`
  abbrev pub with_password_plain_text : List ℕ → Builder
  with_password_plain_text p = record b { password_text = p }

  -- `Workspace`
  abbrev pub with_workspace : ℕ → Builder
  with_workspace workspace = record b { u = record b.u { workspace = workspace } }

  -- `Auths`
  unfoldable pub with_auths : List Auth → ℕ → Builder
  with_auths auths now = record b { u = or_else b.u (add_all (some b.u) auths now) }

  -- `PasswordReset`
  abbrev pub with_password_reset : Option PasswordReset → Builder
  with_password_reset pr = record b { u = record b.u { password_reset = pr } }

  -- `Verification`
  abbrev pub with_verification : Option Verification → Builder
  with_verification v = record b { u = record b.u { verification = v } }

  -- `LatestLogoutAt`
  abbrev pub with_latest_logout_at : ℕ → Builder
  with_latest_logout_at t = record b { u = record b.u { latest_logout_at = t } }

  -- `Metadata`
  abbrev pub with_metadata : Metadata → Builder
  with_metadata m = record b { u = record b.u { metadata = m } }

  -- `DeletedAt`
  abbrev pub with_deleted_at : Option ℕ → Builder
  with_deleted_at t = record b { u = record b.u { deleted_at = t } }

  -- `CreatedAt`
  abbrev pub with_created_at : Option ℕ → Builder
  with_created_at t = record b { u = record b.u { created_at = t } }

  -- `UpdatedAt`
  abbrev pub with_updated_at : ℕ → Builder
  with_updated_at t = record b { u = record b.u { updated_at = t } }

default_theme-valid : (u : User) → theme_valid (default_theme u).metadata.theme ≡ true
default_theme-valid u = elim (Bool-cases (theme_valid u.metadata.theme)) [
  | inl e ↦ rw e e
  | inr e ↦ rw e
]

-- What the password step leaves.
with_password_text_lem :
    (o : Outside) (b : Builder) (now : ℕ) (u : User)
    → with_password_text o b now ≡ ok u
    → (u.id ≡ b.u.id) × (u.auths ≡ b.u.auths)
unfolding set_password
with_password_text_lem o b now u h = ground arith

default_theme_lem : (u : User) → ((default_theme u).id ≡ u.id) × ((default_theme u).auths ≡ u.auths)
default_theme_lem u = ground arith

update_email_lem :
    (parses : String → Bool) (u u' : User) (email : String) (now : ℕ)
    → update_email parses u email now ≡ ok u'
    → (parses email ≡ true) × (u' ≡ record u { email = email; updated_at = now })
unfolding update_email
update_email_lem parses u u' email now h = ground arith

abbrev pub IsBuilt : Outside → Builder → ℕ → User → Type 0
IsBuilt o b now u =
    (u.id ≡ b.u.id)
    × (o.parses u.email ≡ true)
    × (u.email ≡ b.email)
    × (theme_valid u.metadata.theme ≡ true)
    × (u.auths ≡ b.u.auths)
    × (u.updated_at ≡ (if b.u.updated_at == 0 then now else b.u.updated_at))

checked_lem :
    (o : Outside) (b : Builder) (now now' now'' : ℕ) (u : User)
    → checked o b now now' now'' ≡ ok u
    → IsBuilt o b now'' u
checked_lem o b now now' now'' u h =
    let step = λ (u : User).
      update_email o.parses (default_theme u) b.email now'
      >>= (λ u'. ok (restore_updated_at b.u.updated_at now'' u')) in
    let (u0, e0, h0) = >>=-eq-ok (with_password_text o b now) step h in
    let (u1, e1, h1) =
      >>=-eq-ok (update_email o.parses (default_theme u0) b.email now')
        (λ u'. ok (restore_updated_at b.u.updated_at now'' u')) h0 in
    let (parsed, same) = update_email_lem o.parses (default_theme u0) u1 b.email now' e1 in
    ground
      (arith, with_password_text_lem o b now u0 e0, default_theme_lem u0, default_theme-valid u0)

-- If `Build` succeeds, no error was pending and the identifier is not empty; the user has the
-- identifier, the e-mail address and the identities of the builder, the address parses, the theme
-- is a valid one, and the time of update is the one that was set, or the current one if none was.
pub build_user_lem :
    (o : Outside) (b : Builder) (now now' now'' : ℕ) (u : User)
    → build o b now now' now'' ≡ ok u
    → (b.error ≡ none) × (o.is_empty b.u.id ≡ false) × IsBuilt o b now'' u
unfolding build
build_user_lem o b now now' now'' u h = ground (arith, checked_lem o b now now' now'' u)
