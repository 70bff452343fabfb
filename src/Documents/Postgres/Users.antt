-- ===== src/Documents/Postgres/Users.antt =====
-- server/internal/infrastructure/postgres/pgdoc/user.go. The clock is read for a missing time of
-- update, and in the builder. The metadata of a user are a value, so they are never nil.
use reearth_accounts.Prelude.{
  ℕ, String, Bool, Option, none, some, List, map, Result, ◌>>=◌, str_eq, ◌==◌, if◌then◌else◌,
}
use reearth_accounts.Documents.Texts.{Texts, or_invalid, or_now}
use reearth_accounts.Documents.Mongo.Users.{sub_of}
use reearth_accounts.Documents.Postgres.Json.{Jsonb, no_bytes, encoded, unmarshal}
use reearth_accounts.User.Auth.{auth_from}
use reearth_accounts.User.Tokens.{Verification, PasswordReset}
use reearth_accounts.User.Account.{
  Metadata, new_metadata, theme_of, lang_from, set_description, set_website, set_photo_url,
  set_theme, User,
}
use reearth_accounts.User.Builder.{
  Outside, Builder, new, build, with_id, with_name, with_email, with_latest_logout_at,
  with_metadata, with_alias, with_auths, with_workspace, with_verification, with_encoded_password,
  with_password_reset, with_updated_at, with_deleted_at, with_created_at,
}

pub record UserMetadataJson : Type 0 where
  pub description : String
  pub website : String
  pub photo_url : String
  pub lang : String
  pub theme : String

pub record UserVerificationJson : Type 0 where
  pub code : String
  pub expiration : ℕ
  pub verified : Bool

pub record UserPasswordResetJson : Type 0 where
  pub token : String
  pub created_at : ℕ

pub record UserRow : Type 0 where
  pub id : String
  pub name : String
  pub alias : String
  pub email : String
  pub workspace : String
  pub password : List ℕ
  pub subs : List String
  pub latest_logout_at : Option ℕ
  pub metadata : Jsonb UserMetadataJson
  pub verification : Jsonb UserVerificationJson
  pub password_reset : Jsonb UserPasswordResetJson
  pub team : Option String
  pub lang : Option String
  pub theme : Option String
  pub updated_at : ℕ
  pub deleted_at : Option ℕ
  pub created_at : Option ℕ

-- The columns of `NewUserRow` for a verification and for a password reset
abbrev pub verification_column : Option Verification → Jsonb UserVerificationJson
verification_column none = no_bytes
verification_column (some v) =
    encoded (record { code = v.code; expiration = v.expiration; verified = v.verified })

abbrev pub password_reset_column : Option PasswordReset → Jsonb UserPasswordResetJson
password_reset_column none = no_bytes
password_reset_column (some r) = encoded (record { token = r.token; created_at = r.created_at })

-- The readings of those columns in `Model`
abbrev pub verification_read : Option UserVerificationJson → Option Verification
verification_read none = none
verification_read (some j) =
    some (record { verified = j.verified; code = j.code; expiration = j.expiration })

abbrev pub password_reset_read : Option UserPasswordResetJson → Option PasswordReset
password_reset_read none = none
password_reset_read (some j) = some (record { token = j.token; created_at = j.created_at })

-- `var mj UserMetadataJSON`, where the column has none
abbrev pub metadata_or_zero : Option UserMetadataJson → UserMetadataJson
metadata_or_zero none = record {
  description = "";
  website = "";
  photo_url = "";
  lang = "";
  theme = "";
}
metadata_or_zero (some j) = j

-- `wid == "" && r.Team != nil`
abbrev pub workspace_text : String → Option String → String
workspace_text w none = w
workspace_text w (some team) = if str_eq w "" then team else w

abbrev pub time_or_zero : Option ℕ → ℕ
time_or_zero none = 0
time_or_zero (some time) = time

module _ (t : Texts) where
  abbrev pub metadata_json : Metadata → UserMetadataJson
  metadata_json m = record {
    description = m.description;
    website = m.website;
    photo_url = m.photo_url;
    lang = t.lang_text m.lang;
    theme = theme_of m;
  }

  -- `NewUserRow`
  unfoldable pub new_user_row : User → ℕ → UserRow
  new_user_row u now = record {
    id = t.id_text u.id;
    name = u.name;
    alias = u.alias;
    email = u.email;
    workspace = t.id_text u.workspace;
    password = u.password;
    subs = map sub_of u.auths;
    latest_logout_at = if u.latest_logout_at == 0 then none else some u.latest_logout_at;
    metadata = encoded (metadata_json u.metadata);
    verification = verification_column u.verification;
    password_reset = password_reset_column u.password_reset;
    team = none;
    lang = none;
    theme = none;
    updated_at = or_now u.updated_at now;
    deleted_at = u.deleted_at;
    created_at = u.created_at;
  }

  -- The metadata that `Model` fills
  abbrev pub metadata_model : UserMetadataJson → Metadata
  metadata_model j =
      let m = set_description new_metadata j.description in
      let m' = set_photo_url (set_website m j.website) j.photo_url in
      set_theme (lang_from t.lang_parse m' j.lang) j.theme

  -- The builder that `Model` fills with what it has read
  abbrev pub builder :
      UserRow → ℕ → ℕ → Option Verification → Option PasswordReset → Metadata → ℕ → Builder
  builder r uid tid v reset metadata now =
      let named = with_email (with_name (with_id new uid) r.name) r.email in
      let seen = with_latest_logout_at named (time_or_zero r.latest_logout_at) in
      let known = with_alias (with_metadata seen metadata) r.alias in
      let b = with_workspace (with_auths known (map (auth_from t.split) r.subs) now) tid in
      let b' =
        with_password_reset (with_encoded_password (with_verification b v) r.password) reset in
      with_created_at (with_deleted_at (with_updated_at b' r.updated_at) r.deleted_at) r.created_at

  -- `UserRow.Model`, with the times at which the builder reads the clock
  unfoldable pub model : Outside → UserRow → ℕ → Result User
  model o r now = do
    uid ← or_invalid (t.id_from r.id)
    tid ← or_invalid (t.id_from (workspace_text r.workspace r.team))
    v ← unmarshal r.verification
    reset ← unmarshal r.password_reset
    j ← unmarshal r.metadata
    let metadata = metadata_model (metadata_or_zero j)
    let b = builder r uid tid (verification_read v) (password_reset_read reset) metadata now
    build o b now now now
