-- ===== src/Documents/Mongo/Users.antt =====
-- server/internal/infrastructure/mongo/mongodoc/user.go. The clock is read for a missing time of
-- update (`now`), in the builder, and when a loaded user is given a host.
use reearth_accounts.Prelude.{
  ℕ, String, Bool, Option, none, some, List, map, Result, ok, ◌>>=◌, str_eq, if◌then◌else◌,
}
use reearth_accounts.Documents.Texts.{Texts, or_invalid, or_now}
use reearth_accounts.User.Auth.{Auth, auth_from}
use reearth_accounts.User.Tokens.{Verification, PasswordReset}
use reearth_accounts.User.Account.{
  Metadata, new_metadata, theme_of, lang_from, set_description, set_website, set_photo_url,
  set_theme, User, with_host,
}
use reearth_accounts.User.Builder.{
  Outside, Builder, new, build, with_id, with_name, with_email, with_latest_logout_at,
  with_metadata, with_alias, with_auths, with_workspace, with_verification, with_encoded_password,
  with_password_reset, with_updated_at, with_deleted_at, with_created_at,
}

pub record PasswordResetDocument : Type 0 where
  pub token : String
  pub created_at : ℕ

pub record UserVerificationDoc : Type 0 where
  pub code : String
  pub expiration : ℕ
  pub verified : Bool

pub record UserMetadataDoc : Type 0 where
  pub description : String
  pub website : String
  pub photo_url : String
  pub lang : String
  pub theme : String

pub record UserDocument : Type 0 where
  pub id : String
  pub name : String
  pub alias : String
  pub email : String
  pub latest_logout_at : ℕ
  pub subs : List String
  pub workspace : String
  pub team : String
  pub lang : String
  pub theme : String
  pub password : List ℕ
  pub password_reset : Option PasswordResetDocument
  pub verification : Option UserVerificationDoc
  pub metadata : UserMetadataDoc
  pub updated_at : ℕ
  pub deleted_at : Option ℕ
  pub created_at : Option ℕ

-- The subs that the first loop of `NewUser` collects
abbrev pub sub_of : Auth → String
sub_of a = a.sub

abbrev pub verification_doc : Option Verification → Option UserVerificationDoc
verification_doc none = none
verification_doc (some v) =
    some (record { code = v.code; expiration = v.expiration; verified = v.verified })

abbrev pub password_reset_doc : Option PasswordReset → Option PasswordResetDocument
password_reset_doc none = none
password_reset_doc (some r) = some (record { token = r.token; created_at = r.created_at })

-- `PasswordResetDocument.Model`
abbrev pub reset_model : Option PasswordResetDocument → Option PasswordReset
reset_model none = none
reset_model (some d) = some (record { token = d.token; created_at = d.created_at })

-- `VerificationFrom` on what the document has
abbrev pub verification_model : Option UserVerificationDoc → Option Verification
verification_model none = none
verification_model (some d) =
    some (record { verified = d.verified; code = d.code; expiration = d.expiration })

module _ (t : Texts) where
  abbrev pub metadata_doc : Metadata → UserMetadataDoc
  metadata_doc m = record {
    description = m.description;
    website = m.website;
    photo_url = m.photo_url;
    lang = t.lang_text m.lang;
    theme = theme_of m;
  }

  -- `NewUser`
  unfoldable pub new_user : User → ℕ → UserDocument × String
  new_user u now =
      let doc : UserDocument = record {
        id = t.id_text u.id;
        name = u.name;
        alias = u.alias;
        email = u.email;
        latest_logout_at = u.latest_logout_at;
        subs = map sub_of u.auths;
        workspace = t.id_text u.workspace;
        team = "";
        lang = "";
        theme = "";
        password = u.password;
        password_reset = password_reset_doc u.password_reset;
        verification = verification_doc u.verification;
        metadata = metadata_doc u.metadata;
        updated_at = or_now u.updated_at now;
        deleted_at = u.deleted_at;
        created_at = u.created_at;
      } in
      (doc, t.id_text u.id)

  -- The metadata that `Model` fills
  abbrev pub metadata_model : UserMetadataDoc → Metadata
  metadata_model d =
      let m = set_description new_metadata d.description in
      let m' = set_photo_url (set_website m d.website) d.photo_url in
      set_theme (lang_from t.lang_parse m' d.lang) d.theme

  -- The builder that `Model` fills, with the times at which `Auths` reads the clock
  abbrev pub builder : UserDocument → ℕ → ℕ → ℕ → Builder
  builder d uid tid now =
      let auths = map (auth_from t.split) d.subs in
      let named = with_email (with_name (with_id new uid) d.name) d.email in
      let known = with_metadata (with_latest_logout_at named d.latest_logout_at) in
      let b = with_auths (with_alias (known (metadata_model d.metadata)) d.alias) auths now in
      let b' = with_verification (with_workspace b tid) (verification_model d.verification) in
      let keyed = with_encoded_password b' d.password in
      let b'' = with_password_reset keyed (reset_model d.password_reset) in
      with_created_at (with_deleted_at (with_updated_at b'' d.updated_at) d.deleted_at) d.created_at

  -- `UserDocument.Model`, with the times at which the builder reads the clock
  unfoldable pub model : Outside → UserDocument → ℕ → Result User
  model o d now = do
    uid ← or_invalid (t.id_from d.id)
    tid ← or_invalid (t.id_from (if str_eq d.workspace "" then d.team else d.workspace))
    build o (builder d uid tid now) now now now

  -- What `NewUserConsumer` makes of a document
  unfoldable pub consume : Outside → String → UserDocument → ℕ → Result User
  consume o host d now = do m ← model o d now; ok (with_host m host now)
