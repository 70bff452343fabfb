-- ===== src/Documents/Stored/Users.antt =====
-- A user who is stored and loaded: mongodoc/user.go and pgdoc/user.go.
use reearth_accounts.Prelude.{
  ℕ, String, ◌<◌, ◌≡◌, refl, true, false, Option, none, some, List, [], ◌∷◌, map, Result, ok, arith,
  eq_iff, ◌>>=◌, ◌∙◌, if◌then◌else◌, ◌==◌,
}
use reearth_accounts.Documents.Texts.{Texts, IsTexts, or_now_set, id_text_lem}
use reearth_accounts.Documents.Mongo.Users as M
use reearth_accounts.Documents.Mongo.Users.{sub_of}
use reearth_accounts.Documents.Postgres.Users as P
use reearth_accounts.Documents.Postgres.Json.{unmarshal}
use reearth_accounts.User.Auth.{Auth, auth_from}
use reearth_accounts.User.Tokens.{Verification, PasswordReset}
use reearth_accounts.User.Account.{Metadata, User, theme_valid, lang_from}
use reearth_accounts.User.Builder.{Outside, Builder, new, build}
use reearth_accounts.User.Identities.{HasDistinctProviders}
use reearth_accounts.User.Rebuilt.{with_auths_lem, build_fixed}

-- Each identity is the one that `AuthFrom` makes of its sub.
abbrev pub HasReadSubs : (String → List String) → List Auth → Type 0
HasReadSubs split [] = Unit
HasReadSubs split (a ∷ l) = (auth_from split a.sub ≡ a) × HasReadSubs split l

read_subs :
    (split : String → List String) (l : List Auth)
    → HasReadSubs split l
    → map (auth_from split) (map sub_of l) ≡ l
read_subs split [] h = refl
read_subs split (a ∷ l) h = rw (h.0, read_subs split l h.1)

module _ (t : Texts) (laws : IsTexts t) where
  metadata_read :
      (m : Metadata) → theme_valid m.theme ≡ true → M.metadata_model t (M.metadata_doc t m) ≡ m
  unfolding lang_from
  metadata_read m valid =
      rw (laws.lang_parse-lang_text m.lang, valid)
        (ground (arith, eq_iff (t.lang_text m.lang) "", laws.lang_text_ne m.lang))

  json_read :
      (m : Metadata) → theme_valid m.theme ≡ true → P.metadata_model t (P.metadata_json t m) ≡ m
  unfolding lang_from
  json_read m valid =
      rw (laws.lang_parse-lang_text m.lang, valid)
        (ground (arith, eq_iff (t.lang_text m.lang) "", laws.lang_text_ne m.lang))

-- What a user has who was stored: identifiers that are set, an e-mail address that parses, a
-- valid theme, a time of update, and identities read from their subs, no two of one provider.
pub record IsWhole (t : Texts) (o : Outside) (u : User) : Type 0 where
  pub id_set : 0 < u.id
  pub workspace_set : 0 < u.workspace
  pub id : o.is_empty u.id ≡ false
  pub email : o.parses u.email ≡ true
  pub theme : theme_valid u.metadata.theme ≡ true
  pub updated_at : 0 < u.updated_at
  pub subs : HasReadSubs t.split u.auths
  pub providers : HasDistinctProviders u.auths

-- The builder before its identities
abbrev unsigned : User → Builder
unsigned u = record new {
  u = record new.u {
    id = u.id;
    name = u.name;
    alias = u.alias;
    latest_logout_at = u.latest_logout_at;
    metadata = u.metadata;
  };
  email = u.email;
}

verification_kept : (v : Option Verification) → M.verification_model (M.verification_doc v) ≡ v
verification_kept none = refl
verification_kept (some v) = refl

reset_kept : (r : Option PasswordReset) → M.reset_model (M.password_reset_doc r) ≡ r
reset_kept none = refl
reset_kept (some r) = refl

time_kept : (a : ℕ) → P.time_or_zero (if a == 0 then none else some a) ≡ a
time_kept a = ground arith

mongo_user_stored :
    (t : Texts) (o : Outside) (u : User) (now now' : ℕ)
    → IsTexts t
    → IsWhole t o u
    → M.model t o (M.new_user t u now).0 now' ≡ ok (record u { host = "" })
unfolding M.model M.new_user
mongo_user_stored t o u now now' laws w =
    let (time, added) = with_auths_lem (unsigned u) u.auths now' refl w.providers in
    rw
      (
        laws.id_from-id_text u.id w.id_set,
        id_text_lem t u.workspace laws w.workspace_set,
        laws.id_from-id_text u.workspace w.workspace_set,
        or_now_set u.updated_at now w.updated_at,
        metadata_read t laws u.metadata w.theme,
        read_subs t.split u.auths w.subs,
        added,
        verification_kept u.verification,
        reset_kept u.password_reset,
      )
      (build_fixed o (record u { host = "" }) now' w.id w.email w.theme w.updated_at)

columns_read :
    (v : Option Verification) (r : Option PasswordReset)
    (k : Option Verification → Option PasswordReset → Result User)
    → (unmarshal (P.verification_column v) >>= (λ a.
        unmarshal (P.password_reset_column r)
        >>= (λ b. k (P.verification_read a) (P.password_reset_read b))))
      ≡ k v r
columns_read none none k = refl
columns_read none (some r) k = refl
columns_read (some v) none k = refl
columns_read (some v) (some r) k = refl

postgres_user_stored :
    (t : Texts) (o : Outside) (u : User) (now now' : ℕ)
    → IsTexts t
    → IsWhole t o u
    → P.model t o (P.new_user_row t u now) now' ≡ ok (record u { host = "" })
unfolding P.model P.new_user_row
postgres_user_stored t o u now now' laws w =
    let (time, added) = with_auths_lem (unsigned u) u.auths now' refl w.providers in
    rw
      (
        laws.id_from-id_text u.id w.id_set,
        laws.id_from-id_text u.workspace w.workspace_set,
        or_now_set u.updated_at now w.updated_at,
        json_read t laws u.metadata w.theme,
        read_subs t.split u.auths w.subs,
        time_kept u.latest_logout_at,
        added,
      )
      (columns_read u.verification u.password_reset (λ v r.
          build o
            (record {
              u = record u { email = ""; host = ""; verification = v; password_reset = r };
              error = none;
              password_text = [];
              email = u.email;
            })
            now' now' now')
        ∙ build_fixed o (record u { host = "" }) now' w.id w.email w.theme w.updated_at)

-- A user who is whole is loaded from the row, and from the document without a consumer, as
-- stored except for the host; the consumer of documents gives the host that it is made with, and
-- the time of loading in place of the stored time of update.
pub user_stored :
    (t : Texts) (o : Outside) (u : User) (host : String) (now now' : ℕ)
    → IsTexts t
    → IsWhole t o u
    → (P.model t o (P.new_user_row t u now) now' ≡ ok (record u { host = "" }))
      × (M.model t o (M.new_user t u now).0 now' ≡ ok (record u { host = "" }))
      × (M.consume t o host (M.new_user t u now).0 now'
          ≡ ok (record u { host = host; updated_at = now' }))
unfolding M.consume
user_stored t o u host now now' laws w =
    let mongo = mongo_user_stored t o u now now' laws w in
    (postgres_user_stored t o u now now' laws w, mongo, rw mongo refl)
