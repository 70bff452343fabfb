-- ===== src/Documents/Configs.antt =====
-- server/pkg/config/config.go, and its document and row: mongodoc/config.go and pgdoc/config.go. A
-- migration is the number that its time spells.
use reearth_accounts.Prelude.{
  ℕ, String, ◌||◌, not, Option, none, some, List, [], ◌∷◌, ltb, str_eq, if◌then◌else◌,
}

pub record Auth : Type 0 where
  pub cert : String
  pub key : String

pub record Config : Type 0 where
  pub migration : ℕ
  pub auth : Option Auth
  pub default_policy : Option String

-- `&config.Config{}`
abbrev pub zero_config : Config
zero_config = record { migration = 0; auth = none; default_policy = none }

-- `sort.SliceStable` of the migrations
abbrev pub place : ℕ → List ℕ → List ℕ
place m [] = m ∷ []
place m (x ∷ l) = let rest = place m l in if ltb x m then x ∷ rest else m ∷ x ∷ l

abbrev pub sort : List ℕ → List ℕ
sort [] = []
sort (m ∷ l) = place m (sort l)

-- The loop of `NextMigrations`: the list from the first migration after the current one on
abbrev pub from_first_after : ℕ → List ℕ → List ℕ
from_first_after current [] = []
from_first_after current (m ∷ l) =
    let rest = from_first_after current l in if ltb current m then m ∷ l else rest

-- `NextMigrations`; nil is the empty list.
unfoldable pub next_migrations : Config → List ℕ → List ℕ
next_migrations c migrations = from_first_after c.migration (sort migrations)

-- mongodoc/config.go
pub record AuthDocument : Type 0 where
  pub cert : String
  pub key : String

pub record ConfigDocument : Type 0 where
  pub migration : ℕ
  pub auth : Option AuthDocument
  pub default_policy : Option String

-- `NewConfigAuth`
abbrev pub new_config_auth : Option Auth → Option AuthDocument
new_config_auth none = none
new_config_auth (some c) = some (record { cert = c.cert; key = c.key })

-- `NewConfig`
unfoldable pub new_config : Config → ConfigDocument
new_config c = record {
  migration = c.migration;
  auth = new_config_auth c.auth;
  default_policy = c.default_policy;
}

abbrev pub auth_model : Option AuthDocument → Option Auth
auth_model none = none
auth_model (some a) = some (record { cert = a.cert; key = a.key })

-- `ConfigDocument.Model`
unfoldable pub document_model : Option ConfigDocument → Config
document_model none = zero_config
document_model (some c) = record {
  migration = c.migration;
  auth = auth_model c.auth;
  default_policy = c.default_policy;
}

-- pgdoc/config.go
pub record ConfigRow : Type 0 where
  pub migration : ℕ
  pub auth_cert : String
  pub auth_key : String
  pub default_policy : Option String

abbrev pub cert_of : Option Auth → String
cert_of none = ""
cert_of (some a) = a.cert

abbrev pub key_of : Option Auth → String
key_of none = ""
key_of (some a) = a.key

-- `NewConfigRow`
unfoldable pub new_config_row : Config → ConfigRow
new_config_row c = record {
  migration = c.migration;
  auth_cert = cert_of c.auth;
  auth_key = key_of c.auth;
  default_policy = c.default_policy;
}

-- `if r.AuthCert != "" || r.AuthKey != ""`
abbrev pub auth_from : String → String → Option Auth
auth_from cert key =
    if not (str_eq cert "") || not (str_eq key "")
    then some (record { cert = cert; key = key })
    else none

-- `if r.DefaultPolicy != nil && *r.DefaultPolicy != ""`
abbrev pub policy_from : Option String → Option String
policy_from none = none
policy_from (some p) = if not (str_eq p "") then some p else none

-- `ConfigRow.Model`
unfoldable pub row_model : ConfigRow → Config
row_model r = record {
  migration = r.migration;
  auth = auth_from r.auth_cert r.auth_key;
  default_policy = policy_from r.default_policy;
}
