-- ===== src/Documents/Postgres/Json.antt =====
-- A jsonb column by what `encoding/json` makes of its bytes: none, bytes that do not decode, or the
-- encoding of a value, which decodes to it.
use reearth_accounts.Prelude.{Result, ok, err, failed, Option, none, some}

pub data Jsonb (A : Type 0) : Type 0 where
  no_bytes malformed : Jsonb A
  encoded : A → Jsonb A

-- `if len(column) > 0 { json.Unmarshal(column, &v) }`, with `none` where nothing was read
abbrev pub unmarshal : {A : Type 0} → Jsonb A → Result (Option A)
unmarshal no_bytes = ok none
unmarshal malformed = err failed
unmarshal (encoded a) = ok (some a)
