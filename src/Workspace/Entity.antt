-- ===== src/Workspace/Entity.antt =====
-- server/pkg/workspace/workspace.go and metadata.go. A field stands for its getter too; `now` and
-- `now'` are what successive calls of `time.Now()` give, and times are counted from the zero time.
use reearth_accounts.Prelude.{ℕ, String, Bool, Option, none, some, List, Result, ok, ◌>>=◌, is_some}
use reearth_accounts.Workspace.Member.{Members, delete_integrations}

pub record Metadata : Type 0 where
  pub description : String
  pub website : String
  pub location : String
  pub billing_email : String
  pub photo_url : String

-- `NewMetadata`
abbrev pub new_metadata : Metadata
new_metadata = record {
  description = "";
  website = "";
  location = "";
  billing_email = "";
  photo_url = "";
}

-- `SetDescription`
abbrev pub set_description : Metadata → String → Metadata
set_description m s = record m { description = s }

-- `SetWebsite`
abbrev pub set_website : Metadata → String → Metadata
set_website m s = record m { website = s }

-- `SetLocation`
abbrev pub set_location : Metadata → String → Metadata
set_location m s = record m { location = s }

-- `SetBillingEmail`
abbrev pub set_billing_email : Metadata → String → Metadata
set_billing_email m s = record m { billing_email = s }

-- `SetPhotoURL`
abbrev pub set_photo_url : Metadata → String → Metadata
set_photo_url m s = record m { photo_url = s }

pub record Workspace : Type 0 where
  pub id : ℕ
  pub name : String
  pub alias : String
  pub email : String
  pub metadata : Metadata
  pub members : Members
  pub policy : Option String
  pub created_at : Option ℕ
  pub created_by : Option ℕ
  pub updated_at : ℕ
  pub deleted_at : Option ℕ

-- `IsPersonal`
abbrev pub is_personal : Workspace → Bool
is_personal w = w.members.fixed

-- `Rename`
abbrev pub rename : Workspace → String → ℕ → Workspace
rename w name now = record w { name = name; updated_at = now }

-- `UpdateAlias`
abbrev pub update_alias : Workspace → String → ℕ → Workspace
update_alias w alias now = record w { alias = alias; updated_at = now }

-- `UpdateEmail`
abbrev pub update_email : Workspace → String → ℕ → Workspace
update_email w email now = record w { email = email; updated_at = now }

-- `SetMetadata`
abbrev pub set_metadata : Workspace → Metadata → ℕ → Workspace
set_metadata w metadata now = record w { metadata = metadata; updated_at = now }

-- `PolicytOr`
abbrev pub policy_or : Workspace → String → String
policy_or w def = elim w.policy [ none ↦ def | some p ↦ p ]

-- `SetPolicy`
abbrev pub set_policy : Workspace → Option String → ℕ → Workspace
set_policy w policy now = record w { policy = policy; updated_at = now }

-- `Delete`, which reads the clock twice
abbrev pub delete : Workspace → ℕ → ℕ → Workspace
delete w now now' = record w { deleted_at = some now; updated_at = now' }

-- `IsDeleted`
abbrev pub is_deleted : Workspace → Bool
is_deleted w = is_some w.deleted_at

-- `Restore`
abbrev pub restore : Workspace → ℕ → Workspace
restore w now = record w { deleted_at = none; updated_at = now }

-- `DeleteIntegrations`
unfoldable pub remove_integrations : Workspace → List ℕ → ℕ → Result Workspace
remove_integrations w iids now = do
  members ← delete_integrations w.members iids
  ok (record w { members = members; updated_at = now })
