-- ===== src/Documents/Mongo/Hash.antt =====
-- server/internal/infrastructure/mongo/mongodoc/workspace_hash.go. A Go map with texts for keys is a
-- list of its entries in one order in which `range` may visit it; distinct identifiers have distinct
-- texts. `hash` is what SHA-256 and the hexadecimal code make of the JSON text of the sorted members,
-- which always has one.
use reearth_accounts.Prelude.{String, Bool, List, [], ◌∷◌, ◌++◌, map, if◌then◌else◌}
use reearth_accounts.Prelude.TextOrder.{text_lt}

pub record WorkspaceMemberDocument : Type 0 where
  pub role : String
  pub invited_by : String
  pub disabled : Bool

abbrev pub MemberDocuments : Type 0
MemberDocuments = List (String × WorkspaceMemberDocument)

pub record WorkspaceMemberForHash : Type 0 where
  pub id : String
  pub role : String
  pub invited_by : String
  pub disabled : Bool
  pub type : String

abbrev pub for_hash : String → String × WorkspaceMemberDocument → WorkspaceMemberForHash
for_hash type (id, m) = record {
  id = id;
  role = m.role;
  invited_by = m.invited_by;
  disabled = m.disabled;
  type = type;
}

-- `sort.Slice` by the order of the identifiers' texts
abbrev pub place :
    WorkspaceMemberForHash → List WorkspaceMemberForHash → List WorkspaceMemberForHash
place m [] = m ∷ []
place m (x ∷ l) = let rest = place m l in if text_lt x.id m.id then x ∷ rest else m ∷ x ∷ l

abbrev pub sort : List WorkspaceMemberForHash → List WorkspaceMemberForHash
sort [] = []
sort (m ∷ l) = place m (sort l)

-- All members, unsorted
abbrev pub entries : MemberDocuments → MemberDocuments → List WorkspaceMemberForHash
entries members integrations =
    map (for_hash "user") members ++ map (for_hash "integration") integrations

-- `ComputeWorkspaceMembersHash`
unfoldable pub compute_workspace_members_hash :
    (List WorkspaceMemberForHash → String) → MemberDocuments → MemberDocuments → String
compute_workspace_members_hash hash members integrations =
    hash (sort (entries members integrations))
