-- ===== src/Documents/Postgres/Workspaces.antt =====
-- server/internal/infrastructure/postgres/pgdoc/workspace.go. The rows of the members are a list in
-- one order in which `range` may visit the map; the rest is as for the documents.
use reearth_accounts.Prelude.{
  ℕ, String, Bool, Option, none, some, List, [], ◌∷◌, map, Result, ok, ◌>>=◌, str_eq, if◌then◌else◌,
}
use reearth_accounts.Prelude.Dict.{Dict, insert}
use reearth_accounts.Documents.Texts.{Texts, or_invalid, or_now}
use reearth_accounts.Documents.Mongo.Hash.{WorkspaceMemberForHash, compute_workspace_members_hash}
use reearth_accounts.Documents.Mongo.Workspaces.{member_doc}
use reearth_accounts.Documents.Postgres.Json.{Jsonb, encoded, unmarshal}
use reearth_accounts.Workspace.Member.{Member}
use reearth_accounts.Workspace.Entity.{Metadata, Workspace, is_personal}
use reearth_accounts.Workspace.Builder.{
  Builder, new, build, with_id, with_name, with_alias, with_email, with_metadata, with_members,
  with_integrations, with_personal, with_policy, with_created_at, with_created_by, with_updated_at,
  with_deleted_at,
}

pub record WorkspaceMetadataJson : Type 0 where
  pub description : String
  pub website : String
  pub location : String
  pub billing_email : String
  pub photo_url : String

pub record WorkspaceMemberRow : Type 0 where
  pub workspace_id : String
  pub user_id : String
  pub role : String
  pub invited_by : String
  pub disabled : Bool

pub record WorkspaceIntegrationRow : Type 0 where
  pub workspace_id : String
  pub integration_id : String
  pub role : String
  pub invited_by : String
  pub disabled : Bool

pub record WorkspaceRow : Type 0 where
  pub id : String
  pub name : String
  pub alias : String
  pub email : String
  pub personal : Bool
  pub policy : Option String
  pub members_hash : String
  pub metadata : Jsonb WorkspaceMetadataJson
  pub created_at : Option ℕ
  pub created_by : Option String
  pub updated_at : ℕ
  pub deleted_at : Option ℕ

abbrev pub metadata_json : Metadata → WorkspaceMetadataJson
metadata_json m = record {
  description = m.description;
  website = m.website;
  location = m.location;
  billing_email = m.billing_email;
  photo_url = m.photo_url;
}

-- `var mj WorkspaceMetadataJSON` and `MetadataFrom`
abbrev pub metadata_from : Option WorkspaceMetadataJson → Metadata
metadata_from none = record {
  description = "";
  website = "";
  location = "";
  billing_email = "";
  photo_url = "";
}
metadata_from (some j) = record {
  description = j.description;
  website = j.website;
  location = j.location;
  billing_email = j.billing_email;
  photo_url = j.photo_url;
}

-- `if r.Policy != nil && *r.Policy != ""`
abbrev pub policy_from : Option String → Option String
policy_from none = none
policy_from (some p) = if str_eq p "" then none else some p

module _ (t : Texts) where
  abbrev pub member_row : String → ℕ × Member → WorkspaceMemberRow
  member_row wid (u, m) = record {
    workspace_id = wid;
    user_id = t.id_text u;
    role = m.role;
    invited_by = t.id_text m.invited_by;
    disabled = m.disabled;
  }

  abbrev pub integration_row : String → ℕ × Member → WorkspaceIntegrationRow
  integration_row wid (i, m) = record {
    workspace_id = wid;
    integration_id = t.id_text i;
    role = m.role;
    invited_by = t.id_text m.invited_by;
    disabled = m.disabled;
  }

  abbrev pub creator_column : Option ℕ → Option String
  creator_column none = none
  creator_column (some by) = some (t.id_text by)

  -- `NewWorkspaceRows`
  unfoldable pub new_workspace_rows :
      (List WorkspaceMemberForHash → String)
      → Workspace
      → ℕ
      → WorkspaceRow × List WorkspaceMemberRow × List WorkspaceIntegrationRow
  new_workspace_rows hash w now =
      let members = map (member_doc t) w.members.users in
      let integrations = map (member_doc t) w.members.integrations in
      let row : WorkspaceRow = record {
        id = t.id_text w.id;
        name = w.name;
        alias = w.alias;
        email = w.email;
        personal = is_personal w;
        policy = w.policy;
        members_hash = compute_workspace_members_hash hash members integrations;
        metadata = encoded (metadata_json w.metadata);
        created_at = w.created_at;
        created_by = creator_column w.created_by;
        updated_at = or_now w.updated_at now;
        deleted_at = w.deleted_at;
      } in
      (
        row,
        map (member_row (t.id_text w.id)) w.members.users,
        map (integration_row (t.id_text w.id)) w.members.integrations,
      )

  abbrev pub member_from : String → Bool → ℕ → Member
  member_from role disabled by = record {
    role = role;
    disabled = disabled;
    invited_by = by;
    host = "";
  }

  -- The inviter, or what stands for one whose text cannot be read
  abbrev pub inviter : String → ℕ → ℕ
  inviter text other = elim (t.id_from text) [ none ↦ other | some by ↦ by ]

  -- The loops of `WorkspaceModel`
  abbrev pub read_members : List WorkspaceMemberRow → Dict Member → Result (Dict Member)
  read_members [] acc = ok acc
  read_members (m ∷ l) acc = do
    uid ← or_invalid (t.id_from m.user_id)
    read_members l (insert uid (member_from m.role m.disabled (inviter m.invited_by uid)) acc)

  abbrev pub read_integrations : List WorkspaceIntegrationRow → Dict Member → Result (Dict Member)
  read_integrations [] acc = ok acc
  read_integrations (m ∷ l) acc = do
    iid ← or_invalid (t.id_from m.integration_id)
    read_integrations l (insert iid (member_from m.role m.disabled (inviter m.invited_by 0)) acc)

  -- `if r.CreatedBy != nil && *r.CreatedBy != ""`, with what is read
  abbrev pub creator_from : Option String → Option ℕ
  creator_from none = none
  creator_from (some s) = if str_eq s "" then none else t.id_from s

  abbrev pub builder : WorkspaceRow → ℕ → Dict Member → Dict Member → Metadata → Builder
  builder r tid members integrations metadata =
      let named = with_email (with_alias (with_name (with_id new tid) r.name) r.alias) r.email in
      let b =
        with_integrations (with_members (with_metadata named metadata) members) integrations in
      let b' = with_policy (with_personal b r.personal) (policy_from r.policy) in
      let b'' = with_created_by (with_created_at b' r.created_at) (creator_from r.created_by) in
      with_deleted_at (with_updated_at b'' r.updated_at) r.deleted_at

  -- `WorkspaceModel`, with the times at which the builder reads the clock
  unfoldable pub model :
      (ℕ → Bool)
      → WorkspaceRow
      → List WorkspaceMemberRow
      → List WorkspaceIntegrationRow
      → ℕ
      → Result Workspace
  model is_empty r members integrations now = do
    tid ← or_invalid (t.id_from r.id)
    mems ← read_members members []
    integs ← read_integrations integrations []
    j ← unmarshal r.metadata
    build is_empty (builder r tid mems integs (metadata_from j)) now now
