-- ===== src/Documents/Mongo/Workspaces.antt =====
-- server/internal/infrastructure/mongo/mongodoc/workspace.go. `none` stands for a panic of the
-- loading. The hash of the members is in Hash.
use reearth_accounts.Prelude.{
  ℕ, String, Bool, Option, none, some, List, [], ◌∷◌, map, Result, ok, err, ◌>>=◌, str_eq,
  if◌then◌else◌, invalid_id,
}
use reearth_accounts.Prelude.Dict.{Dict, insert}
use reearth_accounts.Documents.Texts.{Texts, or_invalid, or_now}
use reearth_accounts.Documents.Mongo.Hash.{
  WorkspaceMemberDocument, MemberDocuments, WorkspaceMemberForHash, compute_workspace_members_hash,
}
use reearth_accounts.Workspace.Member.{Member}
use reearth_accounts.Workspace.Entity.{Metadata, Workspace, is_personal}
use reearth_accounts.Workspace.Builder.{
  Builder, new, build, with_id, with_name, with_alias, with_email, with_metadata, with_members,
  with_integrations, with_personal, with_policy, with_created_at, with_created_by, with_updated_at,
  with_deleted_at,
}

-- `WorkspaceMetadataDocument` has the fields of the metadata.
pub record WorkspaceMetadataDocument : Type 0 where
  pub description : String
  pub website : String
  pub location : String
  pub billing_email : String
  pub photo_url : String

pub record WorkspaceDocument : Type 0 where
  pub id : String
  pub name : String
  pub alias : String
  pub email : String
  pub metadata : WorkspaceMetadataDocument
  pub members : MemberDocuments
  pub integrations : MemberDocuments
  pub members_hash : String
  pub personal : Bool
  pub policy : String
  pub created_at : Option ℕ
  pub created_by : String
  pub updated_at : ℕ
  pub deleted_at : Option ℕ

-- `lo.FromPtr(ws.Policy()).String()`
abbrev pub policy_text : Option String → String
policy_text none = ""
policy_text (some p) = p

abbrev pub text_policy : String → Option String
text_policy s = if str_eq s "" then none else some s

-- `lo.FromPtr(ws.CreatedBy())`
abbrev pub id_or_zero : Option ℕ → ℕ
id_or_zero none = 0
id_or_zero (some i) = i

abbrev pub metadata_doc : Metadata → WorkspaceMetadataDocument
metadata_doc m = record {
  description = m.description;
  website = m.website;
  location = m.location;
  billing_email = m.billing_email;
  photo_url = m.photo_url;
}

-- `MetadataFrom` on what the document has
abbrev pub metadata_from : WorkspaceMetadataDocument → Metadata
metadata_from d = record {
  description = d.description;
  website = d.website;
  location = d.location;
  billing_email = d.billing_email;
  photo_url = d.photo_url;
}

module _ (t : Texts) where
  abbrev pub member_doc : ℕ × Member → String × WorkspaceMemberDocument
  member_doc (u, m) =
      let doc : WorkspaceMemberDocument = record {
        role = m.role;
        invited_by = t.id_text m.invited_by;
        disabled = m.disabled;
      } in
      (t.id_text u, doc)

  -- `NewWorkspace`
  unfoldable pub new_workspace :
      (List WorkspaceMemberForHash → String) → Workspace → ℕ → WorkspaceDocument × String
  new_workspace hash w now =
      let members = map member_doc w.members.users in
      let integrations = map member_doc w.members.integrations in
      let doc : WorkspaceDocument = record {
        id = t.id_text w.id;
        name = w.name;
        alias = w.alias;
        email = w.email;
        metadata = metadata_doc w.metadata;
        members = members;
        integrations = integrations;
        members_hash = compute_workspace_members_hash hash members integrations;
        personal = is_personal w;
        policy = policy_text w.policy;
        created_at = w.created_at;
        created_by = t.id_text (id_or_zero w.created_by);
        updated_at = or_now w.updated_at now;
        deleted_at = w.deleted_at;
      } in
      (doc, t.id_text w.id)

  abbrev pub member_from : WorkspaceMemberDocument → ℕ → Member
  member_from d by = record { role = d.role; disabled = d.disabled; invited_by = by; host = "" }

  -- The inviter of a member, or the member where the text of the inviter cannot be read
  abbrev pub inviter : String → ℕ → ℕ
  inviter text uid = elim (t.id_from text) [ none ↦ uid | some by ↦ by ]

  -- The loop of `Model` over the members
  abbrev pub read_members : MemberDocuments → Dict Member → Result (Dict Member)
  read_members [] acc = ok acc
  read_members ((s, d) ∷ l) acc = do
    uid ← or_invalid (t.id_from s)
    read_members l (insert uid (member_from d (inviter d.invited_by uid)) acc)

  -- Its loop over the integrations, where `MustUserID` panics on a text that cannot be read
  abbrev pub read_integrations : MemberDocuments → Dict Member → Option (Result (Dict Member))
  read_integrations [] acc = some (ok acc)
  read_integrations ((s, d) ∷ l) acc = elim (t.id_from s) [
    | none ↦ some (err invalid_id)
    | some iid ↦ elim (t.id_from d.invited_by) [
      | none ↦ none
      | some by ↦ read_integrations l (insert iid (member_from d by) acc)
    ]
  ]

  -- `var createdBy` with what is read into it
  abbrev pub creator : String → Option ℕ
  creator text = if str_eq text "" then none else t.id_from text

  abbrev pub builder : WorkspaceDocument → ℕ → Dict Member → Dict Member → Builder
  builder d tid members integrations =
      let named = with_email (with_alias (with_name (with_id new tid) d.name) d.alias) d.email in
      let b = with_members (with_metadata named (metadata_from d.metadata)) members in
      let b' = with_personal (with_integrations b integrations) d.personal in
      let b'' = with_created_at (with_policy b' (text_policy d.policy)) d.created_at in
      with_deleted_at (with_updated_at (with_created_by b'' (creator d.created_by)) d.updated_at)
        d.deleted_at

  -- What follows the loop over the integrations
  abbrev pub built :
      (ℕ → Bool)
      → WorkspaceDocument
      → ℕ
      → Dict Member
      → ℕ
      → Option (Result (Dict Member))
      → Option (Result Workspace)
  built is_empty d tid members now none = none
  built is_empty d tid members now (some (err e)) = some (err e)
  built is_empty d tid members now (some (ok integrations)) =
      some (build is_empty (builder d tid members integrations) now now)

  abbrev pub joined :
      (ℕ → Bool) → WorkspaceDocument → ℕ → ℕ → Result (Dict Member) → Option (Result Workspace)
  joined is_empty d tid now (err e) = some (err e)
  joined is_empty d tid now (ok members) =
      built is_empty d tid members now (read_integrations d.integrations [])

  -- `WorkspaceDocument.Model`, with the times at which the builder reads the clock
  unfoldable pub model : (ℕ → Bool) → WorkspaceDocument → ℕ → Option (Result Workspace)
  model is_empty d now = elim (t.id_from d.id) [
    | none ↦ some (err invalid_id)
    | some tid ↦ joined is_empty d tid now (read_members d.members [])
  ]

  -- `NewWorkspaces`; `none` is a nil workspace.
  abbrev pub new_workspaces :
      (List WorkspaceMemberForHash → String)
      → List (Option Workspace)
      → ℕ
      → List WorkspaceDocument × List String
  new_workspaces hash [] now = ([], [])
  new_workspaces hash (none ∷ l) now = new_workspaces hash l now
  new_workspaces hash (some w ∷ l) now =
      let (doc, id) = new_workspace hash w now in
      let (docs, ids) = new_workspaces hash l now in (doc ∷ docs, id ∷ ids)
