-- ===== src/Documents/Stored/Workspaces.antt =====
-- A workspace that is stored and loaded: mongodoc/workspace.go and pgdoc/workspace.go.
use reearth_accounts.Prelude.{
  ℕ, String, ◌<◌, ◌≡◌, ◌≢◌, refl, Bool, false, Option, none, some, List, [], ok, arith, eq_iff,
}
use reearth_accounts.Prelude.Dict.{HasDistinctKeys}
use reearth_accounts.Documents.Texts.{Texts, IsTexts, or_now_set, id_text_lem}
use reearth_accounts.Documents.Mongo.Hash as H
use reearth_accounts.Documents.Mongo.Workspaces as M
use reearth_accounts.Documents.Postgres.Workspaces as P
use reearth_accounts.Workspace.Entity.{Workspace}
use reearth_accounts.Workspace.Builder.{build}
use reearth_accounts.Documents.Stored.Members.{
  unhosted, HasSetMembers, AreNext, apart_nil, read_members_lem, read_integrations_lem,
  member_rows_lem, integration_rows_lem,
}

-- What a workspace has that was stored: an identifier that is set, a time of update, no empty
-- policy, a creator who is set, if there is one, and members and integrations that are set too.
pub record IsWhole (is_empty : ℕ → Bool) (w : Workspace) : Type 0 where
  pub id_set : 0 < w.id
  pub id : is_empty w.id ≡ false
  pub updated_at : 0 < w.updated_at
  pub policy : w.policy ≢ some ""
  pub created_by : w.created_by ≢ some 0
  pub users : HasDistinctKeys w.members.users
  pub users_set : HasSetMembers w.members.users
  pub integrations : HasDistinctKeys w.members.integrations
  pub integrations_set : HasSetMembers w.members.integrations

policy_kept : (p : Option String) → p ≢ some "" → M.text_policy (M.policy_text p) ≡ p
policy_kept none h = refl
policy_kept (some s) h = ground (arith, eq_iff s "")

policy_read : (p : Option String) → p ≢ some "" → P.policy_from p ≡ p
policy_read none h = refl
policy_read (some s) h = ground (arith, eq_iff s "")

creator_read :
    (t : Texts) (c : Option ℕ)
    → IsTexts t
    → c ≢ some 0
    → P.creator_from t (P.creator_column t c) ≡ c
creator_read t none laws h = refl
creator_read t (some by) laws h =
    let set : 0 < by = ground arith in rw (id_text_lem t by laws set, laws.id_from-id_text by set)

-- The creator that a document shows: where there is none, whoever the text of the zero identifier
-- names.
abbrev pub shown_creator : Texts → Option ℕ → Option ℕ
shown_creator t none = M.creator t (t.id_text 0)
shown_creator t (some by) = some by

creator_shown :
    (t : Texts) (c : Option ℕ)
    → IsTexts t
    → c ≢ some 0
    → M.creator t (t.id_text (M.id_or_zero c)) ≡ shown_creator t c
creator_shown t none laws h = refl
creator_shown t (some by) laws h =
    let set : 0 < by = ground arith in rw (id_text_lem t by laws set, laws.id_from-id_text by set)

-- The workspace without the hosts of its members
abbrev pub loaded : Workspace → Workspace
loaded w = record w {
  members = record w.members {
    users = unhosted w.members.users;
    integrations = unhosted w.members.integrations;
  };
}

module _ (t : Texts) (is_empty : ℕ → Bool) (hash : List H.WorkspaceMemberForHash → String)
    (w : Workspace) (now now' : ℕ) (laws : IsTexts t) (h : IsWhole is_empty w) where
  users_next : AreNext [] w.members.users
  users_next = (h.users, h.users_set, apart_nil w.members.users)

  integrations_next : AreNext [] w.members.integrations
  integrations_next = (h.integrations, h.integrations_set, apart_nil w.members.integrations)

  rows_stored :
      let rows = P.new_workspace_rows t hash w now in
      P.model t is_empty rows.0 rows.1 rows.2 now' ≡ ok (loaded w)
  unfolding P.model P.new_workspace_rows build
  rows_stored =
      rw
        (
          laws.id_from-id_text w.id h.id_set,
          member_rows_lem t laws (t.id_text w.id) w.members.users [] users_next,
          integration_rows_lem t laws (t.id_text w.id) w.members.integrations [] integrations_next,
          policy_read w.policy h.policy,
          creator_read t w.created_by laws h.created_by,
          or_now_set w.updated_at now h.updated_at,
          h.id,
        )
        (ground arith)

  document_stored :
      M.model t is_empty (M.new_workspace t hash w now).0 now'
      ≡ some (ok (record (loaded w) { created_by = shown_creator t w.created_by }))
  unfolding M.model M.new_workspace build
  document_stored =
      rw
        (
          M.model,
          laws.id_from-id_text w.id h.id_set,
          read_members_lem t laws w.members.users [] users_next,
          read_integrations_lem t laws w.members.integrations [] integrations_next,
          policy_kept w.policy h.policy,
          creator_shown t w.created_by laws h.created_by,
          or_now_set w.updated_at now h.updated_at,
          h.id,
        )
        (ground arith)

-- A workspace that is whole is loaded from its rows as stored except for the hosts of its members.
-- So it is from its document, with no panic, but a workspace without a creator then has the one
-- whom the text of the zero identifier names, if that text can be read.
pub workspace_stored :
    (t : Texts) (is_empty : ℕ → Bool) (hash : List H.WorkspaceMemberForHash → String)
    (w : Workspace) (now now' : ℕ)
    → IsTexts t
    → IsWhole is_empty w
    → (let rows = P.new_workspace_rows t hash w now in
        P.model t is_empty rows.0 rows.1 rows.2 now' ≡ ok (loaded w))
      × (M.model t is_empty (M.new_workspace t hash w now).0 now'
          ≡ some (ok (record (loaded w) { created_by = shown_creator t w.created_by })))
workspace_stored t is_empty hash w now now' laws h = (
  rows_stored t is_empty hash w now now' laws h,
  document_stored t is_empty hash w now now' laws h,
)
