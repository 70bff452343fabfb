-- ===== src/Documents/Stored/Members.antt =====
-- Members and integrations, stored and read again: the loops of mongodoc/workspace.go and
-- pgdoc/workspace.go.
use mathlib.Core.List.{append-nil, append_assoc}
use reearth_accounts.Prelude.{
  ℕ, String, ◌<◌, ◌≡◌, refl, ◌∙◌, ap, none, some, [], ◌∷◌, ◌++◌, map, ok, arith,
}
use reearth_accounts.Prelude.Dict.{Dict, lookup, insert, HasDistinctKeys, lookup-insert}
use reearth_accounts.Documents.Texts.{Texts, IsTexts}
use reearth_accounts.Documents.Mongo.Workspaces as M
use reearth_accounts.Documents.Postgres.Workspaces as P
use reearth_accounts.Workspace.Member.{Member}

-- The members without their hosts, which are not stored
abbrev pub unhosted : Dict Member → Dict Member
unhosted [] = []
unhosted ((k, m) ∷ d) = (k, record m { host = "" }) ∷ unhosted d

-- Members and inviters are set.
abbrev pub HasSetMembers : Dict Member → Type 0
HasSetMembers [] = Unit
HasSetMembers ((k, m) ∷ d) = (0 < k) × (0 < m.invited_by) × HasSetMembers d

-- No key of the second stands in the first.
abbrev pub AreApart : Dict Member → Dict Member → Type 0
AreApart acc [] = Unit
AreApart acc ((k, m) ∷ d) = (lookup k acc ≡ none) × AreApart acc d

pub apart_nil : (d : Dict Member) → AreApart [] d
apart_nil [] = tt
apart_nil ((k, m) ∷ d) = (refl, apart_nil d)

apart_insert :
    (k : ℕ) (v : Member) (acc d : Dict Member)
    → lookup k d ≡ none
    → AreApart acc d
    → AreApart (insert k v acc) d
apart_insert k v acc [] n h = tt
apart_insert k v acc ((j, w) ∷ d) n h =
    ground (arith, lookup-insert k j v acc, apart_insert k v acc d)

insert_new :
    (k : ℕ) (v : Member) (acc : Dict Member)
    → lookup k acc ≡ none
    → insert k v acc ≡ acc ++ (k, v) ∷ []
insert_new k v [] h = refl
insert_new k v ((j, w) ∷ acc) h = ground (arith, insert_new k v acc)

insert_first :
    (k : ℕ) (v : Member) (acc rest : Dict Member)
    → lookup k acc ≡ none
    → insert k v acc ++ rest ≡ acc ++ (k, v) ∷ rest
insert_first k v acc rest h =
    ap (λ l. l ++ rest) (insert_new k v acc h) ∙ append_assoc acc ((k, v) ∷ []) rest

-- What the four loops are given: entries with distinct keys that are set, which the members read so
-- far do not have.
abbrev pub AreNext : Dict Member → Dict Member → Type 0
AreNext acc d = HasDistinctKeys d × HasSetMembers d × AreApart acc d

next_insert :
    (k : ℕ) (m v : Member) (acc d : Dict Member)
    → AreNext acc ((k, m) ∷ d)
    → AreNext (insert k v acc) d
next_insert k m v acc d (h, s, a) = (h.1, s.2, apart_insert k v acc d h.0 a.1)

module _ (t : Texts) (laws : IsTexts t) where
  inviter_read : (by other : ℕ) → 0 < by → M.inviter t (t.id_text by) other ≡ by
  inviter_read by other h = rw (M.inviter, laws.id_from-id_text by h)

  row_inviter_read : (by other : ℕ) → 0 < by → P.inviter t (t.id_text by) other ≡ by
  row_inviter_read by other h = rw (P.inviter, laws.id_from-id_text by h)

  pub read_members_lem :
      (d acc : Dict Member)
      → AreNext acc d
      → M.read_members t (map (M.member_doc t) d) acc ≡ ok (acc ++ unhosted d)
  read_members_lem [] acc n = rw (append-nil acc)
  read_members_lem ((k, m) ∷ d) acc n =
      let m' = record m { host = "" } in
      let more = read_members_lem d (insert k m' acc) (next_insert k m m' acc d n) in
      rw (laws.id_from-id_text k n.1.0, inviter_read m.invited_by k n.1.1)
        (more ∙ ap (λ l. ok l) (insert_first k m' acc (unhosted d) n.2.0))

  pub read_integrations_lem :
      (d acc : Dict Member)
      → AreNext acc d
      → M.read_integrations t (map (M.member_doc t) d) acc ≡ some (ok (acc ++ unhosted d))
  read_integrations_lem [] acc n = rw (append-nil acc)
  read_integrations_lem ((k, m) ∷ d) acc n =
      let m' = record m { host = "" } in
      let more = read_integrations_lem d (insert k m' acc) (next_insert k m m' acc d n) in
      rw (laws.id_from-id_text k n.1.0, laws.id_from-id_text m.invited_by n.1.1)
        (more ∙ ap (λ l. some (ok l)) (insert_first k m' acc (unhosted d) n.2.0))

  pub member_rows_lem :
      (wid : String) (d acc : Dict Member)
      → AreNext acc d
      → P.read_members t (map (P.member_row t wid) d) acc ≡ ok (acc ++ unhosted d)
  member_rows_lem wid [] acc n = rw (append-nil acc)
  member_rows_lem wid ((k, m) ∷ d) acc n =
      let m' = record m { host = "" } in
      let more = member_rows_lem wid d (insert k m' acc) (next_insert k m m' acc d n) in
      rw (laws.id_from-id_text k n.1.0, row_inviter_read m.invited_by k n.1.1)
        (more ∙ ap (λ l. ok l) (insert_first k m' acc (unhosted d) n.2.0))

  pub integration_rows_lem :
      (wid : String) (d acc : Dict Member)
      → AreNext acc d
      → P.read_integrations t (map (P.integration_row t wid) d) acc ≡ ok (acc ++ unhosted d)
  integration_rows_lem wid [] acc n = rw (append-nil acc)
  integration_rows_lem wid ((k, m) ∷ d) acc n =
      let m' = record m { host = "" } in
      let more = integration_rows_lem wid d (insert k m' acc) (next_insert k m m' acc d n) in
      rw (laws.id_from-id_text k n.1.0, row_inviter_read m.invited_by 0 n.1.1)
        (more ∙ ap (λ l. ok l) (insert_first k m' acc (unhosted d) n.2.0))
