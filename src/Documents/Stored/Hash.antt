-- ===== src/Documents/Stored/Hash.antt =====
-- The hash of the members of a workspace: mongodoc/workspace_hash.go.
use mathlib.Core.List.{Permᴰ, Pairwise, mem-cons_self}
use mathlib.Core.HLevel.{¬_prop}
use mathlib.Core.List.Permᴰ as PermD
use reearth_accounts.Prelude.{String, ◌≡◌, ◌≢◌, refl, ◌∙◌, ap, sym, List, [], ◌∷◌, map, arith}
use reearth_accounts.Prelude.TextOrder.{text_lt_asym, text_lt_total, text_lt_trans}
use reearth_accounts.Documents.Mongo.Hash.{
  WorkspaceMemberForHash, MemberDocuments, for_hash, place, sort, entries,
  compute_workspace_members_hash,
}

abbrev pub HaveOtherIds : WorkspaceMemberForHash → WorkspaceMemberForHash → Type 0
HaveOtherIds a b = a.id ≢ b.id

place_comm :
    (a b : WorkspaceMemberForHash) (l : List WorkspaceMemberForHash)
    → HaveOtherIds a b
    → place a (place b l) ≡ place b (place a l)
place_comm a b [] h =
    ground (arith, text_lt_asym a.id b.id, text_lt_asym b.id a.id, text_lt_total a.id b.id)
place_comm a b (x ∷ l) h = ground (
  arith,
  place_comm a b l h,
  text_lt_asym a.id b.id,
  text_lt_asym b.id a.id,
  text_lt_total a.id b.id,
  text_lt_asym x.id a.id,
  text_lt_asym x.id b.id,
  text_lt_trans x.id a.id b.id,
  text_lt_trans x.id b.id a.id,
  text_lt_trans a.id x.id b.id,
  text_lt_trans b.id x.id a.id,
  text_lt_total x.id a.id,
  text_lt_total x.id b.id,
)

-- Entries in another order are sorted the same, if no two have one identifier.
sort-perm :
    {l r : List WorkspaceMemberForHash} → Permᴰ l r → Pairwise HaveOtherIds l → sort l ≡ sort r
sort-perm Permᴰ.nil h = refl
sort-perm (Permᴰ.cons p q) (Pairwise.cons first rest) = λ i. place (p i) (sort-perm q rest i)
sort-perm (Permᴰ.swap {a = a} {b = b} {l = l} p q) (Pairwise.cons first rest) =
    place_comm a b (sort l) (first b mem-cons_self) ∙ (λ i. place (q i) (place (p i) (sort l)))
sort-perm (Permᴰ.trans p q) h =
    sort-perm p h
    ∙ sort-perm q (PermD.pairwise (λ a b. ¬_prop) (λ a b apart same. apart (sym same)) p h)

-- The hash of the members and the integrations of a workspace does not show the order in which the
-- two maps are visited, if no two of them all have one identifier.
pub hash-perm :
    (hash : List WorkspaceMemberForHash → String) (us us' is is' : MemberDocuments)
    → Permᴰ us us'
    → Permᴰ is is'
    → Pairwise HaveOtherIds (entries us is)
    → compute_workspace_members_hash hash us is ≡ compute_workspace_members_hash hash us' is'
unfolding compute_workspace_members_hash
hash-perm hash us us' is is' p q apart =
    let users = PermD.map (for_hash "user") p in
    let integrations = PermD.map (for_hash "integration") q in
    let first = PermD.append_right (map (for_hash "integration") is) users in
    let last = PermD.append_left (map (for_hash "user") us') integrations in
    ap hash (sort-perm (Permᴰ.trans first last) apart)
