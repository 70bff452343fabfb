-- ===== src/Documents/Stored/Permittables.antt =====
-- The roles of a user, stored and loaded: mongodoc/permittable.go and pgdoc/permittable.go.
use reearth_accounts.Prelude.{
  ℕ, ◌<◌, ◌≡◌, refl, String, Bool, false, some, List, [], ◌∷◌, map, ok, arith,
}
use reearth_accounts.Documents.Texts.{Texts, IsTexts, HasSetIds}
use reearth_accounts.Documents.Mongo.Permittables as M
use reearth_accounts.Documents.Postgres.Permittables as P
use reearth_accounts.Permittable.{Permittable, WorkspaceRole}

-- Both identifiers of each role are set.
abbrev pub HasSetRoles : List WorkspaceRole → Type 0
HasSetRoles [] = Unit
HasSetRoles (r ∷ l) = (0 < r.id) × (0 < r.role_id) × HasSetRoles l

module _ (t : Texts) (laws : IsTexts t) where
  read_documents :
      (l : List WorkspaceRole) → HasSetRoles l → M.read_roles t (map (M.role_document t) l) ≡ ok l
  read_documents [] h = refl
  read_documents (r ∷ l) h =
      rw (laws.id_from-id_text r.id h.0, laws.id_from-id_text r.role_id h.1, read_documents l h.2)

  read_rows :
      (pid : String) (l : List WorkspaceRole)
      → HasSetRoles l
      → P.read_roles t (map (P.role_row t pid) l) ≡ ok l
  read_rows pid [] h = refl
  read_rows pid (r ∷ l) h =
      rw (laws.id_from-id_text r.id h.0, laws.id_from-id_text r.role_id h.1, read_rows pid l h.2)

  read_ids-map : (l : List ℕ) → HasSetIds l → P.read_ids t (map t.id_text l) ≡ ok l
  read_ids-map [] h = refl
  read_ids-map (i ∷ l) h = rw (laws.id_from-id_text i h.0, read_ids-map l h.1)

-- The roles of a user, with identifiers that are set and a time of update, are loaded from their document and
-- from their rows as they were stored, in the same order.
pub permittable_stored :
    (t : Texts) (is_nil : ℕ → Bool) (p : Permittable) (now now' : ℕ)
    → IsTexts t
    → is_nil p.id ≡ false
    → is_nil p.user_id ≡ false
    → (0 < p.id) × (0 < p.user_id) × HasSetIds p.role_ids × HasSetRoles p.workspace_roles
    → 0 < p.updated_at
    → (M.model t is_nil (some (M.new_permittable t p now).0) now' ≡ ok (some p))
      × (P.model t is_nil (P.new_permittable_row t p now).0 (P.new_permittable_row t p now).1 now'
          ≡ ok p)
unfolding M.model M.new_permittable P.model P.new_permittable_row
permittable_stored t is_nil p now now' laws id user (pos, pos', roles, workspaces) updated =
    rw
      (
        laws.id_from-id_text p.id pos,
        laws.id_from-id_text p.user_id pos',
        laws.ids_from-map p.role_ids roles,
        read_documents t laws p.workspace_roles workspaces,
        read_ids-map t laws p.role_ids roles,
        read_rows t laws (t.id_text p.id) p.workspace_roles workspaces,
      )
      (ground arith)
