-- ===== src/Permittable/Laws.antt =====
-- The workspace roles of a user are a finite map: one role at most for each workspace.
use reearth_accounts.Prelude.{
  ℕ, ◌≡◌, refl, Option, none, some, List, [], ◌∷◌, arith, ◌==◌, if◌then◌else◌, Option-cases, inl,
  inr,
}
use reearth_accounts.Permittable.{
  WorkspaceRole, Permittable, without_role, put_role, remove_workspace_role, update_workspace_role,
}

-- The role that a user has in a workspace, by the first entry
abbrev pub role_at : ℕ → List WorkspaceRole → Option ℕ
role_at w [] = none
role_at w (wr ∷ l) = if wr.id == w then some wr.role_id else role_at w l

-- No workspace stands twice.
abbrev pub HasDistinctWorkspaces : List WorkspaceRole → Type 0
HasDistinctWorkspaces [] = Unit
HasDistinctWorkspaces (wr ∷ l) = (role_at wr.id l ≡ none) × HasDistinctWorkspaces l

abbrev pub roles_of : Option Permittable → List WorkspaceRole
roles_of none = []
roles_of (some p) = p.workspace_roles

role_at-put_role :
    (w v r : ℕ) (l : List WorkspaceRole)
    → role_at v (put_role w r l) ≡ (if w == v then some r else role_at v l)
role_at-put_role w v r [] = refl
role_at-put_role w v r (wr ∷ l) = ground (arith, role_at-put_role w v r l)

put_role-HasDistinctWorkspaces :
    (w r : ℕ) (l : List WorkspaceRole)
    → HasDistinctWorkspaces l
    → HasDistinctWorkspaces (put_role w r l)
put_role-HasDistinctWorkspaces w r [] h = (refl, tt)
put_role-HasDistinctWorkspaces w r (wr ∷ l) h =
    ground (arith, put_role-HasDistinctWorkspaces w r l h.1, role_at-put_role w wr.id r l)

without_role_absent :
    (w : ℕ) (l : List WorkspaceRole) → without_role w l ≡ none → role_at w l ≡ none
without_role_absent w [] e = refl
without_role_absent w (wr ∷ l) e = ground (arith, without_role_absent w l)

role_at-without_role :
    (w v : ℕ) (l l' : List WorkspaceRole)
    → HasDistinctWorkspaces l
    → without_role w l ≡ some l'
    → role_at v l' ≡ (if w == v then none else role_at v l)
role_at-without_role w v [] l' h e = cc
role_at-without_role w v (wr ∷ l) l' h e = elim (Option-cases (without_role w l)) [
  | inl gone ↦ ground arith
  | inr (r, left) ↦ ground (arith, role_at-without_role w v l r h.1 left)
]

without_role-HasDistinctWorkspaces :
    (w : ℕ) (l l' : List WorkspaceRole)
    → HasDistinctWorkspaces l
    → without_role w l ≡ some l'
    → HasDistinctWorkspaces l'
without_role-HasDistinctWorkspaces w [] l' h e = cc
without_role-HasDistinctWorkspaces w (wr ∷ l) l' h e = elim (Option-cases (without_role w l)) [
  | inl gone ↦ ground arith
  | inr (r, left) ↦ ground (
    arith,
    without_role-HasDistinctWorkspaces w l r h.1 left,
    role_at-without_role w wr.id l r h.1 left,
  )
]

-- After `UpdateWorkspaceRole` on a permittable with one role at most for each workspace, it has
-- one role at most for each, the given one for the given workspace, and every other as before.
pub update_workspace_role_lem :
    (p : Permittable) (w r v now : ℕ)
    → HasDistinctWorkspaces p.workspace_roles
    → HasDistinctWorkspaces (roles_of (update_workspace_role (some p) w r now))
      × (role_at v (roles_of (update_workspace_role (some p) w r now))
          ≡ (if w == v then some r else role_at v p.workspace_roles))
unfolding update_workspace_role
update_workspace_role_lem p w r v now h = (
  put_role-HasDistinctWorkspaces w r p.workspace_roles h,
  role_at-put_role w v r p.workspace_roles,
)

-- After `RemoveWorkspaceRole` on such a permittable, it has one role at most for each workspace,
-- none for the given one, and every other as before.
pub remove_workspace_role_lem :
    (p : Permittable) (w v now : ℕ)
    → HasDistinctWorkspaces p.workspace_roles
    → HasDistinctWorkspaces (roles_of (remove_workspace_role (some p) w now))
      × (role_at v (roles_of (remove_workspace_role (some p) w now))
          ≡ (if w == v then none else role_at v p.workspace_roles))
unfolding remove_workspace_role
remove_workspace_role_lem p w v now h = elim (Option-cases (without_role w p.workspace_roles)) [
  | inl gone ↦ ground (arith, without_role_absent w p.workspace_roles)
  | inr (l, left) ↦ ground (
    arith,
    without_role-HasDistinctWorkspaces w p.workspace_roles l h left,
    role_at-without_role w v p.workspace_roles l h left,
  )
]
