-- ===== src/Migration/Move/Moved.antt =====
-- What the move of the members' roles achieves.
use reearth_accounts.Prelude.{
  String, ◌≡◌, refl, ◌∙◌, ap, Bool, true, false, ◌&&◌, Option, none, some, List, [], ◌∷◌, ◌++◌,
  str_eq, subst, arith, eq_iff, eq_refl, Bool-cases, inl, inr, if◌then◌else◌,
}
use reearth_accounts.Prelude.Lists.{some_where, some_where-append}
use reearth_accounts.Role.{self, contains_text}
use reearth_accounts.Documents.Mongo.Roles.{RoleDocument}
use reearth_accounts.Documents.Mongo.Permittables.{PermittableDocument, WorkspaceRoleDocument}
use reearth_accounts.Documents.Mongo.Hash.{WorkspaceMemberDocument, MemberDocuments}
use reearth_accounts.Documents.Mongo.Workspaces.{WorkspaceDocument}
use reearth_accounts.Migration.Roles.{role_name_to_id}
use reearth_accounts.Migration.Roles.Fixed.{contains-append}
use reearth_accounts.Migration.Roles.Named.{names, names_value}
use reearth_accounts.Migration.Move.{
  ByUser, find, put, is_role, granted, self_id, grant, move_members, move_roles,
}

find-put :
    (j k : String) (d : PermittableDocument) (by : ByUser)
    → find k (put j d by) ≡ (if str_eq j k then some d else find k by)
find-put j k d [] = refl
find-put j k d ((u, e) ∷ by) = elim (Bool-cases (str_eq u j)) [
  | inl p ↦ rw (p, (eq_iff u j).0 p) (ground arith)
  | inr p ↦ rw p (ground (arith, find-put j k d by, eq_iff u k, eq_iff j k, eq_iff u j))
]

-- A permittable has a role in a workspace, and one of its own.
abbrev pub shows : String → WorkspaceRoleDocument → Option PermittableDocument → Bool
shows s role none = false
shows s role (some d) =
    some_where
      (λ (wr : WorkspaceRoleDocument).
        str_eq wr.workspace_id role.workspace_id && str_eq wr.role_id role.role_id)
      d.workspace_roles
    && contains_text s d.role_ids

is_role_refl : (role : WorkspaceRoleDocument) → is_role role role ≡ true
is_role_refl role = rw (eq_refl role.workspace_id, eq_refl role.role_id) refl

shows-granted :
    (fresh : String → String) (s user : String) (role : WorkspaceRoleDocument)
    (d : Option PermittableDocument)
    → shows s role (some (granted fresh s user role d)) ≡ true
unfolding granted
shows-granted fresh s user role none = rw (is_role_refl role, eq_refl s) refl
shows-granted fresh s user role (some d) = ground (
  arith,
  is_role_refl role,
  eq_refl s,
  contains-append s s d.role_ids,
  some_where-append (is_role role) d.workspace_roles (role ∷ []),
)

keeps-granted :
    (fresh : String → String) (s user : String) (role other : WorkspaceRoleDocument)
    (d : Option PermittableDocument)
    → shows s role d ≡ true
    → shows s role (some (granted fresh s user other d)) ≡ true
unfolding granted
keeps-granted fresh s user role other none h = cc
keeps-granted fresh s user role other (some d) h =
    ground (arith, some_where-append (is_role role) d.workspace_roles (other ∷ []))

module _ (fresh : String → String) (roles : List RoleDocument) where
  keeps-grant :
      (u : String) (role : WorkspaceRoleDocument) (ws user : String) (r : Option String)
      (by : ByUser)
      → shows (self_id fresh roles) role (find u by) ≡ true
      → shows (self_id fresh roles) role (find u (grant fresh roles ws user r by)) ≡ true
  keeps-grant u role ws user none by h = h
  keeps-grant u role ws user (some r) by h =
      let s = self_id fresh roles in
      let other : WorkspaceRoleDocument = record { workspace_id = ws; role_id = r } in
      let d = granted fresh s user other (find user by) in
      elim (Bool-cases (str_eq user u)) [
        | inl e ↦
            ap (shows s role) (find-put user u d by)
            ∙ rw e
                (keeps-granted fresh s user role other (find user by) (rw ((eq_iff user u).0 e) h))
        | inr e ↦ ap (shows s role) (find-put user u d by) ∙ rw e h
      ]

  keeps-move_members :
      (u : String) (role : WorkspaceRoleDocument) (ws : String) (l : MemberDocuments) (by : ByUser)
      → shows (self_id fresh roles) role (find u by) ≡ true
      → shows (self_id fresh roles) role (find u (move_members fresh roles ws l by)) ≡ true
  keeps-move_members u role ws [] by h = h
  keeps-move_members u role ws ((user, m) ∷ l) by h =
      let r = role_name_to_id roles m.role in
      keeps-move_members u role ws l (grant fresh roles ws user r by)
        (keeps-grant u role ws user r by h)

  keeps-move_roles :
      (u : String) (role : WorkspaceRoleDocument) (l : List WorkspaceDocument) (by : ByUser)
      → shows (self_id fresh roles) role (find u by) ≡ true
      → shows (self_id fresh roles) role (find u (move_roles fresh roles l by)) ≡ true
  unfolding move_roles
  keeps-move_roles u role [] by h = h
  keeps-move_roles u role (w ∷ l) by h =
      keeps-move_roles u role l (move_members fresh roles w.id w.members by)
        (keeps-move_members u role w.id w.members by h)

  shows-grant :
      (u ws r : String) (by : ByUser)
      → shows
          (self_id fresh roles)
          (record { workspace_id = ws; role_id = r })
          (find u (grant fresh roles ws u (some r) by))
        ≡ true
  shows-grant u ws r by =
      let s = self_id fresh roles in
      let role : WorkspaceRoleDocument = record { workspace_id = ws; role_id = r } in
      ap (shows s role) (find-put u u (granted fresh s u role (find u by)) by)
      ∙ rw (eq_refl u) (shows-granted fresh s u role (find u by))

  shows-move_members :
      (u ws r : String) (ms ms' : MemberDocuments) (m : WorkspaceMemberDocument) (by : ByUser)
      → role_name_to_id roles m.role ≡ some r
      → shows
          (self_id fresh roles)
          (record { workspace_id = ws; role_id = r })
          (find u (move_members fresh roles ws (ms ++ (u, m) ∷ ms') by))
        ≡ true
  shows-move_members u ws r [] ms' m by named =
      keeps-move_members u (record { workspace_id = ws; role_id = r }) ws ms'
        (grant fresh roles ws u (role_name_to_id roles m.role) by)
        (rw named (shows-grant u ws r by))
  shows-move_members u ws r ((v, n) ∷ ms) ms' m by named =
      shows-move_members u ws r ms ms' m (grant fresh roles ws v (role_name_to_id roles n.role) by)
        named

all_shown :
    (fresh : String → String) (roles : List RoleDocument) (u r : String)
    (l l' : List WorkspaceDocument) (w : WorkspaceDocument) (ms ms' : MemberDocuments)
    (m : WorkspaceMemberDocument) (by : ByUser)
    → w.members ≡ ms ++ (u, m) ∷ ms'
    → role_name_to_id roles m.role ≡ some r
    → shows
        (self_id fresh roles)
        (record { workspace_id = w.id; role_id = r })
        (find u (move_roles fresh roles (l ++ w ∷ l') by))
      ≡ true
unfolding move_roles
all_shown fresh roles u r [] l' w ms ms' m by there named =
    keeps-move_roles fresh roles u (record { workspace_id = w.id; role_id = r }) l'
      (move_members fresh roles w.id w.members by)
      (ap
          (λ x.
            shows (self_id fresh roles) (record { workspace_id = w.id; role_id = r })
              (find u (move_members fresh roles w.id x by)))
          there
        ∙ shows-move_members fresh roles u w.id r ms ms' m by named)
all_shown fresh roles u r (v ∷ l) l' w ms ms' m by there named =
    all_shown fresh roles u r l l' w ms ms' m (move_members fresh roles v.id v.members by) there
      named

-- After `MoveWorkspaceMembersRoleToPermittable`, if a role "self" is stored, every member of every
-- workspace whose role's name is known has a permittable with the identifier of the last role "self"
-- and, in that workspace, with that of the last role with the name, whatever permittables and other
-- members there were.
pub move_roles_lem :
    (fresh : String → String) (roles : List RoleDocument) (u r own : String)
    (l l' : List WorkspaceDocument) (w : WorkspaceDocument) (ms ms' : MemberDocuments)
    (m : WorkspaceMemberDocument) (by : ByUser)
    → w.members ≡ ms ++ (u, m) ∷ ms'
    → names roles m.role r ≡ true
    → names roles "self" own ≡ true
    → shows own
        (record { workspace_id = w.id; role_id = r })
        (find u (move_roles fresh roles (l ++ w ∷ l') by))
      ≡ true
move_roles_lem fresh roles u r own l l' w ms ms' m by there named for_self =
    let shown =
      all_shown fresh roles u r l l' w ms ms' m by there (names_value roles m.role r named) in
    let own_id : self_id fresh roles ≡ own = rw (names_value roles self own for_self) refl in
    subst
      (λ s.
        shows s (record { workspace_id = w.id; role_id = r })
          (find u (move_roles fresh roles (l ++ w ∷ l') by))
        ≡ true)
      own_id shown
