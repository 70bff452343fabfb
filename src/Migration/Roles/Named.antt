-- ===== src/Migration/Roles/Named.antt =====
-- Which identifier a name of a role stands for, said without `role_name_to_id`.
use reearth_accounts.Prelude.{
  ℕ, ◌+◌, String, ◌≡◌, refl, Bool, true, false, not, ◌&&◌, ◌||◌, Option, none, some, List, [], ◌∷◌,
  str_eq, arith, eq_iff, Option-cases, inl, inr, if◌then◌else◌,
}
use reearth_accounts.Prelude.Lists.{length, select, some_where, length-append}
use reearth_accounts.Role.{contains_text}
use reearth_accounts.Documents.Mongo.Roles.{RoleDocument}
use reearth_accounts.Documents.Mongo.Permittables.{WorkspaceRoleDocument}
use reearth_accounts.Documents.Mongo.Hash.{WorkspaceMemberDocument, MemberDocuments}
use reearth_accounts.Documents.Mongo.Workspaces.{WorkspaceDocument}
use reearth_accounts.Migration.Roles.{
  role_name_to_id, or_empty, if_named, role_of_member, roles_of_members, expected_workspace_roles,
}

-- Some role has the name.
abbrev pub has_name : String → List RoleDocument → Bool
has_name name roles = some_where (λ (d : RoleDocument). str_eq d.name name) roles

-- The last role with the name has the identifier.
abbrev pub names : List RoleDocument → String → String → Bool
names [] name s = false
names (d ∷ l) name s =
    let rest = names l name s in
    if has_name name l then rest else str_eq d.name name && str_eq d.id s

-- The user is a member, not disabled, with a role whose name is known.
abbrev pub is_member : List RoleDocument → String → String × WorkspaceMemberDocument → Bool
is_member roles user (s, m) = str_eq s user && not m.disabled && has_name m.role roles

-- How many such memberships the user has in the workspaces
abbrev pub membership_count : List RoleDocument → String → List WorkspaceDocument → ℕ
membership_count roles user [] = 0
membership_count roles user (w ∷ l) =
    length (select (is_member roles user) w.members) + membership_count roles user l

abbrev is_text : Option String → String → Bool
is_text none s = false
is_text (some t) s = str_eq t s

abbrev is_given : Option String → Bool
is_given none = false
is_given (some t) = true

has_name-role_name_to_id :
    (name : String) (roles : List RoleDocument)
    → has_name name roles ≡ is_given (role_name_to_id roles name)
has_name-role_name_to_id name [] = refl
has_name-role_name_to_id name (d ∷ l) =
    let ih = has_name-role_name_to_id name l in
    elim (Option-cases (role_name_to_id l name)) [
      | inl e ↦ rw e (ground (arith, ih))
      | inr (i, e) ↦ rw e (ground (arith, ih))
    ]

names-role_name_to_id :
    (roles : List RoleDocument) (name s : String)
    → names roles name s ≡ is_text (role_name_to_id roles name) s
names-role_name_to_id [] name s = refl
names-role_name_to_id (d ∷ l) name s =
    let ih = names-role_name_to_id l name s in
    let known = has_name-role_name_to_id name l in
    elim (Option-cases (role_name_to_id l name)) [
      | inl e ↦ rw (known, e) (ground arith)
      | inr (i, e) ↦ rw (known, e) (ground (arith, ih))
    ]

is_text_value : (o : Option String) (s : String) → is_text o s ≡ true → o ≡ some s
is_text_value none s h = cc
is_text_value (some t) s h = ground (arith, eq_iff t s)

-- The identifier that the code finds is that of the last role with the name.
pub names_value :
    (roles : List RoleDocument) (name s : String)
    → names roles name s ≡ true
    → role_name_to_id roles name ≡ some s
names_value roles name s h =
    is_text_value (role_name_to_id roles name) s (rw (names-role_name_to_id roles name s) at h)

contains-if_named :
    (o : Option String) (s : String) (rest : List String)
    → contains_text s (if_named o rest)
      ≡ ((not (str_eq s "") && is_text o s) || contains_text s rest)
contains-if_named none s rest = ground arith
contains-if_named (some t) s rest = ground (arith, eq_iff t s, eq_iff s t, eq_iff t "", eq_iff s "")

-- What is added to the list of the identifiers that a permittable must not have
pub contains-if_named_lem :
    (roles : List RoleDocument) (name s : String) (rest : List String)
    → contains_text s (if_named (role_name_to_id roles name) rest)
      ≡ ((not (str_eq s "") && names roles name s) || contains_text s rest)
contains-if_named_lem roles name s rest =
    rw (names-role_name_to_id roles name s) (contains-if_named (role_name_to_id roles name) s rest)

own_text :
    (o : Option String) (s : String)
    → (not (str_eq (or_empty o) "") && str_eq s (or_empty o)) ≡ (not (str_eq s "") && is_text o s)
own_text none s = ground (arith, eq_iff s "")
own_text (some t) s = ground (arith, eq_iff t s, eq_iff s t, eq_iff t "", eq_iff s "")

pub own_text_lem :
    (roles : List RoleDocument) (name s : String)
    → (not (str_eq (or_empty (role_name_to_id roles name)) "")
        && str_eq s (or_empty (role_name_to_id roles name)))
      ≡ (not (str_eq s "") && names roles name s)
own_text_lem roles name s =
    rw (names-role_name_to_id roles name s) (own_text (role_name_to_id roles name) s)

length-role_of_member :
    (ws : String) (o : Option String) (rest : List WorkspaceRoleDocument)
    → length (role_of_member ws o rest) ≡ (if is_given o then 1 else 0) + length rest
length-role_of_member ws none rest = omega arith
length-role_of_member ws (some t) rest = omega arith

length-roles_of_members :
    (roles : List RoleDocument) (user ws : String) (l : MemberDocuments)
    → length (roles_of_members roles user ws l) ≡ length (select (is_member roles user) l)
length-roles_of_members roles user ws [] = refl
length-roles_of_members roles user ws ((s, m) ∷ l) = ground (
  arith,
  length-roles_of_members roles user ws l,
  has_name-role_name_to_id m.role roles,
  length-role_of_member ws (role_name_to_id roles m.role) (roles_of_members roles user ws l),
)

-- The code expects one role for each membership.
pub length-expected_workspace_roles :
    (roles : List RoleDocument) (l : List WorkspaceDocument) (user : String)
    → length (expected_workspace_roles roles l user) ≡ membership_count roles user l
length-expected_workspace_roles roles [] user = refl
length-expected_workspace_roles roles (w ∷ l) user =
    rw
      (
        length-append (roles_of_members roles user w.id w.members)
            (expected_workspace_roles roles l user),
        length-roles_of_members roles user w.id w.members,
        length-expected_workspace_roles roles l user,
      )
      refl
