-- ===== src/Migration/Roles.antt =====
-- server/internal/infrastructure/mongo/migration: 260108175500 and 260109104153, which
-- put the roles of the users right. `none` from a repair means that the document is not saved.
pub mod Fixed
pub mod Memberships
pub mod Named
use reearth_accounts.Prelude.{
  String, Bool, true, false, not, ◌&&◌, ◌||◌, Option, none, some, List, [], ◌∷◌, ◌++◌, str_eq, ◌==◌,
  if◌then◌else◌,
}
use Prim.Native.String.{◌++◌ as ◌<>◌}
use reearth_accounts.Prelude.Lists.{length, select, some_where}
use reearth_accounts.Role.{owner, maintainer, writer, reader, self, contains_text}
use reearth_accounts.Documents.Mongo.Roles.{RoleDocument}
use reearth_accounts.Documents.Mongo.Permittables.{PermittableDocument, WorkspaceRoleDocument}
use reearth_accounts.Documents.Mongo.Hash.{MemberDocuments}
use reearth_accounts.Documents.Mongo.Workspaces.{WorkspaceDocument}

-- `roleNameToID[name]`: a later role of one name takes the place of an earlier one.
abbrev pub role_name_to_id : List RoleDocument → String → Option String
role_name_to_id [] name = none
role_name_to_id (d ∷ l) name = elim (role_name_to_id l name) [
  | some id ↦ some id
  | none ↦ if str_eq d.name name then some d.id else none
]

-- The value of a missing key
abbrev pub or_empty : Option String → String
or_empty none = ""
or_empty (some s) = s

-- `if roleID, exists := roleNameToID[roleName]; exists && roleID != ""`
abbrev pub if_named : Option String → List String → List String
if_named none rest = rest
if_named (some id) rest = if str_eq id "" then rest else id ∷ rest

-- `rolesToRemove`
abbrev pub roles_to_remove : List RoleDocument → List String → List String
roles_to_remove roles [] = []
roles_to_remove roles (name ∷ l) = if_named (role_name_to_id roles name) (roles_to_remove roles l)

abbrev pub workspace_role_names : List String
workspace_role_names = owner ∷ maintainer ∷ writer ∷ reader ∷ []

abbrev pub is_kept : List String → String → Bool
is_kept removed id = not (str_eq id "") && not (contains_text id removed)

-- `if selfRoleID != "" && !lo.Contains(newRoleIDs, selfRoleID)`
abbrev pub with_self : String → List String → List String
with_self self_id ids =
    if not (str_eq self_id "") && not (contains_text self_id ids) then ids ++ self_id ∷ [] else ids

-- `newRoleIDs`
abbrev pub new_role_ids : List RoleDocument → List String → List String
new_role_ids roles ids =
    with_self (or_empty (role_name_to_id roles self))
      (select (is_kept (roles_to_remove roles workspace_role_names)) ids)

-- `slices.Equal`
abbrev pub texts_equal : List String → List String → Bool
texts_equal [] [] = true
texts_equal [] (t ∷ ts) = false
texts_equal (s ∷ ss) [] = false
texts_equal (s ∷ ss) (t ∷ ts) = str_eq s t && texts_equal ss ts

-- The body of the loop of `FixPermittableRoleIDs`
unfoldable pub fix_role_ids : List RoleDocument → PermittableDocument → Option PermittableDocument
fix_role_ids roles d =
    if texts_equal d.role_ids (new_role_ids roles d.role_ids)
    then none
    else some (record d { role_ids = new_role_ids roles d.role_ids })

-- What one member adds to `expectedWorkspaceRoles[user]`
abbrev pub role_of_member :
    String → Option String → List WorkspaceRoleDocument → List WorkspaceRoleDocument
role_of_member ws none rest = rest
role_of_member ws (some role) rest = record { workspace_id = ws; role_id = role } ∷ rest

-- What the members of a workspace add to it
abbrev pub roles_of_members :
    List RoleDocument → String → String → MemberDocuments → List WorkspaceRoleDocument
roles_of_members roles user ws [] = []
roles_of_members roles user ws ((s, m) ∷ l) =
    let rest = roles_of_members roles user ws l in
    if m.disabled || not (str_eq s user)
    then rest
    else role_of_member ws (role_name_to_id roles m.role) rest

-- `expectedWorkspaceRoles[user]`
abbrev pub expected_workspace_roles :
    List RoleDocument → List WorkspaceDocument → String → List WorkspaceRoleDocument
expected_workspace_roles roles [] user = []
expected_workspace_roles roles (w ∷ l) user =
    roles_of_members roles user w.id w.members ++ expected_workspace_roles roles l user

-- The key of `aSet`
abbrev pub role_key : WorkspaceRoleDocument → String
role_key wr = wr.workspace_id <> ":" <> wr.role_id

abbrev pub has_role : List WorkspaceRoleDocument → WorkspaceRoleDocument → Bool
has_role l wr = some_where (λ (x : WorkspaceRoleDocument). str_eq (role_key x) (role_key wr)) l

-- The last loop of `workspaceRolesEqual`
abbrev pub has_roles : List WorkspaceRoleDocument → List WorkspaceRoleDocument → Bool
has_roles a [] = true
has_roles a (wr ∷ b) = has_role a wr && has_roles a b

-- `workspaceRolesEqual`
unfoldable pub workspace_roles_equal :
    List WorkspaceRoleDocument → List WorkspaceRoleDocument → Bool
workspace_roles_equal a b =
    if not (length a == length b) then false else if length a == 0 then true else has_roles a b

-- The body of the loop of `FixPermittableWorkspaceRoles`
unfoldable pub fix_workspace_roles :
    List RoleDocument → List WorkspaceDocument → PermittableDocument → Option PermittableDocument
unfolding workspace_roles_equal
fix_workspace_roles roles workspaces d =
    let expected = expected_workspace_roles roles workspaces d.user_id in
    if workspace_roles_equal d.workspace_roles expected
    then none
    else some (record d { workspace_roles = expected })

-- A document as the collection has it afterwards
abbrev pub afterwards : PermittableDocument → Option PermittableDocument → PermittableDocument
afterwards d none = d
afterwards d (some d') = d'
