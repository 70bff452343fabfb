-- ===== src/Migration/Move.antt =====
-- server/internal/infrastructure/mongo/migration/251209170002: the roles of the members of all
-- workspaces are put into the permittables of their users. `by` is `permittablesByUserID`, as a list
-- of its entries, which are all saved in the end; `fresh` gives the new identifier of a permittable
-- that is made for a user, and the time of its update stays the zero time.
pub mod Moved
use reearth_accounts.Prelude.{
  String, Bool, false, ◌&&◌, Option, none, some, List, [], ◌∷◌, ◌++◌, str_eq, if◌then◌else◌,
}
use reearth_accounts.Prelude.Lists.{some_where}
use reearth_accounts.Role.{self, contains_text}
use reearth_accounts.Documents.Mongo.Roles.{RoleDocument}
use reearth_accounts.Documents.Mongo.Permittables.{PermittableDocument, WorkspaceRoleDocument}
use reearth_accounts.Documents.Mongo.Hash.{WorkspaceMemberDocument, MemberDocuments}
use reearth_accounts.Documents.Mongo.Workspaces.{WorkspaceDocument}
use reearth_accounts.Migration.Roles.{role_name_to_id, or_empty}

abbrev pub ByUser : Type 0
ByUser = List (String × PermittableDocument)

abbrev pub find : String → ByUser → Option PermittableDocument
find user [] = none
find user ((u, d) ∷ by) = if str_eq u user then some d else find user by

abbrev pub put : String → PermittableDocument → ByUser → ByUser
put user d [] = (user, d) ∷ []
put user d ((u, e) ∷ by) =
    let rest = put user d by in if str_eq u user then (u, d) ∷ by else (u, e) ∷ rest

-- `wr.WorkspaceID == wsDoc.ID && wr.RoleID == roleID`
abbrev pub is_role : WorkspaceRoleDocument → WorkspaceRoleDocument → Bool
is_role role wr = str_eq wr.workspace_id role.workspace_id && str_eq wr.role_id role.role_id

abbrev pub add_role_id : String → List String → List String
add_role_id id ids = if contains_text id ids then ids else ids ++ id ∷ []

abbrev pub add_workspace_role :
    WorkspaceRoleDocument → List WorkspaceRoleDocument → List WorkspaceRoleDocument
add_workspace_role role l = if some_where (is_role role) l then l else l ++ role ∷ []

-- The permittable with the role of one member
unfoldable pub granted :
    (String → String)
    → String
    → String
    → WorkspaceRoleDocument
    → Option PermittableDocument
    → PermittableDocument
granted fresh self_id user role none = record {
  id = fresh user;
  user_id = user;
  role_ids = self_id ∷ [];
  workspace_roles = role ∷ [];
  updated_at = 0;
}
granted fresh self_id user role (some d) = record d {
  role_ids = add_role_id self_id d.role_ids;
  workspace_roles = add_workspace_role role d.workspace_roles;
}

module _ (fresh : String → String) (roles : List RoleDocument) where
  abbrev pub self_id : String
  self_id = or_empty (role_name_to_id roles self)

  abbrev pub grant : String → String → Option String → ByUser → ByUser
  grant ws user none by = by
  grant ws user (some r) by =
      put user
        (granted fresh self_id user (record { workspace_id = ws; role_id = r }) (find user by)) by

  -- The loop over the members of a workspace
  abbrev pub move_members : String → MemberDocuments → ByUser → ByUser
  move_members ws [] by = by
  move_members ws ((user, m) ∷ l) by =
      move_members ws l (grant ws user (role_name_to_id roles m.role) by)

  -- The third step of `MoveWorkspaceMembersRoleToPermittable`, over all workspaces
  unfoldable pub move_roles : List WorkspaceDocument → ByUser → ByUser
  move_roles [] by = by
  move_roles (w ∷ l) by = move_roles l (move_members w.id w.members by)
