-- ===== src/Lib.antt =====
-- Re:Earth Accounts (server/): users, workspaces with their members, roles, and administrators.
--
-- The parts and how they meet. A workspace (pkg/workspace) holds its members, each with a role of
-- pkg/role; a personal workspace has members that are fixed. An operator is a user with the lists of
-- workspaces that the user may read, write, maintain and own; a filter made of an operator limits the
-- repositories. A permittable (pkg/permittable) repeats a user's roles, globally and by workspace, for
-- the permission service. The use cases (internal/usecase/interactor) load a workspace, check the
-- operator's rights or ask the service, change the members, bring the permittables in step and save,
-- inside a transaction. A user (pkg/user) has identities, a password and tokens. The admin
-- application has users of its own (pkg/adminuser), whose use cases (internal/admin/usecase)
-- approve them, reject them and give them roles.
--
-- The files, with the code that each models:
-- - Prelude: shared names. Results: errors and fallible results. Dict: Go maps as association lists.
--   Slices: slices that may be nil. Idx: the package reearthx/idx, as a record of the operations that
--   are called and a record of what is relied on of them. Lists: lists over native numbers.
-- - Role, Role/Order: server/pkg/role (enum.go, role.go, builder.go); `includes` is Includes.
-- - Workspace/Member and below: server/pkg/workspace/member.go; one function for each method, which
--   gives the new members or an error. Invariant, Owners, Listing and Effects prove its properties.
-- - Workspace/Entity, Builder, Operator, Filter, WorkspaceList, Init: server/pkg/workspace/workspace.go,
--   metadata.go, workspace_builder.go, operator.go, filter.go, workspace_list.go and initializer.go.
-- - Permittable, Permittable/Laws: server/pkg/permittable (permittable.go, builder.go).
-- - User/Auth, Password, Tokens, Account, Builder: server/pkg/user (auth.go, password.go,
--   verification.go, password_reset.go, user.go, metadata.go, theme.go, user_builder.go). Identities
--   and Credentials prove properties of Account.
-- - AdminUser, AdminUser/Setters, AdminUser/Life: server/pkg/adminuser. AdminUser/Memory and below:
--   server/internal/infrastructure/memory/adminuser.go. AdminUser/UseCase and below:
--   server/internal/admin/usecase/adminuseruc (approve.go, reject.go, set_role.go), over a repository
--   interface that the repository in memory fills. AdminUser/SignIn: authuc and authz of
--   server/internal/admin/usecase; Building and Admission prove what it lets in.
-- - Action: calls that read and change a store and may fail. Action/Post: rules for their results.
-- - Interactor/Env: server/internal/usecase/interactor/usecase.go, and the repositories and services
--   as parameters over any store. Interactor/Guard, Permits, Leaving, Members, Joining, Adding,
--   Creating, Integrations, Life, Reading and Updating: the use cases of
--   server/internal/usecase/interactor/workspace.go. Interactor/Permission: cerbos.go beside it.
--   Ownership, Roles, Removal, Edits, Refusals and Permission/Allowed prove their properties.
-- - UserUseCase/Env, Session, Me, Mfa, Leaving, Life and Query: user.go of
--   server/internal/usecase/interactor. SignUp and Sso: user_signup.go beside it. MultiUser:
--   server/internal/usecase/repo/multiuser.go. Listing: FindAll of user.go and of workspace.go.
--   SignIn, Maintainers, Removal, Profile, Newcomers and Undone prove their properties.
-- - Memory/Texts, Roles, Permittables, Workspaces, Users, Configs and Container:
--   server/internal/infrastructure/memory, as the repositories of the use cases. Finding, Refines and
--   Reset prove what the repository of users and the use cases over it do.
-- - Documents/Texts: identifiers and languages as texts, as a record of what is called and one of what
--   is relied on. Documents/Mongo: server/internal/infrastructure/mongo/mongodoc. Documents/Postgres:
--   server/internal/infrastructure/postgres/pgdoc, where Json has a jsonb column by what it decodes to.
--   Documents/Configs: server/pkg/config/config.go with its document and its row. Stored proves what
--   comes back from what was stored; Prelude/TextOrder is the order of Go's strings. AdminUser/Rebuilt
--   and User/Rebuilt prove that the builders give back what they could have made.
-- - Migration/Alias: alias_utils.go of server/internal/infrastructure/mongo/migration. Migration/Roles:
--   260108175500_fix_permittable_role_ids.go and 260109104153_fix_permittable_workspace_roles.go
--   beside it, as what the loops do to one document of the collection. Migration/Move:
--   251209170002_move_workspace_members_role_to_permittable.go. Roles/Named says which role a name
--   stands for; Roles/Fixed, Roles/Memberships and Move/Moved prove what the repairs achieve.
-- - Pagination, Pagination/Bounds: server/pkg/pagination, with int64 as bit patterns below 2 ^ 64.
-- - Samples and Tests: concrete values, and the theorems at them.
--
-- Numbers. An identifier is the number that its 16 bytes spell; a time counts nanoseconds from the
-- zero time, without an upper bound, and each reading of the clock is an argument. Every function is
-- a structural recursion, so no fuel is needed. A call that holds a lock is one step. The use cases
-- are functions of a store, so calls that run at the same time are not modelled.
--
-- Not modelled: the queries to the databases, the other migrations, the outside services (Auth0,
-- Identity Platform, Cerbos, storage), the GraphQL and HTTP layers, configuration, and generated code,
-- because they are input and output; what a database does to a document that it keeps; the texts of errors, of mails and of the log. A loaded workspace or user is a value: a repository that
-- hands out shared pointers would show changes before they are saved.
pub mod Prelude
pub mod Role
pub mod Workspace
pub mod User
pub mod Permittable
pub mod AdminUser
pub mod Documents
pub mod Migration
pub mod Action
pub mod Pagination
pub mod Memory
pub mod Interactor
pub mod UserUseCase
