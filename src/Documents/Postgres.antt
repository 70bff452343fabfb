-- ===== src/Documents/Postgres.antt =====
-- server/internal/infrastructure/postgres/pgdoc: the rows for each entity.
pub mod Roles
pub mod Permittables
pub mod AdminUsers
pub mod Json
pub mod Users
pub mod Workspaces
