-- ===== src/Documents/Mongo.antt =====
-- server/internal/infrastructure/mongo/mongodoc: a document for each entity.
pub mod Roles
pub mod Permittables
pub mod AdminUsers
pub mod Users
pub mod Hash
pub mod Workspaces
