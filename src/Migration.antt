-- ===== src/Migration.antt =====
-- server/internal/infrastructure/mongo/migration: what the migrations of the stored documents
-- compute. A migration reads whole collections and writes documents one by one; the documents that
-- it reads and those that it saves are lists here, in the order in which the collection is visited.
pub mod Alias
pub mod Roles
pub mod Move
mod Tests
