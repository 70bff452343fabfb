-- ===== src/Documents.antt =====
-- What the databases store: server/internal/infrastructure/mongo/mongodoc and .../postgres/pgdoc,
-- the conversions between the program's records and their documents and rows.
pub mod Texts
pub mod Mongo
pub mod Postgres
pub mod Configs
pub mod Stored
mod Samples
mod Tests
