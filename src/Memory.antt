-- ===== src/Memory.antt =====
-- server/internal/infrastructure/memory: the repositories in memory, each a map of values. A method
-- that holds the lock, or that calls the synchronised map once, is one step. What is loaded is a
-- value here, where the source hands out the pointer that it stores.
pub mod Texts
pub mod Roles
pub mod Permittables
pub mod Workspaces
pub mod Users
pub mod Configs
pub mod Container
pub mod Refines
pub mod Finding
pub mod Reset
mod Tests
