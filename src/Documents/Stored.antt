-- ===== src/Documents/Stored.antt =====
-- What comes back from what was stored.
pub mod Roles
pub mod Permittables
pub mod AdminUsers
pub mod Users
pub mod Members
pub mod Workspaces
pub mod Hash
pub mod Configs
