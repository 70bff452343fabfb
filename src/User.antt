-- ===== src/User.antt =====
-- server/pkg/user
pub mod Auth
pub mod Password
pub mod Tokens
pub mod Account
pub mod Rebuilt
pub mod Identities
pub mod Builder
pub mod Credentials
pub mod Samples
mod Tests
