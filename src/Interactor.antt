-- ===== src/Interactor.antt =====
-- server/internal/usecase/interactor
pub mod Permission
pub mod Updating
pub mod Edits
pub mod Reading
pub mod Env
pub mod Guard
pub mod Permits
pub mod Leaving
pub mod Joining
pub mod Adding
pub mod Creating
pub mod Members
pub mod Integrations
pub mod Life
pub mod Ownership
pub mod Roles
pub mod Refusals
pub mod Removal
pub mod Samples
mod Tests
mod EditTests
