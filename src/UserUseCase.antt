-- ===== src/UserUseCase.antt =====
-- server/internal/usecase/interactor/user.go and user_signup.go: the use cases on users
pub mod Env
pub mod SignIn
pub mod Undone
pub mod Maintainers
pub mod Removal
pub mod Profile
pub mod Session
pub mod Me
pub mod Leaving
pub mod Mfa
pub mod Life
pub mod Query
pub mod MultiUser
pub mod Listing
pub mod SignUp
pub mod Sso
pub mod Newcomers
pub mod Samples
mod Tests
mod NewcomerTests
