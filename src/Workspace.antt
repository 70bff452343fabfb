-- ===== src/Workspace.antt =====
-- server/pkg/workspace
pub mod Member
pub mod Entity
pub mod Builder
pub mod Operator
pub mod Filter
pub mod WorkspaceList
pub mod Init
mod InitTests
