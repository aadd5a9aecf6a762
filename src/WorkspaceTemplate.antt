-- ===== src/WorkspaceTemplate.antt =====
-- pkg/workspace_template.go: the rows of the workspace templates and of their versions, each with a
-- workflow template.
pub mod Store
pub mod Table
pub mod Generate
pub mod Create
pub mod Update
pub mod Archive
pub mod Latest
pub mod Created
pub mod Joined
pub mod Updated
pub mod Run
mod Tests
