-- ===== src/Template.antt =====
-- pkg/workflow_template.go: the workflow templates, their versions in the database and their copies
-- in Argo.
pub mod Store
pub mod Table
pub mod Argo
pub mod Create
pub mod Version
pub mod Get
pub mod Archive
pub mod Latest
pub mod Steps
pub mod Invariant
pub mod Preserve
pub mod Archived
pub mod Run
pub mod Shrinks
pub mod Ends
mod Tests
