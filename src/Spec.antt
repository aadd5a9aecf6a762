-- ===== src/Spec.antt =====
-- pkg/workspace_template.go: the workflow template that is generated from the specification of a
-- workspace template.
pub mod Defs
pub mod Tasks
pub mod Volumes
pub mod Order
mod Tests
