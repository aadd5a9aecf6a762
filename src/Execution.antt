-- ===== src/Execution.antt =====
-- pkg/workflow_execution.go: the rows of the executions, and what is injected into a workflow before it
-- is submitted.
pub mod Rows
pub mod History
pub mod Workflow
pub mod Inject
pub mod Roots
pub mod Variables
pub mod Precedence
pub mod Services
pub mod Access
pub mod Filter
pub mod Filtered
pub mod Submitted
pub mod Overrides
mod Tests
