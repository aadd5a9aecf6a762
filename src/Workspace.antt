-- ===== src/Workspace.antt =====
-- pkg/workspace_types.go and pkg/workspace.go: the phases of a workspace, its row in the table
-- `workspaces`, and the operations that move it from phase to phase. A time is a number, and the
-- clock is read once in an operation. The proofs are in the modules below.
pub mod Phase
pub mod World
pub mod Table
pub mod Update
pub mod Uid
pub mod Create
pub mod Status
pub mod Outcome
pub mod Effect
pub mod Report
pub mod Machine
pub mod Serve
pub mod Rows
pub mod Live
pub mod Invariant
pub mod Run
pub mod Failure
pub mod Submit
pub mod Created
pub mod Slug
pub mod Tests
