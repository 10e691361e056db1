-- ===== src/Executor/Pod.antt =====
-- The executor that runs a task as a pod: internal/executor/pod/executor.go. What is proved of it
-- stands in the children.
mod Defs
pub mod Names
pub mod Containers
pub mod Calls
unfoldable pub use Defs.*
