-- ===== src/Controller.antt =====
-- The reconciler of Dag objects: internal/controller/dag_controller.go. `Sync` is `syncStatus`,
-- `Reconcile` the rest. What is proved of them stands in the other children.
mod Sync
mod Reconcile
mod Setup
pub mod Evolution
pub mod Starts
mod Rounds
pub mod Tracked
pub mod Completion
mod Additions
mod Config
pub mod Same
pub mod Ordered
pub mod Walks
pub mod Known
pub mod Safe
pub mod Kept
pub mod Stored
pub mod Accounting
pub mod Balance
pub mod Counterless
pub mod Reads
pub mod Linked
pub mod Observed
pub mod Failing
pub mod Launched
pub mod Progress
pub mod Liveness
pub mod Launches
unfoldable pub use Sync.*
unfoldable pub use Reconcile.*
unfoldable pub use Setup.*
