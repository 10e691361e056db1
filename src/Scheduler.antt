-- ===== src/Scheduler.antt =====
-- The default scheduler: internal/scheduler/interface.go and internal/scheduler/scheduler.go. The
-- lock of the source is held for the whole of every method, so a method is one step on the state.
-- The definitions are below this file in `Defs`, what is proved of `Schedule` in `Readiness` and
-- `Limit`, and what is proved of the two counters in `Counters`.
mod Defs
pub mod Interfaces
pub mod Readiness
pub mod Limit
pub mod Counters
pub mod Notifications
unfoldable pub use Defs.*
