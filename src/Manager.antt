-- ===== src/Manager.antt =====
-- The manager process: cmd/manager/main.go. `Options` has what it makes of its flags, `Wiring` the
-- components that it builds and hands to the reconciler.
mod Options
mod Wiring
pub mod Protocols
pub mod Components
unfoldable pub use Options.*
unfoldable pub use Wiring.*
