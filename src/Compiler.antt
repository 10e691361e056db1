-- ===== src/Compiler.antt =====
-- The compiler of DAG definitions: internal/compiler/compiler.go is `Defs`, and the command that
-- calls it, cmd/dag-cli/main.go, is `Cli`. `Names` has the functions of Go's `strings` and
-- `path/filepath` that they use.
mod Names
mod Defs
mod Cli
pub mod Verdicts
pub mod Steps
pub mod Outputs
unfoldable pub use Names.*
unfoldable pub use Defs.*
unfoldable pub use Cli.*
