-- ===== src/Sdk.antt =====
-- The builder of DAGs and the entry point of a task's pod in the Go SDK: pkg/sdk/go/api.go,
-- pkg/sdk/go/processing/types.go and pkg/sdk/go/processing/executor.go. The functions of the user's
-- program are values of two parameters, `Fn` for `func()` and `BranchFn` for `func() string`; a nil
-- function is `none`.
mod Defs
mod Manifests
pub mod Search
pub mod Serving
pub mod Chains
pub mod Sources
pub mod Branches
pub mod Dispatch
unfoldable pub use Defs.*
unfoldable pub use Manifests.*
