-- ===== src/Executor.antt =====
-- The interface of an executor: internal/executor/interface.go. `Executor/Registry` is the
-- registry of executors, `Executor/Pod` the one executor of the repository.
pub mod Registry
pub mod Pod
use nautikus.Prelude.{List}
use nautikus.Errors.{Result}
use nautikus.Api.{TaskType, TaskState, TaskSpec, Dag}
use nautikus.Kube.{Kube}

-- An executor acts on the cluster. The methods take a context too, which only carries deadlines.
pub record Executor (K : Kube) : Type 0 where
  pub types : List TaskType
  pub execute : Dag → TaskSpec → K.Cluster → Result (Unit {0}) × K.Cluster
  pub get_status : Dag → TaskSpec → K.Cluster → Result TaskState × K.Cluster
  pub cleanup : Dag → TaskSpec → K.Cluster → Result (Unit {0}) × K.Cluster
