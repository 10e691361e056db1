-- ===== src/Runner.antt =====
-- The task runner: internal/runner/interface.go and internal/runner/runner.go.
use nautikus.Prelude.{ℤ, pos, String, ◌<>◌}
use nautikus.Errors.{Error, wrap, error_message, Result, ok, err}
use nautikus.Api.{TaskState, pending, failed, TaskSpec, Dag}
use nautikus.Kube.{Kube}
use nautikus.Executor.{Executor}
use nautikus.Executor.Registry.{Registry, get, type_text}

pub record RunResult : Type 0 where
  pub task_name : String
  pub pod_name : String
  pub state : TaskState
  pub message : String

pub record RunnerConfig : Type 0 where
  pub max_retries : ℤ
  pub retry_backoff_seconds : ℤ

abbrev pub default_runner_config : RunnerConfig
default_runner_config = record { max_retries = pos 0; retry_backoff_seconds = pos 30 }

pub record DefaultRunner (K : Kube) : Type 0 where
  pub executor_registry : Registry K
  pub config : RunnerConfig

-- What `Run` returns: `(nil, err)`, `(result, err)` or `(result, nil)`.
pub data Outcome : Type 0 where
  no_executor : Error → Outcome
  run_failed : RunResult → Error → Outcome
  started : RunResult → Outcome

abbrev pub no_executor_text : TaskSpec → String
no_executor_text task = "no executor found for task type " <> type_text task.type

-- The end of `Run`, on the answer of `Execute`.
unfoldable pub run_result : Dag → TaskSpec → Result (Unit {0}) → Outcome
run_result dag task (err e) =
    run_failed
      (record {
        task_name = task.name;
        pod_name = dag.name <> ("-" <> task.name);
        state = failed;
        message = error_message e;
      })
      e
run_result dag task (ok _) = started (record {
  task_name = task.name;
  pod_name = dag.name <> ("-" <> task.name);
  state = pending;
  message = "Task started";
})

module _ {K : Kube} where
  unfoldable pub new_default_runner : Registry K → DefaultRunner K
  new_default_runner registry = record {
    executor_registry = registry;
    config = default_runner_config;
  }

  unfoldable pub run_with : Result (Executor K) → Dag → TaskSpec → K.Cluster → Outcome × K.Cluster
  run_with (err e) dag task c = (no_executor (wrap (no_executor_text task) e), c)
  run_with (ok exec) dag task c =
      let (answer, c') = exec.execute dag task c in (run_result dag task answer, c')

  unfoldable pub run : DefaultRunner K → Dag → TaskSpec → K.Cluster → Outcome × K.Cluster
  unfolding run_with run_result
  run r dag task c = run_with (get task.type r.executor_registry) dag task c

  -- Beside an error `GetStatus` also returns a state, which its caller does not read.
  unfoldable pub status_with :
      Result (Executor K) → Dag → TaskSpec → K.Cluster → Result TaskState × K.Cluster
  status_with (err e) dag task c = (err (wrap (no_executor_text task) e), c)
  status_with (ok exec) dag task c = exec.get_status dag task c

  unfoldable pub get_status :
      DefaultRunner K → Dag → TaskSpec → K.Cluster → Result TaskState × K.Cluster
  unfolding status_with
  get_status r dag task c = status_with (get task.type r.executor_registry) dag task c
