-- ===== src/Controller/Setup.antt =====
-- `SetupComponents`. The reconciler and its runner hold pointers to a registry, which may be the same:
-- a pointer is an address in a heap of registries.
use nautikus.Prelude.{ℕ, String, Option, none, some, List, [], ◌∷◌, ◌++◌, length, modify}
use nautikus.Prelude.Dict.{Dict}
use nautikus.Kube.{Kube}
use nautikus.Scheduler.{DefaultScheduler, new_default_scheduler}
use nautikus.Executor.Registry.{Registry, new_registry, register}
use nautikus.Executor.Pod.{pod_executor}
use nautikus.Runner.{RunnerConfig, default_runner_config}

-- `runner.DefaultRunner` with the address of its registry.
pub record RunnerPointer : Type 0 where
  pub executor_registry : ℕ
  pub config : RunnerConfig

-- A field that is nil is `none`.
pub record DagReconciler : Type 0 where
  pub executor_registry : Option ℕ
  pub scheduler : Option DefaultScheduler
  pub runner : Option RunnerPointer

abbrev pub Heap : Kube → Type 0
Heap K = List (Registry K)

abbrev pub or_registry : {K : Kube} → Option ℕ → Heap K → ℕ × Heap K
or_registry none h = (length h, h ++ new_registry _ ∷ [])
or_registry (some a) h = (a, h)

abbrev pub or_scheduler : Option DefaultScheduler → DefaultScheduler
or_scheduler none = new_default_scheduler
or_scheduler (some s) = s

abbrev pub or_runner : Option RunnerPointer → ℕ → RunnerPointer
or_runner none a = record { executor_registry = a; config = default_runner_config }
or_runner (some u) a = u

module _ {K : Kube} (range : Dict String String → List (String × String)) where
  unfoldable pub setup_components : DagReconciler → Heap K → DagReconciler × Heap K
  setup_components r h =
      let (a, h1) = or_registry r.executor_registry h in
      (
        record {
          executor_registry = some a;
          scheduler = some (or_scheduler r.scheduler);
          runner = some (or_runner r.runner a);
        },
        modify h1 a (register (pod_executor K range)),
      )
