-- ===== src/Manager/Wiring.antt =====
-- The components that the manager builds, and the exit status of its process.
use nautikus.Prelude.{ℕ, String, some, List, [], ◌∷◌, ◌++◌, length, modify}
use nautikus.Prelude.Dict.{Dict}
use nautikus.Errors.{Result, ok, err}
use nautikus.Kube.{Kube}
use nautikus.Scheduler.{default_scheduler_config, new_scheduler}
use nautikus.Executor.Registry.{new_registry, register}
use nautikus.Executor.Pod.{pod_executor}
use nautikus.Runner.{default_runner_config}
use nautikus.Controller.{DagReconciler, Heap, setup_components}
use nautikus.Manager.Options.{Flags, ManagerOptions, manager_options}

-- What controller-runtime answers: to `NewManager`, `Complete`, both health checks and `Start`.
pub record Runtime : Type 0 where
  pub new_manager : ManagerOptions → Result (Unit {0})
  pub complete : Result (Unit {0})
  pub add_healthz_check : Result (Unit {0})
  pub add_readyz_check : Result (Unit {0})
  pub start : Result (Unit {0})

module _ (K : Kube) (range : Dict String String → List (String × String)) where
  -- The reconciler as `main` builds it: the registry, in which it has registered the pod executor, the
  -- scheduler, and a runner with the same registry.
  unfoldable pub new_reconciler : Heap K → DagReconciler × Heap K
  new_reconciler h =
      let a = length h in
      (
        record {
          executor_registry = some a;
          scheduler = some (new_scheduler default_scheduler_config);
          runner = some (record { executor_registry = a; config = default_runner_config });
        },
        modify (h ++ new_registry K ∷ []) a (register (pod_executor K range)),
      )

  -- `SetupWithManager` sets up the components before it hands the reconciler to the manager.
  unfoldable pub reconciler_with_manager : Heap K → DagReconciler × Heap K
  unfolding new_reconciler
  reconciler_with_manager h = let (r, h1) = new_reconciler h in setup_components range r h1

-- The process ends with exit status 1 at the first step that fails.
abbrev pub then_step : Result (Unit {0}) → ℕ → ℕ
then_step (err e) status = 1
then_step (ok _) status = status

-- The exit status of `main`.
unfoldable pub manager_main : Runtime → Flags → ℕ
manager_main rt flags = then_step (rt.new_manager (manager_options flags)) (
    then_step rt.complete
      (then_step rt.add_healthz_check (then_step rt.add_readyz_check (then_step rt.start 0))))
