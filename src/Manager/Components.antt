-- ===== src/Manager/Components.antt =====
-- What the reconciler of the manager works with.
use nautikus.Prelude.{
  String, Option, none, some, List, [], ◌∷◌, ◌++◌, length, get_elem?, ◌≡◌, refl, ap, ◌∙◌,
  get_elem?-modify, get_elem?-append_last,
}
use nautikus.Prelude.Dict
use nautikus.Prelude.Dict.{Dict}
use nautikus.Kube.{Kube}
use nautikus.Scheduler.{new_default_scheduler}
use nautikus.Executor.Registry.{Registry, new_registry, register, register_types}
use nautikus.Executor.Pod.{pod_executor}
use nautikus.Runner.{DefaultRunner, new_default_runner}
use nautikus.Controller.{DagReconciler, RunnerPointer, Heap, setup_components}
use nautikus.Controller.Reads.{set_up}
use nautikus.Api.{TaskType-discrete, task_type_eq}
use nautikus.Manager.Wiring.{new_reconciler, reconciler_with_manager}

abbrev pub with_registry :
    {K : Kube} → RunnerPointer → Option (Registry K) → Option (DefaultRunner K)
with_registry u none = none
with_registry u (some registry) = some (record { executor_registry = registry; config = u.config })

-- The runner of a reconciler, with the registry that its pointer leads to.
abbrev pub runner_of : {K : Kube} → DagReconciler → Heap K → Option (DefaultRunner K)
runner_of r h = elim r.runner [
  | none ↦ none
  | some u ↦ with_registry u (get_elem? h u.executor_registry)
]

module _ (K : Kube) (range : Dict String String → List (String × String)) where
  twice :
      register (pod_executor K range) (register (pod_executor K range) (new_registry K))
      ≡ register (pod_executor K range) (new_registry K)
  unfolding register register_types new_registry Dict.insert TaskType-discrete
  twice = refl

  -- Whatever registries there are already, the reconciler that `main` builds and `SetupWithManager` sets
  -- up has a new scheduler with the default configuration, and its runner, through the registry that both
  -- share, is the one that `SetupComponents` builds for a reconciler without components, though the pod
  -- executor is registered twice.
  pub reconciler_with_manager-set_up :
      (h : Heap K)
      → let (r, after) = reconciler_with_manager K range h in
        (runner_of r after ≡ some (set_up K range))
        × (r.scheduler ≡ some new_default_scheduler)
        × (r.executor_registry ≡ some (length h))
  unfolding reconciler_with_manager new_reconciler setup_components new_default_runner
      new_default_scheduler
  reconciler_with_manager-set_up h =
      let first =
        get_elem?-modify (h ++ new_registry K ∷ []) (length h) (register (pod_executor K range))
          (new_registry K) (get_elem?-append_last h (new_registry K)) in
      let second =
        get_elem?-modify _ (length h) (register (pod_executor K range)) _ first ∙ ap some twice in
      (rw second refl, refl, refl)
