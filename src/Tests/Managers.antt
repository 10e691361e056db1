-- ===== src/Tests/Managers.antt =====
-- The manager with its default flags, and a reconciler without components.
use nautikus.Prelude.{ℕ, none, some, [], ◌∷◌, get_elem?, ◌≡◌, ◌≢◌, ◌<◌, true, if◌then◌else◌, arith}
use nautikus.Errors.{ok}
use nautikus.Api.{TaskType}
use nautikus.Kube.Memory.{memory}
use nautikus.Scheduler.{new_default_scheduler}
use nautikus.Executor.Registry.{Registry, get, contains, new_registry}
use nautikus.Executor.Pod.{handled_types, pod_executor}
use nautikus.Controller.{DagReconciler, setup_components}
use nautikus.Controller.Reads.{set_up}
use nautikus.Controller.Linked.{registry_before, setup_components-registers}
use nautikus.Manager.{TlsConfig, default_flags, manager_options, reconciler_with_manager}
use nautikus.Manager.Protocols.{configured, manager_options-next_protos}
use nautikus.Manager.Components.{runner_of, reconciler_with_manager-set_up}
use nautikus.Tests.Samples.{in_order, registry}

abbrev both : TlsConfig
both = record { next_protos = "h2" ∷ "http/1.1" ∷ [] }

manager_options-next_protos_example :
    ((configured (manager_options default_flags).webhook_server.tls_opts both).next_protos
      ≡ "http/1.1" ∷ [])
    × ((configured (manager_options default_flags).metrics.tls_opts both).next_protos
        ≡ "http/1.1" ∷ [])
    × ((manager_options default_flags).metrics.secure_serving ≡ true)
    × ((manager_options default_flags).metrics.filter_provider ≡ true)
manager_options-next_protos_example = manager_options-next_protos default_flags both

reconciler_with_manager-set_up_example :
    let (r, after) = reconciler_with_manager memory in_order (registry ∷ []) in
    (runner_of r after ≡ some (set_up memory in_order))
    × (r.scheduler ≡ some new_default_scheduler)
    × (r.executor_registry ≡ some 1)
reconciler_with_manager-set_up_example =
    reconciler_with_manager-set_up memory in_order (registry ∷ [])

-- A reconciler with a registry, which is not the only one.
abbrev linked : DagReconciler
linked = record { executor_registry = some 1; scheduler = none; runner = none }

inside : (a : ℕ) → linked.executor_registry ≡ some a → a < 2
inside a e = ground (arith, e)

setup_components-registers_example :
    let h = registry ∷ new_registry memory ∷ [] in
    (a : ℕ) × (found : Registry memory) × ((setup_components in_order linked h).0.executor_registry
      ≡ some a)
    × (get_elem? (setup_components in_order linked h).1 a ≡ some found)
    × ((t : TaskType)
        → get t found ≡ (
            if contains handled_types t
            then ok (pod_executor memory in_order)
            else get t (registry_before linked.executor_registry h)))
    × ((b : ℕ) → b < 2 → b ≢ a → get_elem? (setup_components in_order linked h).1 b ≡ get_elem? h b)
setup_components-registers_example =
    setup_components-registers in_order linked (registry ∷ new_registry memory ∷ []) inside
