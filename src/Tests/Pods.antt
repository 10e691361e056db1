-- ===== src/Tests/Pods.antt =====
-- The theorems on executors and their registry, on a cluster in memory.
use nautikus.Prelude.{◌≡◌, refl, ◌<>◌, ◌||◌, [], ◌∷◌, if◌then◌else◌}
use nautikus.Prelude.Dict
use nautikus.Prelude.Dict.{Dict}
use mathlib.Core.List.Perm
use nautikus.Errors.{ok}
use nautikus.Api.{TaskType-discrete, go, pending}
use nautikus.Kube.{Pod, PodPhase, Container, namespaced_name_eq}
use nautikus.Kube.Memory.{Objects, memory, memory_pods}
use nautikus.Executor.Registry.{Registry, get, has, register, contains, get-register}
use nautikus.Executor.Pod.{
  get_pod_name, build_pod, execute, get_status, cleanup, pod_executor, handled_types,
}
use nautikus.Executor.Pod.Names.{get_pod_name_shared}
use nautikus.Executor.Pod.Calls.{execute_twice, get_status-execute, Cleaned, cleanup-execute}
use nautikus.Executor.Pod.Containers.{IsRunnable, build_pod-IsRunnable}
use nautikus.Tests.Samples.{in_order, extract, fresh, pod, with_pods, empty, pod_name}

-- The pod that `Execute` creates.
abbrev owned_pod : Pod
owned_pod = record (build_pod in_order fresh extract) { owners = "etl" ∷ [] }

execute_twice_example :
    let after = (execute memory in_order fresh extract empty).1 in
    ((execute memory in_order fresh extract empty).0 ≡ ok tt)
    × (execute memory in_order fresh extract after ≡ (ok tt, after))
unfolding build_pod
execute_twice_example = execute_twice memory memory_pods fresh extract empty in_order owned_pod refl

get_status-execute_example :
    let after = (execute memory in_order fresh extract empty).1 in
    get_status memory fresh extract after ≡ (ok pending, after)
unfolding build_pod memory_pods Dict.lookup
get_status-execute_example =
    get_status-execute memory memory_pods fresh extract empty in_order owned_pod refl refl

-- A pod of another task runs.
abbrev busy : Objects
busy = with_pods (pod "etl-load" PodPhase.running ∷ [])

cleanup-execute_example :
    Cleaned memory_pods fresh extract (pod_name "etl-load") busy (cleanup memory fresh extract busy)
    × Cleaned memory_pods fresh extract
        (pod_name "etl-load")
        busy
        (cleanup memory fresh extract (execute memory in_order fresh extract busy).1)
unfolding build_pod get_pod_name
cleanup-execute_example =
    cleanup-execute memory memory_pods fresh extract (pod_name "etl-load") (λ same. cc) busy
      in_order owned_pod refl

build_pod-IsRunnable_example :
    (c : Container) × ((build_pod in_order fresh extract).containers ≡ c ∷ [])
    × IsRunnable extract c
unfolding TaskType-discrete
build_pod-IsRunnable_example =
    build_pod-IsRunnable in_order fresh extract refl (Perm.refl extract.env)

get_pod_name_shared_example :
    get_pod_name ("etl" <> ("-" <> "eu")) "load" ≡ get_pod_name "etl" ("eu" <> ("-" <> "load"))
get_pod_name_shared_example = get_pod_name_shared "etl" "eu" "load"

abbrev unregistered : Registry memory
unregistered = record { executors = [] }

get-register_example :
    let r = register (pod_executor memory in_order) unregistered in
    (get go r ≡ (
      if contains handled_types go then ok (pod_executor memory in_order) else get go unregistered))
    × (has go r ≡ (contains handled_types go || has go unregistered))
get-register_example = get-register go (pod_executor memory in_order) unregistered
