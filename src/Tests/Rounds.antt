-- ===== src/Tests/Rounds.antt =====
-- The theorems on a reconciliation.
use nautikus.Prelude.{pos, some, arith, ◌≡◌, refl, map, true, List, [], ◌∷◌, string_dec}
use nautikus.Errors.{ok}
use nautikus.Prelude.Dict
use nautikus.Api.{TaskState-discrete, TaskType-discrete, running, completed, TaskStatus}
use nautikus.Kube.{PodPhase, NamespacedName-discrete, namespaced_name_eq}
use nautikus.Kube.Memory.{memory, memory_pods, memory_dags}
use nautikus.Kube.Dags.{dag_key}
use nautikus.Runner
use nautikus.Runner.{status_with, new_default_runner}
use nautikus.Executor.Registry
use nautikus.Executor.Registry.{new_registry}
use nautikus.Executor.Pod
use nautikus.Executor.Pod.{get_pod_name, observed, state_of_phase}
use nautikus.Scheduler.{
  schedule, status_map, find_candidates, all_deps_completed, count_active, sort_by_policy,
  limit_candidates, notify_task_completed, lower_dag, drop_idle,
}
use nautikus.Controller.{
  World, reconcile, is_finished, Session, begin, sync_status, sync_loop, sync_task, sync_entry,
  apply_answer, apply_state, index_map, prepare, after_sync, after_schedule, start_tasks,
  after_start, update_dag_state, all_completed,
}
use nautikus.Controller.Evolution.{Evolves, AllLater, sync_status-Evolves}
use nautikus.Controller.Tracked.{IsTracked}
use nautikus.Controller.Completion.{AllCompleted, prepare-AllCompleted}
use nautikus.Controller.Reads.{set_up, Reads, sync_status-Reads}
use nautikus.Controller.Observed.{observe, sync_status-observe}
use nautikus.Controller.Balance.{Balanced, counter, reconcile-Balanced}
use nautikus.Controller.Counterless.{view, prepare-Alike}
use nautikus.Controller.Launches.{Launches, prepare-Launches}
use nautikus.Tests.Samples.{
  in_order, idle, with_pods, entry, etl, started_etl, pod, session, runner, etl_names,
  started_etl-IsTracked,
}

sync_status-Evolves_example :
    let s = session started_etl (pod "etl-extract" PodPhase.succeeded ∷ []) in
    Evolves (begin started_etl) (sync_status runner s).1.dag
sync_status-Evolves_example =
    sync_status-Evolves runner (session started_etl (pod "etl-extract" PodPhase.succeeded ∷ []))

prepare-Launches_example :
    let s = session started_etl (pod "etl-extract" PodPhase.succeeded ∷ []) in
    (old : List TaskStatus) × AllLater started_etl.status.task_statuses old
    × Launches 2 "etl" started_etl.spec.tasks old (prepare runner s).1.dag.status.task_statuses
prepare-Launches_example =
    prepare-Launches runner (session started_etl (pod "etl-extract" PodPhase.succeeded ∷ []))
      etl_names

-- The last of the tasks has just succeeded.
abbrev ending : Session memory
ending =
    session (etl running (entry "extract" completed ∷ entry "load" running ∷ []))
      (pod "etl-extract" PodPhase.succeeded ∷ pod "etl-load" PodPhase.succeeded ∷ [])

ending-IsTracked : IsTracked ending.dag
ending-IsTracked = record { nodup = etl_names; listed = λ name m. m }

ending_completed : (prepare runner ending).1.dag.status.state ≡ completed
unfolding prepare after_sync after_schedule start_tasks after_start update_dag_state all_completed
    sync_status sync_loop sync_task sync_entry apply_answer apply_state index_map Runner.get_status
    status_with Registry.get Pod.get_status get_pod_name observed state_of_phase schedule status_map
    find_candidates all_deps_completed count_active sort_by_policy limit_candidates
    notify_task_completed lower_dag drop_idle Dict.insert Dict.erase Dict.lookup TaskState-discrete
    TaskType-discrete NamespacedName-discrete string_dec
ending_completed = refl

prepare-AllCompleted_example : AllCompleted (prepare runner ending).1.dag
prepare-AllCompleted_example =
    prepare-AllCompleted runner ending etl_names ending-IsTracked (λ h. cc) ending_completed

-- A Dag that is stored as running, with a pod that has failed.
abbrev failing : World memory
failing = record {
  scheduler = idle;
  cluster = record (with_pods (pod "etl-extract" PodPhase.failed ∷ [])) {
    dags = (dag_key started_etl, started_etl) ∷ [];
  };
}

abbrev failing_session : Session memory
failing_session = record { dag = started_etl; scheduler = idle; cluster = failing.cluster }

failing_read :
    memory.get_dag (dag_key started_etl) failing.cluster ≡ (ok started_etl, failing.cluster)
unfolding Dict.lookup NamespacedName-discrete string_dec
failing_read = refl

failing_found :
    is_finished (sync_status (set_up memory in_order) failing_session).1.dag.status.state ≡ true
unfolding sync_status sync_loop sync_task sync_entry apply_answer apply_state index_map
    Runner.get_status new_default_runner status_with Registry.get Registry.register
    Registry.register_types new_registry Pod.get_status get_pod_name observed state_of_phase
    notify_task_completed lower_dag drop_idle Dict.insert Dict.erase Dict.lookup TaskState-discrete
    TaskType-discrete NamespacedName-discrete string_dec
failing_found = refl

sync_status-Reads_example :
    Reads failing.cluster (sync_status (set_up memory in_order) failing_session)
sync_status-Reads_example = sync_status-Reads memory_pods in_order failing_session

sync_status-observe_example :
    (sync_status (set_up memory in_order) failing_session).1.dag.status.task_statuses
    ≡ map (observe memory_pods "default" "etl" failing.cluster) started_etl.status.task_statuses
unfolding TaskType-discrete
sync_status-observe_example =
    sync_status-observe memory_pods in_order failing_session (refl, (refl, tt))
      started_etl-IsTracked

-- The scheduler has counted the one task that is under way.
abbrev counted : Session memory
counted = record (session started_etl (pod "etl-extract" PodPhase.succeeded ∷ [])) {
  scheduler = record idle {
    active_tasks_per_dag = ("etl", pos 1) ∷ [];
    total_active_tasks = pos 1;
  };
}

abbrev counted_world : World memory
counted_world = record {
  scheduler = counted.scheduler;
  cluster = record counted.cluster { dags = (dag_key started_etl, started_etl) ∷ [] };
}

counted_found :
    (memory_dags.dag_at (dag_key started_etl) counted_world.cluster ≡ some started_etl)
    × (counter "etl" counted_world ≡ pos 1)
unfolding memory_dags Dict.lookup NamespacedName-discrete string_dec
counted_found = (refl, refl)

-- The task that has succeeded leaves the count, and the next one enters it.
reconcile-Balanced_example :
    Balanced memory_pods memory_dags in_order started_etl counted_world
      (reconcile (set_up memory in_order) (dag_key started_etl) counted_world).1
unfolding TaskState-discrete TaskType-discrete
reconcile-Balanced_example =
    reconcile-Balanced memory_pods memory_dags in_order started_etl counted_world (omega arith)
      (refl, (refl, tt)) etl_names started_etl-IsTracked (tt, tt) counted_found.1 counted_found.0

-- The scheduler of a reconciler that has just been restarted.
prepare-Alike_example :
    let x = prepare (set_up memory in_order) counted in
    let y = prepare (set_up memory in_order) (record counted { scheduler = idle }) in
    (y.0 ≡ x.0) × (view y.1 ≡ view x.1)
prepare-Alike_example = prepare-Alike (set_up memory in_order) counted idle refl
