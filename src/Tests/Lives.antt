-- ===== src/Tests/Lives.antt =====
-- A Dag of two tasks from its creation to its completion.
use nautikus.Prelude.{
  ℕ, ◌<◌, ◌≡◌, refl, sym, ◌∙◌, inl, map, String, false, Option, some, [], ◌∷◌, ◌==◌, if◌then◌else◌,
  string_dec, string_eq, arith, any, All,
}
use nautikus.Errors.{ok}
use nautikus.Prelude.Dict
use mathlib.Core.List.{Memᴰ, not-mem-nil, Pairwise}
use mathlib.Core.Option.{some-injective}
use mathlib.Core.Path.{subst}
use nautikus.Api.{
  TaskState-discrete, TaskType-discrete, pending, running, completed, failed, TaskState, TaskSpec,
  TaskStatus, Dag,
}
use nautikus.Kube.{Pod, PodPhase, NamespacedName, NamespacedName-discrete, namespaced_name_eq}
use nautikus.Kube.Memory.{memory, memory_pods, memory_dags}
use nautikus.Kube.Dags.{dag_key}
use nautikus.Runner
use nautikus.Runner.{status_with, new_default_runner, run, run_with, run_result}
use nautikus.Executor.Registry
use nautikus.Executor.Registry.{new_registry}
use nautikus.Executor.Pod
use nautikus.Executor.Pod.{get_pod_name, observed, state_of_phase}
use nautikus.Scheduler.{
  schedule, status_map, find_candidates, all_deps_completed, count_active, sort_by_policy,
  limit_candidates, notify_task_completed, notify_task_started, lower_dag, drop_idle,
}
use nautikus.Controller.{
  World, reconcile, reconcile_dag, Session, sync_status, sync_loop, sync_task, sync_entry,
  apply_answer, apply_state, index_map, prepare, after_sync, after_schedule, start_tasks,
  start_task, after_start, update_dag_state, all_completed, conclude, settle, update_first,
}
use nautikus.Controller.Reads.{set_up}
use nautikus.Controller.Failing.{fails, sync_status-fails, reconcile_failed}
use nautikus.Controller.Progress.{IsAcyclic}
use nautikus.Controller.Liveness.{IsSound, Succeeded, Between, start, later, completes}
use nautikus.Tests.Samples.{
  in_order, idle, etl, extract, fresh, etl_names, started_etl, started_etl-IsTracked, with_pods,
  pod,
}

pub succeed : NamespacedName × Pod → NamespacedName × Pod
succeed (k, p) = (k, record p { phase = PodPhase.succeeded })

-- A reconciliation, after which all pods succeed.
abbrev pub round : World memory → World memory
round w =
    let w1 = (reconcile (set_up memory in_order) (dag_key fresh) w).1 in
    record w1 { cluster = record w1.cluster { pods = map succeed w1.cluster.pods } }

abbrev pub created : World memory
created = record {
  scheduler = idle;
  cluster = record { pods = []; dags = (dag_key fresh, fresh) ∷ [] };
}

abbrev pub noted : String → TaskState → TaskStatus
noted name state = record {
  name = name;
  state = state;
  pod_name = get_pod_name "etl" name;
  message = "Task started";
}

abbrev pub round1 : World memory
round1 = round created

abbrev pub round2 : World memory
round2 = round round1

abbrev round3 : World memory
round3 = round round2

unfoldable pub stored : World memory → Option Dag
stored w = Dict.lookup (dag_key fresh) w.cluster.dags

abbrev pub etl1 : Dag
etl1 = etl running (noted "extract" pending ∷ [])

abbrev pub etl2 : Dag
etl2 = etl running (noted "extract" completed ∷ noted "load" pending ∷ [])

abbrev etl3 : Dag
etl3 = etl completed (noted "extract" completed ∷ noted "load" completed ∷ [])

abbrev pub AllSucceeded : Dag → World memory → Type 0
AllSucceeded d w = All (Succeeded memory_pods d w.cluster) d.status.task_statuses

-- What the three reconciliations store, and the pods that are there after them.
pub round1_lem : (stored round1 ≡ some etl1) × AllSucceeded etl1 round1
unfolding reconcile reconcile_dag conclude prepare after_sync after_schedule start_tasks start_task
    after_start update_dag_state all_completed settle update_first sync_status sync_loop sync_task
    sync_entry apply_answer apply_state index_map Runner.get_status status_with run run_with
    run_result new_default_runner Registry.get Registry.register Registry.register_types
    new_registry Pod.get_status Pod.execute Pod.build_pod Pod.create get_pod_name observed
    state_of_phase schedule status_map find_candidates all_deps_completed count_active
    sort_by_policy limit_candidates notify_task_completed notify_task_started lower_dag drop_idle
    Dict.insert Dict.erase Dict.lookup TaskState-discrete TaskType-discrete NamespacedName-discrete
    string_dec stored Pod.created succeed memory_pods memory_dags
round1_lem = (refl, ((_, refl, refl), tt))

pub round2_lem : (stored round2 ≡ some etl2) × AllSucceeded etl2 round2
unfolding reconcile reconcile_dag conclude prepare after_sync after_schedule start_tasks start_task
    after_start update_dag_state all_completed settle update_first sync_status sync_loop sync_task
    sync_entry apply_answer apply_state index_map Runner.get_status status_with run run_with
    run_result new_default_runner Registry.get Registry.register Registry.register_types
    new_registry Pod.get_status Pod.execute Pod.build_pod Pod.create get_pod_name observed
    state_of_phase schedule status_map find_candidates all_deps_completed count_active
    sort_by_policy limit_candidates notify_task_completed notify_task_started lower_dag drop_idle
    Dict.insert Dict.erase Dict.lookup TaskState-discrete TaskType-discrete NamespacedName-discrete
    string_dec stored Pod.created succeed memory_pods memory_dags
round2_lem = (refl, ((_, refl, refl), ((_, refl, refl), tt)))

round3_lem : (stored round3 ≡ some etl3) × AllSucceeded etl3 round3
unfolding reconcile reconcile_dag conclude prepare after_sync after_schedule start_tasks start_task
    after_start update_dag_state all_completed settle update_first sync_status sync_loop sync_task
    sync_entry apply_answer apply_state index_map Runner.get_status status_with run run_with
    run_result new_default_runner Registry.get Registry.register Registry.register_types
    new_registry Pod.get_status Pod.execute Pod.build_pod Pod.create get_pod_name observed
    state_of_phase schedule status_map find_candidates all_deps_completed count_active
    sort_by_policy limit_candidates notify_task_completed notify_task_started lower_dag drop_idle
    Dict.insert Dict.erase Dict.lookup TaskState-discrete TaskType-discrete NamespacedName-discrete
    string_dec stored Pod.created succeed memory_pods memory_dags
round3_lem = (refl, ((_, refl, refl), ((_, refl, refl), tt)))

between :
    (w : World memory) (d : Dag)
    → stored (round w) ≡ some d
    → AllSucceeded d (round w)
    → Between memory_pods memory_dags in_order (dag_key fresh) w (round w)
unfolding stored memory_dags
between w d e h = record {
  dag = refl;
  config = refl;
  succeeded = λ d' e'. subst (λ x. AllSucceeded x (round w)) (some-injective d d' (sym e ∙ e')) h;
}

rank : String → ℕ
rank name = if name == "load" then 1 else 0

abbrev Lower : TaskSpec → Type 0
Lower t =
    All
      (λ dep. (u : TaskSpec) × Memᴰ u fresh.spec.tasks × (u.name ≡ dep) × (rank dep < rank t.name))
      t.dependencies

lower : (t : TaskSpec) → Memᴰ t fresh.spec.tasks → Lower t
unfolding rank string_dec
lower t (Memᴰ.head same) = subst Lower (sym same) tt
lower t (Memᴰ.tail (Memᴰ.head same)) =
    subst Lower (sym same) ((extract, Memᴰ.head refl, refl, omega arith), tt)
lower t (Memᴰ.tail (Memᴰ.tail m)) = elim m [ ]

fresh-IsAcyclic : IsAcyclic fresh.spec.tasks
fresh-IsAcyclic = record { rank = rank; below = lower }

fresh-IsSound : IsSound fresh
unfolding TaskType-discrete
fresh-IsSound = record {
  distinct = etl_names;
  tracked = record { nodup = Pairwise.nil; listed = λ name m. absurd (not-mem-nil m) };
  handled = (refl, (refl, tt));
  acyclic = fresh-IsAcyclic;
}

created_stored : memory_dags.dag_at (dag_key fresh) created.cluster ≡ some fresh
unfolding memory_dags Dict.lookup NamespacedName-discrete string_dec
created_stored = refl

completes_example :
    (d : Dag) × (memory_dags.dag_at (dag_key fresh) round3.cluster ≡ some d)
    × (d.spec ≡ fresh.spec)
    × (d.status.state ≡ completed)
unfolding Dict.lookup NamespacedName-discrete string_dec
completes_example =
    completes memory_pods memory_dags in_order
      (λ d p. (record p { owners = d.name ∷ p.owners }, refl)) fresh 3 created round3 created_stored
      fresh-IsSound refl (inl refl) (omega arith)
      (later 2 round2
        (later 1 round1 (later 0 created start (between created etl1 round1_lem.0 round1_lem.1))
          (between round1 etl2 round2_lem.0 round2_lem.1))
        (between round2 etl3 round3_lem.0 round3_lem.1))
      (omega arith)

abbrev broken : Session memory
broken = record {
  dag = started_etl;
  scheduler = idle;
  cluster = with_pods (pod "etl-extract" PodPhase.failed ∷ []);
}

sync_status-fails_example : (sync_status (set_up memory in_order) broken).1.dag.status.state ≡ (
    if any (fails memory_pods "default" "etl" broken.cluster) started_etl.status.task_statuses
    then failed
    else running)
unfolding TaskType-discrete TaskState-discrete
sync_status-fails_example =
    sync_status-fails memory_pods in_order broken (refl, (refl, tt)) started_etl-IsTracked

abbrev broken_world : World memory
broken_world = record {
  scheduler = idle;
  cluster = record broken.cluster { dags = (dag_key started_etl, started_etl) ∷ [] };
}

reconcile_failed_example :
    let after = reconcile (set_up memory in_order) (dag_key started_etl) broken_world in
    (after.0 ≡ ok false) × (after.1.cluster ≡ broken_world.cluster)
unfolding TaskType-discrete Dict.lookup NamespacedName-discrete string_dec memory_pods get_pod_name
    state_of_phase TaskState-discrete
reconcile_failed_example =
    reconcile_failed memory_pods in_order (dag_key started_etl) started_etl broken_world refl
      (refl, (refl, tt)) started_etl-IsTracked refl
