-- ===== src/Controller/Reconcile.antt =====
-- `Reconcile` and `updateDAGState` of internal/controller/dag_controller.go.
use nautikus.Prelude.{
  String, ◌<>◌, Bool, true, false, ◌&&◌, List, [], ◌∷◌, ◌++◌, ◌==◌, string_eq, eqb, length,
  if◌then◌else◌,
}
use nautikus.Errors.{Error, error_message, Result, ok, err, is_not_found}
use nautikus.Api.{
  pending, running, completed, failed, TaskSpec, TaskStatus, Dag, task_state_eq, with_statuses,
  with_state,
}
use nautikus.Kube.{Kube, NamespacedName}
use nautikus.Scheduler.{DefaultScheduler, schedule, notify_task_started}
use nautikus.Runner.{DefaultRunner, RunResult, Outcome, no_executor, run_failed, started, run}
use nautikus.Controller.Sync.{Session, is_finished, and_then, complete, sync_status}

-- The loop of `updateDAGState`, which leaves at the first task that is not completed.
unfoldable pub all_completed : List TaskStatus → Bool
all_completed [] = true
all_completed (ts ∷ rest) =
    let more = all_completed rest in if ts.state == completed then more else false

unfoldable pub update_dag_state : Dag → Dag
unfolding all_completed
update_dag_state d =
    if d.status.state == failed
    then d
    else if all_completed d.status.task_statuses
        && eqb (length d.status.task_statuses) (length d.spec.tasks)
    then with_state d completed
    else d

-- The loops `for i := range dag.Status.TaskStatuses` with a `break`: the first entry of the name.
unfoldable pub update_first : String → (TaskStatus → TaskStatus) → List TaskStatus → List TaskStatus
update_first name f [] = []
update_first name f (ts ∷ rest) =
    if ts.name == name then f ts ∷ rest else ts ∷ update_first name f rest

abbrev pub update_task : String → (TaskStatus → TaskStatus) → Dag → Dag
update_task name f d = with_statuses d (update_first name f d.status.task_statuses)

abbrev pub set_error : Error → TaskStatus → TaskStatus
set_error e ts = record ts { state = failed; message = error_message e }

abbrev pub set_result : RunResult → TaskStatus → TaskStatus
set_result r ts = record ts { state = r.state; pod_name = r.pod_name; message = r.message }

abbrev pub new_entry : Dag → TaskSpec → TaskStatus
new_entry d task = record {
  name = task.name;
  state = pending;
  pod_name = d.name <> ("-" <> task.name);
  message = "";
}

-- How a reconciliation ends: without an update of the status, with one whose answer decides what
-- is returned, or with one before the given error is returned.
pub data Ending : Type 0 where
  leave : Result Bool → Ending
  save : Ending
  save_error : Error → Ending

-- What the reconciler keeps between two calls.
pub record World (K : Kube) : Type 0 where
  pub scheduler : DefaultScheduler
  pub cluster : K.Cluster

module _ {K : Kube} where
  abbrev pub world : Session K → World K
  world s = record { scheduler = s.scheduler; cluster = s.cluster }

  -- The first half of a round of the loop over the scheduled tasks, up to the call of the runner.
  abbrev pub announce : TaskSpec → Session K → Session K
  announce task s = record s {
    dag = with_statuses s.dag (s.dag.status.task_statuses ++ new_entry s.dag task ∷ []);
    scheduler = notify_task_started s.dag.name s.scheduler;
  }

  -- The branch `if err != nil` after the call, up to the update of the status.
  abbrev pub give_up : TaskSpec → Error → Session K → Session K
  give_up task e s =
      complete (record s { dag = with_state (update_task task.name (set_error e) s.dag) failed })

  unfoldable pub settle : TaskSpec → Outcome → Session K → Result (Unit {0}) × Session K
  settle task (no_executor e) s = (err e, give_up task e s)
  settle task (run_failed _ e) s = (err e, give_up task e s)
  settle task (started r) s = (ok tt, record s { dag = update_task task.name (set_result r) s.dag })

  unfoldable pub start_task : DefaultRunner K → TaskSpec → Session K → Result (Unit {0}) × Session K
  unfolding settle
  start_task r task s =
      let announced = announce task s in
      let (outcome, c) = run r announced.dag task announced.cluster in
      settle task outcome (record announced { cluster = c })

  unfoldable pub start_tasks :
      DefaultRunner K → List TaskSpec → Session K → Result (Unit {0}) × Session K
  start_tasks r [] s = (ok tt, s)
  start_tasks r (task ∷ tasks) s = and_then (start_task r task s) (start_tasks r tasks)

  unfoldable pub after_start : Result (Unit {0}) × Session K → Ending × Session K
  after_start (err e, s) = (save_error e, s)
  after_start (ok _, s) = (save, record s { dag = update_dag_state s.dag })

  unfoldable pub after_schedule :
      DefaultRunner K → Result (List TaskSpec) → Session K → Ending × Session K
  unfolding after_start
  after_schedule r (err e) s = (leave (err e), s)
  after_schedule r (ok tasks) s = after_start (start_tasks r tasks s)

  unfoldable pub after_sync : DefaultRunner K → Result (Unit {0}) × Session K → Ending × Session K
  unfolding after_schedule
  after_sync r (err e, s) = (leave (err e), s)
  after_sync r (ok _, s) =
      if is_finished s.dag.status.state
      then (leave (ok false), s)
      else after_schedule r (schedule s.scheduler s.dag) s

  -- All of `Reconcile` between the read of the Dag and the update of its status.
  unfoldable pub prepare : DefaultRunner K → Session K → Ending × Session K
  unfolding after_sync
  prepare r s = after_sync r (sync_status r s)

  -- `Status().Update` and the return. The update of a run that failed may fail too, which is only
  -- logged; otherwise the requeue is decided by the Dag that the update answers.
  unfoldable pub conclude : Ending × Session K → Result Bool × World K
  conclude (leave answer, s) = (answer, world s)
  conclude (save_error e, s) =
      let (_, c) = K.update_status s.dag s.cluster in (err e, world (record s { cluster = c }))
  conclude (save, s) =
      let (answer, c) = K.update_status s.dag s.cluster in
      (
        elim answer [ err e ↦ err e | ok d ↦ ok (d.status.state == running) ],
        world (record s { cluster = c }),
      )

  unfoldable pub reconcile_dag : DefaultRunner K → Result Dag → World K → Result Bool × World K
  unfolding conclude prepare
  reconcile_dag r (err e) w = (if is_not_found e then ok false else err e, w)
  reconcile_dag r (ok d) w =
      conclude (prepare r (record { dag = d; scheduler = w.scheduler; cluster = w.cluster }))

  -- `Reconcile` of a reconciler that is set up. The result is whether to requeue.
  unfoldable pub reconcile : DefaultRunner K → NamespacedName → World K → Result Bool × World K
  unfolding reconcile_dag
  reconcile r key w =
      let (answer, c) = K.get_dag key w.cluster in reconcile_dag r answer (record w { cluster = c })
