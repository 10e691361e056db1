-- ===== src/Controller/Accounting/Launching.antt =====
-- Starting tasks keeps the scheduler's counter of the Dag.
use nautikus.Prelude.{
  ℕ, ◌+◌, ◌≤◌, ◌<◌, ◌≡◌, ◌≢◌, refl, ◌∙◌, ap, String, List, [], ◌∷◌, ◌++◌, map, length, pos, arith,
  max_int, increment, ◌||◌, if◌then◌else◌, ◌==◌, string_eq,
}
use mathlib.Core.List.{Nodup, Mem, Nodup-cons, mem-cons_self}
use nautikus.Prelude.Dict
use nautikus.Prelude.Dict.{Dict}
use nautikus.Errors.{Error, Result, ok, err}
use nautikus.Api.{TaskState-discrete, task_state_eq, pending, running, TaskSpec, TaskStatus, Dag}
use nautikus.Kube.{Kube}
use nautikus.Scheduler.{
  DefaultScheduler, active_tasks, notify_task_started, notify_task_completed, is_active,
}
use nautikus.Scheduler.Counters.{lookup-notify_task_completed}
use nautikus.Scheduler.Limit.{active}
use nautikus.Executor.Registry.{get}
use nautikus.Runner.{DefaultRunner, Outcome, run}
use nautikus.Controller.Sync.{Session, and_then}
use nautikus.Controller.Reconcile.{
  new_entry, announce, set_error, set_result, settle, start_task, start_tasks, update_first,
  give_up,
}
use nautikus.Controller.Starts.{task_name, names}
use nautikus.Controller.Additions.{
  update_first_snoc, Succeeds, run_with-Succeeds, Absent, Absent-rest, start_task-Adds,
}

-- The counter after a start and after a completion.
active_tasks-started :
    (d : String) (s : DefaultScheduler) (n : ℕ)
    → active_tasks d s.active_tasks_per_dag ≡ pos n
    → n < max_int
    → active_tasks d (notify_task_started d s).active_tasks_per_dag ≡ pos (n + 1)
unfolding notify_task_started increment
active_tasks-started d s n e room =
    let m = s.active_tasks_per_dag in
    ground (arith, Dict.lookup-insert d d (increment (active_tasks d m)) m, e)

pub active_tasks-completed :
    (d : String) (s : DefaultScheduler) (n : ℕ)
    → active_tasks d s.active_tasks_per_dag ≡ pos (n + 1)
    → active_tasks d (notify_task_completed d s).active_tasks_per_dag ≡ pos n
active_tasks-completed d s n e = ground (arith, lookup-notify_task_completed d d s, e)

active-snoc :
    (sts : List TaskStatus) (e : TaskStatus)
    → length (active (sts ++ e ∷ [])) ≡ length (active sts) + (if is_active e then 1 else 0)
active-snoc [] e = ground arith
active-snoc (ts ∷ sts) e = ground (arith, active-snoc sts e)

-- The active entries once the new entry is rewritten.
rewritten_lem :
    (task : TaskSpec) (f : TaskStatus → TaskStatus) (sts : List TaskStatus) (d : Dag)
    → ¬ Mem task.name (names d)
    → sts ≡ d.status.task_statuses ++ new_entry d task ∷ []
    → length (active (update_first task.name f sts))
      ≡ length (active d.status.task_statuses) + (if is_active (f (new_entry d task)) then 1 else 0)
rewritten_lem task f sts d absent now =
    ap (λ l. length (active (update_first task.name f l))) now
    ∙ ap (λ l. length (active l))
        (update_first_snoc task.name f (new_entry d task) d.status.task_statuses absent refl)
    ∙ active-snoc d.status.task_statuses (f (new_entry d task))

module _ {K : Kube} where
  abbrev pub size : Session K → ℕ
  size s = length (active s.dag.status.task_statuses)

  -- The counter of the Dag is the number of its entries that are running or pending.
  abbrev pub Counted : Session K → Type 0
  Counted s = active_tasks s.dag.name s.scheduler.active_tasks_per_dag ≡ pos (size s)

  -- `d` is the Dag before the entry of the task was appended.
  module _ (task : TaskSpec) (s : Session K) (d : Dag) (absent : ¬ Mem task.name (names d))
      (now : s.dag.status.task_statuses ≡ d.status.task_statuses ++ new_entry d task ∷ [])
      (count : active_tasks s.dag.name s.scheduler.active_tasks_per_dag
        ≡ pos (length (active d.status.task_statuses) + 1)) where
    abbrev Settled : Session K → Type 0
    Settled s' = Counted s' × (size s' ≤ length (active d.status.task_statuses) + 1)

    gave_up : (e : Error) → Settled (give_up task e s)
    unfolding TaskState-discrete
    gave_up e =
        let n = length (active d.status.task_statuses) in
        let same = rewritten_lem task (set_error e) s.dag.status.task_statuses d absent now in
        (
          active_tasks-completed s.dag.name s.scheduler n count ∙ ap pos (omega (arith, same)),
          omega (arith, same),
        )

    settle-Counted :
        (outcome : Outcome) → Succeeds d task outcome → Settled (settle task outcome s).1
    unfolding settle TaskState-discrete
    settle-Counted (Outcome.no_executor e) h = gave_up e
    settle-Counted (Outcome.run_failed x e) h = gave_up e
    settle-Counted (Outcome.started x) h =
        let same =
          rewritten_lem task (set_result x) s.dag.status.task_statuses d absent now
          ∙ ap
              (λ st.
                length (active d.status.task_statuses)
                + (if (st == running || st == pending) then 1 else 0))
              h.0 in
        (count ∙ ap pos (omega (arith, same)), omega (arith, same))

  and_then_lem :
      (x : Result (Unit {0}) × Session K) (f : Session K → Result (Unit {0}) × Session K)
      → Counted x.1
      → Counted (f x.1).1
      → Counted (and_then x f).1
  and_then_lem (ok _, s) f h next = next
  and_then_lem (err e, s) f h next = h

  module _ (r : DefaultRunner K) where
    -- Starting a task that has no entry keeps the count.
    start_task-Counted :
        (task : TaskSpec) (s : Session K)
        → ¬ Mem task.name (names s.dag)
        → size s < max_int
        → Counted s
        → Counted (start_task r task s).1 × (size (start_task r task s).1 ≤ size s + 1)
    unfolding start_task run
    start_task-Counted task s absent room h =
        let announced = announce task s in
        let (outcome, c) = run r announced.dag task announced.cluster in
        settle-Counted task (record announced { cluster = c }) s.dag absent refl
          (active_tasks-started s.dag.name s.scheduler (size s) h room) outcome
          (run_with-Succeeds (get task.type r.executor_registry) announced.dag task
            announced.cluster)

    pub start_tasks-Counted :
        (tasks : List TaskSpec) (s : Session K)
        → Nodup (map task_name tasks)
        → Absent tasks s
        → (tasks ≢ [] → size s + length tasks ≤ max_int)
        → Counted s
        → Counted (start_tasks r tasks s).1
    unfolding start_tasks
    start_tasks-Counted [] s distinct absent room h = h
    start_tasks-Counted (task ∷ tasks) s distinct absent room h =
        let fits = room (λ impossible. cc) in
        let (now, size_now) =
          start_task-Counted task s (absent task.name mem-cons_self) (omega (arith, fits)) h in
        let (_, distinct') = Nodup-cons.0 distinct in
        let added = start_task-Adds r task s (absent task.name mem-cons_self) in
        and_then_lem (start_task r task s) (start_tasks r tasks) now (
          start_tasks-Counted tasks (start_task r task s).1 distinct'
            (Absent-rest task tasks s (start_task r task s).1 distinct absent added)
            (λ _. omega (arith, fits, size_now)) now)
