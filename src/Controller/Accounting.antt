-- ===== src/Controller/Accounting.antt =====
-- The scheduler's counter of a Dag against the Dag's entries.
mod Launching
pub use Launching.{Counted, size}
use nautikus.Prelude.{
  ℕ, suc, ◌+◌, ◌≤◌, ◌<◌, ◌≡◌, ◌≢◌, refl, sym, ◌∙◌, ap, ◌⊎◌, inl, inr, String, Bool, true, false,
  Option, none, some, List, [], ◌∷◌, ◌++◌, map, length, ℤ, pos, pos_part, arith, max_int, increment,
  ◌||◌, if◌then◌else◌, ◌==◌, string_eq,
}
use mathlib.Core.Path.{subst}
use mathlib.Core.List.{Nodup, Mem, Nodup-cons, mem-cons_self}
use nautikus.Prelude.Dict
use nautikus.Prelude.Dict.{Dict}
use nautikus.Errors.{Error, Result, ok, err}
use nautikus.Api.{
  TaskState, TaskState-discrete, task_state_eq, pending, running, failed, TaskSpec, TaskStatus, Dag,
}
use nautikus.Kube.{Kube}
use nautikus.Scheduler.{
  DefaultScheduler, active_tasks, notify_task_started, notify_task_completed, is_active,
}
use nautikus.Scheduler.Counters.{lookup-notify_task_completed}
use nautikus.Scheduler.Limit.{active, schedule-le-max_active_tasks}
use nautikus.Scheduler.Readiness.{schedule-eq-take}
use nautikus.Executor.Registry.{get}
use nautikus.Runner.{DefaultRunner, Outcome, run, run_with}
use nautikus.Controller.Sync.{Session, begin, sync_status, and_then, and_then-keeps}
use nautikus.Controller.Reconcile.{
  new_entry, announce, set_error, set_result, settle, start_task, start_tasks, after_start, prepare,
  update_dag_state, update_first, give_up,
}
use nautikus.Controller.Starts.{task_name, names}
use nautikus.Controller.Additions.{
  update_first_snoc, Succeeds, run_with-Succeeds, Adds, Absent, Absent-rest, start_task-Adds,
}
use nautikus.Controller.Rounds.{scheduled, prepare_cases}
use nautikus.Controller.Same.{update_dag_state-IsSame}
use nautikus.Controller.Config.{sync_status-config}
use nautikus.Controller.Tracked.{task_names}
use nautikus.Controller.Launches.{
  update_dag_state-statuses, begin-statuses, begin-name, sync_status-spec, scheduled_new,
}
use nautikus.Controller.Walks.{AnswersKnown, Walk, Write, stay, later, sync_status-Walk}
use nautikus.Controller.Known.{AllKnown, Tallies, Write-active}
use Launching.{active_tasks-completed, start_tasks-Counted}

module _ {K : Kube} where
  tallied :
      (r : DefaultRunner K) (u v : Session K)
      → (v.dag.name ≡ u.dag.name)
      → Tallies r u v
      → Counted u
      → Counted v
  tallied r u v name (inl (scheduler, same)) h =
      ap (λ (x : String × DefaultScheduler). active_tasks x.0 x.1.active_tasks_per_dag)
        (λ i. (name i, scheduler i))
      ∙ h
      ∙ ap pos (sym same)
  tallied r u v name (inr (scheduler, one)) h =
      ap (λ (x : String × DefaultScheduler). active_tasks x.0 x.1.active_tasks_per_dag)
        (λ i. (name i, scheduler i))
      ∙ active_tasks-completed u.dag.name u.scheduler (size v) (h ∙ ap pos (omega (arith, one)))

  Write-Counted :
      (r : DefaultRunner K) {u v : Session K}
      → Write r u v
      → AllKnown u.dag.status.task_statuses × Counted u
      → AllKnown v.dag.status.task_statuses × Counted v
  Write-Counted r {u} {v} w (known, h) =
      let (after, name, tallies) = Write-active r w known in (after, tallied r u v name tallies h)

  -- A pass of `syncStatus` keeps the count.
  Walk-Counted :
      (r : DefaultRunner K) (s : Session K) {v : Session K}
      → Walk r s v
      → AllKnown s.dag.status.task_statuses
      → Counted s
      → AllKnown v.dag.status.task_statuses × Counted v
  Walk-Counted r s stay known h = (known, h)
  Walk-Counted r s (later earlier w) known h = Write-Counted r w (Walk-Counted r s earlier known h)

  module _ (r : DefaultRunner K) where
    after_start-Counted :
        (x : Result (Unit {0}) × Session K) → Counted x.1 → Counted (after_start x).1
    unfolding after_start
    after_start-Counted (ok _, s) h =
        ap (λ n. active_tasks n s.scheduler.active_tasks_per_dag)
          (update_dag_state-IsSame s.dag).name
        ∙ h
        ∙ ap (λ l. pos (length (active l))) (sym (update_dag_state-statuses s.dag))
    after_start-Counted (err e, s) h = h

    pub sync_status-Counted :
        AnswersKnown r
        → (s : Session K) → AllKnown s.dag.status.task_statuses
        → Counted s
        → AllKnown (sync_status r s).1.dag.status.task_statuses × Counted (sync_status r s).1
    sync_status-Counted answers s known h =
        let statuses = begin-statuses s.dag in
        Walk-Counted r (record s { dag = begin s.dag }) (sync_status-Walk r answers s)
          (subst AllKnown (sym statuses) known)
          (ap (λ n. active_tasks n s.scheduler.active_tasks_per_dag) (begin-name s.dag)
            ∙ h
            ∙ ap (λ l. pos (length (active l))) (sym statuses))

    scheduled_room :
        (s : Session K)
        → pos_part s.scheduler.config.max_active_tasks ≤ max_int
        → scheduled s ≢ []
        → size s + length (scheduled s) ≤ max_int
    scheduled_room s range some_task = omega (
      arith,
      range,
      schedule-le-max_active_tasks s.scheduler s.dag (schedule-eq-take s.scheduler s.dag) some_task,
    )

    -- If the runner answers with known states only, `MaxActiveTasks` fits in an int, no two tasks of the
    -- specification share a name, the entries are pending, running, completed or failed, and the
    -- scheduler's counter of the Dag is the number of entries that are running or pending, then it is so
    -- too, on every branch, of the copy of the Dag that the reconciliation works on, when `prepare` ends.
    pub prepare-Counted :
        AnswersKnown r
        → (s : Session K) → pos_part s.scheduler.config.max_active_tasks ≤ max_int
        → Nodup (task_names s.dag)
        → AllKnown s.dag.status.task_statuses
        → Counted s
        → Counted (prepare r s).1
    prepare-Counted answers s range distinct known h =
        let s1 = (sync_status r s).1 in
        let (_, synced) = sync_status-Counted answers s known h in
        let distinct1 : Nodup (task_names s1.dag) =
          subst (λ sp. Nodup (map task_name sp.tasks)) (sym (sync_status-spec r s)) distinct in
        let (nodup, absent) = scheduled_new s1 distinct1 in
        prepare_cases r s (λ x. Counted x.1) (λ _ _. synced) (λ _ _. synced)
          (λ _ _. after_start-Counted (start_tasks r (scheduled s1) s1) (
            start_tasks-Counted r (scheduled s1) s1 nodup absent
              (scheduled_room s1 (
                subst (λ c. pos_part c.max_active_tasks ≤ max_int) (sym (sync_status-config r s))
                  range))
              synced))
