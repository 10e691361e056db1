-- ===== src/Controller/Counterless.antt =====
-- What a reconciliation does depends on the scheduler's configuration, not on its counters.
mod Passes
pub use Passes.{view}
use nautikus.Prelude.{
  ℕ, ◌≡◌, refl, sym, ap, String, Bool, true, false, ◌&&◌, ◌||◌, Option, none, some, List, [], ◌∷◌,
  ◌==◌, string_eq, get_elem?, if◌then◌else◌,
}
use mathlib.Core.Path.{subst}
use nautikus.Prelude.Dict
use nautikus.Prelude.Dict.{Dict}
use nautikus.Errors.{Error, Result, ok, err, err-injective, is_not_found}
use nautikus.Api.{
  TaskState, running, pending, completed, failed, TaskSpec, TaskStatus, Dag, task_state_eq,
  with_state,
}
use nautikus.Kube.{Kube, Pod, PodPhase}
use nautikus.Scheduler.{
  SchedulerConfig, DefaultScheduler, schedule, notify_task_started, notify_task_completed,
}
use nautikus.Runner.{DefaultRunner, Outcome, run, get_status}
use nautikus.Controller.Sync.{
  Session, is_finished, and_then, complete, set_task_state, apply_phase, apply_pod, apply_state,
  apply_answer, sync_entry, sync_task, sync_loop, sync_status, begin,
}
use nautikus.Controller.Reconcile.{
  Ending, announce, give_up, update_task, set_error, set_result, settle, start_task, start_tasks,
  after_start, after_schedule, after_sync, prepare, update_dag_state,
}
use Passes.{Alike, AlikeWith, Alike_ind, if-AlikeWith, and_then-Alike, sync_status-Alike}

schedule-config :
    (s t : DefaultScheduler) (d : Dag) → t.config ≡ s.config → schedule t d ≡ schedule s d
unfolding schedule
schedule-config s t d e = ap (λ c. schedule (record s { config = c }) d) e

module _ {K : Kube} where
  settle-Alike :
      (task : TaskSpec) (outcome : Outcome) (s s' : Session K)
      → Alike s s'
      → AlikeWith (settle task outcome s) (settle task outcome s')
  unfolding settle notify_task_completed
  settle-Alike task (Outcome.no_executor e) s s' h = (
    refl,
    λ j. (with_state (update_task task.name (set_error e) (h j).0) failed, (h j).1, (h j).2),
  )
  settle-Alike task (Outcome.run_failed x e) s s' h = (
    refl,
    λ j. (with_state (update_task task.name (set_error e) (h j).0) failed, (h j).1, (h j).2),
  )
  settle-Alike task (Outcome.started x) s s' h =
      (refl, λ j. (update_task task.name (set_result x) (h j).0, (h j).1, (h j).2))

  module _ (r : DefaultRunner K) where
    start_task-Alike :
        (task : TaskSpec) (s s' : Session K)
        → Alike s s'
        → AlikeWith (start_task r task s) (start_task r task s')
    unfolding start_task notify_task_started
    start_task-Alike task s s' h =
        Alike_ind s s' (λ u. AlikeWith (start_task r task s) (start_task r task u)) h
          (λ t e.
            let announced = announce task s in
            let (outcome, c) = run r announced.dag task announced.cluster in
            settle-Alike task outcome (record announced { cluster = c })
              (record (announce task (record s { scheduler = t })) { cluster = c })
              (λ j. (announced.dag, c, e j)))

    start_tasks-Alike :
        (tasks : List TaskSpec) (s s' : Session K)
        → Alike s s'
        → AlikeWith (start_tasks r tasks s) (start_tasks r tasks s')
    unfolding start_tasks
    start_tasks-Alike [] s s' h = (refl, h)
    start_tasks-Alike (task ∷ tasks) s s' h =
        and_then-Alike (start_task r task s) (start_task r task s') (start_tasks r tasks)
          (start_task-Alike task s s' h) (start_tasks-Alike tasks)

    after_start-Alike :
        (x y : Result (Unit {0}) × Session K)
        → AlikeWith x y
        → AlikeWith (after_start x) (after_start y)
    unfolding after_start
    after_start-Alike (ok _, s) (ok _, s') h =
        (refl, λ j. (update_dag_state (h.1 j).0, (h.1 j).1, (h.1 j).2))
    after_start-Alike (err e, s) (err e', s') h = (ap Ending.save_error (err-injective h.0), h.1)
    after_start-Alike (ok _, s) (err e, s') h = absurd cc
    after_start-Alike (err e, s) (ok _, s') h = absurd cc

    after_schedule-Alike :
        (answer : Result (List TaskSpec)) (s s' : Session K)
        → Alike s s'
        → AlikeWith (after_schedule r answer s) (after_schedule r answer s')
    unfolding after_schedule
    after_schedule-Alike (err e) s s' h = (refl, h)
    after_schedule-Alike (ok tasks) s s' h =
        after_start-Alike (start_tasks r tasks s) (start_tasks r tasks s')
          (start_tasks-Alike tasks s s' h)

    after_sync-Alike :
        (x y : Result (Unit {0}) × Session K)
        → AlikeWith x y
        → AlikeWith (after_sync r x) (after_sync r y)
    unfolding after_sync
    after_sync-Alike (ok _, s) (ok _, s') h =
        Alike_ind s s' (λ u. AlikeWith (after_sync r (ok tt, s)) (after_sync r (ok tt, u))) h.1
          (λ t e.
            let u = record s { scheduler = t } in
            let same : Alike s u = λ j. (s.dag, s.cluster, e j) in
            if-AlikeWith (is_finished s.dag.status.state) (Ending.leave (ok false), s)
              (after_schedule r (schedule s.scheduler s.dag) s) (Ending.leave (ok false), u)
              (after_schedule r (schedule t s.dag) u) (refl, same)
              (subst
                (λ answer.
                  AlikeWith (after_schedule r (schedule s.scheduler s.dag) s)
                    (after_schedule r answer u))
                (sym (schedule-config s.scheduler t s.dag e))
                (after_schedule-Alike (schedule s.scheduler s.dag) s u same)))
    after_sync-Alike (err e, s) (err e', s') h =
        (ap (λ x. Ending.leave (err x)) (err-injective h.0), h.1)
    after_sync-Alike (ok _, s) (err e, s') h = absurd cc
    after_sync-Alike (err e, s) (ok _, s') h = absurd cc

    -- Whatever the executors and the client answer, two reconciliations of the same Dag with the same
    -- cluster end alike, with the same Dag, the same cluster and the same configuration, if their
    -- schedulers have the same configuration, whatever the counters of the schedulers are.
    pub prepare-Alike :
        (s : Session K) (t : DefaultScheduler)
        → t.config ≡ s.scheduler.config
        → let x = prepare r s in
          let y = prepare r (record s { scheduler = t }) in (y.0 ≡ x.0) × (view y.1 ≡ view x.1)
    unfolding prepare
    prepare-Alike s t e =
        after_sync-Alike (sync_status r s) (sync_status r (record s { scheduler = t }))
          (sync_status-Alike r s t e)
