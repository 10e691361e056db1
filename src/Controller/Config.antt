-- ===== src/Controller/Config.antt =====
-- The configuration of the scheduler, which no step of `syncStatus` changes.
use nautikus.Prelude.{ℕ, ◌≡◌, refl, ◌∙◌, ◌&&◌, ◌||◌, List, [], ◌∷◌, ◌==◌, if_ind, String}
use nautikus.Prelude.Dict.{Dict}
use nautikus.Errors.{Result, ok, err, is_not_found}
use nautikus.Api.{TaskState, running, pending, failed, TaskSpec, TaskStatus, task_state_eq}
use nautikus.Kube.{Kube, Pod, PodPhase}
use nautikus.Scheduler.{
  SchedulerConfig, DefaultScheduler, notify_task_completed, notify_task_started,
}
use nautikus.Runner.{Outcome, no_executor, run_failed, started, run, DefaultRunner, get_status}
use nautikus.Controller.Sync.{
  Session, is_finished, and_then-keeps, complete, set_task_state, apply_phase, apply_pod,
  apply_state, apply_answer, sync_entry, sync_task, sync_loop, sync_status, begin,
}
use nautikus.Controller.Reconcile.{announce, settle, start_task, start_tasks, after_start, prepare}
use nautikus.Controller.Rounds.{scheduled, prepare_cases}
use nautikus.Controller.Evolution.{sync_task_ind}

pub notify_task_completed-config :
    (d : String) (s : DefaultScheduler) → (notify_task_completed d s).config ≡ s.config
unfolding notify_task_completed
notify_task_completed-config d s = refl

abbrev config : {K : Kube} → Session K → SchedulerConfig
config s = s.scheduler.config

module _ {K : Kube} where
  complete-config : (s : Session K) → config (complete s) ≡ config s
  complete-config s = notify_task_completed-config s.dag.name s.scheduler

  apply_phase-config :
      (i : ℕ) (phase : PodPhase) (s : Session K) → config (apply_phase i phase s) ≡ config s
  unfolding apply_phase
  apply_phase-config i PodPhase.succeeded s = complete-config s
  apply_phase-config i PodPhase.failed s = complete-config s
  apply_phase-config i _ s = refl

  apply_pod-config :
      (i : ℕ) (answer : Result Pod) (s : Session K) → config (apply_pod i answer s).1 ≡ config s
  unfolding apply_pod
  apply_pod-config i (ok pod) s = apply_phase-config i pod.phase s
  apply_pod-config i (err x) s =
      if_ind (λ (r : Result (Unit {0}) × Session K). config r.1 ≡ config s) (is_not_found x) _ _
        refl refl

  apply_state-config :
      (i : ℕ) (previous state : TaskState) (s : Session K)
      → config (apply_state i previous state s) ≡ config s
  unfolding apply_state
  apply_state-config i previous state s =
      let changed = record s { dag = set_task_state i state s.dag } in
      let noted =
        if_ind (λ (x : Session K). config x ≡ config s)
          (is_finished state && (previous == running || previous == pending)) (complete changed)
          changed (complete-config s) refl in
      if_ind (λ (x : Session K). config x ≡ config s) (previous == state) _ _ refl
        (if_ind (λ (x : Session K). config x ≡ config s) (state == failed) _ _ noted noted)

  apply_answer-config :
      (i : ℕ) (entry : TaskStatus) (answer : Result TaskState) (s : Session K)
      → config (apply_answer i entry answer s).1 ≡ config s
  unfolding apply_answer
  apply_answer-config i entry (ok state) s = apply_state-config i entry.state state s
  apply_answer-config i entry (err x) s =
      let (answer, c) =
        K.get_pod (record { namespace = s.dag.namespace; name = entry.pod_name }) s.cluster in
      apply_pod-config i answer (record s { cluster = c })

  module _ (r : DefaultRunner K) where
    sync_entry-config :
        (task : TaskSpec) (i : ℕ) (entry : TaskStatus) (s : Session K)
        → config (sync_entry r task i entry s).1 ≡ config s
    unfolding sync_entry
    sync_entry-config task i entry s =
        let (answer, c) = get_status r s.dag task s.cluster in
        if_ind (λ (x : Result (Unit {0}) × Session K). config x.1 ≡ config s)
          (is_finished entry.state) _ _ refl
          (apply_answer-config i entry answer (record s { cluster = c }))

    sync_loop-config :
        (m : Dict String ℕ) (tasks : List TaskSpec) (s : Session K)
        → config (sync_loop r m tasks s).1 ≡ config s
    unfolding sync_loop
    sync_loop-config m [] s = refl
    sync_loop-config m (task ∷ tasks) s =
        and_then-keeps (λ x. config x ≡ config s) (sync_task r m task s) (sync_loop r m tasks)
          (sync_task_ind r (λ x. config x.1 ≡ config s) m task s refl
            (λ i entry p q. sync_entry-config task i entry s))
          (λ s' h. sync_loop-config m tasks s' ∙ h)

    pub sync_status-config :
        (s : Session K) → (sync_status r s).1.scheduler.config ≡ s.scheduler.config
    unfolding sync_status
    sync_status-config s = sync_loop-config _ _ (record s { dag = begin s.dag })

    settle-config :
        (task : TaskSpec) (outcome : Outcome) (s : Session K)
        → config (settle task outcome s).1 ≡ config s
    unfolding settle
    settle-config task (no_executor e) s = complete-config s
    settle-config task (run_failed x e) s = complete-config s
    settle-config task (started x) s = refl

    start_task-config :
        (task : TaskSpec) (s : Session K) → config (start_task r task s).1 ≡ config s
    unfolding start_task notify_task_started
    start_task-config task s =
        let announced = announce task s in
        let (outcome, c) = run r announced.dag task announced.cluster in
        settle-config task outcome (record announced { cluster = c })

    start_tasks-config :
        (tasks : List TaskSpec) (s : Session K) → config (start_tasks r tasks s).1 ≡ config s
    unfolding start_tasks
    start_tasks-config [] s = refl
    start_tasks-config (task ∷ tasks) s =
        and_then-keeps (λ x. config x ≡ config s) (start_task r task s) (start_tasks r tasks)
          (start_task-config task s) (λ s' h. start_tasks-config tasks s' ∙ h)

    after_start-config : (x : Result (Unit {0}) × Session K) → config (after_start x).1 ≡ config x.1
    unfolding after_start
    after_start-config (ok _, s) = refl
    after_start-config (err e, s) = refl

    -- A reconciliation leaves the configuration of the scheduler as it was.
    pub prepare-config : (s : Session K) → (prepare r s).1.scheduler.config ≡ s.scheduler.config
    prepare-config s =
        let s1 = (sync_status r s).1 in
        let same = sync_status-config s in
        prepare_cases r s (λ x. config x.1 ≡ config s) (λ _ _. same) (λ _ _. same)
          (λ _ _.
            after_start-config (start_tasks r (scheduled s1) s1)
            ∙ start_tasks-config (scheduled s1) s1
            ∙ same)
