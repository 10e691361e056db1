-- ===== src/Controller/Counterless/Passes.antt =====
-- `syncStatus` of two sessions that differ in the counters of the scheduler only.
use nautikus.Prelude.{
  ℕ, ◌≡◌, refl, sym, String, Bool, true, false, ◌&&◌, ◌||◌, Option, none, some, List, [], ◌∷◌, ◌==◌,
  string_eq, get_elem?, if◌then◌else◌,
}
use mathlib.Core.Path.{subst}
use nautikus.Prelude.Dict
use nautikus.Prelude.Dict.{Dict}
use nautikus.Errors.{Result, ok, err, is_not_found}
use nautikus.Api.{
  TaskState, running, pending, completed, failed, TaskSpec, TaskStatus, Dag, task_state_eq,
  with_state,
}
use nautikus.Kube.{Kube, Pod, PodPhase}
use nautikus.Scheduler.{SchedulerConfig, DefaultScheduler, notify_task_completed}
use nautikus.Runner.{DefaultRunner, get_status}
use nautikus.Controller.Sync.{
  Session, is_finished, and_then, set_task_state, apply_phase, apply_pod, apply_state, apply_answer,
  sync_entry, sync_task, sync_loop, sync_status, begin,
}

module _ {K : Kube} where
  -- All of a session but the counters.
  abbrev pub view : Session K → Dag × K.Cluster × SchedulerConfig
  view s = (s.dag, s.cluster, s.scheduler.config)

  abbrev pub Alike : Session K → Session K → Type 0
  Alike s s' = view s' ≡ view s

  -- The same answer too.
  abbrev pub AlikeWith : {A : Type 0} → A × Session K → A × Session K → Type 0
  AlikeWith x y = (y.0 ≡ x.0) × Alike x.1 y.1

  -- Sessions that are alike differ in the scheduler only.
  pub Alike_ind :
      (s s' : Session K) (P : Session K → Type 0)
      → Alike s s'
      → ((t : DefaultScheduler) → t.config ≡ s.scheduler.config → P (record s { scheduler = t }))
      → P s'
  Alike_ind s s' P h base =
      subst P (λ j. record { dag = (sym h j).0; scheduler = s'.scheduler; cluster = (sym h j).1 })
        (base s'.scheduler (λ j. (h j).2))

  if-Alike :
      (b : Bool) (x y x' y' : Session K)
      → Alike x x'
      → Alike y y'
      → Alike (if b then x else y) (if b then x' else y')
  if-Alike true x y x' y' h k = h
  if-Alike false x y x' y' h k = k

  pub if-AlikeWith :
      {A : Type 0} (b : Bool) (x y x' y' : A × Session K)
      → AlikeWith x x'
      → AlikeWith y y'
      → AlikeWith (if b then x else y) (if b then x' else y')
  if-AlikeWith true x y x' y' h k = h
  if-AlikeWith false x y x' y' h k = k

  pub and_then-Alike :
      (x y : Result (Unit {0}) × Session K) (f : Session K → Result (Unit {0}) × Session K)
      → AlikeWith x y
      → ((s s' : Session K) → Alike s s' → AlikeWith (f s) (f s'))
      → AlikeWith (and_then x f) (and_then y f)
  and_then-Alike (ok _, s) (ok _, s') f h next = next s s' h.1
  and_then-Alike (err e, s) (err e', s') f h next = h
  and_then-Alike (ok _, s) (err e, s') f h next = absurd cc
  and_then-Alike (err e, s) (ok _, s') f h next = absurd cc

  apply_phase-Alike :
      (i : ℕ) (phase : PodPhase) (s s' : Session K)
      → Alike s s'
      → Alike (apply_phase i phase s) (apply_phase i phase s')
  unfolding apply_phase notify_task_completed
  apply_phase-Alike i PodPhase.succeeded s s' h =
      λ j. (set_task_state i completed (h j).0, (h j).1, (h j).2)
  apply_phase-Alike i PodPhase.failed s s' h =
      λ j. (with_state (set_task_state i failed (h j).0) failed, (h j).1, (h j).2)
  apply_phase-Alike i _ s s' h = λ j. (set_task_state i running (h j).0, (h j).1, (h j).2)

  apply_pod-Alike :
      (i : ℕ) (answer : Result Pod) (s s' : Session K)
      → Alike s s'
      → AlikeWith (apply_pod i answer s) (apply_pod i answer s')
  unfolding apply_pod
  apply_pod-Alike i (ok pod) s s' h = (refl, apply_phase-Alike i pod.phase s s' h)
  apply_pod-Alike i (err e) s s' h =
      if-AlikeWith (is_not_found e) (ok tt, s) (err e, s) (ok tt, s') (err e, s') (refl, h)
        (refl, h)

  apply_state-Alike :
      (i : ℕ) (previous state : TaskState) (s s' : Session K)
      → Alike s s'
      → Alike (apply_state i previous state s) (apply_state i previous state s')
  unfolding apply_state notify_task_completed
  apply_state-Alike i previous state s s' h =
      let noted =
        if-Alike (is_finished state && (previous == running || previous == pending)) _ _ _ _
          (λ j. (set_task_state i state (h j).0, (h j).1, (h j).2))
          (λ j. (set_task_state i state (h j).0, (h j).1, (h j).2)) in
      if-Alike (previous == state) s _ s' _ h (
        if-Alike (state == failed) _ _ _ _
          (λ j. (with_state (noted j).0 failed, (noted j).1, (noted j).2)) noted)

  apply_answer-Alike :
      (i : ℕ) (entry : TaskStatus) (answer : Result TaskState) (s s' : Session K)
      → Alike s s'
      → AlikeWith (apply_answer i entry answer s) (apply_answer i entry answer s')
  unfolding apply_answer
  apply_answer-Alike i entry (ok state) s s' h =
      (refl, apply_state-Alike i entry.state state s s' h)
  apply_answer-Alike i entry (err x) s s' h =
      Alike_ind s s'
        (λ u. AlikeWith (apply_answer i entry (err x) s) (apply_answer i entry (err x) u)) h
        (λ t e.
          let (answer, c) =
            K.get_pod (record { namespace = s.dag.namespace; name = entry.pod_name }) s.cluster in
          apply_pod-Alike i answer (record s { cluster = c })
            (record { dag = s.dag; scheduler = t; cluster = c }) (λ j. (s.dag, c, e j)))

  module _ (r : DefaultRunner K) where
    sync_entry-Alike :
        (task : TaskSpec) (i : ℕ) (entry : TaskStatus) (s s' : Session K)
        → Alike s s'
        → AlikeWith (sync_entry r task i entry s) (sync_entry r task i entry s')
    unfolding sync_entry
    sync_entry-Alike task i entry s s' h =
        Alike_ind s s' (λ u. AlikeWith (sync_entry r task i entry s) (sync_entry r task i entry u))
          h
          (λ t e.
            let (answer, c) = get_status r s.dag task s.cluster in
            let s1 = record s { cluster = c } in
            let s2 : Session K = record { dag = s.dag; scheduler = t; cluster = c } in
            if-AlikeWith (is_finished entry.state) (ok tt, s) (apply_answer i entry answer s1)
              (ok tt, record s { scheduler = t }) (apply_answer i entry answer s2)
              (refl, λ j. (s.dag, s.cluster, e j))
              (apply_answer-Alike i entry answer s1 s2 (λ j. (s.dag, c, e j))))

    sync_task-Alike :
        (m : Dict String ℕ) (task : TaskSpec) (s s' : Session K)
        → Alike s s'
        → AlikeWith (sync_task r m task s) (sync_task r m task s')
    unfolding sync_task
    sync_task-Alike m task s s' h =
        Alike_ind s s' (λ u. AlikeWith (sync_task r m task s) (sync_task r m task u)) h
          (λ t e. go t e (Dict.lookup task.name m))
      where
        at :
            (t : DefaultScheduler) (i : ℕ) (o : Option TaskStatus)
            → t.config ≡ s.scheduler.config
            → AlikeWith {A = Result (Unit {0})}
                (elim o [ none ↦ (ok tt, s) | some entry ↦ sync_entry r task i entry s ])
                (elim o [
                  | none ↦ (ok tt, record s { scheduler = t })
                  | some entry ↦ sync_entry r task i entry (record s { scheduler = t })
                ])
        at t i none e = (refl, λ j. (s.dag, s.cluster, e j))
        at t i (some entry) e =
            sync_entry-Alike task i entry s (record s { scheduler = t })
              (λ j. (s.dag, s.cluster, e j))

        go :
            (t : DefaultScheduler)
            → t.config ≡ s.scheduler.config
            → (o : Option ℕ)
            → AlikeWith {A = Result (Unit {0})}
                (elim o [
                  | none ↦ (ok tt, s)
                  | some i ↦ elim (get_elem? s.dag.status.task_statuses i) [
                    | none ↦ (ok tt, s)
                    | some entry ↦ sync_entry r task i entry s
                  ]
                ])
                (elim o [
                  | none ↦ (ok tt, record s { scheduler = t })
                  | some i ↦ elim (get_elem? s.dag.status.task_statuses i) [
                    | none ↦ (ok tt, record s { scheduler = t })
                    | some entry ↦ sync_entry r task i entry (record s { scheduler = t })
                  ]
                ])
        go t e none = (refl, λ j. (s.dag, s.cluster, e j))
        go t e (some i) = at t i (get_elem? s.dag.status.task_statuses i) e

    sync_loop-Alike :
        (m : Dict String ℕ) (tasks : List TaskSpec) (s s' : Session K)
        → Alike s s'
        → AlikeWith (sync_loop r m tasks s) (sync_loop r m tasks s')
    unfolding sync_loop
    sync_loop-Alike m [] s s' h = (refl, h)
    sync_loop-Alike m (task ∷ tasks) s s' h =
        and_then-Alike (sync_task r m task s) (sync_task r m task s') (sync_loop r m tasks)
          (sync_task-Alike m task s s' h) (sync_loop-Alike m tasks)

    pub sync_status-Alike :
        (s : Session K) (t : DefaultScheduler)
        → t.config ≡ s.scheduler.config
        → AlikeWith (sync_status r s) (sync_status r (record s { scheduler = t }))
    unfolding sync_status
    sync_status-Alike s t e =
        sync_loop-Alike _ _ (record s { dag = begin s.dag })
          (record s { dag = begin s.dag; scheduler = t }) (λ j. (begin s.dag, s.cluster, e j))
