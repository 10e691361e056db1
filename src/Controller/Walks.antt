-- ===== src/Controller/Walks.antt =====
-- `syncStatus` as a sequence of writes, for runners that answer with one of the four states.
use nautikus.Prelude.{
  ℕ, ◌≡◌, refl, ◌⊎◌, inl, inr, String, Bool, true, false, ◌&&◌, ◌||◌, Bool-cases, some, List, [],
  ◌∷◌, ◌==◌, get_elem?, arith, if_ind, string_eq, if◌then◌else◌,
}
use nautikus.Prelude.Dict.{Dict}
use nautikus.Errors.{Result, ok, err, is_not_found}
use nautikus.Api.{
  TaskState, TaskState-discrete, unset, pending, running, completed, failed, other, TaskSpec,
  TaskStatus, Dag, task_state_eq, with_state,
}
use nautikus.Kube.{Kube, Pod, PodPhase, NamespacedName}
use nautikus.Runner.{DefaultRunner, get_status}
use nautikus.Controller.Sync.{
  Session, is_finished, and_then-keeps, complete, set_task_state, apply_phase, apply_pod,
  apply_state, apply_answer, sync_entry, sync_task, sync_loop, sync_status, begin,
}
use nautikus.Controller.Evolution.{sync_task_ind}

-- One of the four states of a task.
abbrev pub IsKnown : TaskState → Type 0
IsKnown unset = ⊥
IsKnown (other s) = ⊥
IsKnown _ = Unit

abbrev pub is_open : TaskState → Bool
is_open s = s == running || s == pending

module _ {K : Kube} where
  -- The runner answers with known states only.
  abbrev pub AnswersKnown : DefaultRunner K → Type 0
  AnswersKnown r =
      (d : Dag) (task : TaskSpec) (c : K.Cluster) (state : TaskState)
      → (get_status r d task c).0 ≡ ok state
      → IsKnown state

  -- The cluster after a call of the runner's `GetStatus` or of the client's `Get` of a pod.
  abbrev pub Looks : DefaultRunner K → K.Cluster → K.Cluster → Type 0
  Looks r c c' =
      ((d : Dag) × (task : TaskSpec) × (c' ≡ (get_status r d task c).1))
      ⊎ ((k : NamespacedName) × (c' ≡ (K.get_pod k c).1))

  -- What `syncStatus` does to a session: it looks at the cluster, it writes a state to an entry that is
  -- not finished, with a notification if the state is finished, or it fails the Dag.
  pub data Write (r : DefaultRunner K) : Session K → Session K → Type 0 where
    look :
        (s : Session K) (c : K.Cluster) → Looks r s.cluster c → Write r s (record s { cluster = c })
    finish :
        (s : Session K) (i : ℕ) (entry : TaskStatus) (state : TaskState)
        → get_elem? s.dag.status.task_statuses i ≡ some entry
        → is_finished entry.state ≡ false
        → is_finished state ≡ true
        → Write r s (complete (record s { dag = set_task_state i state s.dag }))
    note :
        (s : Session K) (i : ℕ) (entry : TaskStatus) (state : TaskState)
        → get_elem? s.dag.status.task_statuses i ≡ some entry
        → is_finished entry.state ≡ false
        → IsKnown state
        → (is_finished state && is_open entry.state) ≡ false
        → Write r s (record s { dag = set_task_state i state s.dag })
    fail : (s : Session K) → Write r s (record s { dag = with_state s.dag failed })

  pub data Walk (r : DefaultRunner K) (s : Session K) : Session K → Type 0 where
    stay : Walk r s s
    later : {u v : Session K} → Walk r s u → Write r u v → Walk r s v

  Walk-trans :
      (r : DefaultRunner K) (s u : Session K) {v : Session K} → Walk r s u → Walk r u v → Walk r s v
  Walk-trans r s u h stay = h
  Walk-trans r s u h (later k w) = later (Walk-trans r s u h k) w

  module _ (r : DefaultRunner K) (i : ℕ) (s : Session K) (entry : TaskStatus)
      (e : get_elem? s.dag.status.task_statuses i ≡ some entry)
      (h : is_finished entry.state ≡ false) where
    apply_phase-Walk : (phase : PodPhase) → Walk r s (apply_phase i phase s)
    unfolding apply_phase TaskState-discrete
    apply_phase-Walk PodPhase.succeeded = later stay (finish s i entry completed e h refl)
    apply_phase-Walk PodPhase.failed =
        later (later stay (finish s i entry failed e h refl)) (fail _)
    apply_phase-Walk _ = later stay (note s i entry running e h tt refl)

    apply_pod-Walk : (answer : Result Pod) → Walk r s (apply_pod i answer s).1
    unfolding apply_pod
    apply_pod-Walk (ok pod) = apply_phase-Walk pod.phase
    apply_pod-Walk (err x) =
        if_ind (λ (y : Result (Unit {0}) × Session K). Walk r s y.1) (is_not_found x) (ok tt, s)
          (err x, s) stay stay

    apply_state-Walk :
        (state : TaskState) → IsKnown state → Walk r s (apply_state i entry.state state s)
    unfolding apply_state
    apply_state-Walk state known =
        let changed = record s { dag = set_task_state i state s.dag } in
        let noted : Walk r s
            (if is_finished state && is_open entry.state then complete changed else changed) =
          elim (Bool-cases (is_finished state && is_open entry.state)) [
            | inl b ↦ rw b (later stay (finish s i entry state e h (ground (arith, b))))
            | inr b ↦ rw b (later stay (note s i entry state e h known b))
          ] in
        if_ind (Walk r s) (entry.state == state) _ _ stay
          (if_ind (Walk r s) (state == failed) _ _ (later noted (fail _)) noted)

  module _ (r : DefaultRunner K) (answers : AnswersKnown r) where
    apply_answer-Walk :
        (i : ℕ) (entry : TaskStatus) (s : Session K) (answer : Result TaskState)
        → get_elem? s.dag.status.task_statuses i ≡ some entry
        → is_finished entry.state ≡ false
        → ((state : TaskState) → answer ≡ ok state → IsKnown state)
        → Walk r s (apply_answer i entry answer s).1
    unfolding apply_answer
    apply_answer-Walk i entry s (ok state) e h known =
        apply_state-Walk r i s entry e h state (known state refl)
    apply_answer-Walk i entry s (err x) e h known =
        let (answer, c) =
          K.get_pod (record { namespace = s.dag.namespace; name = entry.pod_name }) s.cluster in
        Walk-trans r s (record s { cluster = c }) (later stay (look s c (inr (_, refl))))
          (apply_pod-Walk r i (record s { cluster = c }) entry e h answer)

    sync_entry-Walk :
        (task : TaskSpec) (i : ℕ) (entry : TaskStatus) (s : Session K)
        → get_elem? s.dag.status.task_statuses i ≡ some entry
        → Walk r s (sync_entry r task i entry s).1
    unfolding sync_entry
    sync_entry-Walk task i entry s e = elim (Bool-cases (is_finished entry.state)) [
      | inl h ↦ rw h stay
      | inr h ↦
          let (answer, c) = get_status r s.dag task s.cluster in
          rw h (
            Walk-trans r s (record s { cluster = c }) (later stay (look s c (inl (_, _, refl))))
              (apply_answer-Walk i entry (record s { cluster = c }) answer e h
                (answers s.dag task s.cluster)))
    ]

    sync_loop-Walk :
        (m : Dict String ℕ) (tasks : List TaskSpec) (s : Session K)
        → Walk r s (sync_loop r m tasks s).1
    unfolding sync_loop
    sync_loop-Walk m [] s = stay
    sync_loop-Walk m (task ∷ tasks) s =
        and_then-keeps (Walk r s) (sync_task r m task s) (sync_loop r m tasks)
          (sync_task_ind r (λ x. Walk r s x.1) m task s stay
            (λ i entry p q. sync_entry-Walk task i entry s q))
          (λ s' h. Walk-trans r s s' h (sync_loop-Walk m tasks s'))

    pub sync_status-Walk :
        (s : Session K) → Walk r (record s { dag = begin s.dag }) (sync_status r s).1
    unfolding sync_status
    sync_status-Walk s = sync_loop-Walk _ _ (record s { dag = begin s.dag })
