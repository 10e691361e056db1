-- ===== src/Controller/Evolution.antt =====
-- What `syncStatus` leaves of a Dag, for every client and every executor.
use nautikus.Prelude.{
  ℕ, zero, suc, ◌≡◌, refl, ◌∙◌, ◌⊎◌, inl, inr, String, false, ◌&&◌, ◌||◌, Option, none, some, List,
  [], ◌∷◌, ◌==◌, string_eq, get_elem?, modify, arith, if_ind, Bool-cases,
}
use nautikus.Prelude.Dict
use nautikus.Prelude.Dict.{Dict}
use nautikus.Errors.{Result, ok, err, is_not_found}
use nautikus.Api.{
  TaskState, pending, running, completed, failed, TaskSpec, TaskStatus, Dag, task_state_eq,
  with_state,
}
use nautikus.Kube.{Kube, Pod, PodPhase}
use nautikus.Runner.{DefaultRunner, get_status}
use nautikus.Controller.Sync.{
  Session, and_then-keeps, is_finished, set_task_state, apply_phase, apply_pod, apply_state,
  apply_answer, sync_entry, sync_task, sync_loop, begin, sync_status,
}

abbrev IsFinished : TaskState → Type 0
IsFinished s = (s ≡ completed) ⊎ (s ≡ failed)

-- An entry keeps its name, pod name and message, and its state too if that is completed or failed.
pub record Later (a b : TaskStatus) : Type 0 where
  pub name : b.name ≡ a.name
  pub pod_name : b.pod_name ≡ a.pod_name
  pub message : b.message ≡ a.message
  pub finished : IsFinished a.state → b.state ≡ a.state

-- Entry by entry.
abbrev pub AllLater : List TaskStatus → List TaskStatus → Type 0
AllLater [] [] = Unit
AllLater [] (_ ∷ _) = ⊥
AllLater (_ ∷ _) [] = ⊥
AllLater (a ∷ as') (b ∷ bs) = Later a b × AllLater as' bs

-- What `syncStatus` may do to a Dag.
pub record Evolves (d d' : Dag) : Type 0 where
  pub name : d'.name ≡ d.name
  pub namespace : d'.namespace ≡ d.namespace
  pub spec : d'.spec ≡ d.spec
  pub entries : AllLater d.status.task_statuses d'.status.task_statuses
  pub state : (d'.status.state ≡ d.status.state) ⊎ (d'.status.state ≡ failed)

Later-refl : (a : TaskStatus) → Later a a
Later-refl a = record { name = refl; pod_name = refl; message = refl; finished = λ _. refl }

Later-trans : {a b c : TaskStatus} → Later a b → Later b c → Later a c
Later-trans h k = record {
  name = k.name ∙ h.name;
  pod_name = k.pod_name ∙ h.pod_name;
  message = k.message ∙ h.message;
  finished = λ f. ground (arith, h.finished f, k.finished);
}

pub AllLater-refl : (as' : List TaskStatus) → AllLater as' as'
AllLater-refl [] = tt
AllLater-refl (a ∷ as') = (Later-refl a, AllLater-refl as')

pub AllLater-trans :
    (as' bs cs : List TaskStatus) → AllLater as' bs → AllLater bs cs → AllLater as' cs
AllLater-trans [] [] [] h k = tt
AllLater-trans (a ∷ as') (b ∷ bs) (c ∷ cs) h k =
    (Later-trans h.0 k.0, AllLater-trans as' bs cs h.1 k.1)
AllLater-trans [] [] (_ ∷ _) h k = k
AllLater-trans [] (_ ∷ _) cs h k = absurd h
AllLater-trans (_ ∷ _) [] cs h k = absurd h
AllLater-trans (_ ∷ _) (_ ∷ _) [] h k = absurd k

pub Evolves-refl : (d : Dag) → Evolves d d
Evolves-refl d = record {
  name = refl;
  namespace = refl;
  spec = refl;
  entries = AllLater-refl d.status.task_statuses;
  state = inl refl;
}

Evolves-trans : {a b c : Dag} → Evolves a b → Evolves b c → Evolves a c
Evolves-trans {a} {b} {c} h k = record {
  name = k.name ∙ h.name;
  namespace = k.namespace ∙ h.namespace;
  spec = k.spec ∙ h.spec;
  entries =
      AllLater-trans a.status.task_statuses b.status.task_statuses c.status.task_statuses h.entries
        k.entries;
  state = ground (arith, h.state, k.state);
}

-- Writing the state of an entry that is not finished.
AllLater-modify :
    (i : ℕ) (state : TaskState) (sts : List TaskStatus) (entry : TaskStatus)
    → get_elem? sts i ≡ some entry
    → is_finished entry.state ≡ false
    → AllLater sts (modify sts i (λ ts. record ts { state = state }))
AllLater-modify i state [] entry e h = tt
AllLater-modify zero state (ts ∷ sts) entry e h = (
  record { name = refl; pod_name = refl; message = refl; finished = λ f. ground arith },
  AllLater-refl sts,
)
AllLater-modify (suc i) state (ts ∷ sts) entry e h =
    (Later-refl ts, AllLater-modify i state sts entry e h)

module _ (i : ℕ) (d : Dag) (entry : TaskStatus)
    (e : get_elem? d.status.task_statuses i ≡ some entry)
    (h : is_finished entry.state ≡ false) where
  Evolves-set : (state : TaskState) → Evolves d (set_task_state i state d)
  Evolves-set state = record {
    name = refl;
    namespace = refl;
    spec = refl;
    entries = AllLater-modify i state d.status.task_statuses entry e h;
    state = inl refl;
  }

  Evolves-set_failed :
      (state : TaskState) → Evolves d (with_state (set_task_state i state d) failed)
  Evolves-set_failed state = record {
    name = refl;
    namespace = refl;
    spec = refl;
    entries = AllLater-modify i state d.status.task_statuses entry e h;
    state = inr refl;
  }

module _ {K : Kube} (i : ℕ) (s : Session K) (entry : TaskStatus)
    (e : get_elem? s.dag.status.task_statuses i ≡ some entry)
    (h : is_finished entry.state ≡ false) where
  apply_phase-Evolves : (phase : PodPhase) → Evolves s.dag (apply_phase i phase s).dag
  unfolding apply_phase
  apply_phase-Evolves PodPhase.succeeded = Evolves-set i s.dag entry e h completed
  apply_phase-Evolves PodPhase.failed = Evolves-set_failed i s.dag entry e h failed
  apply_phase-Evolves _ = Evolves-set i s.dag entry e h running

  apply_pod-Evolves : (answer : Result Pod) → Evolves s.dag (apply_pod i answer s).1.dag
  unfolding apply_pod
  apply_pod-Evolves (ok pod) = apply_phase-Evolves pod.phase
  apply_pod-Evolves (err x) =
      if_ind (λ (r : Result (Unit {0}) × Session K). Evolves s.dag r.1.dag) (is_not_found x)
        (ok tt, s) (err x, s) (Evolves-refl s.dag) (Evolves-refl s.dag)

  apply_state-Evolves :
      (previous state : TaskState) → Evolves s.dag (apply_state i previous state s).dag
  unfolding apply_state
  apply_state-Evolves previous state =
      let written : Evolves s.dag (set_task_state i state s.dag)
          × Evolves s.dag (with_state (set_task_state i state s.dag) failed) =
        (Evolves-set i s.dag entry e h state, Evolves-set_failed i s.dag entry e h state) in
      let noted =
        if_ind (λ (x : Session K). Evolves s.dag x.dag × Evolves s.dag (with_state x.dag failed))
          (is_finished state && (previous == running || previous == pending)) _ _ written written in
      if_ind (λ (x : Session K). Evolves s.dag x.dag) (previous == state) _ _ (Evolves-refl s.dag)
        (if_ind (λ (x : Session K). Evolves s.dag x.dag) (state == failed) _ _ noted.1 noted.0)

module _ {K : Kube} (r : DefaultRunner K) where
  apply_answer-Evolves :
      (i : ℕ) (entry : TaskStatus) (answer : Result TaskState) (s : Session K)
      → get_elem? s.dag.status.task_statuses i ≡ some entry
      → is_finished entry.state ≡ false
      → Evolves s.dag (apply_answer i entry answer s).1.dag
  unfolding apply_answer
  apply_answer-Evolves i entry (ok state) s e h =
      apply_state-Evolves i s entry e h entry.state state
  apply_answer-Evolves i entry (err x) s e h =
      let (answer, c) =
        K.get_pod (record { namespace = s.dag.namespace; name = entry.pod_name }) s.cluster in
      apply_pod-Evolves i (record s { cluster = c }) entry e h answer

  sync_entry-Evolves :
      (task : TaskSpec) (i : ℕ) (entry : TaskStatus) (s : Session K)
      → get_elem? s.dag.status.task_statuses i ≡ some entry
      → Evolves s.dag (sync_entry r task i entry s).1.dag
  unfolding sync_entry
  sync_entry-Evolves task i entry s e = elim (Bool-cases (is_finished entry.state)) [
    | inl h ↦ rw h (Evolves-refl s.dag)
    | inr h ↦
        let (answer, c) = get_status r s.dag task s.cluster in
        rw h (apply_answer-Evolves i entry answer (record s { cluster = c }) e h)
  ]

  -- One round of the loop: either nothing, or what is done with the entry that the map points to.
  pub sync_task_ind :
      (P : Result (Unit {0}) × Session K → Type 0) (m : Dict String ℕ) (task : TaskSpec)
      (s : Session K)
      → P (ok tt, s)
      → ((i : ℕ) (entry : TaskStatus)
          → Dict.lookup task.name m ≡ some i
          → get_elem? s.dag.status.task_statuses i ≡ some entry
          → P (sync_entry r task i entry s))
      → P (sync_task r m task s)
  unfolding sync_task
  sync_task_ind P m task s same entry_case = go (Dict.lookup task.name m) refl
    where
      at :
          (i : ℕ) (o : Option TaskStatus)
          → Dict.lookup task.name m ≡ some i
          → get_elem? s.dag.status.task_statuses i ≡ o
          → P (elim o [ none ↦ (ok tt, s) | some entry ↦ sync_entry r task i entry s ])
      at i none p q = same
      at i (some entry) p q = entry_case i entry p q

      go :
          (o : Option ℕ)
          → Dict.lookup task.name m ≡ o
          → P (elim o [
            | none ↦ (ok tt, s)
            | some i ↦ elim (get_elem? s.dag.status.task_statuses i) [
              | none ↦ (ok tt, s)
              | some entry ↦ sync_entry r task i entry s
            ]
          ])
      go none p = same
      go (some i) p = at i (get_elem? s.dag.status.task_statuses i) p refl

  pub sync_task-Evolves :
      (m : Dict String ℕ) (task : TaskSpec) (s : Session K)
      → Evolves s.dag (sync_task r m task s).1.dag
  sync_task-Evolves m task s =
      sync_task_ind (λ x. Evolves s.dag x.1.dag) m task s (Evolves-refl s.dag)
        (λ i entry p q. sync_entry-Evolves task i entry s q)

  sync_loop-Evolves :
      (m : Dict String ℕ) (tasks : List TaskSpec) (s : Session K)
      → Evolves s.dag (sync_loop r m tasks s).1.dag
  unfolding sync_loop
  sync_loop-Evolves m [] s = Evolves-refl s.dag
  sync_loop-Evolves m (task ∷ tasks) s =
      and_then-keeps (λ x. Evolves s.dag x.dag) (sync_task r m task s) (sync_loop r m tasks)
        (sync_task-Evolves m task s) (λ s' h. Evolves-trans h (sync_loop-Evolves m tasks s'))

  -- Whatever the executors and the client answer, `syncStatus` keeps the Dag's name and
  -- specification and the entries with their names, pod names and messages, and the state of every
  -- entry that is completed or failed. Apart from setting the empty state to running, it changes
  -- the Dag's state only to failed.
  pub sync_status-Evolves : (s : Session K) → Evolves (begin s.dag) (sync_status r s).1.dag
  unfolding sync_status
  sync_status-Evolves s = sync_loop-Evolves _ _ (record s { dag = begin s.dag })
