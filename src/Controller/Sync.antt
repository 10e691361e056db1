-- ===== src/Controller/Sync.antt =====
-- `syncStatus` of internal/controller/dag_controller.go.
use nautikus.Prelude.{
  ℕ, ◌+◌, String, Bool, ◌&&◌, ◌||◌, none, some, List, [], ◌∷◌, ◌==◌, string_eq, get_elem?, modify,
  if◌then◌else◌,
}
use nautikus.Prelude.Dict
use nautikus.Prelude.Dict.{Dict}
use nautikus.Errors.{Result, ok, err, is_not_found}
use nautikus.Api.{
  TaskState, unset, pending, running, completed, failed, TaskSpec, TaskStatus, Dag, task_state_eq,
  with_statuses, with_state,
}
use nautikus.Kube.{Kube, Pod, PodPhase}
use nautikus.Scheduler.{DefaultScheduler, notify_task_completed}
use nautikus.Runner.{DefaultRunner, get_status}

-- What a reconciliation works on: its copy of the Dag, the scheduler that all reconciliations
-- share, and the cluster.
pub record Session (K : Kube) : Type 0 where
  pub dag : Dag
  pub scheduler : DefaultScheduler
  pub cluster : K.Cluster

abbrev pub is_finished : TaskState → Bool
is_finished s = s == completed || s == failed

-- `statusMap`, from names to pointers into the slice of statuses, which no step of the function
-- moves: a pointer is the entry's index. Of two entries for one name the later one counts.
unfoldable pub index_map : ℕ → Dict String ℕ → List TaskStatus → Dict String ℕ
index_map i m [] = m
index_map i m (ts ∷ rest) = index_map (i + 1) (Dict.insert ts.name i m) rest

-- `currentStatus.State = state`
abbrev pub set_task_state : ℕ → TaskState → Dag → Dag
set_task_state i state d =
    with_statuses d (modify d.status.task_statuses i (λ ts. record ts { state = state }))

-- `if dag.Status.State == "" { dag.Status.State = StateRunning }`
abbrev pub begin : Dag → Dag
begin d = if d.status.state == unset then with_state d running else d

module _ {K : Kube} where
  -- What follows a step that may return with an error. What the step wrote stays written.
  abbrev pub and_then :
      Result (Unit {0}) × Session K
      → (Session K → Result (Unit {0}) × Session K)
      → Result (Unit {0}) × Session K
  and_then (ok _, s) f = f s
  and_then (err e, s) f = (err e, s)

  pub and_then-keeps :
      (P : Session K → Type 0) (x : Result (Unit {0}) × Session K)
      (f : Session K → Result (Unit {0}) × Session K)
      → P x.1
      → ((s : Session K) → P s → P (f s).1)
      → P (and_then x f).1
  and_then-keeps P (ok _, s) f h keep = keep s h
  and_then-keeps P (err e, s) f h keep = h

  abbrev pub complete : Session K → Session K
  complete s = record s { scheduler = notify_task_completed s.dag.name s.scheduler }

  -- The fallback's three branches on the phase of the pod.
  unfoldable pub apply_phase : ℕ → PodPhase → Session K → Session K
  apply_phase i PodPhase.succeeded s =
      complete (record s { dag = set_task_state i completed s.dag })
  apply_phase i PodPhase.failed s =
      complete (record s { dag = with_state (set_task_state i failed s.dag) failed })
  apply_phase i _ s = record s { dag = set_task_state i running s.dag }

  unfoldable pub apply_pod : ℕ → Result Pod → Session K → Result (Unit {0}) × Session K
  unfolding apply_phase
  apply_pod i (err e) s = if is_not_found e then (ok tt, s) else (err e, s)
  apply_pod i (ok pod) s = (ok tt, apply_phase i pod.phase s)

  -- `if currentStatus.State != state { … }`
  unfoldable pub apply_state : ℕ → TaskState → TaskState → Session K → Session K
  apply_state i previous state s =
      if previous == state
      then s
      else (let changed = record s { dag = set_task_state i state s.dag } in
          let noted =
            if is_finished state && (previous == running || previous == pending)
            then complete changed
            else changed in
          if state == failed then record noted { dag = with_state noted.dag failed } else noted)

  -- What follows `Runner.GetStatus`; `entry` is the status before it.
  unfoldable pub apply_answer :
      ℕ → TaskStatus → Result TaskState → Session K → Result (Unit {0}) × Session K
  unfolding apply_state apply_pod
  apply_answer i entry (ok state) s = (ok tt, apply_state i entry.state state s)
  apply_answer i entry (err _) s =
      let (answer, c) =
        K.get_pod (record { namespace = s.dag.namespace; name = entry.pod_name }) s.cluster in
      apply_pod i answer (record s { cluster = c })

  unfoldable pub sync_entry :
      DefaultRunner K → TaskSpec → ℕ → TaskStatus → Session K → Result (Unit {0}) × Session K
  sync_entry r task i entry s =
      if is_finished entry.state
      then (ok tt, s)
      else (let (answer, c) = get_status r s.dag task s.cluster in
          apply_answer i entry answer (record s { cluster = c }))

  -- One round of the loop over `dag.Spec.Tasks`. An index of the map is always in range.
  unfoldable pub sync_task :
      DefaultRunner K → Dict String ℕ → TaskSpec → Session K → Result (Unit {0}) × Session K
  sync_task r m task s = elim (Dict.lookup task.name m) [
    | none ↦ (ok tt, s)
    | some i ↦ elim (get_elem? s.dag.status.task_statuses i) [
      | none ↦ (ok tt, s)
      | some entry ↦ sync_entry r task i entry s
    ]
  ]

  unfoldable pub sync_loop :
      DefaultRunner K → Dict String ℕ → List TaskSpec → Session K → Result (Unit {0}) × Session K
  sync_loop r m [] s = (ok tt, s)
  sync_loop r m (task ∷ tasks) s = and_then (sync_task r m task s) (sync_loop r m tasks)

  unfoldable pub sync_status : DefaultRunner K → Session K → Result (Unit {0}) × Session K
  sync_status r s =
      let dag = begin s.dag in
      sync_loop r (index_map 0 [] dag.status.task_statuses) dag.spec.tasks (record s { dag = dag })
