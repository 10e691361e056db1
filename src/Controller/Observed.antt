-- ===== src/Controller/Observed.antt =====
-- What `syncStatus` makes of every entry, for tasks that the pod executor handles.
pub mod Positions
pub mod Passes
use nautikus.Prelude.{
  ℕ, zero, suc, ◌+◌, ◌≡◌, ◌≢◌, refl, sym, ◌∙◌, ap, String, Bool, true, false, ◌&&◌, ◌||◌, Option,
  none, some, List, [], ◌∷◌, map, ◌==◌, string_eq, get_elem?, modify, All, if◌then◌else◌, if_ind,
  Bool-cases, arith, inl, inr,
}
use mathlib.Core.Path.{subst, ap₂}
use mathlib.Core.Logic.{∥∥₁_prop}
use mathlib.Core.Logic.Or
use mathlib.Core.List.{Mem, Subset, Nodup, mem-cons, not-mem-nil, mem-cons_self, mem-cons_of_mem}
use nautikus.Prelude.Dict
use nautikus.Prelude.Dict.{Dict}
use nautikus.Errors.{Result, ok, err}
use nautikus.Api.{
  TaskState, unset, running, pending, failed, TaskSpec, TaskStatus, Dag, task_state_eq, with_state,
}
use nautikus.Kube.{Kube}
use nautikus.Kube.Pods.{PodStore}
use nautikus.Executor.Registry.{contains}
use nautikus.Executor.Pod.{handled_types, get_pod_name}
use nautikus.Executor.Pod.Calls.{shown}
use nautikus.Controller.Sync.{
  Session, is_finished, and_then, complete, set_task_state, index_map, apply_state, apply_answer,
  sync_entry, sync_task, sync_loop, sync_status, begin,
}
use nautikus.Controller.Evolution.{sync_task-Evolves}
use nautikus.Controller.Starts.{task_name, entry_name, names}
use nautikus.Controller.Tracked.{IsTracked, task_names}
use nautikus.Controller.Reads.{set_up, get_status-handled, sync_task-Reads}
use nautikus.Controller.Observed.Passes.{
  modify_same, obs_all, map-obs_all_none, map-map, names-at_name, position-at_name,
  map-obs_all_listed,
}
use nautikus.Controller.Observed.Positions.{
  position, lookup-index_map, at_name, map-at_name_absent, Writes, position-Writes,
}

-- The statuses of a session.
abbrev pub entries : {K : Kube} → Session K → List TaskStatus
entries s = s.dag.status.task_statuses

-- An entry by its pod: a completed or failed entry stays.
abbrev pub observe : {K : Kube} → PodStore K → String → String → K.Cluster → TaskStatus → TaskStatus
observe P namespace dag_name c ts = if is_finished ts.state then ts else record ts {
  state =
      shown (P.pod_at (record { namespace = namespace; name = get_pod_name dag_name ts.name }) c);
}

apply_state-entries :
    {K : Kube} (i : ℕ) (previous state : TaskState) (s : Session K)
    → entries (apply_state i previous state s) ≡ (
        if previous == state
        then entries s
        else modify (entries s) i (λ ts. record ts { state = state }))
unfolding apply_state
apply_state-entries i previous state s =
    let written = modify (entries s) i (λ ts. record ts { state = state }) in
    let changed = record s { dag = set_task_state i state s.dag } in
    let noted =
      if_ind (λ (x : Session _). entries x ≡ written)
        (is_finished state && (previous == running || previous == pending)) (complete changed)
        changed refl refl in
    elim (Bool-cases (previous == state)) [
      | inl h ↦ rw h refl
      | inr h ↦
          rw h (if_ind (λ (x : Session _). entries x ≡ written) (state == failed) _ _ noted noted)
    ]

module _ {K : Kube} (P : PodStore K) (range : Dict String String → List (String × String)) where
  -- The entry by its pod, for the Dag and the cluster of a session.
  abbrev pub seen : Session K → TaskStatus → TaskStatus
  seen s = observe P s.dag.namespace s.dag.name s.cluster

  written_lem :
      (task : TaskSpec) (i : ℕ) (entry : TaskStatus) (s : Session K) (x : TaskState)
      → is_finished entry.state ≡ false
      → shown (
          P.pod_at
            (record { namespace = s.dag.namespace; name = get_pod_name s.dag.name entry.name })
            s.cluster)
        ≡ x
      → ((g : TaskStatus → TaskStatus)
          → g entry ≡ seen s entry
          → modify (entries s) i g ≡ map (at_name (seen s) task.name) (entries s))
      → (if entry.state == x
          then entries s
          else modify (entries s) i (λ ts. record ts { state = x }))
        ≡ map (at_name (seen s) task.name) (entries s)
  written_lem task i entry s x h e writes = elim (Bool-cases (entry.state == x)) [
    | inl same ↦ rw same (
        sym (modify_same (entries s) i)
        ∙ writes (λ ts. ts)
            (rw (h, e) (ap (λ st. record entry { state = st }) (ground (arith, same)))))
    | inr differ ↦ rw differ (writes (λ ts. record ts { state = x }) (rw (h, e) refl))
  ]

  sync_entry-entries :
      (task : TaskSpec) (i : ℕ) (entry : TaskStatus) (s : Session K)
      → contains handled_types task.type ≡ true
      → entry.name ≡ task.name
      → ((g : TaskStatus → TaskStatus)
          → g entry ≡ seen s entry
          → modify (entries s) i g ≡ map (at_name (seen s) task.name) (entries s))
      → entries (sync_entry (set_up K range) task i entry s).1
        ≡ map (at_name (seen s) task.name) (entries s)
  unfolding sync_entry apply_answer
  sync_entry-entries task i entry s handled named writes =
      elim (Bool-cases (is_finished entry.state)) [
        | inl h ↦ rw h (sym (modify_same (entries s) i) ∙ writes (λ ts. ts) (rw h refl))
        | inr h ↦
            let x = shown (
              P.pod_at
                (record { namespace = s.dag.namespace; name = get_pod_name s.dag.name task.name })
                s.cluster) in
            rw (h, get_status-handled P range s.dag task s.cluster handled)
              (apply_state-entries i entry.state x s
                ∙ written_lem task i entry s x h (rw named refl) writes)
      ]

  -- One round of the loop: nothing for a task without an entry, or what is done with its entry.
  pub sync_task_at :
      (Q : Result (Unit {0}) × Session K → Type 0) (m : Dict String ℕ) (task : TaskSpec)
      (s : Session K)
      → ((name : String) → Dict.lookup name m ≡ position name 0 (entries s))
      → Nodup (names s.dag)
      → (position task.name 0 (entries s) ≡ none → Q (ok tt, s))
      → ((j : ℕ) (w : Writes (seen s) task.name 0 j (entries s))
          → Q (sync_entry (set_up K range) task w.offset w.entry s))
      → Q (sync_task (set_up K range) m task s)
  unfolding sync_task
  sync_task_at Q m task s at u absent present = go (Dict.lookup task.name m) refl
    where
      go :
          (o : Option ℕ)
          → Dict.lookup task.name m ≡ o
          → Q (elim o [
            | none ↦ (ok tt, s)
            | some i ↦ elim (get_elem? (entries s) i) [
              | none ↦ (ok tt, s)
              | some entry ↦ sync_entry (set_up K range) task i entry s
            ]
          ])
      go none e = absent (sym (at task.name) ∙ e)
      go (some i) e =
          let w = position-Writes (seen s) task.name 0 i (entries s) u (sym (at task.name) ∙ e) in
          let same : w.offset ≡ i = omega (arith, w.index) in
          subst
            (λ k. Q (elim (get_elem? (entries s) k) [
              | none ↦ (ok tt, s)
              | some entry ↦ sync_entry (set_up K range) task k entry s
            ]))
            same (rw w.there (present i w))

  pub sync_task-entries :
      (m : Dict String ℕ) (task : TaskSpec) (s : Session K)
      → contains handled_types task.type ≡ true
      → ((name : String) → Dict.lookup name m ≡ position name 0 (entries s))
      → Nodup (names s.dag)
      → entries (sync_task (set_up K range) m task s).1
        ≡ map (at_name (seen s) task.name) (entries s)
  sync_task-entries m task s handled at u =
      sync_task_at (λ x. entries x.1 ≡ map (at_name (seen s) task.name) (entries s)) m task s at u
        (λ absent. sym (map-at_name_absent (seen s) task.name 0 (entries s) absent))
        (λ j w. sync_entry-entries task w.offset w.entry s handled w.named w.writes)

module _ {K : Kube} (P : PodStore K) (range : Dict String String → List (String × String)) where
  pub seen_keeps : (s : Session K) (ts : TaskStatus) → (seen P range s ts).name ≡ ts.name
  seen_keeps s ts =
      if_ind (λ (x : TaskStatus). x.name ≡ ts.name) (is_finished ts.state) _ _ refl refl

  pub and_then_ok :
      (x : Result (Unit {0}) × Session K) (f : Session K → Result (Unit {0}) × Session K)
      → x.0 ≡ ok tt
      → and_then x f ≡ f x.1
  and_then_ok (ok _, s) f h = refl
  and_then_ok (err e, s) f h = absurd cc

  sync_loop-entries :
      (m : Dict String ℕ) (tasks : List TaskSpec) (s : Session K)
      → All (λ t. contains handled_types t.type ≡ true) tasks
      → ((name : String) → Dict.lookup name m ≡ position name 0 (entries s))
      → Nodup (names s.dag)
      → entries (sync_loop (set_up K range) m tasks s).1
        ≡ map (obs_all (seen P range s) tasks) (entries s)
  unfolding sync_loop
  sync_loop-entries m [] s handled at u = sym (map-obs_all_none (seen P range s) (entries s))
  sync_loop-entries m (task ∷ tasks) s handled at u =
      let x = sync_task (set_up K range) m task s in
      let (fine, same_cluster) = sync_task-Reads P range m task s in
      let kept = sync_task-Evolves (set_up K range) m task s in
      let now : entries x.1 ≡ map (at_name (seen P range s) task.name) (entries s) =
        sync_task-entries P range m task s handled.0 at u in
      let same_seen : seen P range x.1 ≡ seen P range s =
        λ i. observe P (kept.namespace i) (kept.name i) (same_cluster i) in
      rw (and_then_ok x (sync_loop (set_up K range) m tasks) fine) (
        sync_loop-entries m tasks x.1 handled.1
          (λ name.
            at name
            ∙ sym (
                ap (position name 0) now
                ∙ position-at_name (seen P range s) (seen_keeps s) task.name name 0 (entries s)))
          (subst Nodup
            (sym (
              ap (map entry_name) now
              ∙ names-at_name (seen P range s) (seen_keeps s) task.name (entries s)))
            u)
        ∙ ap₂ (λ f l. map (obs_all f tasks) l) same_seen now
        ∙ map-map (obs_all (seen P range s) tasks) (at_name (seen P range s) task.name) (entries s))

  seen_idem :
      (s : Session K) (ts : TaskStatus) → seen P range s (seen P range s ts) ≡ seen P range s ts
  seen_idem s ts = ground arith

-- If the client stores pods as documented, every task of the specification is of a type that the pod
-- executor handles, no task has two entries and each entry is of a task of the specification, then
-- `syncStatus`, with the runner that `SetupComponents` builds, leaves every completed or failed entry
-- as it was, and sets the state of every other entry to the state that its task's pod shows: pending
-- if there is none.
pub sync_status-observe :
    {K : Kube} (P : PodStore K) (range : Dict String String → List (String × String))
    (s : Session K)
    → All (λ t. contains handled_types t.type ≡ true) s.dag.spec.tasks
    → IsTracked s.dag
    → (sync_status (set_up K range) s).1.dag.status.task_statuses
      ≡ map (observe P s.dag.namespace s.dag.name s.cluster) s.dag.status.task_statuses
unfolding sync_status
sync_status-observe P range s handled tracked =
    if_ind
      (λ (d : Dag).
        entries
          (sync_loop (set_up _ range) (index_map 0 [] d.status.task_statuses) d.spec.tasks
            (record s { dag = d })).1
        ≡ map (seen P range s) (entries s))
      (s.dag.status.state == unset) (with_state s.dag running) s.dag
      (from (record s { dag = with_state s.dag running }) handled tracked.nodup tracked.listed)
      (from s handled tracked.nodup tracked.listed)
  where
    from :
        (s' : Session _)
        → All (λ t. contains handled_types t.type ≡ true) s'.dag.spec.tasks
        → Nodup (names s'.dag)
        → Subset (names s'.dag) (task_names s'.dag)
        → entries (sync_loop (set_up _ range) (index_map 0 [] (entries s')) s'.dag.spec.tasks s').1
          ≡ map (seen P range s') (entries s')
    from s' all u listed =
        sync_loop-entries P range (index_map 0 [] (entries s')) s'.dag.spec.tasks s' all
          (λ name. lookup-index_map name (entries s')) u
        ∙ map-obs_all_listed (seen P range s') (seen_keeps P range s') (seen_idem P range s')
            s'.dag.spec.tasks (entries s') listed
