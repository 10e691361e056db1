-- ===== src/Controller/Failing.antt =====
-- When `syncStatus` finds a Dag to have failed, for tasks that the pod executor handles.
mod Entries
pub use Entries.{fails}
use nautikus.Prelude.{
  ℕ, ◌≡◌, refl, sym, ◌∙◌, ap, String, Bool, true, false, not, ◌&&◌, ◌||◌, List, [], ◌∷◌, map, any,
  ◌==◌, string_eq, All, if◌then◌else◌, if_ind, Bool-cases, inl, inr, arith,
}
use mathlib.Core.Path.{subst}
use mathlib.Core.Bool.{Bool-set}
use mathlib.Core.Logic.Or
use mathlib.Core.List.{Nodup, Mem, Subset, mem-cons, not-mem-nil, mem-cons_self, mem-cons_of_mem}
use nautikus.Prelude.Dict
use nautikus.Prelude.Dict.{Dict}
use nautikus.Errors.{ok}
use nautikus.Api.{
  TaskState, unset, running, pending, failed, TaskSpec, TaskStatus, Dag, task_state_eq,
  TaskState-discrete, with_state,
}
use nautikus.Kube.{Kube, NamespacedName}
use nautikus.Kube.Pods.{PodStore}
use nautikus.Executor.Registry.{contains}
use nautikus.Executor.Pod.{handled_types, get_pod_name}
use nautikus.Executor.Pod.Calls.{shown}
use nautikus.Controller.Sync.{
  Session, is_finished, complete, set_task_state, index_map, apply_state, apply_answer, sync_entry,
  sync_task, sync_loop, sync_status, begin,
}
use nautikus.Controller.Reconcile.{World, reconcile}
use nautikus.Controller.Evolution.{sync_task-Evolves}
use nautikus.Controller.Starts.{task_name, entry_name, names}
use nautikus.Controller.Tracked.{IsTracked, task_names}
use nautikus.Controller.Reads.{reconcile_finished, set_up, get_status-handled, sync_task-Reads}
use nautikus.Controller.Observed.{
  entries, seen, seen_keeps, and_then_ok, sync_task_at, sync_task-entries,
}
use nautikus.Controller.Observed.Passes.{names-at_name, position-at_name}
use nautikus.Controller.Observed.Positions.{position, lookup-index_map, at_name, any-at_name_absent}
use Entries.{
  state_of, apply_state-state_of, is_named, is_named_of_Mem, any-map_or, any-unnamed, fails_or,
  any-named,
}

module _ {K : Kube} (P : PodStore K) (range : Dict String String → List (String × String)) where
  -- The test for the Dag and the cluster of a session.
  abbrev failing : Session K → TaskStatus → Bool
  failing s = fails P s.dag.namespace s.dag.name s.cluster

  sync_entry-state_of :
      (task : TaskSpec) (i : ℕ) (entry : TaskStatus) (s : Session K)
      → contains handled_types task.type ≡ true
      → entry.name ≡ task.name
      → state_of (sync_entry (set_up K range) task i entry s).1
        ≡ (if failing s entry then failed else state_of s)
  unfolding sync_entry apply_answer
  sync_entry-state_of task i entry s handled named = elim (Bool-cases (is_finished entry.state)) [
    | inl h ↦ rw h refl
    | inr h ↦
        let x = shown (
          P.pod_at
            (record { namespace = s.dag.namespace; name = get_pod_name s.dag.name task.name })
            s.cluster) in
        rw (h, get_status-handled P range s.dag task s.cluster handled)
          (apply_state-state_of i entry.state x s h ∙ rw named refl)
  ]

  sync_task-state_of :
      (m : Dict String ℕ) (task : TaskSpec) (s : Session K)
      → contains handled_types task.type ≡ true
      → ((name : String) → Dict.lookup name m ≡ position name 0 (entries s))
      → Nodup (names s.dag)
      → state_of (sync_task (set_up K range) m task s).1 ≡ (
          if any (λ ts. ts.name == task.name && failing s ts) (entries s)
          then failed
          else state_of s)
  sync_task-state_of m task s handled at u =
      sync_task_at P range
        (λ x. state_of x.1 ≡ (
          if any (λ ts. ts.name == task.name && failing s ts) (entries s)
          then failed
          else state_of s))
        m task s at u
        (λ absent. rw (any-at_name_absent task.name (failing s) 0 (entries s) absent) refl)
        (λ j w.
          sync_entry-state_of task w.offset w.entry s handled w.named
          ∙ rw (w.alone (failing s)) refl)

  not-failing-seen : (s : Session K) (ts : TaskStatus) → failing s (seen P range s ts) ≡ false
  not-failing-seen s ts = ground arith

  named_or :
      (s : Session K) (t : TaskSpec) (tasks : List TaskSpec) (ts : TaskStatus)
      → (is_named (t ∷ tasks) ts && failing s ts) ≡ (
          (ts.name == t.name && failing s ts)
          || (is_named tasks (at_name (seen P range s) t.name ts)
              && failing s (at_name (seen P range s) t.name ts)))
  named_or s t tasks ts = elim (Bool-cases (ts.name == t.name)) [
    | inl same ↦ rw (same, not-failing-seen s ts) (ground arith)
    | inr differ ↦ rw differ refl
  ]

  sync_loop-state_of :
      (m : Dict String ℕ) (tasks : List TaskSpec) (s : Session K)
      → All (λ t. contains handled_types t.type ≡ true) tasks
      → ((name : String) → Dict.lookup name m ≡ position name 0 (entries s))
      → Nodup (names s.dag)
      → state_of (sync_loop (set_up K range) m tasks s).1
        ≡ (if any (λ ts. is_named tasks ts && failing s ts) (entries s) then failed else state_of s)
  unfolding sync_loop
  sync_loop-state_of m [] s handled at u = rw (any-unnamed (failing s) (entries s)) refl
  sync_loop-state_of m (task ∷ tasks) s handled at u =
      let x = sync_task (set_up K range) m task s in
      let (fine, same_cluster) = sync_task-Reads P range m task s in
      let kept = sync_task-Evolves (set_up K range) m task s in
      let now : entries x.1 ≡ map (at_name (seen P range s) task.name) (entries s) =
        sync_task-entries P range m task s handled.0 at u in
      let same_failing : failing x.1 ≡ failing s =
        λ i. fails P (kept.namespace i) (kept.name i) (same_cluster i) in
      rw (and_then_ok P range x (sync_loop (set_up K range) m tasks) fine) (
        sync_loop-state_of m tasks x.1 handled.1
          (λ name.
            at name
            ∙ sym (
                ap (position name 0) now
                ∙ position-at_name (seen P range s) (seen_keeps P range s) task.name name 0
                    (entries s)))
          (subst Nodup
            (sym (
              ap (map entry_name) now
              ∙ names-at_name (seen P range s) (seen_keeps P range s) task.name (entries s)))
            u)
        ∙ (λ i.
            if any (λ ts. is_named tasks ts && same_failing i ts) (now i)
            then failed
            else sync_task-state_of m task s handled.0 at u i)
        ∙ fails_or (any (λ ts. ts.name == task.name && failing s ts) (entries s)) _ (state_of s)
        ∙ ap (λ b. if b then failed else state_of s)
            (sym (
              any-map_or _ _ (λ ts. is_named tasks ts && failing s ts)
                (at_name (seen P range s) task.name) (entries s) (named_or s task tasks))))

  -- If the client stores pods as documented, every task of the specification is of a type that the
  -- pod executor handles, no task has two entries and each entry is of a task of the specification,
  -- then after `syncStatus`, with the runner that `SetupComponents` builds, the Dag is failed if the
  -- pod of an entry that was not completed or failed has failed, and otherwise it is in the state in
  -- which it was, or running if it had none.
  pub sync_status-fails :
      (s : Session K)
      → All (λ t. contains handled_types t.type ≡ true) s.dag.spec.tasks
      → IsTracked s.dag
      → (sync_status (set_up K range) s).1.dag.status.state ≡ (
          if any (fails P s.dag.namespace s.dag.name s.cluster) s.dag.status.task_statuses
          then failed
          else (begin s.dag).status.state)
  unfolding sync_status
  sync_status-fails s handled tracked =
      if_ind
        (λ (d : Dag).
          state_of
            (sync_loop (set_up K range) (index_map 0 [] d.status.task_statuses) d.spec.tasks
              (record s { dag = d })).1
          ≡ (if any (failing s) (entries s) then failed else d.status.state))
        (s.dag.status.state == unset) (with_state s.dag running) s.dag
        (from (record s { dag = with_state s.dag running }) handled tracked.nodup tracked.listed)
        (from s handled tracked.nodup tracked.listed)
    where
      from :
          (s' : Session K)
          → All (λ t. contains handled_types t.type ≡ true) s'.dag.spec.tasks
          → Nodup (names s'.dag)
          → Subset (names s'.dag) (task_names s'.dag)
          → state_of
              (sync_loop (set_up K range) (index_map 0 [] (entries s')) s'.dag.spec.tasks s').1
            ≡ (if any (failing s') (entries s') then failed else state_of s')
      from s' all u listed =
          sync_loop-state_of (index_map 0 [] (entries s')) s'.dag.spec.tasks s' all
            (λ name. lookup-index_map name (entries s')) u
          ∙ ap (λ b. if b then failed else state_of s')
              (any-named s'.dag.spec.tasks (failing s') (entries s') listed)

  -- If the client stores pods as documented, the Dag can be read, the read leaves the cluster as it
  -- was, every task of the specification is of a type that the pod executor handles, no task has two
  -- entries and each entry is of a task of the specification, and the pod of an entry that is not
  -- completed or failed has failed, then `Reconcile`, with the runner that `SetupComponents` builds,
  -- returns no error, asks for no requeue, and leaves the cluster as it was: the failure is not
  -- stored.
  pub reconcile_failed :
      (k : NamespacedName) (d : Dag) (w : World K)
      → K.get_dag k w.cluster ≡ (ok d, w.cluster)
      → All (λ t. contains handled_types t.type ≡ true) d.spec.tasks
      → IsTracked d
      → any (fails P d.namespace d.name w.cluster) d.status.task_statuses ≡ true
      → ((reconcile (set_up K range) k w).0 ≡ ok false)
        × ((reconcile (set_up K range) k w).1.cluster ≡ w.cluster)
  unfolding TaskState-discrete
  reconcile_failed k d w read handled tracked broken =
      let s : Session K = record { dag = d; scheduler = w.scheduler; cluster = w.cluster } in
      reconcile_finished P range k d w read (rw (sync_status-fails s handled tracked, broken) refl)
