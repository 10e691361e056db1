-- ===== src/Controller/Reads.antt =====
-- `syncStatus` only reads the cluster, with the runner that `SetupComponents` builds.
use nautikus.Prelude.{
  ℕ, ◌≡◌, refl, String, ◌<>◌, Bool, true, false, ◌&&◌, ◌||◌, Option, none, some, List, [], ◌∷◌,
  ◌==◌, if_ind,
}
use mathlib.Core.Path.{subst}
use nautikus.Prelude.Dict
use nautikus.Prelude.Dict.{Dict}
use nautikus.Errors.{text, wrap, Result, ok, err}
use nautikus.Api.{TaskState, running, pending, failed, TaskSpec, TaskStatus, Dag, task_state_eq}
use nautikus.Kube.{Kube, Pod, PodPhase, NamespacedName}
use nautikus.Kube.Pods.{PodStore}
use nautikus.Executor.Registry.{type_text, get, register, contains, new_registry, get-register}
use nautikus.Executor.Pod.{handled_types, pod_executor, pod_key}
use nautikus.Executor.Pod.Calls.{shown, get_status-pod_at}
use nautikus.Runner.{DefaultRunner, no_executor_text, new_default_runner, get_status, status_with}
use nautikus.Controller.Sync.{
  Session, is_finished, and_then, complete, set_task_state, apply_phase, apply_pod, apply_state,
  apply_answer, sync_entry, sync_task, sync_loop, sync_status, begin,
}
use nautikus.Controller.Reconcile.{World, after_sync, conclude, reconcile}
use nautikus.Controller.Evolution.{sync_task_ind}

-- The runner of a reconciler whose components are set up.
abbrev pub set_up : (K : Kube) → (Dict String String → List (String × String)) → DefaultRunner K
set_up K range = new_default_runner (register (pod_executor K range) (new_registry K))

-- A step succeeds, and leaves the cluster as it was.
abbrev pub Reads : {K : Kube} → K.Cluster → Result (Unit {0}) × Session K → Type 0
Reads c x = (x.0 ≡ ok tt) × (x.1.cluster ≡ c)

module _ {K : Kube} where
  and_then-Reads :
      (c : K.Cluster) (x : Result (Unit {0}) × Session K)
      (f : Session K → Result (Unit {0}) × Session K)
      → Reads c x
      → ((s : Session K) → s.cluster ≡ c → Reads c (f s))
      → Reads c (and_then x f)
  and_then-Reads c (ok _, s) f h next = next s h.1
  and_then-Reads c (err e, s) f h next = absurd cc

  apply_phase-cluster :
      (i : ℕ) (phase : PodPhase) (s : Session K) → (apply_phase i phase s).cluster ≡ s.cluster
  unfolding apply_phase
  apply_phase-cluster i PodPhase.succeeded s = refl
  apply_phase-cluster i PodPhase.failed s = refl
  apply_phase-cluster i _ s = refl

  apply_state-cluster :
      (i : ℕ) (previous state : TaskState) (s : Session K)
      → (apply_state i previous state s).cluster ≡ s.cluster
  unfolding apply_state
  apply_state-cluster i previous state s =
      let changed = record s { dag = set_task_state i state s.dag } in
      let noted =
        if_ind (λ (x : Session K). x.cluster ≡ s.cluster)
          (is_finished state && (previous == running || previous == pending)) (complete changed)
          changed refl refl in
      if_ind (λ (x : Session K). x.cluster ≡ s.cluster) (previous == state) _ _ refl
        (if_ind (λ (x : Session K). x.cluster ≡ s.cluster) (state == failed) _ _ noted noted)

  stop_lem :
      (r : DefaultRunner K) {c : K.Cluster} (x : Result (Unit {0}) × Session K)
      → Reads c x
      → is_finished x.1.dag.status.state ≡ true
      → ((conclude (after_sync r x)).0 ≡ ok false) × ((conclude (after_sync r x)).1.cluster ≡ c)
  unfolding conclude after_sync
  stop_lem r (ok _, s) (_, same) h = rw h (refl, same)
  stop_lem r (err e, s) (impossible, _) h = absurd cc

  module _ (P : PodStore K) where
    apply_pod-Reads :
        (i : ℕ) (k : NamespacedName) (s : Session K)
        → Reads s.cluster (
            let (answer, c) = K.get_pod k s.cluster in
            apply_pod i answer (record s { cluster = c }))
    unfolding apply_pod
    apply_pod-Reads i k s = by_pod (P.pod_at k s.cluster) refl
      where
        by_pod :
            (o : Option Pod)
            → P.pod_at k s.cluster ≡ o
            → Reads s.cluster (
                let (answer, c) = K.get_pod k s.cluster in
                apply_pod i answer (record s { cluster = c }))
        by_pod none h =
            let (e, answer, kind) = P.get_pod-absent k s.cluster h in rw (answer, kind) (refl, refl)
        by_pod (some p) h =
            rw (P.get_pod-found k p s.cluster h) (refl, apply_phase-cluster i p.phase s)

    module _ (range : Dict String String → List (String × String)) where
      -- Of a type that the pod executor handles it answers by the pod.
      pub get_status-handled :
          (d : Dag) (task : TaskSpec) (c : K.Cluster)
          → contains handled_types task.type ≡ true
          → get_status (set_up K range) d task c ≡ (ok (shown (P.pod_at (pod_key K d task) c)), c)
      unfolding get_status new_default_runner status_with
      get_status-handled d task c h =
          rw ((get-register task.type (pod_executor K range) (new_registry K)).0, h)
            (get_status-pod_at K P d task c)

      -- Of a type that the pod executor handles it answers by the pod, of any other with an error.
      get_status-set_up :
          (d : Dag) (task : TaskSpec) (c : K.Cluster)
          → (answer : Result TaskState) × (get_status (set_up K range) d task c ≡ (answer, c))
      unfolding get_status new_default_runner new_registry get status_with Dict.lookup
      get_status-set_up d task c = by_type (contains handled_types task.type) refl
        where
          by_type :
              (b : Bool)
              → contains handled_types task.type ≡ b
              → (answer : Result TaskState) × (get_status (set_up K range) d task c ≡ (answer, c))
          by_type true h = (_, get_status-handled d task c h)
          by_type false h = (
            err (
                wrap (no_executor_text task)
                  (text ("no executor registered for task type: " <> type_text task.type))),
            rw ((get-register task.type (pod_executor K range) (new_registry K)).0, h) refl,
          )

      apply_answer-Reads :
          (i : ℕ) (entry : TaskStatus) (answer : Result TaskState) (s : Session K)
          → Reads s.cluster (apply_answer i entry answer s)
      unfolding apply_answer
      apply_answer-Reads i entry (ok state) s = (refl, apply_state-cluster i entry.state state s)
      apply_answer-Reads i entry (err _) s =
          apply_pod-Reads i (record { namespace = s.dag.namespace; name = entry.pod_name }) s

      sync_entry-Reads :
          (task : TaskSpec) (i : ℕ) (entry : TaskStatus) (s : Session K)
          → Reads s.cluster (sync_entry (set_up K range) task i entry s)
      unfolding sync_entry
      sync_entry-Reads task i entry s =
          let (answer, e) = get_status-set_up s.dag task s.cluster in
          if_ind (Reads s.cluster) (is_finished entry.state) _ _ (refl, refl)
            (rw e (apply_answer-Reads i entry answer s))

      pub sync_task-Reads :
          (m : Dict String ℕ) (task : TaskSpec) (s : Session K)
          → Reads s.cluster (sync_task (set_up K range) m task s)
      sync_task-Reads m task s =
          sync_task_ind (set_up K range) (Reads s.cluster) m task s (refl, refl)
            (λ i entry p q. sync_entry-Reads task i entry s)

      sync_loop-Reads :
          (c : K.Cluster) (m : Dict String ℕ) (tasks : List TaskSpec) (s : Session K)
          → s.cluster ≡ c
          → Reads c (sync_loop (set_up K range) m tasks s)
      unfolding sync_loop
      sync_loop-Reads c m [] s same = (refl, same)
      sync_loop-Reads c m (task ∷ tasks) s same =
          and_then-Reads c (sync_task (set_up K range) m task s)
            (sync_loop (set_up K range) m tasks)
            (subst (λ c'. Reads c' (sync_task (set_up K range) m task s)) same
              (sync_task-Reads m task s))
            (λ s' same'. sync_loop-Reads c m tasks s' same')

      -- If the client stores pods as documented, `syncStatus` with the runner that `SetupComponents`
      -- builds returns no error, and it leaves the cluster as it was.
      pub sync_status-Reads : (s : Session K) → Reads s.cluster (sync_status (set_up K range) s)
      unfolding sync_status
      sync_status-Reads s = sync_loop-Reads s.cluster _ _ (record s { dag = begin s.dag }) refl

      -- If the client stores pods as documented, the Dag can be read, the read leaves the cluster as
      -- it was, and `syncStatus` with the runner that `SetupComponents` builds finds the Dag to be
      -- completed or failed, then `Reconcile` asks for no requeue and leaves the cluster as it was:
      -- what `syncStatus` found is not stored.
      pub reconcile_finished :
          (k : NamespacedName) (d : Dag) (w : World K)
          → K.get_dag k w.cluster ≡ (ok d, w.cluster)
          → let s : Session K = record { dag = d; scheduler = w.scheduler; cluster = w.cluster } in
            is_finished (sync_status (set_up K range) s).1.dag.status.state ≡ true
            → ((reconcile (set_up K range) k w).0 ≡ ok false)
              × ((reconcile (set_up K range) k w).1.cluster ≡ w.cluster)
      unfolding reconcile
      reconcile_finished k d w read finished =
          let s : Session K = record { dag = d; scheduler = w.scheduler; cluster = w.cluster } in
          rw read (
            stop_lem (set_up K range) (sync_status (set_up K range) s) (sync_status-Reads s)
              finished)
