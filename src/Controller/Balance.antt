-- ===== src/Controller/Balance.antt =====
-- The scheduler's counter of a Dag after a reconciliation, against the Dag that is then stored.
use nautikus.Prelude.{
  ℕ, ◌≤◌, ◌≡◌, refl, sym, ◌∙◌, ap, ◌⊎◌, inl, inr, String, Bool, true, false, ◌||◌, some, List, map,
  any, length, All, ℤ, pos, pos_part, arith, max_int, if◌then◌else◌,
}
use mathlib.Core.Path.{subst}
use mathlib.Core.List.{Nodup}
use nautikus.Prelude.Dict.{Dict}
use nautikus.Errors.{Error, Result, ok, err}
use nautikus.Api.{failed, TaskStatus, Dag, task_state_eq, TaskState-discrete}
use nautikus.Kube.{Kube, NamespacedName}
use nautikus.Kube.Pods.{PodStore}
use nautikus.Kube.Dags.{DagStore, dag_key}
use nautikus.Scheduler.{active_tasks}
use nautikus.Scheduler.Limit.{active}
use nautikus.Executor.Registry.{contains}
use nautikus.Executor.Pod.{handled_types}
use nautikus.Controller.Sync.{Session, is_finished, begin, sync_status}
use nautikus.Controller.Reconcile.{
  World, Ending, leave, save, save_error, start_tasks, after_start, prepare, conclude,
  reconcile_dag, reconcile,
}
use nautikus.Controller.Rounds.{scheduled, prepare_cases}
use nautikus.Controller.Reads.{set_up, sync_status-Reads}
use nautikus.Controller.Observed.{observe, sync_status-observe}
use nautikus.Controller.Failing.{fails, sync_status-fails}
use nautikus.Controller.Tracked.{IsTracked, task_names}
use nautikus.Controller.Known.{AllKnown, set_up-AnswersKnown}
use nautikus.Controller.Launched.{start_tasks-dag_at}
use nautikus.Controller.Same.{prepare-IsSame}
use nautikus.Controller.Evolution.{sync_status-Evolves}
use nautikus.Controller.Launches.{begin-name}
use nautikus.Controller.Accounting.{sync_status-Counted, prepare-Counted}
use nautikus.Controller.Stored.{of_world, key_of_same}

-- The counter of the Dag of a name, and the number of entries that are pending or running.
abbrev pub counter : {K : Kube} → String → World K → ℤ
counter name w = active_tasks name w.scheduler.active_tasks_per_dag

abbrev pub active_size : List TaskStatus → ℕ
active_size sts = length (active sts)

Saving : Ending → Type 0
Saving y = (y ≡ save) ⊎ ((e : Error) × (y ≡ save_error e))

after_start-Saving :
    {K : Kube} (x : Result (Unit {0}) × Session K)
    → Saving (after_start x).0 × ((after_start x).1.cluster ≡ x.1.cluster)
unfolding after_start Saving
after_start-Saving (ok _, s) = (inl refl, refl)
after_start-Saving (err e, s) = (inr (e, refl), refl)

finished_lem :
    (d : Dag) (b : Bool)
    → is_finished (if b then failed else (begin d).status.state) ≡ (is_finished d.status.state || b)
unfolding TaskState-discrete
finished_lem d true = ground arith
finished_lem d false = ground arith

module _ {K : Kube} (P : PodStore K) (D : DagStore K)
    (range : Dict String String → List (String × String)) where
  -- The Dag is finished, or a pod of it has failed.
  abbrev pub stops : Dag → World K → Bool
  stops d w =
      is_finished d.status.state
      || any (fails P d.namespace d.name w.cluster) d.status.task_statuses

  -- Of the stored Dag, where the Dag goes on; of what the pods show, where it stops.
  abbrev pub Balanced : Dag → World K → World K → Type 0
  Balanced d w w' =
      ((stops d w ≡ false)
        × (d' : Dag) × (D.dag_at (dag_key d) w'.cluster ≡ some d')
        × (counter d'.name w' ≡ pos (active_size d'.status.task_statuses)))
      ⊎ ((stops d w ≡ true)
          × (D.dag_at (dag_key d) w'.cluster ≡ some d)
          × (counter d.name w'
              ≡ pos (
                  active_size
                    (map (observe P d.namespace d.name w.cluster) d.status.task_statuses))))

  conclude-Saving :
      (k : NamespacedName) (d : Dag) (y : Ending × Session K)
      → Saving y.0
      → dag_key y.1.dag ≡ k
      → D.dag_at k y.1.cluster ≡ some d
      → (D.dag_at k (conclude y).1.cluster ≡ some (record d { status = y.1.dag.status }))
        × ((conclude y).1.scheduler ≡ y.1.scheduler)
  unfolding conclude Saving
  conclude-Saving k d (y, s) e same stored =
      let (c', answer, after) =
        D.update_status-found s.dag d s.cluster
          (ap (λ key. D.dag_at key s.cluster) same ∙ stored) in
      let at_key = ap (λ key. D.dag_at key c') (sym same) ∙ after in
      elim e [
        | inl h ↦ rw h (rw answer (at_key, refl))
        | inr (a, h) ↦ rw h (rw answer (at_key, refl))
      ]

  module _ (d : Dag) (w : World K) where
    abbrev synced : Session K
    synced = (sync_status (set_up K range) (of_world d w)).1

    -- How the reconciliation of the Dag ends before the update of its status.
    Ends : Ending × Session K → Type 0
    Ends y =
        ((is_finished synced.dag.status.state ≡ false)
          × Saving y.0
          × (D.dag_at (dag_key d) y.1.cluster ≡ D.dag_at (dag_key d) w.cluster))
        ⊎ ((is_finished synced.dag.status.state ≡ true) × (y ≡ (leave (ok false), synced)))

    prepare-Ends : Ends (prepare (set_up K range) (of_world d w))
    unfolding Ends
    prepare-Ends =
        let (fine, same) = sync_status-Reads P range (of_world d w) in
        prepare_cases (set_up K range) (of_world d w) Ends (λ e bad. absurd cc)
          (λ _ h. inr (h, refl))
          (λ _ h.
            let (saving, cluster) =
              after_start-Saving (start_tasks (set_up K range) (scheduled synced) synced) in
            inl (
              h,
              saving,
              ap (D.dag_at (dag_key d)) cluster
                  ∙ start_tasks-dag_at K (D.dag_at (dag_key d)) (D.create_pod-keeps (dag_key d))
                      range (scheduled synced) synced
                  ∙ ap (D.dag_at (dag_key d)) same,
            ))

    module _ (range_ok : pos_part w.scheduler.config.max_active_tasks ≤ max_int)
        (handled : All (λ t. contains handled_types t.type ≡ true) d.spec.tasks)
        (distinct : Nodup (task_names d)) (tracked : IsTracked d)
        (known : AllKnown d.status.task_statuses)
        (count : counter d.name w ≡ pos (active_size d.status.task_statuses)) where
      stops-found : is_finished synced.dag.status.state ≡ stops d w
      stops-found =
          ap is_finished (sync_status-fails P range (of_world d w) handled tracked)
          ∙ finished_lem d (any (fails P d.namespace d.name w.cluster) d.status.task_statuses)

      synced-count :
          counter d.name (record w { scheduler = synced.scheduler })
          ≡ pos (active_size (map (observe P d.namespace d.name w.cluster) d.status.task_statuses))
      synced-count =
          let evolved = sync_status-Evolves (set_up K range) (of_world d w) in
          ap (λ n. active_tasks n synced.scheduler.active_tasks_per_dag)
            (sym (evolved.name ∙ begin-name d))
          ∙ (sync_status-Counted (set_up K range) (set_up-AnswersKnown K range) (of_world d w) known
              count).1
          ∙ ap (λ l. pos (active_size l))
              (sync_status-observe P range (of_world d w) handled tracked)

      -- If the client stores Dags and pods as documented, the Dag at the key is stored there,
      -- `MaxActiveTasks` fits in an int, the tasks have distinct names and types that the pod executor
      -- handles, each entry is of a task, no task has two entries, the entries are pending, running,
      -- completed or failed, and the scheduler's counter of the Dag is the number of its entries that
      -- are running or pending, then after a reconciliation, in which a task may also fail to start:
      -- if the Dag was not finished and no pod of an unfinished entry has failed, then the counter is
      -- the number of running and pending entries of the Dag that is stored then. Otherwise the stored
      -- Dag is as it was, and the counter is the number of its entries that would be running or pending
      -- had `syncStatus` stored what the pods show.
      pub reconcile-Balanced :
          D.dag_at (dag_key d) w.cluster ≡ some d
          → Balanced d w (reconcile (set_up K range) (dag_key d) w).1
      unfolding reconcile reconcile_dag conclude Ends
      reconcile-Balanced stored =
          let y = prepare (set_up K range) (of_world d w) in
          let same = prepare-IsSame (set_up K range) (of_world d w) in
          let counted =
            prepare-Counted (set_up K range) (set_up-AnswersKnown K range) (of_world d w) range_ok
              distinct known count in
          rw (D.get_dag-found (dag_key d) d w.cluster stored) (elim prepare-Ends [
            | inl (h, saving, kept) ↦
                let (after, scheduler) =
                  conclude-Saving (dag_key d) d y saving (key_of_same d y.1.dag same)
                    (kept ∙ stored) in
                inl (
                  sym stops-found ∙ h,
                  record d { status = y.1.dag.status },
                  after,
                  ap (λ x. active_tasks d.name x.active_tasks_per_dag) scheduler
                      ∙ ap (λ n. active_tasks n y.1.scheduler.active_tasks_per_dag) (sym same.name)
                      ∙ counted,
                )
            | inr (h, e) ↦
                subst (λ x. Balanced d w (conclude x).1) (sym e)
                  (inr (
                    sym stops-found ∙ h,
                    ap (D.dag_at (dag_key d)) (sync_status-Reads P range (of_world d w)).1 ∙ stored,
                    synced-count,
                  ))
          ])
