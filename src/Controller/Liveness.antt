-- ===== src/Controller/Liveness.antt =====
-- A Dag whose pods succeed is completed after finitely many reconciliations.
mod Round
mod Steps
mod Advance
pub use Round.{IsSound}
pub use Steps.{Succeeded, Between, Rounds, start, later}
use nautikus.Prelude.{
  ℕ, zero, suc, ◌+◌, ◌≤◌, ◌<◌, ◌≡◌, ◌≢◌, refl, sym, ◌∙◌, ap, ◌⊎◌, inl, inr, String, Bool, true,
  false, Option, some, List, [], ◌∷◌, map, any, length, All, arith, pos_part, ◌==◌, if◌then◌else◌,
  Bool-cases,
}
use mathlib.Core.Path.{subst}
use mathlib.Core.List.{Subset}
use nautikus.Prelude.Dict.{Dict}
use nautikus.Errors.{Result, ok, err}
use nautikus.Api.{
  TaskState, unset, running, completed, failed, TaskSpec, TaskStatus, Dag, DagSpec, task_state_eq,
  TaskState-discrete,
}
use nautikus.Kube.{Kube, Pod, PodPhase, NamespacedName}
use nautikus.Kube.Pods.{PodStore}
use nautikus.Kube.Dags.{DagStore, dag_key}
use nautikus.Executor.Pod.{get_pod_name, state_of_phase}
use nautikus.Controller.Sync.{Session, is_finished, begin, sync_status}
use nautikus.Controller.Reconcile.{World, Ending, save, prepare, conclude, reconcile_dag, reconcile}
use nautikus.Controller.Starts.{task_name, names}
use nautikus.Controller.Tracked.{IsTracked, task_names, prepare-IsTracked}
use nautikus.Controller.Reads.{set_up, reconcile_finished}
use nautikus.Controller.Same.{IsSame}
use nautikus.Controller.Config.{prepare-config}
use nautikus.Controller.Observed.{observe}
use nautikus.Controller.Failing.{fails, sync_status-fails}
use nautikus.Controller.Launched.{CanOwn, NotFailed}
use Round.{AllHandled, Moves, tracked-le}
use Advance.{WillComplete, Advances, prepare-Advances}

abbrev of_world : {K : Kube} → Dag → World K → Session K
of_world d w = record { dag = d; scheduler = w.scheduler; cluster = w.cluster }

module _ {K : Kube} (P : PodStore K) (D : DagStore K)
    (range : Dict String String → List (String × String)) (own : CanOwn K) where
  abbrev prepared : Dag → World K → Ending × Session K
  prepared d w = prepare (set_up K range) (of_world d w)

  conclude-save :
      (k : NamespacedName) (d : Dag) (y : Ending × Session K)
      → y.0 ≡ save
      → dag_key y.1.dag ≡ k
      → D.dag_at k y.1.cluster ≡ some d
      → (D.dag_at k (conclude y).1.cluster ≡ some (record d { status = y.1.dag.status }))
        × ((conclude y).1.scheduler ≡ y.1.scheduler)
  unfolding conclude
  conclude-save k d (Ending.save, s) e same stored =
      let (c', answer, after) =
        D.update_status-found s.dag d s.cluster
          (ap (λ key. D.dag_at key s.cluster) same ∙ stored) in
      rw answer (ap (λ key. D.dag_at key c') (sym same) ∙ after, refl)
  conclude-save k d (Ending.leave a, s) e same stored = absurd cc
  conclude-save k d (Ending.save_error a, s) e same stored = absurd cc

  -- What a reconciliation stores of a Dag that it moves on.
  reconcile-stores :
      (k : NamespacedName) (d : Dag) (w : World K)
      → dag_key d ≡ k
      → D.dag_at k w.cluster ≡ some d
      → Advances D (of_world d w) (prepared d w)
      → let w1 = (reconcile (set_up K range) k w).1 in
        (D.dag_at k w1.cluster ≡ some (record d { status = (prepared d w).1.dag.status }))
        × (w1.scheduler ≡ (prepared d w).1.scheduler)
  unfolding reconcile reconcile_dag
  reconcile-stores k d w named stored h = rw (D.get_dag-found k d w.cluster stored) (
      conclude-save k d (prepared d w) h.saves
        ((λ i. record { namespace = h.same.namespace i; name = h.same.name i }) ∙ named)
        (h.stored k ∙ stored))

  -- A Dag that is under way: nothing of it has failed.
  record Going (n : ℕ) (d : Dag) (w : World K) : Type 0 where
    state : (d.status.state ≡ unset) ⊎ (d.status.state ≡ running)
    will : WillComplete P (of_world d w)
    room : 0 < pos_part w.scheduler.config.max_active_tasks
    enough : n ≤ length d.status.task_statuses

  -- What `n` rounds have reached of a Dag.
  abbrev Reached : ℕ → Dag → World K → Type 0
  Reached n d0 w =
      (d : Dag) × (D.dag_at (dag_key d0) w.cluster ≡ some d)
      × IsSame d0 d
      × IsSound d
      × ((d.status.state ≡ completed) ⊎ Going n d w)

  module _ (d0 d : Dag) (same : IsSame d0 d) (sound : IsSound d) where
    same_key : dag_key d ≡ dag_key d0
    same_key i = record { namespace = same.namespace i; name = same.name i }

    -- A completed Dag is left alone.
    stays :
        (w : World K)
        → D.dag_at (dag_key d0) w.cluster ≡ some d
        → d.status.state ≡ completed
        → D.dag_at (dag_key d0) (reconcile (set_up K range) (dag_key d0) w).1.cluster ≡ some d
    unfolding TaskState-discrete
    stays w stored e =
        ap (D.dag_at (dag_key d0))
          (reconcile_finished P range (dag_key d0) d w
            (D.get_dag-found (dag_key d0) d w.cluster stored)
            (ap is_finished (sync_status-fails P range (of_world d w) sound.handled sound.tracked)
              ∙ ground (arith, e))).1
        ∙ stored

  will_lem :
      (d : Dag) (w : World K) (sts : List TaskStatus)
      → NotFailed sts
      → All (Succeeded P d w.cluster) sts
      → All (λ ts. (observe P d.namespace d.name w.cluster ts).state ≡ completed) sts
  unfolding state_of_phase
  will_lem d w [] h g = tt
  will_lem d w (ts ∷ sts) h g =
      let (p, there, phase) = g.0 in
      (rw (there, phase) (ground (arith, h.0)), will_lem d w sts h.1 g.1)

  step_lem :
      (n : ℕ) (d0 : Dag) (u v : World K)
      → Reached n d0 u
      → Between P D range (dag_key d0) u v
      → Reached (suc n) d0 v
  step_lem n d0 u v (d, stored, same, sound, inl done) b =
      (d, b.dag ∙ stays d0 d same sound u stored done, same, sound, inl done)
  step_lem n d0 u v (d, stored, same, sound, inr going) b =
      let h =
        prepare-Advances P D range own (of_world d u) sound going.room going.state going.will in
      let (after, scheduler) =
        reconcile-stores (dag_key d0) d u (same_key d0 d same sound) stored h in
      let d1 = record d { status = (prepared d u).1.dag.status } in
      let tracked =
        prepare-IsTracked (set_up K range) (of_world d u) sound.distinct sound.tracked in
      let goes_on : (d1.status.state ≡ completed) ⊎ Going (suc n) d1 v = elim h.moves [
        | inl done ↦ inl done
        | inr moved ↦ inr (record {
          state = inr moved.0;
          will = will_lem d1 v d1.status.task_statuses h.sane (b.succeeded d1 (b.dag ∙ after));
          room =
              subst (λ c. 0 < pos_part c.max_active_tasks)
                (sym (
                  b.config
                  ∙ ap (λ x. x.config) scheduler
                  ∙ prepare-config (set_up K range) (of_world d u)))
                going.room;
          enough = omega (arith, moved.1, going.enough);
        })
      ] in
      (
        d1,
        b.dag ∙ after,
        record { name = same.name; namespace = same.namespace; spec = same.spec },
        record {
          distinct = sound.distinct;
          tracked = record {
            nodup = tracked.nodup;
            listed =
                subst (λ (sp : DagSpec). Subset (names d1) (map task_name sp.tasks)) h.same.spec
                  tracked.listed;
          };
          handled = sound.handled;
          acyclic = sound.acyclic;
        },
        goes_on,
      )

  rounds_lem :
      (d0 : Dag) {n : ℕ} {u v : World K}
      → Rounds P D range (dag_key d0) n u v
      → Reached 0 d0 u
      → Reached n d0 v
  rounds_lem d0 start r = r
  rounds_lem d0 (later n x earlier b) r = step_lem n d0 x _ (rounds_lem d0 earlier r) b

  -- If the client stores Dags and pods as documented and accepts the Dag as the owner of every pod, a
  -- Dag that is stored without entries, unset or running, whose task names are distinct, whose task
  -- types the pod executor handles and whose dependencies are tasks of it and have no cycle, with a
  -- limit of active tasks above 0, is stored as completed, with the same specification, after `n`
  -- rounds if it has fewer than `n` tasks. A round is a reconciliation of the Dag, after which and
  -- before the next nobody else writes to the Dag, the configuration stays, and the pods of all
  -- entries of the stored Dag succeed.
  pub completes :
      (d0 : Dag) (n : ℕ) (w w' : World K)
      → D.dag_at (dag_key d0) w.cluster ≡ some d0
      → IsSound d0
      → d0.status.task_statuses ≡ []
      → (d0.status.state ≡ unset) ⊎ (d0.status.state ≡ running)
      → 0 < pos_part w.scheduler.config.max_active_tasks
      → Rounds P D range (dag_key d0) n w w'
      → length d0.spec.tasks < n
      → (d : Dag) × (D.dag_at (dag_key d0) w'.cluster ≡ some d)
        × (d.spec ≡ d0.spec)
        × (d.status.state ≡ completed)
  completes d0 n w w' stored sound empty state room rounds enough =
      let (d, after, same, sound', reached) = rounds_lem d0 rounds (
        d0,
        stored,
        record { name = refl; namespace = refl; spec = refl },
        sound,
        inr (record {
          state = state;
          will =
              subst (All (λ ts. (observe P d0.namespace d0.name w.cluster ts).state ≡ completed))
                (sym empty) tt;
          room = room;
          enough = omega arith;
        }),
      ) in
      elim reached [
        | inl done ↦ (d, after, same.spec, done)
        | inr going ↦ absurd (
            omega (
              arith,
              going.enough,
              tracked-le d sound'.tracked,
              ap (λ sp. length sp.tasks) same.spec,
              enough,
            ))
      ]
