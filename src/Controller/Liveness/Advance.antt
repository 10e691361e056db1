-- ===== src/Controller/Liveness/Advance.antt =====
-- A reconciliation of a Dag all of whose started pods have succeeded moves it on.
use nautikus.Prelude.{
  ◌<◌, ◌≡◌, ◌≢◌, refl, sym, ◌∙◌, ap, ◌⊎◌, String, true, false, List, [], ◌∷◌, map, any, length,
  length-map, All, arith, pos_part,
}
use mathlib.Core.Path.{subst}
use mathlib.Core.List.{Nodup}
use nautikus.Prelude.Dict.{Dict}
use nautikus.Errors.{Result, ok, err}
use nautikus.Api.{TaskState, unset, running, completed, TaskStatus, Dag, DagSpec, task_state_eq}
use nautikus.Kube.{Kube, NamespacedName}
use nautikus.Kube.Pods.{PodStore}
use nautikus.Kube.Dags.{DagStore}
use nautikus.Controller.Sync.{Session, is_finished, begin, sync_status}
use nautikus.Controller.Reconcile.{Ending, save, update_dag_state, after_start, prepare}
use nautikus.Controller.Evolution.{sync_status-Evolves}
use nautikus.Controller.Starts.{start_tasks-ExtendsBy}
use nautikus.Controller.Tracked.{IsTracked, task_names, sync_status-IsTracked}
use nautikus.Controller.Rounds.{scheduled, prepare_cases}
use nautikus.Controller.Reads.{set_up, sync_status-Reads}
use nautikus.Controller.Config.{sync_status-config}
use nautikus.Controller.Observed.{observe, sync_status-observe}
use nautikus.Controller.Failing.{fails, sync_status-fails}
use nautikus.Controller.Launches.{update_dag_state-statuses}
use nautikus.Controller.Launched.{CanOwn, NotFailed, start_tasks-dag_at}
use nautikus.Controller.Same.{IsSame, IsSame-trans, begin-IsSame, update_dag_state-IsSame}
use nautikus.Controller.Progress.{AllDone, IsAcyclic}
use nautikus.Controller.Liveness.Round.{AllHandled, IsSound, Moves, launched, launched-Moves}

-- Every entry is completed, or will be by its pod.
abbrev pub WillComplete : {K : Kube} → PodStore K → Session K → Type 0
WillComplete P s =
    All (λ ts. (observe P s.dag.namespace s.dag.name s.cluster ts).state ≡ completed)
      s.dag.status.task_statuses

-- How a reconciliation ends that moves the Dag on.
pub record Advances {K : Kube} (D : DagStore K) (s : Session K) (y : Ending × Session K)
    : Type 0 where
  pub saves : y.0 ≡ save
  pub same : IsSame s.dag y.1.dag
  pub sane : NotFailed y.1.dag.status.task_statuses
  pub moves : Moves (length s.dag.status.task_statuses) y.1.dag
  pub stored : (k : NamespacedName) → D.dag_at k y.1.cluster ≡ D.dag_at k s.cluster

module _ {K : Kube} (P : PodStore K) (s : Session K) where
  none_fails :
      (sts : List TaskStatus)
      → All (λ ts. (observe P s.dag.namespace s.dag.name s.cluster ts).state ≡ completed) sts
      → any (fails P s.dag.namespace s.dag.name s.cluster) sts ≡ false
  none_fails [] h = refl
  none_fails (ts ∷ sts) h = ground (arith, h.0, none_fails sts h.1)

  All-observed :
      (sts : List TaskStatus)
      → All (λ ts. (observe P s.dag.namespace s.dag.name s.cluster ts).state ≡ completed) sts
      → AllDone (map (observe P s.dag.namespace s.dag.name s.cluster) sts)
  All-observed [] h = tt
  All-observed (ts ∷ sts) h = (h.0, All-observed sts h.1)

IsSound-later :
    (d d' : Dag) → IsSound d → d'.spec ≡ d.spec → Nodup (task_names d') → IsTracked d' → IsSound d'
IsSound-later d d' h spec u t = record {
  distinct = u;
  tracked = t;
  handled = subst (λ (sp : DagSpec). AllHandled sp.tasks) (sym spec) h.handled;
  acyclic = subst (λ (sp : DagSpec). IsAcyclic sp.tasks) (sym spec) h.acyclic;
}

running_unfinished : {state : TaskState} → state ≡ running → is_finished state ≢ true
running_unfinished h e = ground (arith, h, e)

pub begin_running :
    (d : Dag)
    → (d.status.state ≡ unset) ⊎ (d.status.state ≡ running)
    → (begin d).status.state ≡ running
begin_running d h = ground (arith, h)

module _ {K : Kube} (P : PodStore K) (D : DagStore K)
    (range : Dict String String → List (String × String)) (own : CanOwn K) where
  after_start-Advances :
      (s s1 : Session K) (x : Result (Unit {0}) × Session K)
      → x.0 ≡ ok tt
      → IsSame s.dag x.1.dag
      → NotFailed x.1.dag.status.task_statuses
      → Moves (length s.dag.status.task_statuses) (update_dag_state x.1.dag)
      → ((k : NamespacedName) → D.dag_at k x.1.cluster ≡ D.dag_at k s.cluster)
      → Advances D s (after_start x)
  unfolding after_start
  after_start-Advances s s1 (ok _, x) fine same sane moves stored = record {
    saves = refl;
    same = IsSame-trans s.dag x.dag (update_dag_state x.dag) same (update_dag_state-IsSame x.dag);
    sane = subst NotFailed (sym (update_dag_state-statuses x.dag)) sane;
    moves = moves;
    stored = stored;
  }
  after_start-Advances s s1 (err e, x) fine same sane moves stored = absurd cc

  -- The Dag after `syncStatus`.
  synced_lem :
      (s : Session K)
      → IsSound s.dag
      → (s.dag.status.state ≡ unset) ⊎ (s.dag.status.state ≡ running)
      → WillComplete P s
      → let s1 = (sync_status (set_up K range) s).1 in
        AllDone s1.dag.status.task_statuses
        × IsSound s1.dag
        × (s1.dag.status.state ≡ running)
        × IsSame s.dag s1.dag
        × (length s1.dag.status.task_statuses ≡ length s.dag.status.task_statuses)
  synced_lem s sound state will =
      let sts = s.dag.status.task_statuses in
      let s1 = (sync_status (set_up K range) s).1 in
      let synced = sync_status-Evolves (set_up K range) s in
      let started = begin-IsSame s.dag in
      let (u, t) = sync_status-IsTracked (set_up K range) s sound.distinct sound.tracked in
      let seen_now = sync_status-observe P range s sound.handled sound.tracked in
      (
        subst AllDone (sym seen_now) (All-observed P s sts will),
        IsSound-later s.dag s1.dag sound (synced.spec ∙ started.spec) u t,
        sync_status-fails P range s sound.handled sound.tracked
            ∙ rw (none_fails P s sts will) (begin_running s.dag state),
        record {
          name = synced.name ∙ started.name;
          namespace = synced.namespace ∙ started.namespace;
          spec = synced.spec ∙ started.spec;
        },
        ap length seen_now ∙ length-map (observe P s.dag.namespace s.dag.name s.cluster) sts,
      )

  -- One reconciliation.
  pub prepare-Advances :
      (s : Session K)
      → IsSound s.dag
      → 0 < pos_part s.scheduler.config.max_active_tasks
      → (s.dag.status.state ≡ unset) ⊎ (s.dag.status.state ≡ running)
      → WillComplete P s
      → Advances D s (prepare (set_up K range) s)
  prepare-Advances s sound room state will =
      let s1 = (sync_status (set_up K range) s).1 in
      let (no_error, same_cluster) = sync_status-Reads P range s in
      let (done, sound1, running1, same1, count) = synced_lem s sound state will in
      let room1 =
        subst (λ c. 0 < pos_part c.max_active_tasks) (sym (sync_status-config (set_up K range) s))
          room in
      let (fine, sane, moves) = launched-Moves P range own s1 room1 done sound1 running1 in
      let (k, more, _) = start_tasks-ExtendsBy (set_up K range) (scheduled s1) s1 in
      let same2 : IsSame s1.dag (launched P range own s1).1.dag = record {
        name = more.name;
        namespace = more.namespace;
        spec = more.spec;
      } in
      prepare_cases (set_up K range) s (Advances D s) (λ e bad. absurd cc)
        (λ _ finished. absurd (running_unfinished running1 finished))
        (λ _ _.
          after_start-Advances s s1 (launched P range own s1) fine
            (IsSame-trans s.dag s1.dag (launched P range own s1).1.dag same1 same2) sane
            (subst (λ n. Moves n (update_dag_state (launched P range own s1).1.dag)) count moves)
            (λ key.
              start_tasks-dag_at K (D.dag_at key) (D.create_pod-keeps key) range (scheduled s1) s1
              ∙ ap (D.dag_at key) same_cluster))
