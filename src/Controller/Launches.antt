-- ===== src/Controller/Launches.antt =====
-- What a reconciliation starts: ready tasks only, and no more than the limit allows.
use nautikus.Prelude.{
  ◌⊎◌, inl, inr, ℕ, ◌+◌, ◌≤◌, ◌≡◌, ◌≢◌, refl, sym, ◌∙◌, ap, String, List, [], ◌∷◌, ◌++◌, map,
  length, length-take, take, take_all, All, All-take, All-self, All-filter_of_All, arith, pos_part,
  if_ind, ◌==◌,
}
use mathlib.Core.Path.{subst, subst₂}
use mathlib.Core.List.{append-nil, Nodup, Memᴰ}
use mathlib.Core.List.Nodup
use nautikus.Errors.{Result, ok, err}
use nautikus.Api.{unset, running, TaskSpec, TaskStatus, Dag, DagSpec, task_state_eq, with_state}
use nautikus.Kube.{Kube}
use nautikus.Scheduler.Readiness.{IsReady, is_ready, free_slots, schedule-eq-take}
use nautikus.Scheduler.Limit.{active, schedule-le-max_active_tasks}
use nautikus.Runner.{DefaultRunner}
use nautikus.Controller.Sync.{Session, begin, sync_status}
use nautikus.Controller.Reconcile.{update_dag_state, start_tasks, after_start, prepare}
use nautikus.Controller.Evolution.{AllLater, sync_status-Evolves}
use nautikus.Controller.Starts.{task_name}
use nautikus.Controller.Rounds.{scheduled, prepare_cases}
use nautikus.Controller.Tracked.{
  begin-spec, task_names, ready_absent, scheduled_sublist, scheduled-IsReady,
}
use nautikus.Controller.Additions.{Absent, AddsAll, AllStart, start_tasks-adds}
use nautikus.Controller.Config.{sync_status-config}

-- From the entries `sts`, the entries `sts'` are reached by evolving them into `old` and adding one
-- entry for each of the tasks `started`, which are all among `tasks`, were ready by `old` and fit
-- under the limit.
pub record Launches (limit : ℕ) (dag_name : String) (tasks : List TaskSpec)
    (old sts' : List TaskStatus) : Type 0 where
  pub started : List TaskSpec
  pub known : All (λ t. Memᴰ t tasks) started
  pub new : List TaskStatus
  pub result : sts' ≡ old ++ new
  pub ready : All (IsReady old) started
  pub starts : AllStart dag_name started new
  pub limited : (new ≡ []) ⊎ (length (active old) + length new ≤ limit)

pub AllStart-length :
    (dag_name : String) (ts : List TaskSpec) (es : List TaskStatus)
    → AllStart dag_name ts es
    → length es ≡ length ts
AllStart-length dag_name [] [] h = refl
AllStart-length dag_name (t ∷ ts) (e ∷ es) h = omega (arith, AllStart-length dag_name ts es h.1)
AllStart-length dag_name [] (_ ∷ _) h = absurd h
AllStart-length dag_name (_ ∷ _) [] h = absurd h

Launches-none :
    (limit : ℕ) (dag_name : String) (tasks : List TaskSpec) (old : List TaskStatus)
    → Launches limit dag_name tasks old old
Launches-none limit dag_name tasks old = record {
  started = [];
  known = tt;
  new = [];
  result = sym (append-nil old);
  ready = tt;
  starts = tt;
  limited = inl refl;
}

pub update_dag_state-statuses :
    (d : Dag) → (update_dag_state d).status.task_statuses ≡ d.status.task_statuses
unfolding update_dag_state
update_dag_state-statuses d = ground arith

after_start-statuses :
    {K : Kube} (x : Result (Unit {0}) × Session K)
    → (after_start x).1.dag.status.task_statuses ≡ x.1.dag.status.task_statuses
unfolding after_start
after_start-statuses (ok _, s) = update_dag_state-statuses s.dag
after_start-statuses (err e, s) = refl

nonempty_lem : (new : List TaskStatus) → new ≢ [] → length new ≢ 0
nonempty_lem [] h = absurd (h refl)
nonempty_lem (e ∷ es) h = λ impossible. omega arith

empty_or : {Q : Type 0} (new : List TaskStatus) → (new ≢ [] → Q) → (new ≡ []) ⊎ Q
empty_or [] h = inl refl
empty_or (e ∷ es) h = inr (h (λ impossible. cc))

pub begin-statuses : (d : Dag) → (begin d).status.task_statuses ≡ d.status.task_statuses
begin-statuses d =
    if_ind (λ (x : Dag). x.status.task_statuses ≡ d.status.task_statuses) (d.status.state == unset)
      (with_state d running) d refl refl

pub begin-name : (d : Dag) → (begin d).name ≡ d.name
begin-name d =
    if_ind (λ (x : Dag). x.name ≡ d.name) (d.status.state == unset) (with_state d running) d refl
      refl

after_start_lem :
    {K : Kube} (limit : ℕ) (dag_name : String) (tasks : List TaskSpec) (old : List TaskStatus)
    (x : Result (Unit {0}) × Session K)
    → Launches limit dag_name tasks old x.1.dag.status.task_statuses
    → Launches limit dag_name tasks old (after_start x).1.dag.status.task_statuses
after_start_lem limit dag_name tasks old x h =
    subst (Launches limit dag_name tasks old) (sym (after_start-statuses x)) h

-- The tasks that `Schedule` returns have distinct names and no entries.
pub scheduled_new :
    {K : Kube} (s : Session K)
    → Nodup (task_names s.dag)
    → Nodup (map task_name (scheduled s)) × Absent (scheduled s) s
scheduled_new s u =
    let sts = s.dag.status.task_statuses in
    let all = take_all (length (scheduled s)) (scheduled s) (omega arith) in
    (
      subst (λ l. Nodup (map task_name l)) all
          (Nodup.sublist (scheduled_sublist s (length (scheduled s))) u),
      ready_absent sts (scheduled s)
          (subst (All (IsReady sts)) all (scheduled-IsReady s (length (scheduled s)))),
    )

module _ {K : Kube} (r : DefaultRunner K) (s : Session K) where
  limited_lem :
      (k : ℕ) (new : List TaskStatus)
      → length new ≡ length (take k (scheduled s))
      → new ≢ []
      → length (active s.dag.status.task_statuses) + length new
        ≤ pos_part s.scheduler.config.max_active_tasks
  limited_lem k new same some_new =
      let some_length : length new ≢ 0 = nonempty_lem new some_new in
      let shorter = length-take k (scheduled s) in
      let bound =
        schedule-le-max_active_tasks s.scheduler s.dag (schedule-eq-take s.scheduler s.dag)
          (λ empty. some_length (omega (arith, same, shorter, ap length empty))) in
      omega (arith, same, shorter, bound)

  pub scheduled_adds :
      Nodup (task_names s.dag) → AddsAll (scheduled s) s (start_tasks r (scheduled s) s)
  scheduled_adds u =
      let (distinct, absent) = scheduled_new s u in
      start_tasks-adds r (scheduled s) s distinct absent

  start_tasks-Launches :
      Nodup (task_names s.dag)
      → Launches
          (pos_part s.scheduler.config.max_active_tasks)
          s.dag.name
          s.dag.spec.tasks
          s.dag.status.task_statuses
          (start_tasks r (scheduled s) s).1.dag.status.task_statuses
  start_tasks-Launches u =
      let (k, new, starts, result, _) = scheduled_adds u in
      record {
        started = take k (scheduled s);
        known = All-take _ k (scheduled s) (
            All-take _ (free_slots s.scheduler s.dag) _ (
              All-filter_of_All _ (is_ready s.dag.status.task_statuses) s.dag.spec.tasks
                (All-self s.dag.spec.tasks)));
        new = new;
        result = result;
        ready = scheduled-IsReady s k;
        starts = starts;
        limited = empty_or new (λ some_new.
            limited_lem k new (AllStart-length s.dag.name (take k (scheduled s)) new starts)
              some_new);
      }

pub sync_status-spec :
    {K : Kube} (r : DefaultRunner K) (s : Session K) → (sync_status r s).1.dag.spec ≡ s.dag.spec
sync_status-spec r s = (sync_status-Evolves r s).spec ∙ begin-spec s.dag

-- What `prepare` starts after `syncStatus`.
pub prepare-starts :
    {K : Kube} (r : DefaultRunner K) (s : Session K)
    → Nodup (task_names s.dag)
    → Launches
        (pos_part s.scheduler.config.max_active_tasks)
        s.dag.name
        s.dag.spec.tasks
        (sync_status r s).1.dag.status.task_statuses
        (prepare r s).1.dag.status.task_statuses
prepare-starts r s u =
    let s1 = (sync_status r s).1 in
    let old = s1.dag.status.task_statuses in
    let limit = pos_part s.scheduler.config.max_active_tasks in
    let tasks = s.dag.spec.tasks in
    let distinct = subst (λ sp. Nodup (map task_name sp.tasks)) (sym (sync_status-spec r s)) u in
    let none_started = Launches-none limit s.dag.name tasks old in
    prepare_cases r s (λ x. Launches limit s.dag.name tasks old x.1.dag.status.task_statuses)
      (λ _ _. none_started) (λ _ _. none_started)
      (λ _ _. after_start_lem limit s.dag.name tasks old (start_tasks r (scheduled s1) s1) (
        subst₂
          (λ (x : ℕ × String) (sp : DagSpec).
            Launches x.0 x.1 sp.tasks old
              (start_tasks r (scheduled s1) s1).1.dag.status.task_statuses)
          (λ i. (
            pos_part (sync_status-config r s i).max_active_tasks,
            ((sync_status-Evolves r s).name ∙ begin-name s.dag) i,
          ))
          (sync_status-spec r s) (start_tasks-Launches r s1 distinct)))

-- What `syncStatus` makes of the entries.
pub sync_status-AllLater :
    {K : Kube} (r : DefaultRunner K) (s : Session K)
    → AllLater s.dag.status.task_statuses (sync_status r s).1.dag.status.task_statuses
sync_status-AllLater r s =
    subst (λ sts. AllLater sts (sync_status r s).1.dag.status.task_statuses) (begin-statuses s.dag)
      (sync_status-Evolves r s).entries

-- If no two tasks of the specification share a name, then, whatever the executors and the client
-- answer, a reconciliation first evolves the entries into `old`, where names, pod names, messages
-- and the states of completed and failed entries stay, and then only appends entries, one for each
-- of the tasks of the specification that it starts, in order, with the task's pod name and the state pending or failed. By
-- `old`, none of the started tasks had an entry and all of their dependencies were completed. If
-- any is started, the entries of `old` that are running or pending and the new ones are together
-- at most `MaxActiveTasks`.
pub prepare-Launches :
    {K : Kube} (r : DefaultRunner K) (s : Session K)
    → Nodup (task_names s.dag)
    → (old : List TaskStatus) × AllLater s.dag.status.task_statuses old
      × Launches
          (pos_part s.scheduler.config.max_active_tasks)
          s.dag.name
          s.dag.spec.tasks
          old
          (prepare r s).1.dag.status.task_statuses
prepare-Launches r s u =
    ((sync_status r s).1.dag.status.task_statuses, sync_status-AllLater r s, prepare-starts r s u)
