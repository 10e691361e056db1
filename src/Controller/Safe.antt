-- ===== src/Controller/Safe.antt =====
-- What holds of every Dag that the reconciler stores.
use nautikus.Prelude.{
  ℕ, ◌≡◌, sym, ap, inl, inr, ◌+◌, ◌≤◌, String, List, [], ◌∷◌, ◌++◌, map, length, All, All-imp,
  All-append, arith, pos_part,
}
use mathlib.Core.Path.{subst}
use mathlib.Core.List.{Nodup}
use nautikus.Api.{TaskState-discrete, completed, TaskSpec, TaskStatus, Dag, DagSpec, task_state_eq}
use nautikus.Kube.{Kube}
use nautikus.Scheduler.Limit.{active}
use nautikus.Runner.{DefaultRunner}
use nautikus.Controller.Sync.{Session, begin, sync_status}
use nautikus.Controller.Reconcile.{prepare}
use nautikus.Controller.Starts.{task_name}
use nautikus.Controller.Tracked.{task_names, IsTracked, prepare-IsTracked}
use nautikus.Controller.Completion.{AllCompleted, prepare-AllCompleted}
use nautikus.Controller.Launches.{Launches, prepare-starts, sync_status-AllLater, begin-statuses}
use nautikus.Controller.Same.{prepare-IsSame}
use nautikus.Controller.Ordered.{Completed, IsOrdered, Launches-IsOrdered, Completed-stays}
use nautikus.Controller.Walks.{AnswersKnown, sync_status-Walk}
use nautikus.Controller.Known.{AllKnown, AllStart-AllKnown, Walk-active}

-- No two tasks share a name, no task has two entries, each entry is of a task of the specification and
-- in one of the four states, a task has an entry only if all of its dependencies are completed, at most
-- `limit` entries are running or pending, and a Dag that is completed has completed all of its tasks.
pub record IsSafe (limit : ℕ) (d : Dag) : Type 0 where
  pub distinct : Nodup (task_names d)
  pub tracked : IsTracked d
  pub known : AllKnown d.status.task_statuses
  pub ordered : IsOrdered d.spec.tasks d.status.task_statuses
  pub limited : length (active d.status.task_statuses) ≤ limit
  pub complete : d.status.state ≡ completed → AllCompleted d

active-append :
    (as' bs : List TaskStatus) → length (active (as' ++ bs)) ≤ length (active as') + length bs
active-append [] [] = omega arith
active-append [] (b ∷ bs) = ground (arith, active-append [] bs)
active-append (a ∷ as') bs = ground (arith, active-append as' bs)

-- What a start leaves of the entries.
module _ (limit : ℕ) (dag_name : String) (tasks : List TaskSpec) (old sts' : List TaskStatus)
    (h : Launches limit dag_name tasks old sts') where
  Launches-AllKnown : AllKnown old → AllKnown sts'
  Launches-AllKnown known =
      subst AllKnown (sym h.result)
        (All-append _ old h.new known (AllStart-AllKnown dag_name h.started h.new h.starts))

  Launches-limited : length (active old) ≤ limit → length (active sts') ≤ limit
  Launches-limited fits =
      let bound = active-append old h.new in
      let size = ap (λ l. length (active l)) h.result in
      elim h.limited [
        | inl empty ↦ omega (arith, fits, bound, size, ap length empty)
        | inr room ↦ omega (arith, room, bound, size)
      ]

module _ {K : Kube} (r : DefaultRunner K) (answers : AnswersKnown r) (s : Session K) where
  prepared_complete :
      IsSafe (pos_part s.scheduler.config.max_active_tasks) s.dag
      → (prepare r s).1.dag.status.state ≡ completed
      → AllCompleted (prepare r s).1.dag
  prepared_complete h done = elim (TaskState-discrete s.dag.status.state completed) [
    | no differ ↦ prepare-AllCompleted r s h.distinct h.tracked differ done
    | yes before ↦
        let sts' = (prepare r s).1.dag.status.task_statuses in
        subst (λ (sp : DagSpec). All (λ t. Completed sts' t.name) sp.tasks)
          (sym (prepare-IsSame r s).spec)
          (All-imp (λ t. Completed s.dag.status.task_statuses t.name) (λ t. Completed sts' t.name)
            (λ t.
              Completed-stays (pos_part s.scheduler.config.max_active_tasks) s.dag.name
                s.dag.spec.tasks h.distinct s.dag.status.task_statuses
                (sync_status r s).1.dag.status.task_statuses sts' (sync_status-AllLater r s)
                (prepare-starts r s h.distinct) t.name)
            s.dag.spec.tasks (h.complete before))
  ]

  pub prepare-IsSafe :
      IsSafe (pos_part s.scheduler.config.max_active_tasks) s.dag
      → IsSafe (pos_part s.scheduler.config.max_active_tasks) (prepare r s).1.dag
  prepare-IsSafe h =
      let limit = pos_part s.scheduler.config.max_active_tasks in
      let tasks = s.dag.spec.tasks in
      let old = (sync_status r s).1.dag.status.task_statuses in
      let sts' = (prepare r s).1.dag.status.task_statuses in
      let starts = prepare-starts r s h.distinct in
      let same = prepare-IsSame r s in
      let statuses = begin-statuses s.dag in
      let (known, fewer) =
        Walk-active r (record s { dag = begin s.dag }) (sync_status-Walk r answers s)
          (subst AllKnown (sym statuses) h.known) in
      record {
        distinct =
            subst (λ (sp : DagSpec). Nodup (map task_name sp.tasks)) (sym same.spec) h.distinct;
        tracked = prepare-IsTracked r s h.distinct h.tracked;
        known = Launches-AllKnown limit s.dag.name tasks old sts' starts known;
        ordered =
            subst (λ (sp : DagSpec). IsOrdered sp.tasks sts') (sym same.spec)
              (Launches-IsOrdered limit s.dag.name tasks h.distinct s.dag.status.task_statuses old
                sts' (sync_status-AllLater r s) starts h.ordered);
        limited =
            Launches-limited limit s.dag.name tasks old sts' starts
              (omega (arith, fewer, ap (λ l. length (active l)) statuses, h.limited));
        complete = prepared_complete h;
      }
