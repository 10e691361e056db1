-- ===== src/Controller/Completion.antt =====
-- When a Dag is reported as completed.
use nautikus.Prelude.{
  ◌≡◌, ◌≢◌, refl, sym, ◌∙◌, ap, String, true, Option, none, some, List, [], ◌∷◌, map, string_eq,
  length, length-map, All, arith, perm_of_Subset,
}
use mathlib.Core.Path.{subst}
use mathlib.Core.List.{Mem, Nodup, mem-cons_self, mem-cons_of_mem}
use mathlib.Core.List.Perm
use nautikus.Errors.{Result, ok, err}
use nautikus.Api.{TaskState, completed, TaskSpec, TaskStatus, Dag, task_state_eq, with_state}
use nautikus.Kube.{Kube}
use nautikus.Scheduler.Readiness.{last_state}
use nautikus.Runner.{DefaultRunner}
use nautikus.Controller.Sync.{Session, begin, sync_status}
use nautikus.Controller.Reconcile.{
  update_dag_state, all_completed, start_tasks, after_start, prepare,
}
use nautikus.Controller.Evolution.{sync_status-Evolves}
use nautikus.Controller.Starts.{task_name, entry_name, names, start_tasks-ExtendsBy}
use nautikus.Controller.Rounds.{scheduled, prepare_cases}
use nautikus.Controller.Tracked.{
  task_names, IsTracked, not-mem_of_last_state, start_tasks-IsTracked, sync_status-IsTracked,
}

-- The last entry of every task of the specification says that it is completed.
abbrev pub AllCompleted : Dag → Type 0
AllCompleted d = All (λ t. last_state t.name d.status.task_statuses ≡ some completed) d.spec.tasks

pub all_completed-All :
    (sts : List TaskStatus) → all_completed sts ≡ true → All (λ ts. ts.state ≡ completed) sts
unfolding all_completed
all_completed-All [] e = tt
all_completed-All (ts ∷ rest) e = (ground arith, all_completed-All rest (ground arith))

pub last_state-All :
    (name : String) (sts : List TaskStatus) {state : TaskState}
    → All (λ ts. ts.state ≡ completed) sts
    → last_state name sts ≡ some state
    → state ≡ completed
last_state-All name [] h e = cc
last_state-All name (ts ∷ rest) {state} h e =
    ground (arith, last_state-All name rest {state = state} h.1)

pub last_state_of_mem :
    (name : String) (sts : List TaskStatus)
    → All (λ ts. ts.state ≡ completed) sts
    → Mem name (map entry_name sts)
    → last_state name sts ≡ some completed
last_state_of_mem name sts h m = go (last_state name sts) refl
  where
    go : (o : Option TaskState) → last_state name sts ≡ o → o ≡ some completed
    go none e = absurd (not-mem_of_last_state name sts e m)
    go (some state) e = ap some (last_state-All name sts h e)

All-of_Mem :
    (sts : List TaskStatus) (tasks : List TaskSpec)
    → All (λ ts. ts.state ≡ completed) sts
    → ((name : String) → Mem name (map task_name tasks) → Mem name (map entry_name sts))
    → All (λ t. last_state t.name sts ≡ some completed) tasks
All-of_Mem sts [] h sub = tt
All-of_Mem sts (t ∷ tasks) h sub = (
  last_state_of_mem t.name sts h (sub t.name mem-cons_self),
  All-of_Mem sts tasks h (λ name m. sub name (mem-cons_of_mem t.name m)),
)

update_dag_state_facts :
    (d : Dag)
    → d.status.state ≢ completed
    → (update_dag_state d).status.state ≡ completed
    → (all_completed d.status.task_statuses ≡ true)
      × (length d.status.task_statuses ≡ length d.spec.tasks)
      × (update_dag_state d ≡ with_state d completed)
unfolding update_dag_state
update_dag_state_facts d open_before e = ground arith

-- The test of `updateDAGState` compares two lengths. Under the invariant it means that every task
-- is completed.
pub update_dag_state-AllCompleted :
    (d : Dag)
    → IsTracked d
    → d.status.state ≢ completed
    → (update_dag_state d).status.state ≡ completed
    → AllCompleted (update_dag_state d)
update_dag_state-AllCompleted d t open_before e =
    let sts = d.status.task_statuses in
    let (all, same_length, result) = update_dag_state_facts d open_before e in
    let same : length (names d) ≡ length (task_names d) =
      length-map entry_name sts ∙ same_length ∙ sym (length-map task_name d.spec.tasks) in
    let listed = perm_of_Subset t.nodup t.listed same in
    subst AllCompleted (sym result)
      (All-of_Mem sts d.spec.tasks (all_completed-All sts all) (Perm.subset (Perm.symm listed)))

after_start-AllCompleted :
    {K : Kube} (x : Result (Unit {0}) × Session K)
    → IsTracked x.1.dag
    → x.1.dag.status.state ≢ completed
    → (after_start x).1.dag.status.state ≡ completed
    → AllCompleted (after_start x).1.dag
unfolding after_start
after_start-AllCompleted (ok _, s) t open_before e =
    update_dag_state-AllCompleted s.dag t open_before e
after_start-AllCompleted (err x, s) t open_before e = absurd (open_before e)

begin_open : (d : Dag) → d.status.state ≢ completed → (begin d).status.state ≢ completed
begin_open d h = ground arith

module _ {K : Kube} (r : DefaultRunner K) (s : Session K) where
  sync_status_open :
      s.dag.status.state ≢ completed → (sync_status r s).1.dag.status.state ≢ completed
  sync_status_open h =
      let synced = sync_status-Evolves r s in
      let before = begin_open s.dag h in ground (arith, synced.state)

  start_tasks_open :
      (tasks : List TaskSpec)
      → s.dag.status.state ≢ completed
      → (start_tasks r tasks s).1.dag.status.state ≢ completed
  start_tasks_open tasks h =
      let (k, h', _) = start_tasks-ExtendsBy r tasks s in ground (arith, h'.state)

-- If no two tasks of the specification share a name, no task has two entries and each entry is of a
-- task of the specification, then, if a reconciliation moves a Dag that was not completed to
-- completed, the last entry of every task of the specification is completed.
pub prepare-AllCompleted :
    {K : Kube} (r : DefaultRunner K) (s : Session K)
    → Nodup (task_names s.dag)
    → IsTracked s.dag
    → s.dag.status.state ≢ completed
    → (prepare r s).1.dag.status.state ≡ completed
    → AllCompleted (prepare r s).1.dag
prepare-AllCompleted r s u t open_before =
    let s1 = (sync_status r s).1 in
    let (distinct, kept) = sync_status-IsTracked r s u t in
    let open1 = sync_status_open r s open_before in
    prepare_cases r s (λ x. x.1.dag.status.state ≡ completed → AllCompleted x.1.dag)
      (λ _ _ e. absurd (open1 e)) (λ _ _ e. absurd (open1 e))
      (λ _ _.
        after_start-AllCompleted (start_tasks r (scheduled s1) s1)
          (start_tasks-IsTracked s1 r distinct kept) (start_tasks_open r s1 (scheduled s1) open1))
