-- ===== src/Controller/Additions.antt =====
-- The entries that a reconciliation adds, and that it leaves the others alone.
use nautikus.Prelude.{
  ℕ, suc, ◌≡◌, ◌≢◌, refl, sym, ◌∙◌, ap, ◌⊎◌, inl, inr, String, ◌<>◌, List, [], ◌∷◌, ◌++◌, map,
  string_eq, take, arith,
}
use mathlib.Core.Path.{subst}
use mathlib.Core.HLevel.{⊥_prop}
use mathlib.Core.Logic.Or
use mathlib.Core.List.{
  Mem, Nodup, Nodup-cons, append_assoc, append-nil, map-append, mem-cons_self, mem-cons_of_mem,
  mem-append, mem-cons, not-mem-nil,
}
use nautikus.Errors.{Result, ok, err}
use nautikus.Api.{pending, failed, TaskSpec, TaskStatus, Dag, task_state_eq}
use nautikus.Kube.{Kube}
use nautikus.Executor.{Executor}
use nautikus.Executor.Registry.{get}
use nautikus.Runner.{
  DefaultRunner, Outcome, no_executor, run_failed, started, run, run_with, run_result,
}
use nautikus.Controller.Sync.{Session, and_then}
use nautikus.Controller.Reconcile.{
  update_first, new_entry, announce, set_error, set_result, settle, start_task, start_tasks,
}
use nautikus.Controller.Starts.{task_name, entry_name, names, start_task-Extends}

-- The entry of a task that was started: pending, or failed if the runner reported an error.
pub record IsStart (dag_name : String) (task : TaskSpec) (entry : TaskStatus) : Type 0 where
  pub name : entry.name ≡ task.name
  pub pod_name : entry.pod_name ≡ dag_name <> ("-" <> task.name)
  pub state : (entry.state ≡ pending) ⊎ (entry.state ≡ failed)

-- Entry by entry.
abbrev pub AllStart : String → List TaskSpec → List TaskStatus → Type 0
AllStart dag_name [] [] = Unit
AllStart dag_name [] (_ ∷ _) = ⊥
AllStart dag_name (_ ∷ _) [] = ⊥
AllStart dag_name (t ∷ ts) (e ∷ es) = IsStart dag_name t e × AllStart dag_name ts es

pub update_first_snoc :
    (name : String) (f : TaskStatus → TaskStatus) (e : TaskStatus) (sts : List TaskStatus)
    → ¬ Mem name (map entry_name sts)
    → e.name ≡ name
    → update_first name f (sts ++ e ∷ []) ≡ sts ++ f e ∷ []
unfolding update_first
update_first_snoc name f e [] absent same = ground arith
update_first_snoc name f e (ts ∷ rest) absent same =
    let other : ts.name ≢ name =
      λ h. absent (subst (λ n. Mem n (map entry_name (ts ∷ rest))) h mem-cons_self) in
    ground (arith, update_first_snoc name f e rest (λ m. absent (mem-cons_of_mem ts.name m)) same)

-- What `Run` answers when it reports success.
abbrev pub Succeeds : Dag → TaskSpec → Outcome → Type 0
Succeeds d task (started x) = (x.state ≡ pending) × (x.pod_name ≡ d.name <> ("-" <> task.name))
Succeeds d task _ = Unit

run_result-Succeeds :
    (d : Dag) (task : TaskSpec) (answer : Result (Unit {0}))
    → Succeeds d task (run_result d task answer)
unfolding run_result
run_result-Succeeds d task (ok _) = (refl, refl)
run_result-Succeeds d task (err e) = tt

module _ {K : Kube} where
  pub run_with-Succeeds :
      (x : Result (Executor K)) (d : Dag) (task : TaskSpec) (c : K.Cluster)
      → Succeeds d task (run_with x d task c).0
  unfolding run_with
  run_with-Succeeds (ok exec) d task c = run_result-Succeeds d task (exec.execute d task c).0
  run_with-Succeeds (err e) d task c = tt

  -- `announced` is the session after the entry was appended.
  settle-adds :
      (task : TaskSpec) (outcome : Outcome) (s : Session K) (d : Dag)
      → ¬ Mem task.name (names d)
      → s.dag.status.task_statuses ≡ d.status.task_statuses ++ new_entry d task ∷ []
      → Succeeds d task outcome
      → (entry : TaskStatus) × IsStart d.name task entry
        × ((settle task outcome s).1.dag.status.task_statuses
            ≡ d.status.task_statuses ++ entry ∷ [])
  unfolding settle
  settle-adds task (no_executor e) s d absent now h = (
    set_error e (new_entry d task),
    record { name = refl; pod_name = refl; state = inr refl },
    rw now (
        update_first_snoc task.name (set_error e) (new_entry d task) d.status.task_statuses absent
          refl),
  )
  settle-adds task (run_failed x e) s d absent now h = (
    set_error e (new_entry d task),
    record { name = refl; pod_name = refl; state = inr refl },
    rw now (
        update_first_snoc task.name (set_error e) (new_entry d task) d.status.task_statuses absent
          refl),
  )
  settle-adds task (started x) s d absent now h = (
    set_result x (new_entry d task),
    record { name = refl; pod_name = h.1; state = inl h.0 },
    rw now (
        update_first_snoc task.name (set_result x) (new_entry d task) d.status.task_statuses absent
          refl),
  )

  -- The entry of a started task comes last, and the other entries are untouched.
  abbrev pub Adds : TaskSpec → Session K → Session K → Type 0
  Adds task s s' =
      (entry : TaskStatus) × IsStart s.dag.name task entry
      × (s'.dag.status.task_statuses ≡ s.dag.status.task_statuses ++ entry ∷ [])
      × (s'.dag.name ≡ s.dag.name)

  pub start_task-Adds :
      (r : DefaultRunner K) (task : TaskSpec) (s : Session K)
      → ¬ Mem task.name (names s.dag)
      → Adds task s (start_task r task s).1
  unfolding start_task run
  start_task-Adds r task s absent =
      let announced = announce task s in
      let (outcome, c) = run r announced.dag task announced.cluster in
      let (entry, h, e) =
        settle-adds task outcome (record announced { cluster = c }) s.dag absent refl
          (run_with-Succeeds (get task.type r.executor_registry) announced.dag task
            announced.cluster) in
      (entry, h, e, (start_task-Extends r task s).name)

  -- Entries are added for the first tasks, for all of them unless an error is returned.
  abbrev pub AddsAll : List TaskSpec → Session K → Result (Unit {0}) × Session K → Type 0
  AddsAll tasks s y =
      (k : ℕ) × (new : List TaskStatus) × AllStart s.dag.name (take k tasks) new
      × (y.1.dag.status.task_statuses ≡ s.dag.status.task_statuses ++ new)
      × (y.0 ≡ ok tt → take k tasks ≡ tasks)

  -- None of the tasks has an entry.
  abbrev pub Absent : List TaskSpec → Session K → Type 0
  Absent tasks s = (name : String) → Mem name (map task_name tasks) → ¬ Mem name (names s.dag)

  pub Absent-rest :
      (task : TaskSpec) (tasks : List TaskSpec) (s s' : Session K)
      → Nodup (map task_name (task ∷ tasks))
      → Absent (task ∷ tasks) s
      → Adds task s s'
      → Absent tasks s'
  Absent-rest task tasks s s' distinct absent (entry, h, e, _) name m m' =
      let here : Mem name (map entry_name s.dag.status.task_statuses ++ entry.name ∷ []) =
        subst (Mem name)
          (ap (map entry_name) e ∙ map-append entry_name s.dag.status.task_statuses (entry ∷ []))
          m' in
      Or.elim ⊥_prop (mem-append.0 here) (λ old. absent name (mem-cons_of_mem task.name m) old)
        (λ last.
          Or.elim ⊥_prop (mem-cons.0 last)
            (λ same.
              (Nodup-cons.0 distinct).0
                (subst (λ n. Mem n (map task_name tasks)) (same ∙ h.name) m))
            (λ none. not-mem-nil none))

  AddsAll-and_then :
      (r : DefaultRunner K) (task : TaskSpec) (tasks : List TaskSpec) (s : Session K)
      (x : Result (Unit {0}) × Session K)
      → Adds task s x.1
      → AddsAll tasks x.1 (start_tasks r tasks x.1)
      → AddsAll (task ∷ tasks) s (and_then x (start_tasks r tasks))
  AddsAll-and_then r task tasks s (err e, s') (entry, h, added, _) rest =
      (1, entry ∷ [], (h, tt), added, λ impossible. cc)
  AddsAll-and_then r task tasks s (ok _, s') (entry, h, added, same) (k, new, starts, more, all) = (
    suc k,
    entry ∷ new,
    (h, subst (λ n. AllStart n (take k tasks) new) same starts),
    more ∙ ap (λ l. l ++ new) added ∙ append_assoc s.dag.status.task_statuses (entry ∷ []) new,
    λ done. ap (λ l. task ∷ l) (all done),
  )

  pub start_tasks-adds :
      (r : DefaultRunner K) (tasks : List TaskSpec) (s : Session K)
      → Nodup (map task_name tasks)
      → Absent tasks s
      → AddsAll tasks s (start_tasks r tasks s)
  unfolding start_tasks
  start_tasks-adds r [] s distinct absent =
      (0, [], tt, sym (append-nil s.dag.status.task_statuses), λ _. refl)
  start_tasks-adds r (task ∷ tasks) s distinct absent =
      let now = start_task-Adds r task s (absent task.name mem-cons_self) in
      let (_, distinct') = Nodup-cons.0 distinct in
      AddsAll-and_then r task tasks s (start_task r task s) now (
        start_tasks-adds r tasks (start_task r task s).1 distinct'
          (Absent-rest task tasks s (start_task r task s).1 distinct absent now))
