-- ===== src/Controller/Tracked.antt =====
-- The invariant between specification and status, and what a completed Dag has done.
use nautikus.Prelude.{
  ℕ, ◌≡◌, ◌≢◌, refl, string_dec, sym, ◌∙◌, ap, String, ◌&&◌, none, List, [], ◌∷◌, map, ◌==◌,
  string_eq, length, take, filter, All, All-take, arith, if_ind, map-take-sublist,
  map-filter-sublist, eqb,
}
use mathlib.Core.Path.{subst, subst₂, ap₂}
use mathlib.Core.HLevel.{⊥_prop}
use mathlib.Core.Logic.{∥∥₁_prop}
use mathlib.Core.Logic.Or
use mathlib.Core.List.{
  Mem, Nodup, Sublist, Subset, Nodup-append, mem-cons, mem-append, not-mem-nil, mem-cons_self,
  mem-cons_of_mem,
}
use mathlib.Core.List.Nodup
use mathlib.Core.List.Sublist
use nautikus.Errors.{Result, ok, err}
use nautikus.Api.{unset, running, failed, TaskSpec, TaskStatus, Dag, task_state_eq, with_state}
use nautikus.Kube.{Kube}
use nautikus.Scheduler.Readiness.{
  last_state, IsReady, is_ready, free_slots, schedule-eq-take, schedule-IsReady,
}
use nautikus.Runner.{DefaultRunner}
use nautikus.Controller.Rounds.{scheduled, prepare_cases}
use nautikus.Controller.Sync.{Session, begin, sync_status}
use nautikus.Controller.Reconcile.{
  update_dag_state, all_completed, start_tasks, after_start, prepare,
}
use nautikus.Controller.Evolution.{AllLater, Evolves, sync_status-Evolves}
use nautikus.Controller.Starts.{task_name, entry_name, names, Extends, start_tasks-ExtendsBy}

abbrev pub task_names : Dag → List String
task_names d = map task_name d.spec.tasks

-- No task has two entries, and each entry is of a task of the specification.
pub record IsTracked (d : Dag) : Type 0 where
  pub nodup : Nodup (names d)
  pub listed : Subset (names d) (task_names d)

pub AllLater-names :
    (as' bs : List TaskStatus) → AllLater as' bs → map entry_name bs ≡ map entry_name as'
AllLater-names [] [] h = refl
AllLater-names (a ∷ as') (b ∷ bs) h = ap₂ (λ n l. n ∷ l) h.0.name (AllLater-names as' bs h.1)
AllLater-names [] (_ ∷ _) h = absurd h
AllLater-names (_ ∷ _) [] h = absurd h

-- A task has an entry if its name is among the names.
pub not-mem_of_last_state :
    (name : String) (sts : List TaskStatus)
    → last_state name sts ≡ none
    → ¬ Mem name (map entry_name sts)
not-mem_of_last_state name [] e m = not-mem-nil m
not-mem_of_last_state name (ts ∷ rest) e m =
    Or.elim ⊥_prop (mem-cons.0 m) (λ same. ground arith)
      (λ later. not-mem_of_last_state name rest (ground arith) later)

pub mem_of_last_state :
    (name : String) (sts : List TaskStatus)
    → last_state name sts ≢ none
    → Mem name (map entry_name sts)
mem_of_last_state name [] h = absurd (h refl)
mem_of_last_state name (ts ∷ sts) h = elim (string_dec ts.name name) [
  | yes same ↦ subst (λ n. Mem n (ts.name ∷ map entry_name sts)) same mem-cons_self
  | no differ ↦
      mem-cons_of_mem ts.name (mem_of_last_state name sts (λ e. h (ground (arith, e, differ))))
]

pub ready_absent :
    (sts : List TaskStatus) (tasks : List TaskSpec)
    → All (IsReady sts) tasks
    → (name : String) → Mem name (map task_name tasks)
    → ¬ Mem name (map entry_name sts)
ready_absent sts [] h name m m' = absurd (not-mem-nil m)
ready_absent sts (t ∷ tasks) h name m m' =
    Or.elim ⊥_prop (mem-cons.0 m)
      (λ same.
        not-mem_of_last_state t.name sts h.0.0 (subst (λ n. Mem n (map entry_name sts)) same m'))
      (λ later. ready_absent sts tasks h.1 name later m')

module _ (d d' : Dag) where
  Evolves-IsTracked : Evolves d d' → IsTracked d → IsTracked d'
  Evolves-IsTracked h t =
      let same = AllLater-names d.status.task_statuses d'.status.task_statuses h.entries in
      record {
        nodup = subst Nodup (sym same) t.nodup;
        listed = subst₂ Subset (sym same) (ap (λ sp. map task_name sp.tasks) (sym h.spec)) t.listed;
      }

  Extends-IsTracked :
      (tasks : List TaskSpec)
      → Extends tasks d d'
      → Nodup (map task_name tasks)
      → Subset (map task_name tasks) (task_names d)
      → All (IsReady d.status.task_statuses) tasks
      → IsTracked d
      → IsTracked d'
  Extends-IsTracked tasks h distinct known ready t = record {
    nodup = subst Nodup (sym h.names_added) (
        Nodup-append.1 (
          t.nodup,
          distinct,
          λ name here there. ready_absent d.status.task_statuses tasks ready name there here,
        ));
    listed =
        subst₂ Subset (sym h.names_added) (ap (λ sp. map task_name sp.tasks) (sym h.spec))
          (λ name m. Or.elim ∥∥₁_prop (mem-append.0 m) (t.listed name) (known name));
  }

pub begin-spec : (d : Dag) → (begin d).spec ≡ d.spec
begin-spec d =
    if_ind (λ (x : Dag). x.spec ≡ d.spec) (d.status.state == unset) (with_state d running) d refl
      refl

begin-IsTracked : (d : Dag) → IsTracked d → IsTracked (begin d)
begin-IsTracked d t =
    if_ind IsTracked (d.status.state == unset) (with_state d running) d
      (record { nodup = t.nodup; listed = t.listed }) t

update_dag_state-IsTracked : (d : Dag) → IsTracked d → IsTracked (update_dag_state d)
unfolding update_dag_state
update_dag_state-IsTracked d t = if_ind IsTracked (d.status.state == failed) _ _ t (
    if_ind IsTracked
      (all_completed d.status.task_statuses
        && eqb (length d.status.task_statuses) (length d.spec.tasks))
      _ _ (record { nodup = t.nodup; listed = t.listed }) t)

module _ {K : Kube} (s : Session K) where
  pub scheduled_sublist :
      (k : ℕ) → Sublist (map task_name (take k (scheduled s))) (task_names s.dag)
  scheduled_sublist k =
      let ready = filter (is_ready s.dag.status.task_statuses) s.dag.spec.tasks in
      Sublist.trans (map-take-sublist task_name k (scheduled s)) (
        Sublist.trans (map-take-sublist task_name (free_slots s.scheduler s.dag) ready)
          (map-filter-sublist task_name (is_ready s.dag.status.task_statuses) s.dag.spec.tasks))

  pub scheduled-IsReady : (k : ℕ) → All (IsReady s.dag.status.task_statuses) (take k (scheduled s))
  scheduled-IsReady k =
      All-take (IsReady s.dag.status.task_statuses) k (scheduled s)
        (schedule-IsReady s.scheduler s.dag (schedule-eq-take s.scheduler s.dag))

  pub start_tasks-IsTracked :
      (r : DefaultRunner K)
      → Nodup (task_names s.dag)
      → IsTracked s.dag
      → IsTracked (start_tasks r (scheduled s) s).1.dag
  start_tasks-IsTracked r u t =
      let (k, h, _) = start_tasks-ExtendsBy r (scheduled s) s in
      Extends-IsTracked s.dag (start_tasks r (scheduled s) s).1.dag (take k (scheduled s)) h
        (Nodup.sublist (scheduled_sublist k) u) (Sublist.subset (scheduled_sublist k))
        (scheduled-IsReady k) t

after_start-IsTracked :
    {K : Kube} (x : Result (Unit {0}) × Session K)
    → IsTracked x.1.dag
    → IsTracked (after_start x).1.dag
unfolding after_start
after_start-IsTracked (ok _, s) t = update_dag_state-IsTracked s.dag t
after_start-IsTracked (err e, s) t = t

-- The invariant and the distinct names at the end of `syncStatus`.
pub sync_status-IsTracked :
    {K : Kube} (r : DefaultRunner K) (s : Session K)
    → Nodup (task_names s.dag)
    → IsTracked s.dag
    → Nodup (task_names (sync_status r s).1.dag) × IsTracked (sync_status r s).1.dag
sync_status-IsTracked r s u t =
    let synced = sync_status-Evolves r s in
    (
      subst (λ sp. Nodup (map task_name sp.tasks)) (sym (synced.spec ∙ begin-spec s.dag)) u,
      Evolves-IsTracked (begin s.dag) (sync_status r s).1.dag synced (begin-IsTracked s.dag t),
    )

-- If no two tasks of the specification share a name, a reconciliation keeps the invariant that no task
-- has two entries, and each entry is of a task of the specification.
pub prepare-IsTracked :
    {K : Kube} (r : DefaultRunner K) (s : Session K)
    → Nodup (task_names s.dag)
    → IsTracked s.dag
    → IsTracked (prepare r s).1.dag
prepare-IsTracked r s u t =
    let s1 = (sync_status r s).1 in
    let (distinct, kept) = sync_status-IsTracked r s u t in
    prepare_cases r s (λ x. IsTracked x.1.dag) (λ _ _. kept) (λ _ _. kept)
      (λ _ _.
        after_start-IsTracked (start_tasks r (scheduled s1) s1)
          (start_tasks-IsTracked s1 r distinct kept))
