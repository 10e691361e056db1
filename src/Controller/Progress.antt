-- ===== src/Controller/Progress.antt =====
-- Where every entry is completed and the dependencies have no cycle, a task is ready.
use nautikus.Prelude.{
  ℕ, zero, suc, ◌<◌, ◌≡◌, refl, sym, ◌∙◌, ap, ◌⊎◌, inl, inr, String, Option, none, some, List, [],
  ◌∷◌, map, length, length-map, All, arith, length-le_of_Subset,
}
use mathlib.Core.List.{Memᴰ, Mem, Nodup, Subset, mem-cons, not-mem-nil}
use mathlib.Core.Path.{subst}
use mathlib.Core.Logic.{∥∥₁_prop}
use mathlib.Core.Logic.Or
use nautikus.Api.{TaskState, completed, TaskSpec, TaskStatus, Dag}
use nautikus.Scheduler.Readiness.{last_state, IsReady}
use nautikus.Controller.Starts.{task_name, entry_name}
use nautikus.Controller.Completion.{last_state-All}
use nautikus.Controller.Tracked.{task_names, mem_of_last_state}

-- Every dependency is the name of a task with a smaller rank: the dependencies are known and have no
-- cycle.
pub record IsAcyclic (tasks : List TaskSpec) : Type 0 where
  pub rank : String → ℕ
  pub below :
      (t : TaskSpec)
      → Memᴰ t tasks
      → All
          (λ dep. (u : TaskSpec) × Memᴰ u tasks × (u.name ≡ dep) × (rank dep < rank t.name))
          t.dependencies

abbrev pub AllDone : List TaskStatus → Type 0
AllDone sts = All (λ ts. ts.state ≡ completed) sts

module _ (tasks : List TaskSpec) (acyclic : IsAcyclic tasks) (sts : List TaskStatus)
    (done : AllDone sts) where
  abbrev Waiting : ℕ → Type 0
  Waiting n =
      (u : TaskSpec) × Memᴰ u tasks × (last_state u.name sts ≡ none) × (acyclic.rank u.name < n)

  -- Either all of the dependencies are completed, or one has no entry.
  scan :
      (n : ℕ) (deps : List String)
      → All (λ dep. (u : TaskSpec) × Memᴰ u tasks × (u.name ≡ dep) × (acyclic.rank dep < n)) deps
      → All (λ dep. last_state dep sts ≡ some completed) deps ⊎ Waiting n
  scan n [] h = inl tt
  scan n (dep ∷ deps) (here, later) = go (last_state dep sts) refl (scan n deps later)
    where
      go :
          (o : Option TaskState)
          → last_state dep sts ≡ o
          → All (λ dep'. last_state dep' sts ≡ some completed) deps ⊎ Waiting n
          → All (λ dep'. last_state dep' sts ≡ some completed) (dep ∷ deps) ⊎ Waiting n
      go none e rest =
          let (u, m, same, lower) = here in
          inr (
            u,
            m,
            ap (λ d. last_state d sts) same ∙ e,
            subst (λ d. acyclic.rank d < n) (sym same) lower,
          )
      go (some st) e (inl all) = inl (e ∙ ap some (last_state-All dep sts done e), all)
      go (some st) e (inr waiting) = inr waiting

  -- From a task without an entry, down the ranks to a ready one.
  IsReady-below :
      (n : ℕ) (t : TaskSpec)
      → Memᴰ t tasks
      → last_state t.name sts ≡ none
      → acyclic.rank t.name < n
      → (u : TaskSpec) × Memᴰ u tasks × IsReady sts u
  IsReady-below zero t m e lower = absurd (omega arith)
  IsReady-below (suc n) t m e lower =
      elim (scan (acyclic.rank t.name) t.dependencies (acyclic.below t m)) [
        | inl all ↦ (t, m, (e, all))
        | inr (u, m', e', lower') ↦ IsReady-below n u m' e' (omega arith)
      ]

  pub exists_IsReady :
      (t : TaskSpec)
      → Memᴰ t tasks
      → last_state t.name sts ≡ none
      → (u : TaskSpec) × Memᴰ u tasks × IsReady sts u
  exists_IsReady t m e = IsReady-below (suc (acyclic.rank t.name)) t m e (omega arith)

-- Either each of the tasks has an entry, or one has none.
entries_or_missing :
    (sts : List TaskStatus) (tasks : List TaskSpec)
    → Subset (map task_name tasks) (map entry_name sts)
      ⊎ ((t : TaskSpec) × Memᴰ t tasks × (last_state t.name sts ≡ none))
entries_or_missing sts [] = inl (λ name m. absurd (not-mem-nil m))
entries_or_missing sts (t ∷ tasks) = go (last_state t.name sts) refl (entries_or_missing sts tasks)
  where
    go :
        (o : Option TaskState)
        → last_state t.name sts ≡ o
        → Subset (map task_name tasks) (map entry_name sts)
          ⊎ ((u : TaskSpec) × Memᴰ u tasks × (last_state u.name sts ≡ none))
        → Subset (map task_name (t ∷ tasks)) (map entry_name sts)
          ⊎ ((u : TaskSpec) × Memᴰ u (t ∷ tasks) × (last_state u.name sts ≡ none))
    go none e rest = inr (t, Memᴰ.head refl, e)
    go (some st) e (inl all) = inl (λ name m.
        Or.elim ∥∥₁_prop (mem-cons.0 m)
          (λ same.
            subst (λ n. Mem n (map entry_name sts)) (sym same)
              (mem_of_last_state t.name sts (λ n. ground (arith, n, e))))
          (all name))
    go (some st) e (inr (u, m, none_yet)) = inr (u, Memᴰ.tail m, none_yet)

-- Where fewer entries than tasks are there, a task has none.
pub missing_task :
    (d : Dag)
    → Nodup (task_names d)
    → length d.status.task_statuses < length d.spec.tasks
    → (t : TaskSpec) × Memᴰ t d.spec.tasks × (last_state t.name d.status.task_statuses ≡ none)
missing_task d u fewer = elim (entries_or_missing d.status.task_statuses d.spec.tasks) [
  | inl all ↦ absurd (
      omega (
        arith,
        length-le_of_Subset u all,
        length-map task_name d.spec.tasks,
        length-map entry_name d.status.task_statuses,
      ))
  | inr missing ↦ missing
]
