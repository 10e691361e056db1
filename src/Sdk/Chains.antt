-- ===== src/Sdk/Chains.antt =====
-- The order that `AddSequential` gives to tasks.
use nautikus.Prelude.{
  ◌≡◌, ◌≢◌, refl, sym, ◌∙◌, String, List, [], ◌∷◌, ◌++◌, string_eq, string_dec, All, arith,
}
use mathlib.Core.List.{append-nil, append_assoc}
use nautikus.Sdk.Defs.{
  Task, TaskDef, DagBuilder, simple_task, after, add_sequential_from, add_sequential,
}

abbrev pub Named : {Fn : Type 0} → List (Task Fn) → Type 0
Named ts = All (λ t. t.name ≢ "") ts

module _ {Fn BranchFn : Type 0} where
  -- The definitions `new` are those of the tasks in order, and each has its task's dependencies after
  -- the name of the task before it. `prev` is what comes before the first.
  abbrev pub IsChain : List String → List (Task Fn) → List (TaskDef Fn BranchFn) → Type 0
  IsChain prev [] [] = Unit
  IsChain prev [] (_ ∷ _) = ⊥
  IsChain prev (_ ∷ _) [] = ⊥
  IsChain prev (t ∷ ts) (d ∷ ds) =
      (d.name ≡ t.name)
      × (d.fn ≡ t.fn)
      × (d.dependencies ≡ prev ++ t.dependencies)
      × IsChain (t.name ∷ []) ts ds

  abbrev Added :
      List String → List (Task Fn) → DagBuilder Fn BranchFn → DagBuilder Fn BranchFn → Type 0
  Added prev ts b b' =
      (new : List (TaskDef Fn BranchFn)) × (b'.tasks ≡ b.tasks ++ new) × IsChain prev ts new

  chain_from :
      (prev : String) (ts : List (Task Fn)) (b : DagBuilder Fn BranchFn)
      → prev ≢ ""
      → Named ts
      → Added (prev ∷ []) ts b (add_sequential_from prev ts b)
  unfolding add_sequential_from
  chain_from prev [] b some_prev named = ([], sym (append-nil b.tasks), tt)
  chain_from prev (t ∷ ts) b some_prev named =
      let d = simple_task t.name t.fn (after prev t.dependencies) in
      let (new, e, chain) =
        chain_from t.name ts (record b { tasks = b.tasks ++ d ∷ [] }) named.0 named.1 in
      (
        d ∷ new,
        e ∙ append_assoc b.tasks (d ∷ []) new,
        (refl, refl, ground (arith, some_prev), chain),
      )

  -- If every given task has a name, `AddSequential` keeps the tasks that the builder has, and appends
  -- one definition for each given task, in order, with its function; the first has the dependencies
  -- that it was given, and every other one the name of the task before it and then its own.
  pub add_sequential-IsChain :
      (ts : List (Task Fn)) (b : DagBuilder Fn BranchFn)
      → Named ts
      → (new : List (TaskDef Fn BranchFn)) × ((add_sequential ts b).tasks ≡ b.tasks ++ new)
        × IsChain [] ts new
  unfolding add_sequential string_dec
  add_sequential-IsChain [] b named = ([], sym (append-nil b.tasks), tt)
  add_sequential-IsChain (t ∷ ts) b named =
      let d = simple_task t.name t.fn t.dependencies in
      let (new, e, chain) =
        chain_from t.name ts (record b { tasks = b.tasks ++ d ∷ [] }) named.0 named.1 in
      (d ∷ new, e ∙ append_assoc b.tasks (d ∷ []) new, (refl, refl, refl, chain))
