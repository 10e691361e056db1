-- ===== src/Sdk/Dispatch.antt =====
-- Which task `ExecuteTask` runs, and what it does for it.
use nautikus.Prelude.{
  ◌≡◌, ◌≢◌, refl, sym, ◌⊎◌, inl, inr, String, Option, none, some, List, [], ◌∷◌, ◌++◌, string_eq,
  string_dec, All, arith,
}
use mathlib.Core.Path.{subst}
use nautikus.Sdk.Defs.{
  TaskKind, TaskDef, Action, unknown_task, skipped, nothing, selects, calls, call_fn,
  select_or_call, run_task, execute_task,
}

module _ {Fn BranchFn : Type 0} where
  -- A selector's function is called for the branch that it selects; of any other task the function is
  -- called, and nothing if it is nil.
  abbrev pub Runs : TaskKind → Option BranchFn → Option Fn → Action Fn BranchFn → Type 0
  Runs kind selector fn a =
      ((f : BranchFn) × (kind ≡ TaskKind.branch) × (selector ≡ some f) × (a ≡ selects f))
      ⊎ (((kind ≢ TaskKind.branch) ⊎ (selector ≡ none))
          × (((g : Fn) × (fn ≡ some g) × (a ≡ calls g)) ⊎ ((fn ≡ none) × (a ≡ nothing))))

  -- A task of a branch is skipped if another branch was selected.
  abbrev pub Performs : String → TaskDef Fn BranchFn → Action Fn BranchFn → Type 0
  Performs selected t a =
      ((t.branch_condition ≢ "")
        × (selected ≢ "")
        × (selected ≢ t.branch_condition)
        × (a ≡ skipped))
      ⊎ (((t.branch_condition ≡ "") ⊎ (selected ≡ "") ⊎ (selected ≡ t.branch_condition))
          × Runs t.task_type t.branch_fn t.fn a)

  call_lem :
      (fn : Option Fn) (a : Action Fn BranchFn)
      → call_fn fn ≡ a
      → ((g : Fn) × (fn ≡ some g) × (a ≡ calls g)) ⊎ ((fn ≡ none) × (a ≡ nothing))
  call_lem none a e = inr (refl, sym e)
  call_lem (some fn) a e = inl (fn, refl, sym e)

  select_or_call-Runs :
      (kind : TaskKind) (selector : Option BranchFn) (fn : Option Fn)
      → Runs kind selector fn (select_or_call kind selector fn)
  select_or_call-Runs TaskKind.branch (some f) fn = inl (f, refl, refl, refl)
  select_or_call-Runs TaskKind.branch none fn = inr (inr refl, call_lem fn _ refl)
  select_or_call-Runs TaskKind.simple selector fn = inr (inl (λ e. cc), call_lem fn _ refl)
  select_or_call-Runs TaskKind.join selector fn = inr (inl (λ e. cc), call_lem fn _ refl)

  run_task-Performs :
      (selected : String) (t : TaskDef Fn BranchFn) → Performs selected t (run_task selected t)
  unfolding run_task
  run_task-Performs selected t =
      let run : run_task selected t ≡ select_or_call t.task_type t.branch_fn t.fn
          → Runs t.task_type t.branch_fn t.fn (run_task selected t) =
        λ same.
          subst (Runs t.task_type t.branch_fn t.fn) (sym same)
            (select_or_call-Runs t.task_type t.branch_fn t.fn) in
      elim (string_dec t.branch_condition "") [
        | yes free ↦ inr (inl free, run (ground (arith, free)))
        | no bound ↦ elim (string_dec selected "") [
          | yes unset ↦ inr (inr (inl unset), run (ground (arith, unset)))
          | no chosen ↦ elim (string_dec selected t.branch_condition) [
            | yes same ↦ inr (inr (inr same), run (ground (arith, same)))
            | no other ↦ inl (bound, chosen, other, ground (arith, bound, chosen, other))
          ]
        ]
      ]

module _ {Fn BranchFn : Type 0} (selected target : String) where
  -- No task of the list has the name.
  abbrev pub Absent : List (TaskDef Fn BranchFn) → Type 0
  Absent ts = All (λ t. t.name ≢ target) ts

  pub execute_first :
      (before behind : List (TaskDef Fn BranchFn)) (t : TaskDef Fn BranchFn)
      → Absent before
      → t.name ≡ target
      → (execute_task selected target before ≡ unknown_task)
        × (execute_task selected target (before ++ t ∷ behind) ≡ run_task selected t)
  unfolding execute_task
  execute_first [] behind t h same = (refl, ground arith)
  execute_first (d ∷ before) behind t h same =
      let (unknown, first) = execute_first before behind t h.1 same in
      (ground (arith, unknown), ground (arith, first))

  -- If a task has the given name and no task before it has, `ExecuteTask` performs it, whatever comes
  -- after it: it skips the task if it has a condition, a branch was selected, and they differ, and
  -- otherwise calls the selector of a task of the kind branch, or the function of any other, if there
  -- is one. On the tasks before it alone, it ends with the error for an unknown task.
  pub execute_task-first :
      (before behind : List (TaskDef Fn BranchFn)) (t : TaskDef Fn BranchFn)
      → Absent before
      → t.name ≡ target
      → (execute_task selected target before ≡ unknown_task)
        × Performs selected t (execute_task selected target (before ++ t ∷ behind))
  execute_task-first before behind t h same =
      let (unknown, first) = execute_first before behind t h same in
      (unknown, subst (Performs selected t) (sym first) (run_task-Performs selected t))
