-- ===== src/Sdk/Branches.antt =====
-- The tasks that `AddBranch` adds.
use nautikus.Prelude.{
  String, string_eq, Option, none, List, [], ◌∷◌, ◌++◌, All, ◌≡◌, ◌≢◌, refl, sym, ap, ◌∙◌, arith,
}
use mathlib.Core.List.{append-nil, append_assoc}
use nautikus.Prelude.Dict
use nautikus.Prelude.Dict.{Dict}
use nautikus.Sdk.Defs.{
  Task, TaskKind, TaskDef, DagBuilder, simple_task, after, branch_names, add_rest_of_branch,
  add_one_branch, add_branches, add_branch,
}
use nautikus.Sdk.Chains.{Named, IsChain}

module _ {Fn BranchFn : Type 0} where
  -- The definition belongs to the branch of the selector.
  pub record IsOf (selector branch : String) (d : TaskDef Fn BranchFn) : Type 0 where
    pub condition : d.branch_condition ≡ branch
    pub source : d.condition_source ≡ selector

  -- The definitions are those of the branches, one after the other: those of a branch are its tasks in
  -- order, the first after the selector and every other one after the one before it.
  abbrev pub AreBranches :
      String → List (String × List (Task Fn)) → List (TaskDef Fn BranchFn) → Type 0
  AreBranches selector [] ds = ds ≡ []
  AreBranches selector ((branch, ts) ∷ rest) ds =
      (own : List (TaskDef Fn BranchFn)) × (others : List (TaskDef Fn BranchFn)) × (ds
        ≡ own ++ others)
      × IsChain (selector ∷ []) ts own
      × All (IsOf selector branch) own
      × AreBranches selector rest others

  -- What a part of `AddBranch` appends for the tasks of a branch, after the given names.
  abbrev Appends :
      String
      → String
      → List String
      → List (Task Fn)
      → DagBuilder Fn BranchFn
      → DagBuilder Fn BranchFn
      → Type 0
  Appends selector branch prev ts b b' =
      (own : List (TaskDef Fn BranchFn)) × (b'.tasks ≡ b.tasks ++ own)
      × IsChain prev ts own
      × All (IsOf selector branch) own

  rest_lem :
      (selector branch prev : String) (ts : List (Task Fn)) (b : DagBuilder Fn BranchFn)
      → prev ≢ ""
      → Named ts
      → Appends selector branch (prev ∷ []) ts b (add_rest_of_branch selector branch prev ts b)
  unfolding add_rest_of_branch
  rest_lem selector branch prev [] b some_prev named = ([], sym (append-nil b.tasks), tt, tt)
  rest_lem selector branch prev (t ∷ ts) b some_prev named =
      let d = record (simple_task t.name t.fn (after prev t.dependencies)) {
        branch_condition = branch;
        condition_source = selector;
      } in
      let (own, e, chain, all) =
        rest_lem selector branch t.name ts (record b { tasks = b.tasks ++ d ∷ [] }) named.0
          named.1 in
      (
        d ∷ own,
        e ∙ append_assoc b.tasks (d ∷ []) own,
        (refl, refl, ground (arith, some_prev), chain),
        (record { condition = refl; source = refl }, all),
      )

  one_branch_lem :
      (selector branch : String) (ts : List (Task Fn)) (b : DagBuilder Fn BranchFn)
      → Named ts
      → Appends selector branch (selector ∷ []) ts b (add_one_branch selector branch ts b)
  unfolding add_one_branch
  one_branch_lem selector branch [] b named = ([], sym (append-nil b.tasks), tt, tt)
  one_branch_lem selector branch (t ∷ ts) b named =
      let d = record (simple_task t.name t.fn (selector ∷ t.dependencies)) {
        branch_condition = branch;
        condition_source = selector;
      } in
      let (own, e, chain, all) =
        rest_lem selector branch t.name ts (record b { tasks = b.tasks ++ d ∷ [] }) named.0
          named.1 in
      (
        d ∷ own,
        e ∙ append_assoc b.tasks (d ∷ []) own,
        (refl, refl, refl, chain),
        (record { condition = refl; source = refl }, all),
      )

  add_branches-AreBranches :
      (selector : String) (branches : List (String × List (Task Fn))) (b : DagBuilder Fn BranchFn)
      → All (λ (x : String × List (Task Fn)). Named x.1) branches
      → (new : List (TaskDef Fn BranchFn)) × ((add_branches selector branches b).tasks
          ≡ b.tasks ++ new)
        × AreBranches selector branches new
  unfolding add_branches
  add_branches-AreBranches selector [] b named = ([], sym (append-nil b.tasks), refl)
  add_branches-AreBranches selector ((branch, ts) ∷ rest) b named =
      let (own, e, chain, all) = one_branch_lem selector branch ts b named.0 in
      let (others, e', more) =
        add_branches-AreBranches selector rest (add_one_branch selector branch ts b) named.1 in
      (
        own ++ others,
        e' ∙ ap (λ tasks. tasks ++ others) e ∙ append_assoc b.tasks own others,
        (own, others, refl, chain, all, more),
      )

  -- If every task of the branches has a name, `AddBranch` keeps the tasks that the builder has and
  -- appends a selector with the given name and function, without dependencies and with the names of the
  -- branches as targets, and after it the tasks of the branches, in the order in which Go ranges over
  -- them: those of a branch in order, marked with the branch and the selector, the first depending on the
  -- selector, every other one on the one before it, and then on what it was given.
  pub add_branch-AreBranches :
      (named ranged : Dict String (List (Task Fn)) → List (String × List (Task Fn)))
      (selector : String) (fn : Option BranchFn) (branches : Dict String (List (Task Fn)))
      (b : DagBuilder Fn BranchFn)
      → All (λ (x : String × List (Task Fn)). Named x.1) (ranged branches)
      → (d : TaskDef Fn BranchFn) × (new : List (TaskDef Fn BranchFn)) × ((add_branch named ranged
            selector fn branches b).tasks
          ≡ b.tasks ++ d ∷ new)
        × (d.name ≡ selector)
        × (d.branch_fn ≡ fn)
        × (d.task_type ≡ TaskKind.branch)
        × (d.dependencies ≡ [])
        × (d.branch_targets ≡ Dict.keys (named branches))
        × AreBranches selector (ranged branches) new
  unfolding add_branch branch_names
  add_branch-AreBranches named ranged selector fn branches b has_names =
      let d = record (simple_task selector none []) {
        branch_fn = fn;
        task_type = TaskKind.branch;
        branch_targets = branch_names (named branches);
      } in
      let (new, e, are) =
        add_branches-AreBranches selector (ranged branches) (record b { tasks = b.tasks ++ d ∷ [] })
          has_names in
      (d, new, e ∙ append_assoc b.tasks (d ∷ []) new, refl, refl, refl, refl, refl, are)
