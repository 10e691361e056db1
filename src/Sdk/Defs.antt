-- ===== src/Sdk/Defs.antt =====
-- `DAGBuilder` and `ExecuteTask`.
use nautikus.Prelude.{
  String, not, ◌&&◌, Option, none, some, List, [], ◌∷◌, ◌++◌, ◌==◌, string_eq, if◌then◌else◌,
}
use nautikus.Prelude.Dict
use nautikus.Prelude.Dict.{Dict}

pub data TaskKind : Type 0 where
  simple branch join : TaskKind

pub record Task (Fn : Type 0) : Type 0 where
  pub name : String
  pub fn : Option Fn
  pub dependencies : List String

pub record TaskDef (Fn BranchFn : Type 0) : Type 0 where
  pub name : String
  pub fn : Option Fn
  pub branch_fn : Option BranchFn
  pub dependencies : List String
  pub task_type : TaskKind
  pub branch_targets : List String
  pub branch_condition : String
  pub condition_source : String

pub record DagBuilder (Fn BranchFn : Type 0) : Type 0 where
  pub name : String
  pub tasks : List (TaskDef Fn BranchFn)

-- What a task's pod does: the end of the process with an error, a skip, the call of the selector
-- whose result it prints, the call of the task's function, or nothing.
pub data Action (Fn BranchFn : Type 0) : Type 0 where
  unknown_task skipped nothing : Action Fn BranchFn
  selects : BranchFn → Action Fn BranchFn
  calls : Fn → Action Fn BranchFn

-- `if name != "" { deps = append([]string{name}, deps...) }`
abbrev pub after : String → List String → List String
after name deps = if name == "" then deps else name ∷ deps

unfoldable pub branch_names : {Fn : Type 0} → List (String × List (Task Fn)) → List String
branch_names entries = Dict.keys entries

module _ {Fn BranchFn : Type 0} where
  abbrev pub simple_task : String → Option Fn → List String → TaskDef Fn BranchFn
  simple_task name fn deps = record {
    name = name;
    fn = fn;
    branch_fn = none;
    dependencies = deps;
    task_type = TaskKind.simple;
    branch_targets = [];
    branch_condition = "";
    condition_source = "";
  }

  abbrev add_def : TaskDef Fn BranchFn → DagBuilder Fn BranchFn → DagBuilder Fn BranchFn
  add_def t b = record b { tasks = b.tasks ++ t ∷ [] }

  unfoldable pub add_task :
      String → Option Fn → List String → DagBuilder Fn BranchFn → DagBuilder Fn BranchFn
  add_task name fn deps b = add_def (simple_task name fn deps) b

  -- The loop of `AddSequential`; the first argument is `prevName`.
  unfoldable pub add_sequential_from :
      String → List (Task Fn) → DagBuilder Fn BranchFn → DagBuilder Fn BranchFn
  add_sequential_from prev_name [] b = b
  add_sequential_from prev_name (t ∷ ts) b =
      add_sequential_from t.name ts
        (add_def (simple_task t.name t.fn (after prev_name t.dependencies)) b)

  unfoldable pub add_sequential : List (Task Fn) → DagBuilder Fn BranchFn → DagBuilder Fn BranchFn
  unfolding add_sequential_from
  add_sequential ts b = add_sequential_from "" ts b

  unfoldable pub add_parallel :
      String → List (Task Fn) → DagBuilder Fn BranchFn → DagBuilder Fn BranchFn
  add_parallel after_task [] b = b
  add_parallel after_task (t ∷ ts) b =
      add_parallel after_task ts
        (add_def (simple_task t.name t.fn (after after_task t.dependencies)) b)

  unfoldable pub add_join :
      String → Option Fn → List String → DagBuilder Fn BranchFn → DagBuilder Fn BranchFn
  add_join name fn wait_for b =
      add_def (record (simple_task name fn wait_for) { task_type = TaskKind.join }) b

  -- The inner loop of `AddBranch` from the second task on, and then from the first.
  unfoldable pub add_rest_of_branch :
      String → String → String → List (Task Fn) → DagBuilder Fn BranchFn → DagBuilder Fn BranchFn
  add_rest_of_branch condition_task branch_name prev_name [] b = b
  add_rest_of_branch condition_task branch_name prev_name (t ∷ ts) b =
      add_rest_of_branch condition_task branch_name t.name ts (
        add_def
          (record (simple_task t.name t.fn (after prev_name t.dependencies)) {
            branch_condition = branch_name;
            condition_source = condition_task;
          })
          b)

  unfoldable pub add_one_branch :
      String → String → List (Task Fn) → DagBuilder Fn BranchFn → DagBuilder Fn BranchFn
  unfolding add_rest_of_branch
  add_one_branch condition_task branch_name [] b = b
  add_one_branch condition_task branch_name (t ∷ ts) b =
      add_rest_of_branch condition_task branch_name t.name ts (
        add_def
          (record (simple_task t.name t.fn (condition_task ∷ t.dependencies)) {
            branch_condition = branch_name;
            condition_source = condition_task;
          })
          b)

  unfoldable pub add_branches :
      String → List (String × List (Task Fn)) → DagBuilder Fn BranchFn → DagBuilder Fn BranchFn
  add_branches condition_task [] b = b
  add_branches condition_task ((branch_name, ts) ∷ rest) b =
      add_branches condition_task rest (add_one_branch condition_task branch_name ts b)

  -- Go chooses the order of a map anew for each loop over it: `named` is the order of the loop in
  -- `getBranchNames`, `ranged` that of the loop over the branches.
  unfoldable pub add_branch :
      (named ranged : Dict String (List (Task Fn)) → List (String × List (Task Fn)))
      → String
      → Option BranchFn
      → Dict String (List (Task Fn))
      → DagBuilder Fn BranchFn
      → DagBuilder Fn BranchFn
  unfolding add_branches add_one_branch branch_names
  add_branch named ranged condition_task condition_fn branches b =
      add_branches condition_task (ranged branches) (
        add_def
          (record (simple_task condition_task none []) {
            branch_fn = condition_fn;
            task_type = TaskKind.branch;
            branch_targets = branch_names (named branches);
          })
          b)

  -- The end of `ExecuteTask`: `if task.Fn != nil { task.Fn() }`.
  abbrev pub call_fn : Option Fn → Action Fn BranchFn
  call_fn none = nothing
  call_fn (some fn) = calls fn

  -- The body of the loop of `ExecuteTask` for the task of the given name. `selected` is the variable
  -- `NAUTIKUS_SELECTED_BRANCH` of the environment, empty if it is not set.
  abbrev pub select_or_call : TaskKind → Option BranchFn → Option Fn → Action Fn BranchFn
  select_or_call TaskKind.branch (some f) fn = selects f
  select_or_call _ _ fn = call_fn fn

  unfoldable pub run_task : String → TaskDef Fn BranchFn → Action Fn BranchFn
  run_task selected t =
      if not (t.branch_condition == "")
        && (not (selected == "") && not (selected == t.branch_condition))
      then skipped
      else select_or_call t.task_type t.branch_fn t.fn

  unfoldable pub execute_task : String → String → List (TaskDef Fn BranchFn) → Action Fn BranchFn
  execute_task selected target [] = unknown_task
  execute_task selected target (t ∷ ts) =
      if t.name == target then run_task selected t else execute_task selected target ts

unfoldable pub new_dag : {Fn BranchFn : Type 0} → String → DagBuilder Fn BranchFn
new_dag name = record { name = name; tasks = [] }
