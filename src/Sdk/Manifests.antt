-- ===== src/Sdk/Manifests.antt =====
-- `GenerateManifest`, `Serve` and the older `Serve` on a list of functions. Paths are lists of bytes.
use Prim.Native.Char.{code}
use nautikus.Prelude.{
  ℕ, zero, suc, ◌+◌, ◌-◌, String, ◌<>◌, Bool, true, false, not, ◌&&◌, ◌||◌, Option, none, some,
  List, [], ◌∷◌, ◌++◌, length, take, leb, ltb, eqb, ◌==◌, string_eq, if◌then◌else◌,
}
use nautikus.Prelude.Dict
use nautikus.Prelude.Dict.{Dict}
use nautikus.Errors.{Result, ok, err}
use nautikus.Api.{go, unset, TaskSpec, Dag}
use nautikus.Sdk.Defs.{TaskKind, TaskDef, DagBuilder, Action, execute_task, add_task, new_dag}

-- The bytes of a text in ASCII.
abbrev pub bytes : String → List ℕ
bytes String.[] = []
bytes (String.◌∷◌ c s) = code c ∷ bytes s

-- Go's `==` on texts.
abbrev pub same_bytes : List ℕ → List ℕ → Bool
same_bytes [] [] = true
same_bytes [] (y ∷ ys) = false
same_bytes (x ∷ xs) [] = false
same_bytes (x ∷ xs) (y ∷ ys) = eqb x y && same_bytes xs ys

abbrev pub tail : List ℕ → List ℕ
tail [] = []
tail (x ∷ xs) = xs

-- The loop of `containsHelper`: `n` is how many positions are left, `s` the text from the position on.
unfoldable pub search_from : ℕ → List ℕ → List ℕ → Bool
search_from zero s substr = false
search_from (suc n) s substr =
    let rest = search_from n (tail s) substr in
    if same_bytes (take (length substr) s) substr then true else rest

unfoldable pub contains_helper : List ℕ → List ℕ → Bool
unfolding search_from
contains_helper s substr = search_from (length s + 1 - length substr) s substr

unfoldable pub contains : List ℕ → List ℕ → Bool
unfolding contains_helper
contains s substr =
    leb (length substr) (length s)
    && (same_bytes s substr || (ltb 0 (length s) && contains_helper s substr))

unfoldable pub is_sdk_file : List ℕ → Bool
unfolding contains
is_sdk_file path =
    ltb 0 (length path)
    && (contains path (bytes "/sdk/go/") || contains path (bytes "/sdk/python/"))

-- The loop of `joinStrings`, whose first argument is `result`.
unfoldable pub join_from : String → List String → String → String
join_from result [] sep = result
join_from result (s ∷ strs) sep = join_from (result <> (sep <> s)) strs sep

unfoldable pub join_strings : List String → String → String
unfolding join_from
join_strings [] sep = ""
join_strings (s ∷ strs) sep = join_from s strs sep

-- What Go's `runtime` and `os` answer: the file of a caller up the stack, the text of a file, and the
-- working directory.
pub record Process : Type 0 where
  pub caller : ℕ → Option (List ℕ)
  pub read_file : List ℕ → Result String
  pub wd : List ℕ

abbrev pub or_next : Result String → Option String → Option String
or_next (err e) next = next
or_next (ok content) next = some content

module _ (p : Process) where
  -- The body of the loop over the callers; `next` is what the rest of the loop finds.
  abbrev pub try_caller : Option (List ℕ) → Option String → Option String
  try_caller none next = none
  try_caller (some file) next =
      if not (is_sdk_file file) then or_next (p.read_file file) next else next

  -- The loop: `n` rounds are left, and the next caller is the one at `i`.
  unfoldable pub search_callers : ℕ → ℕ → Option String
  search_callers zero i = none
  search_callers (suc n) i = try_caller (p.caller i) (search_callers n (i + 1))

  abbrev pub or_fallback : Option String → Option String
  or_fallback (some content) = some content
  or_fallback none = or_next (p.read_file (p.wd ++ bytes "/test/dags/go_dag.go")) none

  -- The source is `none` where the process ends with exit status 1.
  unfoldable pub read_caller_source : Option String
  unfolding search_callers
  read_caller_source = or_fallback (search_callers 9 1)

abbrev pub add_targets : List String → Dict String String → Dict String String
add_targets [] env = env
add_targets (t ∷ ts) env = Dict.insert "NAUTIKUS_BRANCH_TARGETS" (join_strings (t ∷ ts) ",") env

module _ {Fn BranchFn : Type 0} where
  abbrev pub add_condition : TaskDef Fn BranchFn → Dict String String → Dict String String
  add_condition task env =
      if not (task.branch_condition == "")
      then Dict.insert "NAUTIKUS_CONDITION_SOURCE" task.condition_source
          (Dict.insert "NAUTIKUS_BRANCH_CONDITION" task.branch_condition env)
      else env

  abbrev pub add_kind : TaskDef Fn BranchFn → TaskKind → Dict String String → Dict String String
  add_kind task TaskKind.simple env = env
  add_kind task TaskKind.branch env =
      add_targets task.branch_targets (Dict.insert "NAUTIKUS_TASK_TYPE" "branch" env)
  add_kind task TaskKind.join env = Dict.insert "NAUTIKUS_TASK_TYPE" "join" env

  unfoldable pub task_env : TaskDef Fn BranchFn → Dict String String
  unfolding join_strings
  task_env task =
      add_kind task task.task_type (add_condition task (("NAUTIKUS_TASK_NAME", task.name) ∷ []))

  abbrev pub task_spec : String → TaskDef Fn BranchFn → TaskSpec
  task_spec script task = record {
    name = task.name;
    type = go;
    dependencies = task.dependencies;
    command = "";
    script = script;
    image = "";
    env = task_env task;
  }

  -- The loop over the tasks.
  unfoldable pub task_specs : String → List (TaskSpec) → List (TaskDef Fn BranchFn) → List TaskSpec
  unfolding task_env
  task_specs script specs [] = specs
  task_specs script specs (task ∷ tasks) =
      task_specs script (specs ++ task_spec script task ∷ []) tasks

pub record Manifest : Type 0 where
  pub api_version : String
  pub kind : String
  pub dag : Dag

-- What the process ends with: exit status 1, or a text that it prints.
pub data Output : Type 0 where
  exits : Output
  prints : String → Output

abbrev pub output_of : Result String → Output
output_of (err e) = exits
output_of (ok text) = prints text

module _ {Fn BranchFn : Type 0} (p : Process) (marshal : Manifest → Result String) where
  unfoldable pub manifest_of : String → String → List (TaskDef Fn BranchFn) → Manifest
  unfolding task_specs
  manifest_of script dag_name tasks = record {
    api_version = "workflow.nautikus.io/v1";
    kind = "Dag";
    dag = record {
      name = dag_name;
      namespace = "";
      spec = record { tasks = task_specs script [] tasks };
      status = record { state = unset; task_statuses = [] };
    };
  }

  abbrev pub manifest_with : Option String → String → List (TaskDef Fn BranchFn) → Output
  manifest_with none dag_name tasks = exits
  manifest_with (some script) dag_name tasks =
      output_of (marshal (manifest_of script dag_name tasks))

  unfoldable pub generate_manifest : String → List (TaskDef Fn BranchFn) → Output
  unfolding manifest_of read_caller_source
  generate_manifest dag_name tasks = manifest_with (read_caller_source p) dag_name tasks

-- `os.Getenv`
abbrev pub getenv : String → Dict String String → String
getenv name env = Dict.get_or "" (Dict.lookup name env)

-- What `Serve` does: it runs a task, or it prints the manifest.
pub data Served (Fn BranchFn : Type 0) : Type 0 where
  runs : Action Fn BranchFn → Served Fn BranchFn
  generates : Output → Served Fn BranchFn

module _ {Fn BranchFn : Type 0} (p : Process) (marshal : Manifest → Result String) where
  unfoldable pub serve : Dict String String → DagBuilder Fn BranchFn → Served Fn BranchFn
  unfolding generate_manifest execute_task
  serve env b =
      let target = getenv "NAUTIKUS_TASK_NAME" env in
      if not (target == "")
      then runs (execute_task (getenv "NAUTIKUS_SELECTED_BRANCH" env) target b.tasks)
      else generates (generate_manifest p marshal b.name b.tasks)

-- The loop of the older `Serve` after its first task; `func_name` is `GetFuncName`, which asks the
-- runtime, and `prev` the task before.
unfoldable pub add_rest :
    {Fn BranchFn : Type 0}
    → (Fn → String)
    → Fn
    → List Fn
    → DagBuilder Fn BranchFn
    → DagBuilder Fn BranchFn
unfolding add_task
add_rest func_name prev [] builder = builder
add_rest func_name prev (fn ∷ tasks) builder =
    add_rest func_name fn tasks (add_task (func_name fn) (some fn) (func_name prev ∷ []) builder)

unfoldable pub legacy_builder :
    {Fn BranchFn : Type 0} → (Fn → String) → String → List Fn → DagBuilder Fn BranchFn
unfolding add_rest new_dag
legacy_builder func_name dag_name [] = new_dag dag_name
legacy_builder func_name dag_name (fn ∷ tasks) =
    add_rest func_name fn tasks (add_task (func_name fn) (some fn) [] (new_dag dag_name))
