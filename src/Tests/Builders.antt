-- ===== src/Tests/Builders.antt =====
-- The theorems on the Go SDK, with texts for the user's functions.
use nautikus.Errors.{Result, ok}
use nautikus.Prelude.{
  eqb, if◌then◌else◌, zero, suc, inl, false, ℕ, ◌<◌, ◌+◌, arith, ◌≡◌, ◌↔◌, true, refl, String, some,
  none, List, [], ◌∷◌, ◌++◌,
}
use nautikus.Sdk.{
  add_branch, TaskKind, is_sdk_file, contains_helper, search_from, generate_manifest, Task, TaskDef,
  DagBuilder, simple_task, add_sequential, execute_task, unknown_task, Action, Process, Manifest,
  bytes, contains, manifest_of, task_spec, serve, runs,
}
use nautikus.Sdk.Sources.{Encodes, AllScripts, Passed, generate_manifest-first}
use nautikus.Sdk.Search.{Occurs, contains-Occurs_iff}
use nautikus.Sdk.Serving.{serve-manifest}
use nautikus.Prelude.Dict.{Dict}
use nautikus.Sdk.Branches.{AreBranches, add_branch-AreBranches}
use nautikus.Sdk.Chains.{IsChain, add_sequential-IsChain}
use nautikus.Sdk.Dispatch.{Performs, execute_task-first}

abbrev steps : List (Task String)
steps =
    record { name = "extract"; fn = some "extract()"; dependencies = [] }
    ∷ record { name = "load"; fn = some "load()"; dependencies = "setup" ∷ [] }
    ∷ []

abbrev builder : DagBuilder String String
builder = record { name = "etl"; tasks = simple_task "setup" none [] ∷ [] }

add_sequential-IsChain_example :
    (new : List (TaskDef String String)) × ((add_sequential steps builder).tasks
      ≡ builder.tasks ++ new)
    × IsChain [] steps new
add_sequential-IsChain_example = add_sequential-IsChain steps builder (λ h. cc, (λ h. cc, tt))

abbrev setup : TaskDef String String
setup = simple_task "setup" none []

abbrev on_weekdays : TaskDef String String
on_weekdays = record (simple_task "load" (some "load()") []) {
  branch_condition = "weekday";
  condition_source = "choose";
}

execute_task-first_example :
    (execute_task "weekend" "load" (setup ∷ []) ≡ unknown_task)
    × Performs "weekend" on_weekdays
        (execute_task "weekend" "load" (setup ∷ on_weekdays ∷ setup ∷ []))
execute_task-first_example =
    execute_task-first "weekend" "load" (setup ∷ []) (setup ∷ []) on_weekdays (λ h. cc, tt) refl

-- A program whose source is at a path outside of the SDK.
abbrev process : Process
process = record {
  caller = λ i. some (bytes "/work/etl.go");
  read_file = λ path. ok "package main";
  wd = bytes "/work";
}

abbrev marshal : Manifest → Result String
marshal m = ok m.dag.name

serve-manifest_example :
    ((manifest_of process marshal "package main" "etl" (setup ∷ on_weekdays ∷ [])).dag.spec.tasks
      ≡ task_spec "package main" setup ∷ task_spec "package main" on_weekdays ∷ [])
    × (serve process marshal
          (task_spec "package main" on_weekdays).env
          (record { name = "etl"; tasks = setup ∷ on_weekdays ∷ [] })
        ≡ runs (Action.calls "load()"))
serve-manifest_example =
    serve-manifest process marshal "package main" "etl" (setup ∷ []) [] on_weekdays (λ h. cc)
      (λ h. cc, tt)

contains-Occurs_iff_example :
    (contains (bytes "/home/sdk/go/api.go") (bytes "/sdk/go/") ≡ true)
    ↔ Occurs (bytes "/sdk/go/") (bytes "/home/sdk/go/api.go")
contains-Occurs_iff_example = contains-Occurs_iff (bytes "/home/sdk/go/api.go") (bytes "/sdk/go/")

abbrev choices : Dict String (List (Task String))
choices =
    ("weekday", steps)
    ∷ ("weekend", record { name = "rest"; fn = some "rest()"; dependencies = [] } ∷ [])
    ∷ []

add_branch-AreBranches_example :
    (d : TaskDef String String) × (new : List (TaskDef String String)) × ((add_branch
        (λ m. m)
        (λ m. m)
        "choose"
        (some "today()")
        choices
        builder).tasks
      ≡ builder.tasks ++ d ∷ new)
    × (d.name ≡ "choose")
    × (d.branch_fn ≡ some "today()")
    × (d.task_type ≡ TaskKind.branch)
    × (d.dependencies ≡ [])
    × (d.branch_targets ≡ "weekday" ∷ "weekend" ∷ [])
    × AreBranches "choose" choices new
add_branch-AreBranches_example =
    add_branch-AreBranches (λ m. m) (λ m. m) "choose" (some "today()") choices builder
      ((λ h. cc, (λ h. cc, tt)), ((λ h. cc, tt), tt))

-- The caller is the SDK, and its caller the user's file.
abbrev called_by_sdk : Process
called_by_sdk = record {
  caller =
      λ i. if eqb i 1 then some (bytes "/go/pkg/sdk/go/api.go") else some (bytes "/work/etl.go");
  read_file = λ path. ok "package main";
  wd = bytes "/work";
}

sdk_file : is_sdk_file (bytes "/go/pkg/sdk/go/api.go") ≡ true
unfolding is_sdk_file contains contains_helper search_from
sdk_file = refl

user_file : is_sdk_file (bytes "/work/etl.go") ≡ false
unfolding is_sdk_file contains contains_helper search_from
user_file = refl

sdk_first : (j : ℕ) → j < 1 → Passed called_by_sdk (1 + j)
sdk_first zero h = (bytes "/go/pkg/sdk/go/api.go", refl, inl sdk_file)
sdk_first (suc j) h = absurd (omega arith)

generate_manifest-first_example :
    (m : Manifest) × Encodes
      (marshal m)
      (generate_manifest called_by_sdk marshal "etl" (setup ∷ []))
    × (m.dag.name ≡ "etl")
    × AllScripts "package main" (setup ∷ []) m.dag.spec.tasks
generate_manifest-first_example =
    generate_manifest-first called_by_sdk marshal "etl" (setup ∷ []) 1 "package main" (omega arith)
      sdk_first (bytes "/work/etl.go", refl, user_file, refl)
