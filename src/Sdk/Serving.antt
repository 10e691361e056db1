-- ===== src/Sdk/Serving.antt =====
-- What `Serve` does in the pod of a task, and what the older `Serve` builds.
use nautikus.Prelude.{
  String, ◌==◌, string_eq, string_dec, if_ind, false, not, none, some, List, [], ◌∷◌, ◌++◌, map,
  All, ◌≡◌, ◌≢◌, refl, sym, ap, ◌∙◌, arith,
}
use mathlib.Core.List.{map-append, append-nil, append_assoc}
use nautikus.Prelude.Dict
use nautikus.Prelude.Dict.{Dict}
use nautikus.Errors.{Result}
use nautikus.Api.{TaskSpec}
use nautikus.Sdk.Defs.{
  TaskKind, TaskDef, DagBuilder, run_task, select_or_call, add_task, add_sequential,
  add_sequential_from, new_dag, after,
}
use nautikus.Sdk.Manifests.{
  Process, Manifest, runs, add_condition, add_targets, add_kind, task_env, task_spec, task_specs,
  manifest_of, serve, add_rest, legacy_builder,
}
use nautikus.Sdk.Dispatch.{Absent, execute_first}

-- The variables of a task as `Serve` reads them.
record Names (name : String) (env : Dict String String) : Type 0 where
  task : Dict.lookup "NAUTIKUS_TASK_NAME" env ≡ some name
  selected : Dict.lookup "NAUTIKUS_SELECTED_BRANCH" env ≡ none

Names-insert :
    (key value name : String) (env : Dict String String)
    → (key == "NAUTIKUS_TASK_NAME") ≡ false
    → (key == "NAUTIKUS_SELECTED_BRANCH") ≡ false
    → Names name env
    → Names name (Dict.insert key value env)
Names-insert key value name env differs differs' h = record {
  task = Dict.lookup-insert key "NAUTIKUS_TASK_NAME" value env ∙ rw differs h.task;
  selected = Dict.lookup-insert key "NAUTIKUS_SELECTED_BRANCH" value env ∙ rw differs' h.selected;
}

Names-targets :
    (targets : List String) (name : String) (env : Dict String String)
    → Names name env
    → Names name (add_targets targets env)
unfolding string_dec
Names-targets [] name env h = h
Names-targets (t ∷ ts) name env h = Names-insert "NAUTIKUS_BRANCH_TARGETS" _ name env refl refl h

after-named : (name : String) → name ≢ "" → name ∷ [] ≡ after name []
after-named name named = ground (arith, named)

module _ {Fn BranchFn : Type 0} where
  Names-condition :
      (task : TaskDef Fn BranchFn) (env : Dict String String)
      → Names task.name env
      → Names task.name (add_condition task env)
  unfolding string_dec
  Names-condition task env h =
      if_ind (Names task.name) (not (task.branch_condition == "")) _ env
        (Names-insert "NAUTIKUS_CONDITION_SOURCE" task.condition_source task.name _ refl refl (
          Names-insert "NAUTIKUS_BRANCH_CONDITION" task.branch_condition task.name env refl refl h))
        h

  Names-kind :
      (task : TaskDef Fn BranchFn) (kind : TaskKind) (env : Dict String String)
      → Names task.name env
      → Names task.name (add_kind task kind env)
  unfolding string_dec
  Names-kind task TaskKind.simple env h = h
  Names-kind task TaskKind.branch env h =
      Names-targets task.branch_targets task.name _
        (Names-insert "NAUTIKUS_TASK_TYPE" "branch" task.name env refl refl h)
  Names-kind task TaskKind.join env h =
      Names-insert "NAUTIKUS_TASK_TYPE" "join" task.name env refl refl h

  Names-task_env : (task : TaskDef Fn BranchFn) → Names task.name (task_env task)
  unfolding task_env Dict.lookup string_dec
  Names-task_env task = Names-kind task task.task_type _ (
      Names-condition task (("NAUTIKUS_TASK_NAME", task.name) ∷ [])
        (record { task = refl; selected = refl }))

  pub task_specs-append :
      (script : String) (specs : List TaskSpec) (tasks : List (TaskDef Fn BranchFn))
      → task_specs script specs tasks ≡ specs ++ map (task_spec script) tasks
  unfolding task_specs
  task_specs-append script specs [] = sym (append-nil specs)
  task_specs-append script specs (task ∷ tasks) =
      task_specs-append script (specs ++ task_spec script task ∷ []) tasks
      ∙ append_assoc specs (task_spec script task ∷ []) (map (task_spec script) tasks)

  -- If a task has a name and no task before it has the same, then the manifest has an entry for it
  -- between those of the tasks before and behind it, and in the environment that this entry gives its
  -- pod, `Serve` runs the task's selector or function: it never skips the task, whatever its branch.
  pub serve-manifest :
      (p : Process) (marshal : Manifest → Result String) (script dag_name : String)
      (before behind : List (TaskDef Fn BranchFn)) (t : TaskDef Fn BranchFn)
      → t.name ≢ ""
      → Absent "" t.name before
      → ((manifest_of p marshal script dag_name (before ++ t ∷ behind)).dag.spec.tasks
          ≡ map (task_spec script) before ++ task_spec script t ∷ map (task_spec script) behind)
        × (serve p marshal
              (task_spec script t).env
              (record { name = dag_name; tasks = before ++ t ∷ behind })
            ≡ runs (select_or_call t.task_type t.branch_fn t.fn))
  unfolding manifest_of serve run_task string_dec
  serve-manifest p marshal script dag_name before behind t named first =
      let env = Names-task_env t in
      let ran = (execute_first "" t.name before behind t first refl).1 in
      (
        task_specs-append script [] (before ++ t ∷ behind)
            ∙ map-append (task_spec script) before (t ∷ behind),
        rw (env.task, env.selected, ran) (ground (arith, named)),
      )

  add_rest-eq :
      (func_name : Fn → String) (prev : Fn) (fns : List Fn) (b : DagBuilder Fn BranchFn)
      → func_name prev ≢ ""
      → All (λ fn. func_name fn ≢ "") fns
      → add_rest func_name prev fns b
        ≡ add_sequential_from
            (func_name prev)
            (map (λ fn. record { name = func_name fn; fn = some fn; dependencies = [] }) fns)
            b
  unfolding add_rest add_task add_sequential_from
  add_rest-eq func_name prev [] b named all = refl
  add_rest-eq func_name prev (fn ∷ fns) b named all =
      add_rest-eq func_name fn fns _ all.0 all.1
      ∙ ap
          (λ deps.
            add_sequential_from (func_name fn)
              (map (λ fn'. record { name = func_name fn'; fn = some fn'; dependencies = [] }) fns)
              (add_task (func_name fn) (some fn) deps b))
          (after-named (func_name prev) named)

  -- If every function has a name, the older `Serve` builds the DAG that `AddSequential` builds of the
  -- functions under their names, without further dependencies.
  pub legacy_builder-eq-add_sequential :
      (func_name : Fn → String) (dag_name : String) (fns : List Fn)
      → All (λ fn. func_name fn ≢ "") fns
      → legacy_builder {BranchFn = BranchFn} func_name dag_name fns
        ≡ add_sequential
            (map (λ fn. record { name = func_name fn; fn = some fn; dependencies = [] }) fns)
            (new_dag dag_name)
  unfolding legacy_builder add_sequential add_sequential_from add_task string_dec
  legacy_builder-eq-add_sequential func_name dag_name [] all = refl
  legacy_builder-eq-add_sequential func_name dag_name (fn ∷ fns) all =
      add_rest-eq func_name fn fns _ all.0 all.1
