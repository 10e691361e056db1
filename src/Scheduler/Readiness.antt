-- ===== src/Scheduler/Readiness.antt =====
-- Which tasks `Schedule` selects, against a description without its map and its loops.
use nautikus.Prelude.{
  ℕ, ◌≡◌, refl, sym, ◌∙◌, ap, ◌↔◌, ◌++◌, String, Bool, true, false, ◌&&◌, Option, none, some, List,
  [], ◌∷◌, ◌==◌, string_eq, ℤ, pos, pos_part, ◌-ℤ◌, take, take_all, filter, All, All-filter,
  All-take, arith, if◌then◌else◌,
}
use mathlib.Core.Path.{subst}
use mathlib.Core.Option.{or_else}
use mathlib.Core.List.{append-nil, append_assoc}
use nautikus.Prelude.Dict
use nautikus.Prelude.Dict.{Dict}
use nautikus.Errors.{ok, ok-injective}
use nautikus.Api.{TaskState, completed, TaskSpec, TaskStatus, Dag, task_state_eq}
use nautikus.Scheduler.Defs.{
  Policy, fifo, DefaultScheduler, status_map, count_active, all_deps_completed, find_candidates,
  sort_by_policy, limit_candidates, schedule,
}

-- The state in the last entry for a task.
abbrev pub last_state : String → List TaskStatus → Option TaskState
last_state name [] = none
last_state name (ts ∷ rest) = elim (last_state name rest) [
  | some s ↦ some s
  | none ↦ if ts.name == name then some ts.state else none
]

-- A task may start: it has no entry yet, and the last entry of each dependency is completed.
abbrev pub IsReady : List TaskStatus → TaskSpec → Type 0
IsReady sts task =
    (last_state task.name sts ≡ none)
    × All (λ dep. last_state dep sts ≡ some completed) task.dependencies

abbrev is_completed : Option TaskState → Bool
is_completed none = false
is_completed (some s) = s == completed

abbrev is_none : Option TaskState → Bool
is_none none = true
is_none (some _) = false

abbrev deps_ready : List TaskStatus → List String → Bool
deps_ready sts [] = true
deps_ready sts (dep ∷ deps) = is_completed (last_state dep sts) && deps_ready sts deps

-- The same as a test.
abbrev pub is_ready : List TaskStatus → TaskSpec → Bool
is_ready sts task = is_none (last_state task.name sts) && deps_ready sts task.dependencies

deps_ready_iff :
    (sts : List TaskStatus) (deps : List String)
    → (deps_ready sts deps ≡ true) ↔ All (λ dep. last_state dep sts ≡ some completed) deps
deps_ready_iff sts [] = (λ _. tt, λ _. refl)
deps_ready_iff sts (dep ∷ deps) = ground (arith, deps_ready_iff sts deps)

pub is_ready_iff :
    (sts : List TaskStatus) (task : TaskSpec) → (is_ready sts task ≡ true) ↔ IsReady sts task
is_ready_iff sts task = ground (arith, deps_ready_iff sts task.dependencies)

pub lookup-status_map_from :
    (name : String) (m : Dict String TaskState) (sts : List TaskStatus)
    → Dict.lookup name (status_map m sts) ≡ or_else (last_state name sts) (Dict.lookup name m)
unfolding status_map or_else
lookup-status_map_from name m [] = refl
lookup-status_map_from name m (ts ∷ rest) =
    lookup-status_map_from name (Dict.insert ts.name ts.state m) rest
    ∙ rw Dict.lookup-insert (ground arith)

pub lookup-status_map :
    (name : String) (sts : List TaskStatus)
    → Dict.lookup name (status_map [] sts) ≡ last_state name sts
unfolding or_else
lookup-status_map name sts = lookup-status_map_from name [] sts ∙ rw Dict.lookup-nil (ground arith)

all_deps_completed-eq :
    (sts : List TaskStatus) (deps : List String)
    → all_deps_completed (status_map [] sts) deps ≡ deps_ready sts deps
unfolding all_deps_completed
all_deps_completed-eq sts [] = refl
all_deps_completed-eq sts (dep ∷ deps) =
    ground (arith, lookup-status_map dep sts, all_deps_completed-eq sts deps)

find_candidates-eq :
    (sts : List TaskStatus) (tasks acc : List TaskSpec)
    → find_candidates (status_map [] sts) acc tasks ≡ acc ++ filter (is_ready sts) tasks
unfolding find_candidates
find_candidates-eq sts [] acc = sym (append-nil acc)
find_candidates-eq sts (task ∷ tasks) acc =
    find_candidates-eq sts tasks _
    ∙ ground (
      arith,
      lookup-status_map task.name sts,
      all_deps_completed-eq sts task.dependencies,
      append_assoc acc (task ∷ []) (filter (is_ready sts) tasks),
    )

-- The slots that are left: the limit less the active tasks, and none if that is negative.
abbrev pub free_slots : DefaultScheduler → Dag → ℕ
free_slots s dag =
    pos_part (s.config.max_active_tasks -ℤ pos (count_active 0 dag.status.task_statuses))

limit_candidates-eq-take :
    (max_active_tasks : ℤ) (n : ℕ) (tasks : List TaskSpec)
    → limit_candidates max_active_tasks n tasks ≡ take (pos_part (max_active_tasks -ℤ pos n)) tasks
unfolding limit_candidates
limit_candidates-eq-take max_active_tasks n tasks =
    ground (arith, take_all (pos_part (max_active_tasks -ℤ pos n)) tasks)

sort_by_policy_keeps :
    (policy : Policy) (tasks : List TaskSpec) (dag : Dag) → sort_by_policy policy tasks dag ≡ tasks
unfolding sort_by_policy
sort_by_policy_keeps fifo tasks dag = refl
sort_by_policy_keeps _ tasks dag = refl

-- `Schedule` never fails, under any policy and configuration. It returns the first tasks of the
-- specification that are ready, in the specification's order, as many as there are free slots.
pub schedule-eq-take :
    (s : DefaultScheduler) (dag : Dag)
    → schedule s dag
      ≡ ok (take (free_slots s dag) (filter (is_ready dag.status.task_statuses) dag.spec.tasks))
unfolding schedule
schedule-eq-take s dag = ap ok (
    limit_candidates-eq-take s.config.max_active_tasks _ _
    ∙ rw (sort_by_policy_keeps, find_candidates-eq))

-- Every task that `Schedule` returns has no status entry yet, and each of its dependencies has
-- completed by the last entry for it.
pub schedule-IsReady :
    (s : DefaultScheduler) (dag : Dag) {tasks : List TaskSpec}
    → schedule s dag ≡ ok tasks
    → All (IsReady dag.status.task_statuses) tasks
schedule-IsReady s dag e =
    let sts = dag.status.task_statuses in
    subst (All (IsReady sts)) (ok-injective (sym (schedule-eq-take s dag) ∙ e)) (
      All-take (IsReady sts) _ _
        (All-filter (is_ready sts) (IsReady sts) (λ t. (is_ready_iff sts t).0) dag.spec.tasks))
