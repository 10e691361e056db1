-- ===== src/Scheduler/Defs.antt =====
-- internal/scheduler/interface.go (the configuration) and internal/scheduler/scheduler.go.
use nautikus.Prelude.{
  ℕ, ◌+◌, ◌++◌, String, Bool, true, false, not, ◌||◌, none, some, List, [], ◌∷◌, ◌==◌, string_eq, ℤ,
  pos, pos_part, ◌-ℤ◌, leb_ℤ, ltb_ℤ, increment, decrement, length, take, if◌then◌else◌,
}
use nautikus.Prelude.Dict
use nautikus.Prelude.Dict.{Dict}
use nautikus.Errors.{Result, ok}
use nautikus.Api.{
  TaskState, unset, pending, running, completed, TaskSpec, TaskStatus, Dag, task_state_eq,
}

pub data Policy : Type 0 where
  fifo priority fair_share : Policy
  custom : String → Policy

-- `MaxConcurrentDAGs` and `MaxActiveTasks` are signed.
pub record SchedulerConfig : Type 0 where
  pub policy : Policy
  pub max_concurrent_dags : ℤ
  pub max_active_tasks : ℤ

abbrev pub default_scheduler_config : SchedulerConfig
default_scheduler_config = record {
  policy = fifo;
  max_concurrent_dags = pos 100;
  max_active_tasks = pos 10;
}

pub record DefaultScheduler : Type 0 where
  pub config : SchedulerConfig
  pub active_tasks_per_dag : Dict String ℤ
  pub total_active_tasks : ℤ

unfoldable pub new_scheduler : SchedulerConfig → DefaultScheduler
new_scheduler config = record {
  config = config;
  active_tasks_per_dag = [];
  total_active_tasks = pos 0;
}

unfoldable pub new_default_scheduler : DefaultScheduler
unfolding new_scheduler
new_default_scheduler = new_scheduler default_scheduler_config

-- The first loop of `Schedule`: of two entries for one task the later one counts.
unfoldable pub status_map : Dict String TaskState → List TaskStatus → Dict String TaskState
status_map m [] = m
status_map m (ts ∷ rest) = status_map (Dict.insert ts.name ts.state m) rest

abbrev pub is_active : TaskStatus → Bool
is_active ts = ts.state == running || ts.state == pending

-- The second loop: `activeCount`.
unfoldable pub count_active : ℕ → List TaskStatus → ℕ
count_active n [] = n
count_active n (ts ∷ rest) = count_active (if is_active ts then n + 1 else n) rest

-- The loop over `task.Dependencies`, which leaves at the first one that is not completed. A
-- dependency that the map lacks reads as the empty state.
unfoldable pub all_deps_completed : Dict String TaskState → List String → Bool
all_deps_completed m [] = true
all_deps_completed m (dep ∷ deps) =
    let rest = all_deps_completed m deps in
    if not (Dict.get_or unset (Dict.lookup dep m) == completed) then false else rest

abbrev pub has_status : Dict String TaskState → String → Bool
has_status m name = elim (Dict.lookup name m) [ none ↦ false | some _ ↦ true ]

-- The loop over `dag.Spec.Tasks`.
unfoldable pub find_candidates :
    Dict String TaskState → List TaskSpec → List TaskSpec → List TaskSpec
find_candidates m candidates [] = candidates
find_candidates m candidates (task ∷ tasks) =
    find_candidates m
      (if has_status m task.name
        then candidates
        else if all_deps_completed m task.dependencies
        then candidates ++ task ∷ []
        else candidates)
      tasks

-- All three policies leave the order as it is; so does a policy that the switch does not name.
unfoldable pub sort_by_policy : Policy → List TaskSpec → Dag → List TaskSpec
sort_by_policy fifo candidates dag = candidates
sort_by_policy priority candidates dag = candidates
sort_by_policy fair_share candidates dag = candidates
sort_by_policy (custom _) candidates dag = candidates

-- The end of `Schedule`, on the sorted candidates and the count of active tasks.
unfoldable pub limit_candidates : ℤ → ℕ → List TaskSpec → List TaskSpec
limit_candidates max_active_tasks active_count candidates =
    let available_slots = max_active_tasks -ℤ pos active_count in
    if leb_ℤ available_slots (pos 0)
    then []
    else if ltb_ℤ available_slots (pos (length candidates))
    then take (pos_part available_slots) candidates
    else candidates

unfoldable pub schedule : DefaultScheduler → Dag → Result (List TaskSpec)
schedule s dag =
    let statuses = dag.status.task_statuses in
    let candidates = find_candidates (status_map [] statuses) [] dag.spec.tasks in
    ok (
      limit_candidates s.config.max_active_tasks (count_active 0 statuses)
        (sort_by_policy s.config.policy candidates dag))

-- `CanSchedule` does not read its task.
unfoldable pub can_schedule : DefaultScheduler → Bool
can_schedule s = if leb_ℤ s.config.max_active_tasks s.total_active_tasks then false else true

-- `s.activeTasksPerDAG[dagName]`, which is 0 for a key that is not there.
abbrev pub active_tasks : String → Dict String ℤ → ℤ
active_tasks dag_name m = Dict.get_or (pos 0) (Dict.lookup dag_name m)

unfoldable pub notify_task_started : String → DefaultScheduler → DefaultScheduler
notify_task_started dag_name s = record s {
  active_tasks_per_dag =
      Dict.insert dag_name (increment (active_tasks dag_name s.active_tasks_per_dag))
        s.active_tasks_per_dag;
  total_active_tasks = increment s.total_active_tasks;
}

abbrev pub is_positive : ℤ → Bool
is_positive n = ltb_ℤ (pos 0) n

abbrev pub is_zero : ℤ → Bool
is_zero (pos ℕ.zero) = true
is_zero _ = false

-- The three statements of `NotifyTaskCompleted`: the DAG's counter, and, after the total, the
-- removal of a counter that stands at 0.
unfoldable pub lower_dag : String → Dict String ℤ → Dict String ℤ
lower_dag dag_name m =
    if is_positive (active_tasks dag_name m)
    then Dict.insert dag_name (decrement (active_tasks dag_name m)) m
    else m

unfoldable pub drop_idle : String → Dict String ℤ → Dict String ℤ
drop_idle dag_name m = if is_zero (active_tasks dag_name m) then Dict.erase dag_name m else m

unfoldable pub notify_task_completed : String → DefaultScheduler → DefaultScheduler
unfolding lower_dag drop_idle
notify_task_completed dag_name s = record s {
  active_tasks_per_dag = drop_idle dag_name (lower_dag dag_name s.active_tasks_per_dag);
  total_active_tasks =
      if is_positive s.total_active_tasks
      then decrement s.total_active_tasks
      else s.total_active_tasks;
}

unfoldable pub get_active_task_count : DefaultScheduler → ℤ
get_active_task_count s = s.total_active_tasks
