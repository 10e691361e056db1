-- ===== src/Scheduler/Interfaces.antt =====
-- The interfaces of internal/scheduler/interface.go, and the default scheduler as one of them.
use nautikus.Prelude.{String, Bool, Option, ℤ, List}
use nautikus.Errors.{Result, ok}
use nautikus.Api.{TaskSpec, Dag}
use nautikus.Scheduler.Defs.{Policy, SchedulerConfig, DefaultScheduler, schedule, can_schedule}

pub record ResourceRequirements : Type 0 where
  pub cpu_request : String
  pub cpu_limit : String
  pub memory_request : String
  pub memory_limit : String
  pub gpu_count : ℤ

pub record TaskInfo : Type 0 where
  pub dag_name : String
  pub task_name : String
  pub priority : ℤ
  pub resources : ResourceRequirements

-- A scheduler in one state: none of the methods of the interface changes it. A task that is nil is `none`.
pub record Scheduler : Type 0 where
  pub name : String
  pub policy : Policy
  pub schedule : Dag → Result (List TaskSpec)
  pub can_schedule : Option TaskInfo → Result Bool

pub record Queue : Type 1 where
  pub State : Type 0
  pub enqueue : TaskInfo → State → Result (Unit {0}) × State
  pub dequeue : State → Result TaskInfo × State
  pub peek : State → Result TaskInfo
  pub len : State → ℤ

abbrev pub name_of : DefaultScheduler → String
name_of s = "default-scheduler"

abbrev pub policy_of : DefaultScheduler → Policy
policy_of s = s.config.policy

abbrev pub config_of : DefaultScheduler → SchedulerConfig
config_of s = s.config

abbrev pub scheduler_of : DefaultScheduler → Scheduler
scheduler_of s = record {
  name = name_of s;
  policy = policy_of s;
  schedule = schedule s;
  can_schedule = λ task. ok (can_schedule s);
}
