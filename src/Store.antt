-- ===== src/Store.antt =====
-- The interfaces of internal/store/interface.go, which nothing in the repository implements.
use nautikus.Prelude.{String, ℕ, ℤ, pos, Option, List}
use nautikus.Prelude.Dict.{Dict}
use nautikus.Errors.{Result}
use nautikus.Api.{TaskState, TaskStatus, Dag}

-- Go's package time, the values of `interface{}`, and channels.
pub record Runtime : Type 1 where
  pub Time : Type 0
  pub Duration : Type 0
  pub seconds : ℕ → Duration
  pub Any : Type 0
  pub Channel : Type 0 → Type 0

pub record ListOptions : Type 0 where
  pub limit : ℤ
  pub offset : ℤ
  pub label_selector : String
  pub state : TaskState

-- `StoreType` is a string with three constants; `other` is any further text.
pub data StoreType : Type 0 where
  etcd postgres memory : StoreType
  other : String → StoreType

-- `EventType` is a string with seven constants; `other` is any further text.
pub data EventType : Type 0 where
  dag_created dag_started dag_completed dag_failed : EventType
  task_started task_completed task_failed : EventType
  other : String → EventType

-- A pointer to a time that is nil is `none`.
module _ (R : Runtime) where
  pub record TaskRun : Type 0 where
    pub task_name : String
    pub state : TaskState
    pub start_time : R.Time
    pub end_time : Option R.Time
    pub pod_name : String
    pub message : String

  pub record DagRun : Type 0 where
    pub run_id : String
    pub dag_namespace : String
    pub dag_name : String
    pub start_time : R.Time
    pub end_time : Option R.Time
    pub state : TaskState
    pub task_runs : List (TaskRun)
    pub metadata : Dict String String

  pub record StoreConfig : Type 0 where
    pub type : StoreType
    pub connection_string : String
    pub max_connections : ℤ
    pub timeout : R.Duration

  abbrev pub default_store_config : StoreConfig
  default_store_config = record {
    type = etcd;
    connection_string = "";
    max_connections = pos 10;
    timeout = R.seconds 30;
  }

  pub record Event : Type 0 where
    pub id : String
    pub type : EventType
    pub timestamp : R.Time
    pub dag_namespace : String
    pub dag_name : String
    pub task_name : String
    pub «data» : Dict String R.Any

  pub record EventFilter : Type 0 where
    pub types : List EventType
    pub dag_namespace : String
    pub dag_name : String
    pub since : Option R.Time
    pub until : Option R.Time

  -- A store acts on the state of its backend. Namespaces come before names.
  pub record Store : Type 1 where
    pub State : Type 0
    pub save_dag : Dag → State → Result (Unit {0}) × State
    pub get_dag : String → String → State → Result Dag × State
    pub list_dags : String → ListOptions → State → Result (List Dag) × State
    pub delete_dag : String → String → State → Result (Unit {0}) × State
    pub save_task_status : String → String → String → TaskStatus → State → Result (Unit {0}) × State
    pub get_task_status : String → String → String → State → Result TaskStatus × State
    pub list_task_statuses : String → String → State → Result (List TaskStatus) × State
    pub save_dag_run : DagRun → State → Result (Unit {0}) × State
    pub get_dag_run : String → State → Result DagRun × State
    pub list_dag_runs : String → String → ListOptions → State → Result (List DagRun) × State
    pub ping : State → Result (Unit {0}) × State
    pub close : State → Result (Unit {0}) × State

  pub record EventStore : Type 1 where
    pub State : Type 0
    pub publish : Event → State → Result (Unit {0}) × State
    pub subscribe : EventFilter → State → Result (R.Channel Event) × State
    pub get_events : EventFilter → ListOptions → State → Result (List Event) × State
