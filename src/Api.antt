-- ===== src/Api.antt =====
-- The data of a workflow: api/v1/dag_types.go. Of the Kubernetes metadata of a `Dag` the model has
-- the name and the namespace, which is all that the code reads. A nil slice is an empty list: the
-- only code that tells them apart (`syncStatus`) turns the one into the other.
use nautikus.Prelude.{String, string_dec, Eq, List}
use nautikus.Prelude.Dict.{Dict}

-- `TaskType` is a string with three constants; `custom` is any other text.
pub data TaskType : Type 0 where
  bash python go : TaskType
  custom : String → TaskType

-- `TaskState` is a string with four constants; `unset` is the empty one, `other` any further text.
pub data TaskState : Type 0 where
  unset pending running completed failed : TaskState
  other : String → TaskState

unfoldable pub TaskType-discrete : Discrete TaskType
TaskType-discrete = hlevel string_dec

unfoldable pub TaskState-discrete : Discrete TaskState
TaskState-discrete = hlevel string_dec

instance abbrev pub task_type_eq : Eq TaskType
task_type_eq = record { dec = TaskType-discrete }

instance abbrev pub task_state_eq : Eq TaskState
task_state_eq = record { dec = TaskState-discrete }

pub record TaskSpec : Type 0 where
  pub name : String
  pub type : TaskType
  pub dependencies : List String
  pub command : String
  pub script : String
  pub image : String
  pub env : Dict String String

pub record DagSpec : Type 0 where
  pub tasks : List TaskSpec

pub record TaskStatus : Type 0 where
  pub name : String
  pub state : TaskState
  pub pod_name : String
  pub message : String

pub record DagStatus : Type 0 where
  pub state : TaskState
  pub task_statuses : List TaskStatus

pub record Dag : Type 0 where
  pub name : String
  pub namespace : String
  pub spec : DagSpec
  pub status : DagStatus

-- The same Dag with other task statuses, and with another overall state.
abbrev pub with_statuses : Dag → List TaskStatus → Dag
with_statuses d sts = record d { status = record d.status { task_statuses = sts } }

abbrev pub with_state : Dag → TaskState → Dag
with_state d s = record d { status = record d.status { state = s } }
