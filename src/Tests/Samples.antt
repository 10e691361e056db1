-- ===== src/Tests/Samples.antt =====
-- A Dag of three tasks in various states, and a cluster in memory.
use mathlib.Core.List.{Nodup, Nodup-cons, not-mem-nil, mem-cons, mem-cons_self, Mem, Pairwise}
use mathlib.Core.Logic.{∥∥₁_prop}
use mathlib.Core.Path.{subst}
use mathlib.Core.HLevel.{⊥_prop}
use mathlib.Core.Logic.Or
use nautikus.Controller.Tracked.{IsTracked, task_names}
use nautikus.Prelude.{false, sym, pos, List, [], ◌∷◌, String}
use nautikus.Prelude.Dict.{Dict}
use nautikus.Api.{TaskState, unset, pending, running, bash, python, TaskSpec, TaskStatus, Dag}
use nautikus.Kube.{Pod, PodPhase, RestartPolicy, NamespacedName}
use nautikus.Kube.Memory.{Objects, memory}
use nautikus.Scheduler.{SchedulerConfig, DefaultScheduler, fifo}
use nautikus.Executor.Pod.{pod_executor}
use nautikus.Executor.Registry.{Registry}
use nautikus.Runner.{DefaultRunner, default_runner_config}
use nautikus.Controller.{Session}

abbrev pub in_order : Dict String String → List (String × String)
in_order m = m

abbrev pub extract : TaskSpec
extract = record {
  name = "extract";
  type = bash;
  dependencies = [];
  command = "echo extract";
  script = "";
  image = "";
  env = ("LEVEL", "1") ∷ ("MODE", "full") ∷ [];
}

abbrev pub load : TaskSpec
load = record {
  name = "load";
  type = python;
  dependencies = "extract" ∷ [];
  command = "";
  script = "print('load')";
  image = "python:3.12";
  env = [];
}

abbrev pub entry : String → TaskState → TaskStatus
entry name state = record { name = name; state = state; pod_name = "etl"; message = "" }

abbrev pub etl : TaskState → List TaskStatus → Dag
etl state sts = record {
  name = "etl";
  namespace = "default";
  spec = record { tasks = extract ∷ load ∷ [] };
  status = record { state = state; task_statuses = sts };
}

-- A Dag that was just created, and one whose first task was started.
abbrev pub fresh : Dag
fresh = etl unset []

abbrev pub started_etl : Dag
started_etl = etl running (entry "extract" pending ∷ [])

abbrev pub pod : String → PodPhase → Pod
pod name phase = record {
  name = name;
  namespace = "default";
  labels = [];
  owners = [];
  restart_policy = RestartPolicy.never;
  containers = [];
  phase = phase;
  terminating = false;
}

abbrev pub pod_name : String → NamespacedName
pod_name name = record { namespace = "default"; name = name }

abbrev pub empty : Objects
empty = record { pods = []; dags = [] }

abbrev pub with_pods : List Pod → Objects
with_pods [] = empty
with_pods (p ∷ ps) = record {
  pods = (record { namespace = p.namespace; name = p.name }, p) ∷ (with_pods ps).pods;
  dags = [];
}

abbrev pub two_slots : SchedulerConfig
two_slots = record { policy = fifo; max_concurrent_dags = pos 100; max_active_tasks = pos 2 }

abbrev pub idle : DefaultScheduler
idle = record { config = two_slots; active_tasks_per_dag = []; total_active_tasks = pos 0 }

abbrev pub registry : Registry memory
registry = record {
  executors = (bash, pod_executor memory in_order) ∷ (python, pod_executor memory in_order) ∷ [];
}

abbrev pub runner : DefaultRunner memory
runner = record { executor_registry = registry; config = default_runner_config }

abbrev pub session : Dag → List Pod → Session memory
session d ps = record { dag = d; scheduler = idle; cluster = with_pods ps }

pub etl_names : Nodup (task_names started_etl)
etl_names = Nodup-cons.1 (
  λ m. Or.elim ⊥_prop (mem-cons.0 m) (λ same. cc) (λ later. not-mem-nil later),
  Pairwise.cons (λ a m. absurd (not-mem-nil m)) Pairwise.nil,
)

pub started_etl-IsTracked : IsTracked started_etl
started_etl-IsTracked = record {
  nodup = Pairwise.cons (λ a m. absurd (not-mem-nil m)) Pairwise.nil;
  listed = λ name m.
      Or.elim ∥∥₁_prop (mem-cons.0 m)
        (λ same. subst (λ n. Mem n (task_names started_etl)) (sym same) mem-cons_self)
        (λ later. absurd (not-mem-nil later));
}
