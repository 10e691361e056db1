-- ===== src/Kube.antt =====
-- What the repository uses of Kubernetes: the client of controller-runtime, the pods, and
-- `SetControllerReference`. All of it is a parameter. A call takes the cluster to the cluster
-- after the call, so what other actors do to the cluster between two calls is part of a call.
pub mod Pods
pub mod Dags
pub mod Server
pub mod Memory
use nautikus.Prelude.{String, Bool, string_dec, Eq, List}
use nautikus.Prelude.Dict.{Dict}
use nautikus.Errors.{Result}
use nautikus.Api.{Dag}

-- `corev1.PodPhase` is a string with five constants; `unset` is the empty one.
pub data PodPhase : Type 0 where
  unset pending running succeeded failed unknown : PodPhase
  other : String → PodPhase

pub data RestartPolicy : Type 0 where
  always on_failure never : RestartPolicy

pub record EnvVar : Type 0 where
  pub name : String
  pub value : String

pub record Container : Type 0 where
  pub name : String
  pub image : String
  pub command : List String
  pub args : List String
  pub env : List EnvVar

-- The fields of `corev1.Pod` that the repository sets or reads. `owners` are the names that
-- `SetControllerReference` has written.
pub record Pod : Type 0 where
  pub name : String
  pub namespace : String
  pub labels : Dict String String
  pub owners : List String
  pub restart_policy : RestartPolicy
  pub containers : List Container
  pub phase : PodPhase
  -- The deletion timestamp is set.
  pub terminating : Bool

pub record NamespacedName : Type 0 where
  pub namespace : String
  pub name : String

unfoldable pub NamespacedName-discrete : Discrete NamespacedName
NamespacedName-discrete = hlevel string_dec

instance abbrev pub namespaced_name_eq : Eq NamespacedName
namespaced_name_eq = record { dec = NamespacedName-discrete }

-- The client and the cluster behind it.
pub record Kube : Type 1 where
  pub Cluster : Type 0
  pub get_dag : NamespacedName → Cluster → Result Dag × Cluster
  pub get_pod : NamespacedName → Cluster → Result Pod × Cluster
  pub create_pod : Pod → Cluster → Result (Unit {0}) × Cluster
  pub delete_pod : NamespacedName → Cluster → Result (Unit {0}) × Cluster
  -- `Status().Update` overwrites the Dag that it is given by the server's answer.
  pub update_status : Dag → Cluster → Result Dag × Cluster
  pub set_controller_reference : Dag → Pod → Result Pod
