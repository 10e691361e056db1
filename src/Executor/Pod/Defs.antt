-- ===== src/Executor/Pod/Defs.antt =====
-- internal/executor/pod/executor.go
use nautikus.Prelude.{false, String, ◌<>◌, List, [], ◌∷◌, ◌++◌, ◌==◌, string_eq, if◌then◌else◌}
use nautikus.Prelude.Dict.{Dict}
use nautikus.Errors.{wrap, Result, ok, err, is_not_found, is_already_exists}
use nautikus.Api.{
  TaskType, bash, python, go, custom, TaskState, pending, running, completed, failed, TaskSpec, Dag,
}
use nautikus.Kube.{Kube, Pod, PodPhase, RestartPolicy, EnvVar, NamespacedName}
use nautikus.Executor.{Executor}

abbrev pub handled_types : List TaskType
handled_types = bash ∷ python ∷ go ∷ []

unfoldable pub get_pod_name : String → String → String
get_pod_name dag_name task_name = dag_name <> ("-" <> task_name)

-- `getContainerSpec`: the image, the command and the arguments. A task of another type runs the
-- image's own command.
unfoldable pub or_default : String → String → String
or_default image default = if image == "" then default else image

unfoldable pub go_command : String → String
go_command script =
    "echo '" <> (script <> "' > main.go && go mod init dag && go mod tidy && go run main.go")

unfoldable pub get_container_spec : TaskSpec → String × List String × List String
get_container_spec task = elim task.type [
  | bash ↦ (or_default task.image "ubuntu:latest", "/bin/bash" ∷ "-c" ∷ [], task.command ∷ [])
  | python ↦ (or_default task.image "python:3.9-slim", "python" ∷ "-c" ∷ [], task.script ∷ [])
  | go ↦ (
    or_default task.image "golang:1.20-alpine",
    "/bin/sh" ∷ "-c" ∷ [],
    go_command task.script ∷ [],
  )
  | custom _ ↦ (task.image, [], [])
]

-- The loop of `buildEnv` over the entries in the order in which Go ranges over the map.
unfoldable pub build_env : List EnvVar → List (String × String) → List EnvVar
build_env acc [] = acc
build_env acc ((k, v) ∷ rest) = build_env (acc ++ record { name = k; value = v } ∷ []) rest

-- A pod of the API that has not run yet has the empty phase.
module _ (range : Dict String String → List (String × String)) where
  unfoldable pub build_pod : Dag → TaskSpec → Pod
  build_pod dag task =
      let (image, command, args) = get_container_spec task in
      record {
        name = get_pod_name dag.name task.name;
        namespace = dag.namespace;
        labels =
            ("dag", dag.name)
            ∷ ("task", task.name)
            ∷ ("app.kubernetes.io/name", "nautikus")
            ∷ ("app.kubernetes.io/part-of", "nautikus")
            ∷ [];
        owners = [];
        restart_policy = RestartPolicy.never;
        containers =
            record {
              name = "task-runner";
              image = image;
              command = command;
              args = args;
              env = build_env [] (range task.env);
            }
            ∷ [];
        phase = PodPhase.unset;
        terminating = false;
      }

-- The `if` on the error of `Create`.
unfoldable pub created : Result (Unit {0}) → Result (Unit {0})
created (ok u) = ok tt
created (err e) = if is_already_exists e then ok tt else err (wrap "failed to create pod" e)

-- The `if` on the error of `Delete`.
unfoldable pub deleted : Result (Unit {0}) → Result (Unit {0})
deleted (ok u) = ok tt
deleted (err e) = if is_not_found e then ok tt else err e

unfoldable pub state_of_phase : PodPhase → TaskState
state_of_phase PodPhase.succeeded = completed
state_of_phase PodPhase.failed = failed
state_of_phase PodPhase.running = running
state_of_phase _ = pending

-- What `GetStatus` makes of the answer of `Get`. Beside an error the source also returns
-- `StateFailed`, which its caller does not read.
unfoldable pub observed : Result Pod → Result TaskState
observed (ok pod) = ok (state_of_phase pod.phase)
observed (err e) = if is_not_found e then ok pending else err e

module _ (K : Kube) where
  unfoldable pub create : Result Pod → K.Cluster → Result (Unit {0}) × K.Cluster
  create (err e) c = (err (wrap "failed to set owner reference" e), c)
  create (ok pod) c = let (answer, c') = K.create_pod pod c in (created answer, c')

  unfoldable pub execute :
      (Dict String String → List (String × String))
      → Dag
      → TaskSpec
      → K.Cluster
      → Result (Unit {0}) × K.Cluster
  unfolding create
  execute range dag task c = create (K.set_controller_reference dag (build_pod range dag task)) c

  abbrev pub pod_key : Dag → TaskSpec → NamespacedName
  pod_key dag task = record { namespace = dag.namespace; name = get_pod_name dag.name task.name }

  unfoldable pub get_status : Dag → TaskSpec → K.Cluster → Result TaskState × K.Cluster
  get_status dag task c = let (answer, c') = K.get_pod (pod_key dag task) c in (observed answer, c')

  unfoldable pub cleanup : Dag → TaskSpec → K.Cluster → Result (Unit {0}) × K.Cluster
  cleanup dag task c = let (answer, c') = K.delete_pod (pod_key dag task) c in (deleted answer, c')

  -- `New`, as a value of the interface.
  abbrev pub pod_executor : (Dict String String → List (String × String)) → Executor K
  pod_executor range = record {
    types = handled_types;
    execute = execute range;
    get_status = get_status;
    cleanup = cleanup;
  }
