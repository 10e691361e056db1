-- ===== src/Executor/Pod/Containers.antt =====
-- What a pod runs and the environment it gets.
use nautikus.Prelude.{
  ◌⊎◌, ◌≡◌, ◌≢◌, refl, sym, ◌∙◌, String, true, List, [], ◌∷◌, ◌++◌, map, string_eq, arith, length,
}
use mathlib.Core.Path.{subst}
use mathlib.Core.List.{Perm, append_assoc, append-nil}
use mathlib.Core.List.Perm
use nautikus.Prelude.Dict.{Dict}
use nautikus.Api.{
  TaskType, bash, python, go, custom, task_type_eq, TaskType-discrete, TaskSpec, Dag,
}
use nautikus.Kube.{Container, EnvVar}
use nautikus.Executor.Registry.{contains}
use nautikus.Executor.Pod.Defs.{handled_types, or_default, get_container_spec, build_env, build_pod}

abbrev pub env_var : String × String → EnvVar
env_var (k, v) = record { name = k; value = v }

build_env-eq :
    (acc : List EnvVar) (entries : List (String × String))
    → build_env acc entries ≡ acc ++ map env_var entries
unfolding build_env
build_env-eq acc [] = sym (append-nil acc)
build_env-eq acc ((k, v) ∷ rest) =
    build_env-eq (acc ++ env_var (k, v) ∷ []) rest
    ∙ append_assoc acc (env_var (k, v) ∷ []) (map env_var rest)

-- A container that can start, with the environment of the task.
pub record IsRunnable (task : TaskSpec) (c : Container) : Type 0 where
  pub image : c.image ≢ ""
  pub own_image : (task.image ≡ "") ⊎ (c.image ≡ task.image)
  pub command : c.command ≢ []
  pub args : length c.args ≡ 1
  pub env : Perm c.env (map env_var task.env)

or_default_lem :
    (image default : String)
    → default ≢ ""
    → (or_default image default ≢ "") × ((image ≡ "") ⊎ (or_default image default ≡ image))
unfolding or_default
or_default_lem image default h = ground arith

-- What holds of the image, the command and the arguments.
abbrev Facts : TaskSpec → String × List String × List String → Type 0
Facts task (image, command, args) =
    (image ≢ "") × ((task.image ≡ "") ⊎ (image ≡ task.image)) × (command ≢ []) × (length args ≡ 1)

nonempty_lem : {A : Type 0} (a : A) (l : List A) → a ∷ l ≢ []
nonempty_lem a l = λ impossible. cc

spec-Facts :
    (task : TaskSpec)
    → contains handled_types task.type ≡ true
    → Facts task (get_container_spec task)
unfolding get_container_spec TaskType-discrete
spec-Facts task h = by_type task.type refl
  where
    by_type : (t : TaskType) → task.type ≡ t → Facts task (get_container_spec task)
    by_type bash e =
        let (image, own) = or_default_lem task.image "ubuntu:latest" (λ impossible. cc) in
        rw e (image, own, nonempty_lem _ _, refl)
    by_type python e =
        let (image, own) = or_default_lem task.image "python:3.9-slim" (λ impossible. cc) in
        rw e (image, own, nonempty_lem _ _, refl)
    by_type go e =
        let (image, own) = or_default_lem task.image "golang:1.20-alpine" (λ impossible. cc) in
        rw e (image, own, nonempty_lem _ _, refl)
    by_type (custom x) e = absurd (ground (arith, h, e))

-- For a task of a type that the pod executor handles, the pod has one
-- container, which has an image, the task's own if it names one, a command with one
-- argument, and one environment variable for each entry of the task's map, whatever the order in
-- which Go ranges over the map.
pub build_pod-IsRunnable :
    (range : Dict String String → List (String × String)) (dag : Dag) (task : TaskSpec)
    → contains handled_types task.type ≡ true
    → Perm (range task.env) task.env
    → (c : Container) × ((build_pod range dag task).containers ≡ c ∷ []) × IsRunnable task c
unfolding build_pod
build_pod-IsRunnable range dag task handled order =
    let (image, own, command, args) = spec-Facts task handled in
    (
      _,
      refl,
      record {
        image = image;
        own_image = own;
        command = command;
        args = args;
        env =
            subst (λ vars. Perm vars (map env_var task.env))
              (sym (build_env-eq [] (range task.env))) (Perm.map env_var order);
      },
    )
