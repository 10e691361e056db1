-- ===== src/Controller/Launched.antt =====
-- The loop over the scheduled tasks where every pod can be created.
use nautikus.Prelude.{
  Option, ◌≡◌, ◌≢◌, refl, ◌∙◌, ap, String, Bool, true, false, List, [], ◌∷◌, All, All-append, ◌==◌,
  string_eq, if_ind,
}
use nautikus.Prelude.Dict
use nautikus.Prelude.Dict.{Dict}
use nautikus.Errors.{Result, ok, err}
use nautikus.Api.{failed, TaskSpec, TaskStatus, Dag}
use nautikus.Kube.{Kube, Pod}
use nautikus.Kube.Pods.{PodStore}
use nautikus.Executor.Registry.{get, contains, new_registry, get-register}
use nautikus.Executor.Pod.{handled_types, pod_executor, build_pod, create, execute}
use nautikus.Executor.Pod.Calls.{execute_twice}
use nautikus.Runner.{
  Outcome, no_executor, run_failed, started, run_result, run_with, run, new_default_runner,
}
use nautikus.Controller.Sync.{Session, and_then, and_then-keeps}
use nautikus.Controller.Reconcile.{
  update_first, announce, new_entry, settle, start_task, start_tasks,
}
use nautikus.Controller.Reads.{set_up}

-- `SetControllerReference` refuses a pod that another controller owns or a type that the scheme lacks;
-- neither is so for the pods that the executor builds.
abbrev pub CanOwn : Kube → Type 0
CanOwn K = (d : Dag) (p : Pod) → (q : Pod) × (K.set_controller_reference d p ≡ ok q)

abbrev pub NotFailed : List TaskStatus → Type 0
NotFailed sts = All (λ ts. ts.state ≢ failed) sts

NotFailed-update_first :
    (name : String) (f : TaskStatus → TaskStatus) (sts : List TaskStatus)
    → ((ts : TaskStatus) → (f ts).state ≢ failed)
    → NotFailed sts
    → NotFailed (update_first name f sts)
unfolding update_first
NotFailed-update_first name f [] fine h = tt
NotFailed-update_first name f (ts ∷ sts) fine h =
    if_ind NotFailed (ts.name == name) _ _ (fine ts, h.1)
      (h.0, NotFailed-update_first name f sts fine h.1)

module _ {K : Kube} (P : PodStore K) (range : Dict String String → List (String × String))
    (own : CanOwn K) where
  run-started :
      (d : Dag) (task : TaskSpec) (c : K.Cluster)
      → contains handled_types task.type ≡ true
      → (run (set_up K range) d task c).0 ≡ run_result d task (ok tt)
  unfolding run run_with new_default_runner
  run-started d task c h =
      let (q, e) = own d (build_pod range d task) in
      rw ((get-register task.type (pod_executor K range) (new_registry K)).0, h)
        (ap (run_result d task) (execute_twice K P d task c range q e).0)

  -- A step of the loop succeeds, keeps the state of the Dag and leaves no entry failed.
  abbrev pub Fine : Session K → Result (Unit {0}) × Session K → Type 0
  Fine s x =
      (x.0 ≡ ok tt)
      × (x.1.dag.status.state ≡ s.dag.status.state)
      × NotFailed x.1.dag.status.task_statuses

  settle-Fine :
      (task : TaskSpec) (outcome : Outcome) (d : Dag) (s : Session K)
      → outcome ≡ run_result d task (ok tt)
      → NotFailed s.dag.status.task_statuses
      → Fine s (settle task outcome s)
  unfolding settle run_result
  settle-Fine task outcome d s e h =
      rw e
        (refl, refl, NotFailed-update_first task.name _ s.dag.status.task_statuses (λ ts bad. cc) h)

  start_task-Fine :
      (task : TaskSpec) (s : Session K)
      → contains handled_types task.type ≡ true
      → NotFailed s.dag.status.task_statuses
      → Fine s (start_task (set_up K range) task s)
  unfolding start_task
  start_task-Fine task s handled h =
      let announced = announce task s in
      let (outcome, c) = run (set_up K range) announced.dag task announced.cluster in
      settle-Fine task outcome announced.dag (record announced { cluster = c })
        (run-started announced.dag task announced.cluster handled)
        (All-append _ s.dag.status.task_statuses (new_entry s.dag task ∷ []) h ((λ bad. cc), tt))

  Fine-and_then :
      (s : Session K) (x : Result (Unit {0}) × Session K)
      (f : Session K → Result (Unit {0}) × Session K)
      → Fine s x
      → ((s' : Session K) → NotFailed s'.dag.status.task_statuses → Fine s' (f s'))
      → Fine s (and_then x f)
  Fine-and_then s (ok _, s') f (_, same, h) next =
      let (fine, same', h') = next s' h in (fine, same' ∙ same, h')
  Fine-and_then s (err e, s') f (impossible, _, _) next = absurd cc

  pub start_tasks-Fine :
      (tasks : List TaskSpec) (s : Session K)
      → All (λ t. contains handled_types t.type ≡ true) tasks
      → NotFailed s.dag.status.task_statuses
      → Fine s (start_tasks (set_up K range) tasks s)
  unfolding start_tasks
  start_tasks-Fine [] s handled h = (refl, refl, h)
  start_tasks-Fine (task ∷ tasks) s handled h =
      Fine-and_then s (start_task (set_up K range) task s) (start_tasks (set_up K range) tasks)
        (start_task-Fine task s handled.0 h) (λ s' h'. start_tasks-Fine tasks s' handled.1 h')

-- `look` is what is read of a Dag in the cluster, which the creation of a pod does not change.
module _ (K : Kube) (look : K.Cluster → Option Dag)
    (keeps : (p : Pod) (c : K.Cluster) → look (K.create_pod p c).1 ≡ look c)
    (range : Dict String String → List (String × String)) where
  create-dag_at : (answer : Result Pod) (c : K.Cluster) → look (create K answer c).1 ≡ look c
  unfolding create
  create-dag_at (err e) c = refl
  create-dag_at (ok pod) c = keeps pod c

  run-dag_at :
      (d : Dag) (task : TaskSpec) (c : K.Cluster) → look (run (set_up K range) d task c).1 ≡ look c
  unfolding run run_with new_default_runner new_registry execute get Dict.lookup
  run-dag_at d task c = by_type (contains handled_types task.type) refl
    where
      by_type :
          (b : Bool)
          → contains handled_types task.type ≡ b
          → look (run (set_up K range) d task c).1 ≡ look c
      by_type true h =
          rw ((get-register task.type (pod_executor K range) (new_registry K)).0, h)
            (create-dag_at (K.set_controller_reference d (build_pod range d task)) c)
      by_type false h =
          rw ((get-register task.type (pod_executor K range) (new_registry K)).0, h) refl

  settle-cluster :
      (task : TaskSpec) (outcome : Outcome) (s : Session K)
      → (settle task outcome s).1.cluster ≡ s.cluster
  unfolding settle
  settle-cluster task (no_executor e) s = refl
  settle-cluster task (run_failed x e) s = refl
  settle-cluster task (started x) s = refl

  start_task-dag_at :
      (task : TaskSpec) (s : Session K)
      → look (start_task (set_up K range) task s).1.cluster ≡ look s.cluster
  unfolding start_task
  start_task-dag_at task s =
      let announced = announce task s in
      let (outcome, c) = run (set_up K range) announced.dag task announced.cluster in
      ap look (settle-cluster task outcome (record announced { cluster = c }))
      ∙ run-dag_at announced.dag task announced.cluster

  -- Starting tasks writes to no Dag of the cluster.
  pub start_tasks-dag_at :
      (tasks : List TaskSpec) (s : Session K)
      → look (start_tasks (set_up K range) tasks s).1.cluster ≡ look s.cluster
  unfolding start_tasks
  start_tasks-dag_at [] s = refl
  start_tasks-dag_at (task ∷ tasks) s =
      and_then-keeps (λ x. look x.cluster ≡ look s.cluster) (start_task (set_up K range) task s)
        (start_tasks (set_up K range) tasks) (start_task-dag_at task s)
        (λ s' h. start_tasks-dag_at tasks s' ∙ h)
