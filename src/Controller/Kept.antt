-- ===== src/Controller/Kept.antt =====
-- `syncStatus` writes to no Dag of the cluster, whatever the client answers.
use nautikus.Prelude.{
  ◌≡◌, refl, ◌∙◌, ap, inl, inr, String, Bool, true, false, Option, List, if◌then◌else◌,
}
use nautikus.Prelude.Dict
use nautikus.Prelude.Dict.{Dict}
use nautikus.Errors.{ok}
use nautikus.Api.{TaskSpec, Dag}
use nautikus.Kube.{Kube, NamespacedName}
use nautikus.Executor.Registry.{get, contains, new_registry, get-register}
use nautikus.Executor.Pod
use nautikus.Executor.Pod.{handled_types, pod_executor, pod_key}
use nautikus.Runner.{new_default_runner, get_status, status_with}
use nautikus.Controller.Sync.{Session}
use nautikus.Controller.Reads.{set_up}
use nautikus.Controller.Walks.{Write, Walk, stay, later}

-- `look` is what is read of a Dag in the cluster, which the read of a pod does not change.
module _ (K : Kube) (look : K.Cluster → Option Dag)
    (keeps : (k : NamespacedName) (c : K.Cluster) → look (K.get_pod k c).1 ≡ look c)
    (range : Dict String String → List (String × String)) where
  status-keeps :
      (d : Dag) (task : TaskSpec) (c : K.Cluster)
      → look (get_status (set_up K range) d task c).1 ≡ look c
  unfolding get_status status_with new_default_runner new_registry Pod.get_status get Dict.lookup
  status-keeps d task c =
      rw (get-register task.type (pod_executor K range) (new_registry K)).0
        (by_type (contains handled_types task.type))
    where
      by_type :
          (b : Bool)
          → look
              (status_with
                (if b then ok (pod_executor K range) else get task.type (new_registry K))
                d
                task
                c).1
            ≡ look c
      by_type true = keeps (pod_key K d task) c
      by_type false = refl

  Write-keeps : {u v : Session K} → Write (set_up K range) u v → look v.cluster ≡ look u.cluster
  Write-keeps (Write.look s c (inl (d, task, e))) = ap look e ∙ status-keeps d task s.cluster
  Write-keeps (Write.look s c (inr (k, e))) = ap look e ∙ keeps k s.cluster
  Write-keeps (Write.finish s i entry state e undone done) = refl
  Write-keeps (Write.note s i entry state e undone known still) = refl
  Write-keeps (Write.fail s) = refl

  pub Walk-keeps :
      (s : Session K) {v : Session K} → Walk (set_up K range) s v → look v.cluster ≡ look s.cluster
  Walk-keeps s stay = refl
  Walk-keeps s (later earlier w) = Write-keeps w ∙ Walk-keeps s earlier
