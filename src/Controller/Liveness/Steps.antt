-- ===== src/Controller/Liveness/Steps.antt =====
-- Rounds of reconciliations of one Dag.
use nautikus.Prelude.{ℕ, suc, ◌≡◌, String, some, List, All}
use nautikus.Prelude.Dict.{Dict}
use nautikus.Api.{TaskStatus, Dag, task_state_eq}
use nautikus.Kube.{Kube, Pod, PodPhase, NamespacedName}
use nautikus.Kube.Pods.{PodStore}
use nautikus.Kube.Dags.{DagStore}
use nautikus.Executor.Pod.{get_pod_name}
use nautikus.Controller.Reconcile.{World, reconcile}
use nautikus.Controller.Reads.{set_up}

-- The pod of the entry has succeeded.
abbrev pub Succeeded : {K : Kube} → PodStore K → Dag → K.Cluster → TaskStatus → Type 0
Succeeded P d c ts =
    (p : Pod) × (P.pod_at (record { namespace = d.namespace; name = get_pod_name d.name ts.name }) c
      ≡ some p)
    × (p.phase ≡ PodPhase.succeeded)

module _ {K : Kube} (P : PodStore K) (D : DagStore K)
    (range : Dict String String → List (String × String)) (k : NamespacedName) where
  -- From the reconciliation at `w` to the next one, at `w'`: nobody else writes to the Dag, the
  -- configuration stays, and the pods of all entries succeed.
  pub record Between (w w' : World K) : Type 0 where
    pub dag : D.dag_at k w'.cluster ≡ D.dag_at k (reconcile (set_up K range) k w).1.cluster
    pub config : w'.scheduler.config ≡ (reconcile (set_up K range) k w).1.scheduler.config
    pub succeeded :
        (d : Dag)
        → D.dag_at k w'.cluster ≡ some d
        → All (Succeeded P d w'.cluster) d.status.task_statuses

  -- Rounds of a reconciliation and of what happens until the next one.
  pub data Rounds : ℕ → World K → World K → Type 0 where
    start : {w : World K} → Rounds 0 w w
    later : {u w : World K} (n : ℕ) (v : World K) → Rounds n u v → Between v w → Rounds (suc n) u w
