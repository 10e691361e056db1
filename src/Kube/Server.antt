-- ===== src/Kube/Server.antt =====
-- How the API server answers the operator when calls may fail, as Kubernetes documents it, while nobody
-- else writes to the Dags during a reconciliation.
use nautikus.Prelude.{◌≡◌, ◌≢◌, ◌⊎◌, Option, some}
use nautikus.Errors.{ok}
use nautikus.Api.{Dag}
use nautikus.Kube.{Kube, Pod, NamespacedName}
use nautikus.Kube.Dags.{dag_key}

pub record DagServer (K : Kube) : Type 0 where
  pub dag_at : NamespacedName → K.Cluster → Option Dag
  pub get_dag-found :
      (k : NamespacedName) (d : Dag) (c : K.Cluster)
      → (K.get_dag k c).0 ≡ ok d
      → dag_at k c ≡ some d
  -- `Status().Update` fails, or it stores the status and nothing else of the Dag that it is given.
  pub update_status-found :
      (d old : Dag) (c : K.Cluster)
      → dag_at (dag_key d) c ≡ some old
      → let c' = (K.update_status d c).1 in
        (dag_at (dag_key d) c' ≡ some old)
        ⊎ (dag_at (dag_key d) c' ≡ some (record old { status = d.status }))
  pub update_status-other :
      (d : Dag) (k : NamespacedName) (c : K.Cluster)
      → dag_key d ≢ k
      → dag_at k (K.update_status d c).1 ≡ dag_at k c
  -- The other calls write to no Dag.
  pub get_dag-keeps :
      (j k : NamespacedName) (c : K.Cluster) → dag_at k (K.get_dag j c).1 ≡ dag_at k c
  pub get_pod-keeps :
      (j k : NamespacedName) (c : K.Cluster) → dag_at k (K.get_pod j c).1 ≡ dag_at k c
  pub create_pod-keeps :
      (p : Pod) (k : NamespacedName) (c : K.Cluster) → dag_at k (K.create_pod p c).1 ≡ dag_at k c
