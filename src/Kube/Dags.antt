-- ===== src/Kube/Dags.antt =====
-- How the API server stores Dags while nobody else writes to them, as Kubernetes documents it.
use nautikus.Prelude.{◌≡◌, Option, some}
use nautikus.Errors.{ok}
use nautikus.Api.{Dag}
use nautikus.Kube.{Kube, Pod, NamespacedName}

abbrev pub dag_key : Dag → NamespacedName
dag_key d = record { namespace = d.namespace; name = d.name }

pub record DagStore (K : Kube) : Type 0 where
  pub dag_at : NamespacedName → K.Cluster → Option Dag
  pub get_dag-found :
      (k : NamespacedName) (d : Dag) (c : K.Cluster)
      → dag_at k c ≡ some d
      → K.get_dag k c ≡ (ok d, c)
  -- `Status().Update` stores the status and nothing else of the Dag that it is given.
  pub update_status-found :
      (d old : Dag) (c : K.Cluster)
      → dag_at (dag_key d) c ≡ some old
      → (c' : K.Cluster) × (K.update_status d c ≡ (ok (record old { status = d.status }), c'))
        × (dag_at (dag_key d) c' ≡ some (record old { status = d.status }))
  pub create_pod-keeps :
      (k : NamespacedName) (p : Pod) (c : K.Cluster) → dag_at k (K.create_pod p c).1 ≡ dag_at k c
