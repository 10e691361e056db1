-- ===== src/Kube/Pods.antt =====
-- How the API server stores pods while nobody else writes to it, as Kubernetes documents it: what
-- the theorems about pods assume of the client.
use nautikus.Prelude.{◌≡◌, ◌≢◌, ◌⊎◌, true, Option, none, some, ◌==◌, if◌then◌else◌}
use nautikus.Errors.{Error, Result, ok, err, is_not_found, is_already_exists}
use nautikus.Api.{Dag}
use nautikus.Kube.{Kube, Pod, PodPhase, NamespacedName, namespaced_name_eq}

abbrev pub key : Pod → NamespacedName
key p = record { namespace = p.namespace; name = p.name }

-- A failed call answers with an error of the given kind, and leaves the cluster as it was.
abbrev pub Fails : {A C : Type 0} → (Error → Type 0) → (Result A × C) → C → Type 0
Fails kind r c = (e : Error) × (r ≡ (err e, c)) × kind e

-- There is no pod, or it is being deleted.
abbrev pub IsLeaving : Option Pod → Type 0
IsLeaving none = Unit
IsLeaving (some p) = p.terminating ≡ true

pub record PodStore (K : Kube) : Type 0 where
  pub pod_at : NamespacedName → K.Cluster → Option Pod
  pub get_pod-found :
      (k : NamespacedName) (p : Pod) (c : K.Cluster)
      → pod_at k c ≡ some p
      → K.get_pod k c ≡ (ok p, c)
  pub get_pod-absent :
      (k : NamespacedName) (c : K.Cluster)
      → pod_at k c ≡ none
      → Fails (λ e. is_not_found e ≡ true) (K.get_pod k c) c
  pub create_pod-present :
      (p q : Pod) (c : K.Cluster)
      → pod_at (key p) c ≡ some q
      → Fails (λ e. is_already_exists e ≡ true) (K.create_pod p c) c
  -- The server may set the phase of a new pod to pending.
  pub create_pod-absent :
      (p : Pod) (c : K.Cluster)
      → pod_at (key p) c ≡ none
      → (c' : K.Cluster) × (q : Pod) × (K.create_pod p c ≡ (ok tt, c'))
        × (key q ≡ key p)
        × ((q.phase ≡ p.phase) ⊎ (q.phase ≡ PodPhase.pending))
        × ((k : NamespacedName) → pod_at k c' ≡ (if key p == k then some q else pod_at k c))
  pub delete_pod-absent :
      (k : NamespacedName) (c : K.Cluster)
      → pod_at k c ≡ none
      → Fails (λ e. is_not_found e ≡ true) (K.delete_pod k c) c
  -- A pod is deleted gracefully: it may stay for a while, with its deletion timestamp set.
  pub delete_pod-present :
      (k : NamespacedName) (p : Pod) (c : K.Cluster)
      → pod_at k c ≡ some p
      → (c' : K.Cluster) × (K.delete_pod k c ≡ (ok tt, c'))
        × IsLeaving (pod_at k c')
        × ((j : NamespacedName) → k ≢ j → pod_at j c' ≡ pod_at j c)
  -- `SetControllerReference` writes the owners of the pod and nothing else.
  pub owned :
      (d : Dag) (p q : Pod)
      → K.set_controller_reference d p ≡ ok q
      → (key q ≡ key p) × (q.phase ≡ p.phase)
