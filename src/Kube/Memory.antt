-- ===== src/Kube/Memory.antt =====
-- A cluster in memory that nobody else writes to: it shows that what `Pods` assumes can be met,
-- and runs the tests.
use nautikus.Prelude.{
  if-eq_self, if-eq_other, ◌≡◌, ◌≢◌, ◌∙◌, refl, sym, ap, true, false, Option, none, some, ◌∷◌,
  string_eq, inr,
}
use mathlib.Core.Path.{subst}
use nautikus.Prelude.Dict
use nautikus.Prelude.Dict.{Dict}
use nautikus.Errors.{Error, api, Result, ok, err, ok-injective}
use nautikus.Api.{Dag}
use nautikus.Kube.{Kube, Pod, PodPhase, NamespacedName, namespaced_name_eq}
use nautikus.Kube.Dags.{DagStore, dag_key}
use nautikus.Kube.Server.{DagServer}
use nautikus.Kube.Pods.{PodStore, IsLeaving, key}

pub record Objects : Type 0 where
  pub pods : Dict NamespacedName Pod
  pub dags : Dict NamespacedName Dag

abbrev pub not_found : Error
not_found = api (record { not_found = true; already_exists = false; message = "not found" })

abbrev pub already_exists : Error
already_exists =
    api (record { not_found = false; already_exists = true; message = "already exists" })

abbrev answer_of : {A : Type 0} → Option A → Result A
answer_of none = err not_found
answer_of (some a) = ok a

abbrev create_in : Pod → Objects → Option Pod → Result (Unit {0}) × Objects
create_in p c none =
    (ok tt, record c { pods = Dict.insert (key p) (record p { phase = PodPhase.pending }) c.pods })
create_in p c (some _) = (err already_exists, c)

abbrev delete_in : NamespacedName → Objects → Option Pod → Result (Unit {0}) × Objects
delete_in k c none = (err not_found, c)
delete_in k c (some p) =
    (ok tt, record c { pods = Dict.insert k (record p { terminating = true }) c.pods })

abbrev update_in : Dag → Objects → Option Dag → Result Dag × Objects
update_in d c none = (err not_found, c)
update_in d c (some old) =
    let new = record old { status = d.status } in
    (ok new, record c { dags = Dict.insert (dag_key d) new c.dags })

abbrev pub memory : Kube
memory = record {
  Cluster = Objects;
  get_dag = λ k c. (answer_of (Dict.lookup k c.dags), c);
  get_pod = λ k c. (answer_of (Dict.lookup k c.pods), c);
  create_pod = λ p c. create_in p c (Dict.lookup (key p) c.pods);
  delete_pod = λ k c. delete_in k c (Dict.lookup k c.pods);
  update_status = λ d c. update_in d c (Dict.lookup (dag_key d) c.dags);
  set_controller_reference = λ d p. ok (record p { owners = d.name ∷ p.owners });
}

unfoldable pub memory_pods : PodStore memory
memory_pods = record {
  pod_at = λ k c. Dict.lookup k c.pods;
  get_pod-found = λ k p c e. rw e;
  get_pod-absent = λ k c e. (not_found, rw e, refl);
  create_pod-present = λ p q c e. (already_exists, rw e, refl);
  create_pod-absent = λ p c e.
      let q = record p { phase = PodPhase.pending } in
      (
        record c { pods = Dict.insert (key p) q c.pods },
        q,
        rw e refl,
        refl,
        inr refl,
        λ k. Dict.lookup-insert (key p) k q c.pods,
      );
  delete_pod-absent = λ k c e. (not_found, rw e, refl);
  delete_pod-present = λ k p c e.
      let q = record p { terminating = true } in
      (
        record c { pods = Dict.insert k q c.pods },
        rw e refl,
        subst IsLeaving (sym (Dict.lookup-insert k k q c.pods ∙ if-eq_self k (some q) _)) refl,
        λ j other. Dict.lookup-insert k j q c.pods ∙ if-eq_other k j _ _ other,
      );
  owned = λ d p q e. let same = ok-injective e in (sym (ap key same), sym (ap (λ r. r.phase) same));
}

pub create_in-dags : (p : Pod) (c : Objects) (o : Option Pod) → (create_in p c o).1.dags ≡ c.dags
create_in-dags p c none = refl
create_in-dags p c (some _) = refl

unfoldable pub memory_dags : DagStore memory
memory_dags = record {
  dag_at = λ k c. Dict.lookup k c.dags;
  get_dag-found = λ k d c e. rw e refl;
  update_status-found = λ d old c e.
      let new = record old { status = d.status } in
      (
        record c { dags = Dict.insert (dag_key d) new c.dags },
        rw e refl,
        Dict.lookup-insert (dag_key d) (dag_key d) new c.dags ∙ if-eq_self (dag_key d) (some new) _,
      );
  create_pod-keeps = λ k p c. ap (Dict.lookup k) (create_in-dags p c (Dict.lookup (key p) c.pods));
}

pub update_in-other :
    (d : Dag) (k : NamespacedName) (c : Objects)
    → dag_key d ≢ k
    → (o : Option Dag) → Dict.lookup k (update_in d c o).1.dags ≡ Dict.lookup k c.dags
update_in-other d k c other none = refl
update_in-other d k c other (some old) =
    Dict.lookup-insert (dag_key d) k (record old { status = d.status }) c.dags
    ∙ if-eq_other (dag_key d) k _ _ other

pub found_in : (o : Option Dag) (d : Dag) → answer_of o ≡ ok d → o ≡ some d
found_in none d e = absurd cc
found_in (some x) d e = ap some (ok-injective e)

unfoldable pub memory_server : DagServer memory
unfolding memory_dags
memory_server = record {
  dag_at = memory_dags.dag_at;
  get_dag-found = λ k d c e. found_in (Dict.lookup k c.dags) d e;
  update_status-found = λ d old c e.
      let (c', answer, stored) = memory_dags.update_status-found d old c e in
      inr (ap (λ x. Dict.lookup (dag_key d) x.1.dags) answer ∙ stored);
  update_status-other = λ d k c other. update_in-other d k c other (Dict.lookup (dag_key d) c.dags);
  get_dag-keeps = λ j k c. refl;
  get_pod-keeps = λ j k c. refl;
  create_pod-keeps = λ p k c. memory_dags.create_pod-keeps k p c;
}
