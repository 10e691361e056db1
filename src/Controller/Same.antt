-- ===== src/Controller/Same.antt =====
-- A reconciliation keeps the name and the specification of its Dag.
use nautikus.Prelude.{◌≡◌, refl, ◌∙◌, ◌&&◌, ◌==◌, eqb, length, if_ind}
use nautikus.Errors.{Result, ok, err}
use nautikus.Api.{unset, running, failed, Dag, task_state_eq, with_state}
use nautikus.Kube.{Kube}
use nautikus.Runner.{DefaultRunner}
use nautikus.Controller.Sync.{Session, begin, sync_status}
use nautikus.Controller.Reconcile.{
  all_completed, update_dag_state, start_tasks, after_start, prepare,
}
use nautikus.Controller.Evolution.{sync_status-Evolves}
use nautikus.Controller.Starts.{start_tasks-ExtendsBy}
use nautikus.Controller.Rounds.{scheduled, prepare_cases}

-- A Dag with the same name and specification.
pub record IsSame (d d' : Dag) : Type 0 where
  pub name : d'.name ≡ d.name
  pub namespace : d'.namespace ≡ d.namespace
  pub spec : d'.spec ≡ d.spec

pub IsSame-trans : (a b c : Dag) → IsSame a b → IsSame b c → IsSame a c
IsSame-trans a b c h k = record {
  name = k.name ∙ h.name;
  namespace = k.namespace ∙ h.namespace;
  spec = k.spec ∙ h.spec;
}

pub begin-IsSame : (d : Dag) → IsSame d (begin d)
begin-IsSame d =
    if_ind (IsSame d) (d.status.state == unset) (with_state d running) d
      (record { name = refl; namespace = refl; spec = refl })
      (record { name = refl; namespace = refl; spec = refl })

pub update_dag_state-IsSame : (d : Dag) → IsSame d (update_dag_state d)
unfolding update_dag_state
update_dag_state-IsSame d =
    let same : IsSame d d = record { name = refl; namespace = refl; spec = refl } in
    if_ind (IsSame d) (d.status.state == failed) _ _ same (
      if_ind (IsSame d)
        (all_completed d.status.task_statuses
          && eqb (length d.status.task_statuses) (length d.spec.tasks))
        _ _ (record { name = refl; namespace = refl; spec = refl }) same)

after_start-IsSame :
    {K : Kube} (d : Dag) (x : Result (Unit {0}) × Session K)
    → IsSame d x.1.dag
    → IsSame d (after_start x).1.dag
unfolding after_start
after_start-IsSame d (ok _, s) h =
    IsSame-trans d s.dag (update_dag_state s.dag) h (update_dag_state-IsSame s.dag)
after_start-IsSame d (err e, s) h = h

pub prepare-IsSame :
    {K : Kube} (r : DefaultRunner K) (s : Session K) → IsSame s.dag (prepare r s).1.dag
prepare-IsSame r s =
    let s1 = (sync_status r s).1 in
    let synced = sync_status-Evolves r s in
    let begun = begin-IsSame s.dag in
    let same : IsSame s.dag s1.dag =
      IsSame-trans s.dag (begin s.dag) s1.dag begun
        (record { name = synced.name; namespace = synced.namespace; spec = synced.spec }) in
    let (k, more, _) = start_tasks-ExtendsBy r (scheduled s1) s1 in
    prepare_cases r s (λ x. IsSame s.dag x.1.dag) (λ _ _. same) (λ _ _. same)
      (λ _ _. after_start-IsSame s.dag (start_tasks r (scheduled s1) s1) (
        IsSame-trans s.dag s1.dag (start_tasks r (scheduled s1) s1).1.dag same
          (record { name = more.name; namespace = more.namespace; spec = more.spec })))
