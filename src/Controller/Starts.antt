-- ===== src/Controller/Starts.antt =====
-- What the loop over the scheduled tasks does to the Dag, for every runner and client.
use nautikus.Prelude.{
  ℕ, suc, ◌≡◌, refl, sym, ◌∙◌, ap, ◌⊎◌, inl, inr, String, List, [], ◌∷◌, ◌++◌, map, ◌==◌, string_eq,
  take, arith, if_ind,
}
use mathlib.Core.List.{append-nil, append_assoc, map-append}
use nautikus.Errors.{Result, ok, err}
use nautikus.Api.{failed, TaskSpec, TaskStatus, Dag, task_state_eq}
use nautikus.Kube.{Kube}
use nautikus.Runner.{DefaultRunner, Outcome, no_executor, run_failed, started, run}
use nautikus.Controller.Sync.{Session, and_then}
use nautikus.Controller.Reconcile.{
  update_first, new_entry, announce, set_error, set_result, settle, start_task, start_tasks,
}

abbrev pub task_name : TaskSpec → String
task_name t = t.name

abbrev pub entry_name : TaskStatus → String
entry_name ts = ts.name

-- The names of the entries.
abbrev pub names : Dag → List String
names d = map entry_name d.status.task_statuses

-- `d'` is `d` with an entry more for each of the given tasks; entries may have changed otherwise,
-- and the state of the Dag to failed.
pub record Extends (tasks : List TaskSpec) (d d' : Dag) : Type 0 where
  pub name : d'.name ≡ d.name
  pub namespace : d'.namespace ≡ d.namespace
  pub spec : d'.spec ≡ d.spec
  pub names_added : names d' ≡ names d ++ map task_name tasks
  pub state : (d'.status.state ≡ d.status.state) ⊎ (d'.status.state ≡ failed)

names-update_first :
    (name : String) (f : TaskStatus → TaskStatus) (sts : List TaskStatus)
    → ((ts : TaskStatus) → (f ts).name ≡ ts.name)
    → map entry_name (update_first name f sts) ≡ map entry_name sts
unfolding update_first
names-update_first name f [] h = refl
names-update_first name f (ts ∷ rest) h =
    if_ind (λ l. map entry_name l ≡ map entry_name (ts ∷ rest)) (ts.name == name) _ _
      (ap (λ n. n ∷ map entry_name rest) (h ts))
      (ap (λ r. ts.name ∷ r) (names-update_first name f rest h))

-- What `Run` answers does not matter for the names.
module _ {K : Kube} where
  settle-names :
      (task : TaskSpec) (outcome : Outcome) (s : Session K)
      → ((settle task outcome s).1.dag.name ≡ s.dag.name)
        × ((settle task outcome s).1.dag.namespace ≡ s.dag.namespace)
        × ((settle task outcome s).1.dag.spec ≡ s.dag.spec)
        × (names (settle task outcome s).1.dag ≡ names s.dag)
        × (((settle task outcome s).1.dag.status.state ≡ s.dag.status.state)
            ⊎ ((settle task outcome s).1.dag.status.state ≡ failed))
  unfolding settle
  settle-names task (no_executor e) s = (
    refl,
    refl,
    refl,
    names-update_first task.name (set_error e) s.dag.status.task_statuses (λ _. refl),
    inr refl,
  )
  settle-names task (run_failed x e) s = (
    refl,
    refl,
    refl,
    names-update_first task.name (set_error e) s.dag.status.task_statuses (λ _. refl),
    inr refl,
  )
  settle-names task (started x) s = (
    refl,
    refl,
    refl,
    names-update_first task.name (set_result x) s.dag.status.task_statuses (λ _. refl),
    inl refl,
  )

  pub start_task-Extends :
      (r : DefaultRunner K) (task : TaskSpec) (s : Session K)
      → Extends (task ∷ []) s.dag (start_task r task s).1.dag
  unfolding start_task
  start_task-Extends r task s =
      let announced = announce task s in
      let (outcome, c) = run r announced.dag task announced.cluster in
      let (same_name, same_namespace, same_spec, same_names, state) =
        settle-names task outcome (record announced { cluster = c }) in
      record {
        name = same_name;
        namespace = same_namespace;
        spec = same_spec;
        names_added =
            same_names
            ∙ map-append entry_name s.dag.status.task_statuses (new_entry s.dag task ∷ []);
        state = state;
      }

Extends-refl : (d : Dag) → Extends [] d d
Extends-refl d = record {
  name = refl;
  namespace = refl;
  spec = refl;
  names_added = sym (append-nil (names d));
  state = inl refl;
}

Extends-trans :
    {ts us : List TaskSpec} {a b c : Dag} → Extends ts a b → Extends us b c → Extends (ts ++ us) a c
Extends-trans {ts} {us} {a} h k = record {
  name = k.name ∙ h.name;
  namespace = k.namespace ∙ h.namespace;
  spec = k.spec ∙ h.spec;
  names_added =
      k.names_added
      ∙ ap (λ l. l ++ map task_name us) h.names_added
      ∙ append_assoc (names a) (map task_name ts) (map task_name us)
      ∙ ap (λ l. names a ++ l) (sym (map-append task_name ts us));
  state = ground (arith, h.state, k.state);
}

module _ {K : Kube} (r : DefaultRunner K) where
  -- An entry is added for each of the first tasks, up to the one where the loop stops.
  abbrev pub ExtendsBy : List TaskSpec → Session K → Result (Unit {0}) × Session K → Type 0
  ExtendsBy tasks s y =
      (k : ℕ) × Extends (take k tasks) s.dag y.1.dag × (y.0 ≡ ok tt → take k tasks ≡ tasks)

  ExtendsBy-and_then :
      (task : TaskSpec) (tasks : List TaskSpec) (s : Session K) (x : Result (Unit {0}) × Session K)
      → Extends (task ∷ []) s.dag x.1.dag
      → ((s' : Session K) → ExtendsBy tasks s' (start_tasks r tasks s'))
      → ExtendsBy (task ∷ tasks) s (and_then x (start_tasks r tasks))
  ExtendsBy-and_then task tasks s (err e, s') h rest = (1, h, λ impossible. cc)
  ExtendsBy-and_then task tasks s (ok _, s') h rest =
      let (k, h', all) = rest s' in
      (suc k, Extends-trans h h', λ done. ap (λ l. task ∷ l) (all done))

  pub start_tasks-ExtendsBy :
      (tasks : List TaskSpec) (s : Session K) → ExtendsBy tasks s (start_tasks r tasks s)
  unfolding start_tasks
  start_tasks-ExtendsBy [] s = (0, Extends-refl s.dag, λ _. refl)
  start_tasks-ExtendsBy (task ∷ tasks) s =
      ExtendsBy-and_then task tasks s (start_task r task s) (start_task-Extends r task s)
        (start_tasks-ExtendsBy tasks)
