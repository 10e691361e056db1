-- ===== src/Operator.antt =====
-- The running operator: one reconciler over all Dags of the cluster, as internal/controller/dag_controller.go
-- and cmd/manager/main.go set it up, among the users, the pods and its own restarts.
pub mod History
use nautikus.Prelude.{
  ℕ, ◌≡◌, refl, sym, ◌∙◌, ap, ◌⊎◌, inl, inr, String, Option, none, some, List, [], arith, pos_part,
  map, length,
}
use mathlib.Core.Path.{subst}
use mathlib.Core.Option.{some-injective}
use mathlib.Core.List.{Nodup, Mem, Nodup-nil, not-mem-nil}
use nautikus.Prelude.Dict.{Dict}
use nautikus.Api.{TaskState-discrete, task_state_eq, unset, Dag}
use nautikus.Kube.{Kube, NamespacedName}
use nautikus.Kube.Server.{DagServer}
use nautikus.Kube.Dags.{dag_key}
use nautikus.Scheduler.{SchedulerConfig, new_scheduler}
use nautikus.Scheduler.Limit.{active}
use nautikus.Controller.Starts.{entry_name, names}
use nautikus.Controller.{World, reconcile}
use nautikus.Controller.Tracked.{task_names}
use nautikus.Controller.Same.{prepare-IsSame}
use nautikus.Controller.Known.{AllKnown, set_up-AnswersKnown}
use nautikus.Controller.Reads.{set_up}
use nautikus.Controller.Safe.{IsSafe, prepare-IsSafe}
use nautikus.Controller.Stored.{
  dag_of_same, session, prepared, Leaves, reconcile-Leaves, reconcile-config,
}

-- A Dag as a user creates it at a key. The server keeps the status from being written on creation.
pub record IsFresh (k : NamespacedName) (d : Dag) : Type 0 where
  pub key : dag_key d ≡ k
  pub distinct : Nodup (task_names d)
  pub entries : d.status.task_statuses ≡ []
  pub state : d.status.state ≡ unset

-- What others do to a key: nothing, a deletion, or the creation of a Dag.
abbrev pub Others : NamespacedName → Option Dag → Option Dag → Type 0
Others k before after =
    (after ≡ before) ⊎ (after ≡ none) ⊎ ((d : Dag) × (after ≡ some d) × IsFresh k d)

abbrev pub limit : SchedulerConfig → ℕ
limit config = pos_part config.max_active_tasks

module _ {K : Kube} (D : DagServer K) (range : Dict String String → List (String × String))
    (config : SchedulerConfig) where
  -- The reconciler handles one key at a time. It loses its counters when it restarts. Between two
  -- reconciliations others may do anything to the pods, and create and delete Dags.
  pub data Step : World K → World K → Type 0 where
    reconciled : (k : NamespacedName) (w : World K) → Step w (reconcile (set_up K range) k w).1
    restarted : (w : World K) → Step w (record w { scheduler = new_scheduler config })
    others :
        (w : World K) (c : K.Cluster)
        → ((k : NamespacedName) → Others k (D.dag_at k w.cluster) (D.dag_at k c))
        → Step w (record w { cluster = c })

  -- The states that the operator reaches from a cluster that holds no Dag but fresh ones.
  pub data Reachable : World K → Type 0 where
    start :
        (c : K.Cluster)
        → ((k : NamespacedName) → Others k none (D.dag_at k c))
        → Reachable (record { scheduler = new_scheduler config; cluster = c })
    later : {w : World K} (v : World K) → Reachable v → Step v w → Reachable w

  -- Every stored Dag is at its key and safe, and the scheduler has the configuration.
  pub record IsSound (w : World K) : Type 0 where
    pub configured : w.scheduler.config ≡ config
    pub safe :
        (k : NamespacedName) (d : Dag)
        → D.dag_at k w.cluster ≡ some d
        → (dag_key d ≡ k) × IsSafe (limit config) d

new_scheduler-config : (config : SchedulerConfig) → (new_scheduler config).config ≡ config
unfolding new_scheduler
new_scheduler-config config = refl

fresh-IsSafe : (limit : ℕ) (k : NamespacedName) (d : Dag) → IsFresh k d → IsSafe limit d
unfolding TaskState-discrete
fresh-IsSafe limit k d h = record {
  distinct = h.distinct;
  tracked = record {
    nodup = subst (λ sts. Nodup (map entry_name sts)) (sym h.entries) Nodup-nil;
    listed = λ name m. absurd (no_entry name m);
  };
  known = subst AllKnown (sym h.entries) tt;
  ordered = λ t _ m. absurd (no_entry t.name m);
  limited = omega (arith, ap (λ sts. length (active sts)) h.entries);
  complete = λ done. absurd (ground (arith, h.state, done));
}
  where
    no_entry : (name : String) → Mem name (names d) → ⊥
    no_entry name m = not-mem-nil (subst (λ sts. Mem name (map entry_name sts)) h.entries m)

IsSafe-at :
    (limit : ℕ) (k : NamespacedName) (d d' : Dag)
    → d ≡ d'
    → (dag_key d ≡ k) × IsSafe limit d
    → (dag_key d' ≡ k) × IsSafe limit d'
IsSafe-at limit k d d' same h = subst (λ x. (dag_key x ≡ k) × IsSafe limit x) same h

module _ {K : Kube} (D : DagServer K) (range : Dict String String → List (String × String))
    (config : SchedulerConfig) where
  others_lem :
      (k : NamespacedName) (before after : Option Dag) (d : Dag)
      → ((d : Dag) → before ≡ some d → (dag_key d ≡ k) × IsSafe (limit config) d)
      → Others k before after
      → after ≡ some d
      → (dag_key d ≡ k) × IsSafe (limit config) d
  others_lem k before after d h (inl same) e = h d (sym same ∙ e)
  others_lem k before after d h (inr (inl gone)) e = absurd (ground (arith, gone, e))
  others_lem k before after d h (inr (inr (d0, created, new))) e =
      IsSafe-at (limit config) k d0 d (some-injective d0 d (sym created ∙ e))
        (new.key, fresh-IsSafe (limit config) k d0 new)

  prepared_lem :
      (k : NamespacedName) (d : Dag) (w : World K)
      → w.scheduler.config ≡ config
      → (dag_key d ≡ k) × IsSafe (limit config) d
      → (dag_key d ≡ k)
        × IsSafe (limit config) (record d { status = (prepared D range k d w).status })
  prepared_lem k d w same (named, safe) =
      let s = session D range k d w in
      let after =
        prepare-IsSafe (set_up K range) (set_up-AnswersKnown K range) s
          (subst (λ c. IsSafe (pos_part c.max_active_tasks) d) (sym same) safe) in
      (
        named,
        subst (IsSafe (limit config))
            (dag_of_same d (prepared D range k d w) (prepare-IsSame (set_up K range) s))
            (subst (λ c. IsSafe (pos_part c.max_active_tasks) (prepared D range k d w)) same after),
      )

  Leaves-IsSafe :
      (k : NamespacedName) (w w' : World K)
      → IsSound D range config w
      → ((j : NamespacedName) → Leaves D range k j w w')
      → (j : NamespacedName) (d : Dag) → D.dag_at j w'.cluster ≡ some d
      → (dag_key d ≡ j) × IsSafe (limit config) d
  Leaves-IsSafe k w w' h leaves j d e = elim (leaves j) [
    | inl same ↦ h.safe j d (sym same ∙ e)
    | inr (here, d0, stored, after) ↦
        let d1 = record d0 { status = (prepared D range k d0 w).status } in
        let same : d1 ≡ d =
          some-injective d1 d (sym after ∙ ap (λ i. D.dag_at i w'.cluster) (sym here) ∙ e) in
        subst (λ i. (dag_key d ≡ i) × IsSafe (limit config) d) (sym here)
          (IsSafe-at (limit config) k d1 d same
            (prepared_lem k d0 w h.configured (h.safe k d0 stored)))
  ]

  reconciled_lem :
      (k : NamespacedName) (w : World K)
      → IsSound D range config w
      → IsSound D range config (reconcile (set_up K range) k w).1
  reconciled_lem k w h =
      let named : (d : Dag) → D.dag_at k w.cluster ≡ some d → dag_key d ≡ k =
        λ d e. (h.safe k d e).0 in
      record {
        configured = reconcile-config D range k w named ∙ h.configured;
        safe =
            Leaves-IsSafe k w (reconcile (set_up K range) k w).1 h
              (reconcile-Leaves D range k w named);
      }

  pub Step-IsSound :
      {w w' : World K}
      → Step D range config w w'
      → IsSound D range config w
      → IsSound D range config w'
  Step-IsSound (Step.reconciled k w) h = reconciled_lem k w h
  Step-IsSound (Step.restarted w) h = record {
    configured = new_scheduler-config config;
    safe = h.safe;
  }
  Step-IsSound (Step.others w c change) h = record {
    configured = h.configured;
    safe = λ k d e. others_lem k (D.dag_at k w.cluster) (D.dag_at k c) d (h.safe k) (change k) e;
  }

  pub Reachable-IsSound : {w : World K} → Reachable D range config w → IsSound D range config w
  Reachable-IsSound (Reachable.start c fresh) = record {
    configured = new_scheduler-config config;
    safe = λ k d e. others_lem k none (D.dag_at k c) d (λ x h. absurd cc) (fresh k) e;
  }
  Reachable-IsSound (Reachable.later v earlier step) = Step-IsSound step (Reachable-IsSound earlier)

  -- If the server answers as documented, where any call may fail, then in every state that the operator reaches
  -- from a cluster without Dags or with fresh ones only, by reconciliations of any keys, restarts, any
  -- change of pods, and deletions and creations of Dags with distinct task names, every Dag that is
  -- stored is safe: no task has two entries, each entry is of a task of the specification and pending,
  -- running, completed or failed, a task has an entry only if all of its dependencies are completed, at
  -- most `MaxActiveTasks` entries are running or pending, and if the Dag is completed, so are all of
  -- its tasks.
  pub stored-IsSafe :
      (w : World K) (k : NamespacedName) (d : Dag)
      → Reachable D range config w
      → D.dag_at k w.cluster ≡ some d
      → IsSafe (limit config) d
  stored-IsSafe w k d reached stored = ((Reachable-IsSound reached).safe k d stored).1
