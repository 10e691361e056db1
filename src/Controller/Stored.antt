-- ===== src/Controller/Stored.antt =====
-- What a reconciliation writes to the Dags of the cluster.
use nautikus.Prelude.{◌≡◌, ◌≢◌, refl, sym, ◌∙◌, ap, ◌⊎◌, inl, inr, String, some, List}
use mathlib.Core.Path.{subst}
use nautikus.Prelude.Dict.{Dict}
use nautikus.Errors.{Result, ok, err}
use nautikus.Api.{Dag}
use nautikus.Kube.{Kube, NamespacedName, NamespacedName-discrete}
use nautikus.Kube.Server.{DagServer}
use nautikus.Kube.Dags.{dag_key}
use nautikus.Controller.Sync.{Session, begin, sync_status}
use nautikus.Controller.Reconcile.{
  World, Ending, start_tasks, after_start, prepare, conclude, reconcile_dag, reconcile,
}
use nautikus.Controller.Rounds.{scheduled, prepare_cases}
use nautikus.Controller.Reads.{set_up}
use nautikus.Controller.Walks.{sync_status-Walk}
use nautikus.Controller.Known.{set_up-AnswersKnown}
use nautikus.Controller.Kept.{Walk-keeps}
use nautikus.Controller.Same.{IsSame, prepare-IsSame}
use nautikus.Controller.Launched.{start_tasks-dag_at}
use nautikus.Controller.Config.{prepare-config}

abbrev pub of_world : {K : Kube} → Dag → World K → Session K
of_world d w = record { dag = d; scheduler = w.scheduler; cluster = w.cluster }

pub key_of_same : (d d' : Dag) → IsSame d d' → dag_key d' ≡ dag_key d
key_of_same d d' same i = record { namespace = same.namespace i; name = same.name i }

pub dag_of_same : (d d' : Dag) → IsSame d d' → d' ≡ record d { status = d'.status }
dag_of_same d d' same i = record {
  name = same.name i;
  namespace = same.namespace i;
  spec = same.spec i;
  status = d'.status;
}

module _ {K : Kube} (D : DagServer K) (range : Dict String String → List (String × String)) where
  after_start-cluster :
      (x : Result (Unit {0}) × Session K) → (after_start x).1.cluster ≡ x.1.cluster
  unfolding after_start
  after_start-cluster (ok _, s) = refl
  after_start-cluster (err e, s) = refl

  -- Until the update of the status nothing is written to a Dag of the cluster.
  prepare-dag_at :
      (s : Session K) (k : NamespacedName)
      → D.dag_at k (prepare (set_up K range) s).1.cluster ≡ D.dag_at k s.cluster
  prepare-dag_at s k =
      let s1 = (sync_status (set_up K range) s).1 in
      let read =
        Walk-keeps K (D.dag_at k) (λ i c. D.get_pod-keeps i k c) range
          (record s { dag = begin s.dag })
          (sync_status-Walk (set_up K range) (set_up-AnswersKnown K range) s) in
      prepare_cases (set_up K range) s (λ x. D.dag_at k x.1.cluster ≡ D.dag_at k s.cluster)
        (λ _ _. read) (λ _ _. read)
        (λ _ _.
          ap (D.dag_at k) (after_start-cluster (start_tasks (set_up K range) (scheduled s1) s1))
          ∙ start_tasks-dag_at K (D.dag_at k) (λ p c. D.create_pod-keeps p k c) range (scheduled s1)
              s1
          ∙ read)

  -- After the reconciliation the key holds what it held, or the Dag with the new status.
  abbrev pub Stored : NamespacedName → Dag → Dag → K.Cluster → Type 0
  Stored k d d' c =
      (D.dag_at k c ≡ some d) ⊎ (D.dag_at k c ≡ some (record d { status = d'.status }))

  update-Stored :
      (k : NamespacedName) (d d' : Dag) (c : K.Cluster)
      → dag_key d' ≡ k
      → D.dag_at k c ≡ some d
      → Stored k d d' (K.update_status d' c).1
  update-Stored k d d' c same stored =
      subst (λ key. Stored key d d' (K.update_status d' c).1) same
        (D.update_status-found d' d c (ap (λ key. D.dag_at key c) same ∙ stored))

  conclude-Stored :
      (k : NamespacedName) (d : Dag) (y : Ending × Session K)
      → dag_key y.1.dag ≡ k
      → D.dag_at k y.1.cluster ≡ some d
      → Stored k d y.1.dag (conclude y).1.cluster
  unfolding conclude
  conclude-Stored k d (Ending.leave a, s) same stored = inl stored
  conclude-Stored k d (Ending.save, s) same stored = update-Stored k d s.dag s.cluster same stored
  conclude-Stored k d (Ending.save_error e, s) same stored =
      update-Stored k d s.dag s.cluster same stored

  conclude-other :
      (j : NamespacedName) (y : Ending × Session K)
      → dag_key y.1.dag ≢ j
      → D.dag_at j (conclude y).1.cluster ≡ D.dag_at j y.1.cluster
  unfolding conclude
  conclude-other j (Ending.leave a, s) other = refl
  conclude-other j (Ending.save, s) other = D.update_status-other s.dag j s.cluster other
  conclude-other j (Ending.save_error e, s) other = D.update_status-other s.dag j s.cluster other

  conclude-scheduler : (y : Ending × Session K) → (conclude y).1.scheduler ≡ y.1.scheduler
  unfolding conclude
  conclude-scheduler (Ending.leave a, s) = refl
  conclude-scheduler (Ending.save, s) = refl
  conclude-scheduler (Ending.save_error e, s) = refl

  -- The session that `Reconcile` of a key starts with.
  abbrev pub session : NamespacedName → Dag → World K → Session K
  session k d w = of_world d (record w { cluster = (K.get_dag k w.cluster).1 })

  abbrev pub prepared : NamespacedName → Dag → World K → Dag
  prepared k d w = (prepare (set_up K range) (session k d w)).1.dag

  -- What a reconciliation leaves at a key.
  abbrev pub Leaves : NamespacedName → NamespacedName → World K → World K → Type 0
  Leaves k j w w' =
      (D.dag_at j w'.cluster ≡ D.dag_at j w.cluster)
      ⊎ ((j ≡ k)
          × (d : Dag) × (D.dag_at k w.cluster ≡ some d)
          × (D.dag_at k w'.cluster ≡ some (record d { status = (prepared k d w).status })))

  module _ (k : NamespacedName) (w : World K)
      (named : (d : Dag) → D.dag_at k w.cluster ≡ some d → dag_key d ≡ k) where
    Stored-Leaves :
        (j : NamespacedName) (d : Dag) (w' : World K)
        → D.dag_at k w.cluster ≡ some d
        → j ≡ k
        → Stored k d (prepared k d w) w'.cluster
        → Leaves k j w w'
    Stored-Leaves j d w' stored here (inl same) =
        let at_key = same ∙ sym stored in
        inl (subst (λ i. D.dag_at i w'.cluster ≡ D.dag_at i w.cluster) (sym here) at_key)
    Stored-Leaves j d w' stored here (inr new) = inr (here, d, stored, new)

    found-Leaves :
        (j : NamespacedName) (d : Dag)
        → D.dag_at k w.cluster ≡ some d
        → Leaves k j w (conclude (prepare (set_up K range) (session k d w))).1
    found-Leaves j d stored =
        let y = prepare (set_up K range) (session k d w) in
        let same =
          key_of_same d y.1.dag (prepare-IsSame (set_up K range) (session k d w))
          ∙ named d stored in
        let kept = λ (i : NamespacedName).
          prepare-dag_at (session k d w) i ∙ D.get_dag-keeps k i w.cluster in
        elim (NamespacedName-discrete k j) [
          | yes here ↦
              Stored-Leaves j d (conclude y).1 stored (sym here)
                (conclude-Stored k d y same (kept k ∙ stored))
          | no other ↦ inl (conclude-other j y (λ e. other (sym same ∙ e)) ∙ kept j)
        ]

    found-config :
        (d : Dag)
        → (conclude (prepare (set_up K range) (session k d w))).1.scheduler.config
          ≡ w.scheduler.config
    found-config d =
        ap (λ x. x.config) (conclude-scheduler (prepare (set_up K range) (session k d w)))
        ∙ prepare-config (set_up K range) (session k d w)

    reconcile_cases :
        (Q : World K → Type 0)
        → Q (record w { cluster = (K.get_dag k w.cluster).1 })
        → ((d : Dag)
            → D.dag_at k w.cluster ≡ some d
            → Q (conclude (prepare (set_up K range) (session k d w))).1)
        → Q (reconcile (set_up K range) k w).1
    unfolding reconcile reconcile_dag
    reconcile_cases Q failing going = at (K.get_dag k w.cluster).0 refl
      where
        at :
            (answer : Result Dag)
            → (K.get_dag k w.cluster).0 ≡ answer
            → Q
                (reconcile_dag
                  (set_up K range)
                  answer
                  (record w { cluster = (K.get_dag k w.cluster).1 })).1
        at (err e) same = failing
        at (ok d) same = going d (D.get_dag-found k d w.cluster same)

    -- If the server answers as documented, where calls may fail, and the Dag at the key, if any, has
    -- that key, then a reconciliation on any of its branches leaves a key as it was, or that key is its
    -- own, holds a Dag before, and afterwards the same Dag with the status that the reconciliation
    -- prepared.
    pub reconcile-Leaves : (j : NamespacedName) → Leaves k j w (reconcile (set_up K range) k w).1
    reconcile-Leaves j =
        reconcile_cases (Leaves k j w) (inl (D.get_dag-keeps k j w.cluster)) (found-Leaves j)

    pub reconcile-config : (reconcile (set_up K range) k w).1.scheduler.config ≡ w.scheduler.config
    reconcile-config =
        reconcile_cases (λ x. x.scheduler.config ≡ w.scheduler.config) refl (λ d _. found-config d)
