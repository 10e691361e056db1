-- ===== src/Operator/History.antt =====
-- What the operator does to a Dag over time, while nobody else writes to it.
use nautikus.Prelude.{◌≡◌, refl, sym, ◌∙◌, ap, inl, inr, String, some, List, [], ◌∷◌, ◌++◌}
use mathlib.Core.Path.{subst}
use mathlib.Core.Option.{some-injective}
use mathlib.Core.List.{Nodup, append_assoc, append-nil}
use nautikus.Prelude.Dict.{Dict}
use nautikus.Api.{TaskStatus, Dag}
use nautikus.Kube.{Kube, NamespacedName}
use nautikus.Kube.Server.{DagServer}
use nautikus.Scheduler.{SchedulerConfig, new_scheduler}
use nautikus.Controller.{World, sync_status, reconcile}
use nautikus.Controller.Tracked.{task_names}
use nautikus.Controller.Evolution.{AllLater, AllLater-refl, AllLater-trans}
use nautikus.Controller.Launches.{prepare-starts, sync_status-AllLater}
use nautikus.Controller.Same.{IsSame, IsSame-trans}
use nautikus.Controller.Reads.{set_up}
use nautikus.Controller.Stored.{session, prepared, Leaves, reconcile-Leaves}
use nautikus.Operator.{Step, Reachable, Reachable-IsSound, Step-IsSound, IsSound}

-- The entries that are there have evolved, and others have been appended.
pub record IsGrown (sts sts' : List TaskStatus) : Type 0 where
  pub old : List TaskStatus
  pub new : List TaskStatus
  pub later : AllLater sts old
  pub result : sts' ≡ old ++ new

IsGrown-refl : (sts : List TaskStatus) → IsGrown sts sts
IsGrown-refl sts = record {
  old = sts;
  new = [];
  later = AllLater-refl sts;
  result = sym (append-nil sts);
}

AllLater-split :
    (as' bs cs : List TaskStatus)
    → AllLater (as' ++ bs) cs
    → (ds : List TaskStatus) × (es : List TaskStatus) × AllLater as' ds × (cs ≡ ds ++ es)
AllLater-split [] bs cs h = ([], cs, tt, refl)
AllLater-split (a ∷ as') bs (c ∷ cs) h =
    let (ds, es, rest, e) = AllLater-split as' bs cs h.1 in
    (c ∷ ds, es, (h.0, rest), ap (λ l. c ∷ l) e)
AllLater-split (a ∷ as') bs [] h = absurd h

IsGrown-trans : (as' bs cs : List TaskStatus) → IsGrown as' bs → IsGrown bs cs → IsGrown as' cs
IsGrown-trans as' bs cs h k =
    let (ds, es, later, e) =
      AllLater-split h.old h.new k.old (subst (λ l. AllLater l k.old) h.result k.later) in
    record {
      old = ds;
      new = es ++ k.new;
      later = AllLater-trans as' h.old ds h.later later;
      result = k.result ∙ ap (λ l. l ++ k.new) e ∙ append_assoc ds es k.new;
    }

module _ {K : Kube} (D : DagServer K) (range : Dict String String → List (String × String))
    (config : SchedulerConfig) where
  -- Steps of which none but the reconciliations writes to the Dag at the key.
  pub data Undisturbed (j : NamespacedName) (u : World K) : World K → Type 0 where
    here : Undisturbed j u u
    reconciled :
        (k : NamespacedName) (v : World K)
        → Undisturbed j u v
        → Undisturbed j u (reconcile (set_up K range) k v).1
    restarted :
        (v : World K)
        → Undisturbed j u v
        → Undisturbed j u (record v { scheduler = new_scheduler config })
    others :
        (v : World K) (c : K.Cluster)
        → Undisturbed j u v
        → D.dag_at j c ≡ D.dag_at j v.cluster
        → Step D range config v (record v { cluster = c })
        → Undisturbed j u (record v { cluster = c })

  -- The Dag at the key is the same, and its entries have grown.
  abbrev pub Kept : NamespacedName → Dag → World K → Type 0
  Kept j d w =
      (d' : Dag) × (D.dag_at j w.cluster ≡ some d')
      × IsSame d d'
      × IsGrown d.status.task_statuses d'.status.task_statuses

  prepared_lem :
      (k : NamespacedName) (d : Dag) (w : World K)
      → Nodup (task_names d)
      → IsGrown d.status.task_statuses (prepared D range k d w).status.task_statuses
  prepared_lem k d w distinct =
      let s = session D range k d w in
      let starts = prepare-starts (set_up K range) s distinct in
      record {
        old = (sync_status (set_up K range) s).1.dag.status.task_statuses;
        new = starts.new;
        later = sync_status-AllLater (set_up K range) s;
        result = starts.result;
      }

  Kept-at :
      (j : NamespacedName) (d : Dag) (v w : World K)
      → Kept j d v
      → D.dag_at j w.cluster ≡ D.dag_at j v.cluster
      → Kept j d w
  Kept-at j d v w (d', stored, same, grown) e = (d', e ∙ stored, same, grown)

  reconciled_lem :
      (k j : NamespacedName) (d : Dag) (v w : World K)
      → ((d0 : Dag) → D.dag_at k v.cluster ≡ some d0 → Nodup (task_names d0))
      → Kept j d v
      → Leaves D range k j v w
      → Kept j d w
  reconciled_lem k j d v w distinct kept (inl same) = Kept-at j d v w kept same
  reconciled_lem k j d v w distinct (d', stored, same, grown) (inr (at_key, d0, found, after)) =
      let d1 = record d0 { status = (prepared D range k d0 v).status } in
      let same0 : d' ≡ d0 =
        some-injective d' d0 (sym stored ∙ ap (λ i. D.dag_at i v.cluster) at_key ∙ found) in
      let step : IsGrown d0.status.task_statuses d1.status.task_statuses =
        prepared_lem k d0 v (distinct d0 found) in
      (
        d1,
        ap (λ i. D.dag_at i w.cluster) at_key ∙ after,
        IsSame-trans d d0 d1 (subst (IsSame d) same0 same)
            (record { name = refl; namespace = refl; spec = refl }),
        IsGrown-trans d.status.task_statuses d0.status.task_statuses d1.status.task_statuses
            (subst (λ (x : Dag). IsGrown d.status.task_statuses x.status.task_statuses) same0 grown)
            step,
      )

  history_lem :
      (j : NamespacedName) (d : Dag) (u : World K) {w : World K}
      → Undisturbed j u w
      → IsSound D range config u
      → Kept j d u
      → IsSound D range config w × Kept j d w
  history_lem j d u here sound kept = (sound, kept)
  history_lem j d u (reconciled k v earlier) sound kept =
      let (sound', kept') = history_lem j d u earlier sound kept in
      (
        Step-IsSound D range config (Step.reconciled k v) sound',
        reconciled_lem k j d v (reconcile (set_up K range) k v).1
            (λ d0 e. (sound'.safe k d0 e).1.distinct) kept'
            (reconcile-Leaves D range k v (λ d0 e. (sound'.safe k d0 e).0) j),
      )
  history_lem j d u (restarted v earlier) sound kept =
      let (sound', kept') = history_lem j d u earlier sound kept in
      (Step-IsSound D range config (Step.restarted v) sound', kept')
  history_lem j d u (others v c earlier same step) sound kept =
      let (sound', kept') = history_lem j d u earlier sound kept in
      (Step-IsSound D range config step sound', Kept-at j d v (record v { cluster = c }) kept' same)

  -- If the server answers as documented, where any call may fail, then from every state that the
  -- operator reaches and with a Dag stored in it, by any further steps of which none but the
  -- reconciliations writes to that Dag, restarts included, the Dag keeps its name and its specification,
  -- and its entries only evolve, where names, pod names, messages and the states of completed and failed
  -- entries stay, and are followed by the entries that are added.
  pub stored-Kept :
      (j : NamespacedName) (d : Dag) (u w : World K)
      → Reachable D range config u
      → D.dag_at j u.cluster ≡ some d
      → Undisturbed j u w
      → Kept j d w
  stored-Kept j d u w reached stored steps =
      (history_lem j d u steps (Reachable-IsSound D range config reached) (
        d,
        stored,
        record { name = refl; namespace = refl; spec = refl },
        IsGrown-refl d.status.task_statuses,
      )).1
