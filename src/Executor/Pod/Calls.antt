-- ===== src/Executor/Pod/Calls.antt =====
-- What the pod executor's calls do to the pods of a cluster that nobody else writes to.
use mathlib.Core.Path.{subst}
use nautikus.Prelude.{
  ◌≡◌, refl, sym, ◌∙◌, ap, true, String, List, Option, none, some, ◌==◌, if◌then◌else◌, if-eq_self,
  if-eq_other, ◌≢◌, ◌⊎◌, inl, inr,
}
use nautikus.Prelude.Dict.{Dict}
use nautikus.Errors.{Error, Result, ok, err, is_not_found, is_already_exists}
use nautikus.Api.{TaskState, pending, TaskSpec, Dag}
use nautikus.Kube.{Kube, Pod, PodPhase, NamespacedName, namespaced_name_eq}
use nautikus.Kube.Pods.{PodStore, IsLeaving, key}
use nautikus.Executor.Pod.Defs.{
  build_pod, created, deleted, observed, execute, get_status, cleanup, pod_key, state_of_phase,
}

created_already_exists : (e : Error) → is_already_exists e ≡ true → created (err e) ≡ ok tt
unfolding created
created_already_exists e h = rw h

deleted_not_found : (e : Error) → is_not_found e ≡ true → deleted (err e) ≡ ok tt
unfolding deleted
deleted_not_found e h = rw h

observed_not_found : (e : Error) → is_not_found e ≡ true → observed (err e) ≡ ok pending
unfolding observed
observed_not_found e h = rw h

observed_found : (p : Pod) → observed (ok p) ≡ ok (state_of_phase p.phase)
unfolding observed
observed_found p = refl

module _ (K : Kube) (dag : Dag) (task : TaskSpec) (c : K.Cluster) where
  execute_step :
      (range : Dict String String → List (String × String)) (q : Pod) {answer : Result (Unit {0})}
      {c' : K.Cluster}
      → K.set_controller_reference dag (build_pod range dag task) ≡ ok q
      → K.create_pod q c ≡ (answer, c')
      → execute K range dag task c ≡ (created answer, c')
  unfolding execute
  execute_step range q owned e = rw owned (rw e)

  get_status_step :
      {answer : Result Pod} {c' : K.Cluster}
      → K.get_pod (pod_key K dag task) c ≡ (answer, c')
      → get_status K dag task c ≡ (observed answer, c')
  unfolding get_status
  get_status_step e = rw e

  cleanup_step :
      {answer : Result (Unit {0})} {c' : K.Cluster}
      → K.delete_pod (pod_key K dag task) c ≡ (answer, c')
      → cleanup K dag task c ≡ (deleted answer, c')
  unfolding cleanup
  cleanup_step e = rw e

-- The state of a task by its pod.
abbrev pub shown : Option Pod → TaskState
shown none = pending
shown (some p) = state_of_phase p.phase

module _ (K : Kube) (P : PodStore K) (dag : Dag) (task : TaskSpec) (c : K.Cluster) where
  abbrev there : Option Pod
  there = P.pod_at (pod_key K dag task) c

  -- Without a pod of that name `GetStatus` answers that the task is pending, and with one it
  -- answers by the pod's phase. It changes nothing.
  pub get_status-pod_at : get_status K dag task c ≡ (ok (shown there), c)
  get_status-pod_at = go there refl
    where
      go : (o : Option Pod) → there ≡ o → get_status K dag task c ≡ (ok (shown o), c)
      go none e =
          let (err', answer, kind) = P.get_pod-absent (pod_key K dag task) c e in
          get_status_step K dag task c answer ∙ ap (λ r. (r, c)) (observed_not_found err' kind)
      go (some p) e =
          get_status_step K dag task c (P.get_pod-found (pod_key K dag task) p c e)
          ∙ ap (λ r. (r, c)) (observed_found p)

  module _ (range : Dict String String → List (String × String)) (q : Pod)
      (set : K.set_controller_reference dag (build_pod range dag task) ≡ ok q) where
    key-q : key q ≡ pod_key K dag task
    unfolding build_pod
    key-q = (P.owned dag (build_pod range dag task) q set).0

    -- Where a pod of that name exists, whoever created it, `Execute` changes nothing and reports
    -- success.
    pub execute_present : (p : Pod) → there ≡ some p → execute K range dag task c ≡ (ok tt, c)
    execute_present p here =
        let (e, answer, kind) =
          P.create_pod-present q p c (subst (λ k. P.pod_at k c ≡ some p) (sym key-q) here) in
        execute_step K dag task c range q set answer
        ∙ ap (λ r. (r, c)) (created_already_exists e kind)

    -- Where none exists, `Execute` reports success, and the server adds a pod.
    pub execute_absent :
        there ≡ none
        → (c' : K.Cluster) × (p : Pod) × (execute K range dag task c ≡ (ok tt, c'))
          × ((p.phase ≡ q.phase) ⊎ (p.phase ≡ PodPhase.pending))
          × ((k : NamespacedName)
              → P.pod_at k c' ≡ (if pod_key K dag task == k then some p else P.pod_at k c))
    unfolding created
    execute_absent absent =
        let (c', p, answer, _, phase, after) =
          P.create_pod-absent q c (subst (λ k. P.pod_at k c ≡ none) (sym key-q) absent) in
        (c', p, execute_step K dag task c range q set answer, phase, λ k. after k ∙ rw key-q)

module _ (K : Kube) (P : PodStore K) (dag : Dag) (task : TaskSpec) (c : K.Cluster)
    (range : Dict String String → List (String × String)) (q : Pod)
    (set : K.set_controller_reference dag (build_pod range dag task) ≡ ok q) where
  abbrev run : K.Cluster → Result (Unit {0}) × K.Cluster
  run = execute K range dag task

  -- If the client stores pods as documented and the owner reference can be set, `Execute` succeeds,
  -- and a second `Execute` succeeds and changes nothing.
  pub execute_twice : ((run c).0 ≡ ok tt) × (run (run c).1 ≡ (ok tt, (run c).1))
  execute_twice = go (P.pod_at (pod_key K dag task) c) refl
    where
      go :
          (o : Option Pod)
          → P.pod_at (pod_key K dag task) c ≡ o
          → ((run c).0 ≡ ok tt) × (run (run c).1 ≡ (ok tt, (run c).1))
      go none e =
          let (c', p, answer, _, after) = execute_absent K P dag task c range q set e in
          rw answer (
            refl,
            execute_present K P dag task c' range q set p
                (after (pod_key K dag task) ∙ if-eq_self (pod_key K dag task) _ _),
          )
      go (some p) e =
          rw (execute_present K P dag task c range q set p e)
            (refl, execute_present K P dag task c range q set p e)

  -- If the client stores pods as documented, the owner reference can be set and no pod of the task's
  -- pod name exists, then after `Execute` the task is pending by `GetStatus`, which changes nothing.
  pub get_status-execute :
      P.pod_at (pod_key K dag task) c ≡ none
      → get_status K dag task (run c).1 ≡ (ok pending, (run c).1)
  unfolding build_pod state_of_phase
  get_status-execute absent =
      let (c', p, answer, phase, after) = execute_absent K P dag task c range q set absent in
      let present = after (pod_key K dag task) ∙ if-eq_self (pod_key K dag task) (some p) _ in
      let is_new : state_of_phase p.phase ≡ pending = elim phase [
        | inl same ↦ ap state_of_phase (same ∙ (P.owned dag (build_pod range dag task) q set).1)
        | inr started ↦ ap state_of_phase started
      ] in
      rw answer (
        get_status-pod_at K P dag task c'
        ∙ ap (λ o. (ok (shown o), c')) present
        ∙ ap (λ st. (ok st, c')) is_new)

-- The call has succeeded, the pod of the task is gone or is being deleted, and the pod at `j` is as it
-- was in `c`.
abbrev pub Cleaned :
    {K : Kube}
    → PodStore K
    → Dag
    → TaskSpec
    → NamespacedName
    → K.Cluster
    → Result (Unit {0}) × K.Cluster
    → Type 0
Cleaned {K} P dag task j c x =
    (x.0 ≡ ok tt) × IsLeaving (P.pod_at (pod_key K dag task) x.1) × (P.pod_at j x.1 ≡ P.pod_at j c)

module _ (K : Kube) (P : PodStore K) (dag : Dag) (task : TaskSpec) (j : NamespacedName)
    (other : pod_key K dag task ≢ j) where
  cleanup-Cleaned : (c : K.Cluster) → Cleaned P dag task j c (cleanup K dag task c)
  unfolding deleted
  cleanup-Cleaned c = go (P.pod_at (pod_key K dag task) c) refl
    where
      go :
          (o : Option Pod)
          → P.pod_at (pod_key K dag task) c ≡ o
          → Cleaned P dag task j c (cleanup K dag task c)
      go none e =
          let (err', answer, kind) = P.delete_pod-absent (pod_key K dag task) c e in
          rw (cleanup_step K dag task c answer)
            (deleted_not_found err' kind, subst IsLeaving (sym e) tt, refl)
      go (some p) e =
          let (c', answer, leaving, after) = P.delete_pod-present (pod_key K dag task) p c e in
          rw (cleanup_step K dag task c answer) (refl, leaving, after j other)

  module _ (c : K.Cluster) (range : Dict String String → List (String × String)) (q : Pod)
      (set : K.set_controller_reference dag (build_pod range dag task) ≡ ok q) where
    execute_other : P.pod_at j (execute K range dag task c).1 ≡ P.pod_at j c
    execute_other = go (P.pod_at (pod_key K dag task) c) refl
      where
        go :
            (o : Option Pod)
            → P.pod_at (pod_key K dag task) c ≡ o
            → P.pod_at j (execute K range dag task c).1 ≡ P.pod_at j c
        go none e =
            let (c', p, answer, _, after) = execute_absent K P dag task c range q set e in
            rw answer (after j ∙ if-eq_other (pod_key K dag task) j _ _ other)
        go (some p) e = rw (execute_present K P dag task c range q set p e) refl

    -- If the client stores pods as documented and the owner reference can be set, then `Cleanup`
    -- succeeds, whether there is a pod for the task or not, and also after `Execute`. Both times the pod
    -- that `Execute` makes for the task is gone or is being deleted, and every other pod is as it was
    -- before.
    pub cleanup-execute :
        Cleaned P dag task j c (cleanup K dag task c)
        × Cleaned P dag task j c (cleanup K dag task (execute K range dag task c).1)
    cleanup-execute =
        let (fine, leaving, same) = cleanup-Cleaned (execute K range dag task c).1 in
        (cleanup-Cleaned c, (fine, leaving, same ∙ execute_other))
