-- ===== src/Controller/Liveness/Round.antt =====
-- One reconciliation of a Dag all of whose started pods have succeeded.
use native.Mathlib.Decide.{dec_lt}
use nautikus.Prelude.{
  All-filter_of_All, ℤ, pos, ◌-ℤ◌, ℕ, zero, suc, ◌+◌, ◌≤◌, ◌<◌, ◌≡◌, refl, ◌∙◌, ap, ◌⊎◌, inl, inr,
  String, true, List, [], ◌∷◌, ◌++◌, length, length-append, length-map, take, filter, mem-filter,
  All, All-take, arith, pos_part, length-le_of_Subset,
}
use mathlib.Core.List.{append-nil, Memᴰ, Nodup}
use nautikus.Prelude.Dict.{Dict}
use nautikus.Errors.{Result, ok}
use nautikus.Api.{running, completed, TaskSpec, TaskStatus, Dag, task_state_eq, TaskState-discrete}
use nautikus.Kube.{Kube}
use nautikus.Kube.Pods.{PodStore}
use nautikus.Scheduler.{count_active}
use nautikus.Scheduler.Readiness.{is_ready, is_ready_iff, free_slots}
use nautikus.Executor.Registry.{contains}
use nautikus.Executor.Pod.{handled_types}
use nautikus.Controller.Sync.{Session}
use nautikus.Controller.Reconcile.{all_completed, update_dag_state, start_tasks}
use nautikus.Controller.Starts.{start_tasks-ExtendsBy, task_name, entry_name}
use nautikus.Controller.Tracked.{IsTracked, task_names, start_tasks-IsTracked}
use nautikus.Controller.Launches.{scheduled_adds, AllStart-length}
use nautikus.Controller.Rounds.{scheduled}
use nautikus.Controller.Reads.{set_up}
use nautikus.Controller.Launched.{CanOwn, NotFailed, start_tasks-Fine}
use nautikus.Controller.Progress.{IsAcyclic, AllDone, exists_IsReady, missing_task}

abbrev pub AllHandled : List TaskSpec → Type 0
AllHandled tasks = All (λ t. contains handled_types t.type ≡ true) tasks

-- What stays the same of a Dag, and what the specification must be like.
pub record IsSound (d : Dag) : Type 0 where
  pub distinct : Nodup (task_names d)
  pub tracked : IsTracked d
  pub handled : AllHandled d.spec.tasks
  pub acyclic : IsAcyclic d.spec.tasks

done-inactive : (n : ℕ) (sts : List TaskStatus) → AllDone sts → count_active n sts ≡ n
unfolding count_active TaskState-discrete
done-inactive n [] h = refl
done-inactive n (ts ∷ sts) h = rw h.0 (done-inactive n sts h.1)

done-NotFailed : (sts : List TaskStatus) → AllDone sts → NotFailed sts
done-NotFailed [] h = tt
done-NotFailed (ts ∷ sts) h = ((λ bad. cc), done-NotFailed sts h.1)

done-all_completed : (sts : List TaskStatus) → AllDone sts → all_completed sts ≡ true
unfolding all_completed TaskState-discrete
done-all_completed [] h = refl
done-all_completed (ts ∷ sts) h = rw h.0 (done-all_completed sts h.1)

pub tracked-le : (d : Dag) → IsTracked d → length d.status.task_statuses ≤ length d.spec.tasks
tracked-le d t = omega (
  arith,
  length-le_of_Subset t.nodup t.listed,
  length-map entry_name d.status.task_statuses,
  length-map task_name d.spec.tasks,
)

take-nonempty :
    {A : Type 0} (n : ℕ) (xs : List A) (x : A) → Memᴰ x xs → 0 < n → 0 < length (take n xs)
take-nonempty zero xs x m h = absurd (omega arith)
take-nonempty (suc n) [] x m h = elim m [ ]
take-nonempty (suc n) (y ∷ xs) x m h = omega arith

slots_lem : (limit : ℤ) → 0 < pos_part limit → 0 < pos_part (limit -ℤ pos 0)
slots_lem limit h = ground arith

module _ {K : Kube} (s : Session K) (room : 0 < pos_part s.scheduler.config.max_active_tasks)
    (done : AllDone s.dag.status.task_statuses) where
  slots_free : 0 < free_slots s.scheduler s.dag
  slots_free =
      rw (done-inactive 0 s.dag.status.task_statuses done)
        (slots_lem s.scheduler.config.max_active_tasks room)

  scheduled-nonempty :
      IsSound s.dag
      → length s.dag.status.task_statuses < length s.dag.spec.tasks
      → 0 < length (scheduled s)
  scheduled-nonempty sound fewer =
      let (t, m, e) = missing_task s.dag sound.distinct fewer in
      let (u, m', ready) =
        exists_IsReady s.dag.spec.tasks sound.acyclic s.dag.status.task_statuses done t m e in
      take-nonempty (free_slots s.scheduler s.dag)
        (filter (is_ready s.dag.status.task_statuses) s.dag.spec.tasks) u
        (mem-filter (is_ready s.dag.status.task_statuses) u s.dag.spec.tasks
          ((is_ready_iff s.dag.status.task_statuses u).1 ready) m')
        slots_free

-- A Dag that moves on: to completed, or on in running with more entries.
abbrev pub Moves : ℕ → Dag → Type 0
Moves n d =
    (d.status.state ≡ completed)
    ⊎ ((d.status.state ≡ running) × (n < length d.status.task_statuses))

update_dag_state-Moves :
    (n : ℕ) (d : Dag)
    → d.status.state ≡ running
    → (n < length d.status.task_statuses)
      ⊎ ((all_completed d.status.task_statuses ≡ true)
          × (length d.status.task_statuses ≡ length d.spec.tasks))
    → Moves n (update_dag_state d)
unfolding update_dag_state
update_dag_state-Moves n d e h = ground (arith, e, h)

abbrev entries_of : {K : Kube} → Session K → List TaskStatus
entries_of s = s.dag.status.task_statuses

module _ {K : Kube} (P : PodStore K) (range : Dict String String → List (String × String))
    (own : CanOwn K) where
  abbrev pub launched : Session K → Result (Unit {0}) × Session K
  launched s = start_tasks (set_up K range) (scheduled s) s

  nothing_new :
      (old new sts : List TaskStatus)
      → AllDone old
      → sts ≡ old ++ new
      → length new ≡ 0
      → all_completed sts ≡ true
  nothing_new old [] sts done e none = rw (e, append-nil old) (done-all_completed old done)
  nothing_new old (t ∷ new) sts done e none = absurd (omega arith)

  -- What the loop over the scheduled tasks leaves, of a Dag whose entries are all completed.
  pub launched-Moves :
      (s : Session K)
      → 0 < pos_part s.scheduler.config.max_active_tasks
      → AllDone (entries_of s)
      → IsSound s.dag
      → s.dag.status.state ≡ running
      → ((launched s).0 ≡ ok tt)
        × NotFailed (entries_of (launched s).1)
        × Moves (length (entries_of s)) (update_dag_state (launched s).1.dag)
  launched-Moves s room done sound open_state =
      let tasks = s.dag.spec.tasks in
      let (fine, same_state, sane) =
        start_tasks-Fine P range own (scheduled s) s
          (All-take _ (free_slots s.scheduler s.dag) _
            (All-filter_of_All _ (is_ready (entries_of s)) tasks sound.handled))
          (done-NotFailed (entries_of s) done) in
      let (k, new, starts, result, all) = scheduled_adds (set_up K range) s sound.distinct in
      let (_, more, _) = start_tasks-ExtendsBy (set_up K range) (scheduled s) s in
      let count : length (entries_of (launched s).1)
          ≡ length (entries_of s) + length (scheduled s) =
        omega (
          arith,
          ap length result,
          length-append (entries_of s) new,
          AllStart-length s.dag.name (take k (scheduled s)) new starts,
          ap length (all fine),
        ) in
      let most =
        tracked-le (launched s).1.dag
          (start_tasks-IsTracked s (set_up K range) sound.distinct sound.tracked) in
      (
        fine,
        sane,
        update_dag_state-Moves (length (entries_of s)) (launched s).1.dag (same_state ∙ open_state)
            (elim (dec_lt (length (entries_of s)) (length tasks)) [
              | yes fewer ↦ inl (omega (arith, count, scheduled-nonempty s room done sound fewer))
              | no full ↦ inr (
                nothing_new (entries_of s) new (entries_of (launched s).1) done result (
                    omega (
                      arith,
                      count,
                      most,
                      ap length result,
                      length-append (entries_of s) new,
                      ap (λ sp. length sp.tasks) more.spec,
                    )),
                omega (arith, count, most, ap (λ sp. length sp.tasks) more.spec),
              )
            ]),
      )
