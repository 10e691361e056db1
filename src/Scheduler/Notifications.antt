-- ===== src/Scheduler/Notifications.antt =====
-- Any sequence of `NotifyTaskStarted` and `NotifyTaskCompleted` on a new scheduler.
use nautikus.Prelude.{
  ap, ℕ, ◌+◌, ◌-◌, ◌≤◌, ◌<◌, ◌≡◌, refl, ◌∙◌, String, List, [], ◌∷◌, ◌==◌, string_eq, pos, pos_part,
  max_int, increment, length, arith, if◌then◌else◌,
}
use nautikus.Prelude.Dict
use nautikus.Scheduler.Defs.{
  SchedulerConfig, DefaultScheduler, active_tasks, new_scheduler, notify_task_started,
  notify_task_completed, get_active_task_count,
}
use nautikus.Scheduler.Counters.{
  IsConsistent, lookup-notify_task_completed, total-notify_task_completed,
  notify_task_started-IsConsistent, notify_task_completed-IsConsistent,
}

-- A notification, with the name of the DAG.
pub data Notification : Type 0 where
  started completed : String → Notification

abbrev pub notify : Notification → DefaultScheduler → DefaultScheduler
notify (started d) s = notify_task_started d s
notify (completed d) s = notify_task_completed d s

unfoldable pub notify_all : List Notification → DefaultScheduler → DefaultScheduler
notify_all [] s = s
notify_all (n ∷ ns) s = notify_all ns (notify n s)

-- The tasks of one DAG that are under way: a completion with none under way counts for nothing.
unfoldable pub under_way : String → ℕ → List Notification → ℕ
under_way d k [] = k
under_way d k (started j ∷ ns) = under_way d (if j == d then k + 1 else k) ns
under_way d k (completed j ∷ ns) = under_way d (if j == d then k - 1 else k) ns

-- The same for all DAGs together.
unfoldable pub all_under_way : ℕ → List Notification → ℕ
all_under_way k [] = k
all_under_way k (started j ∷ ns) = all_under_way (k + 1) ns
all_under_way k (completed j ∷ ns) = all_under_way (k - 1) ns

-- The counters of `s` are bounded by `k`, so that `k` fewer than the maximum may still be added.
record IsWithin (k : ℕ) (s : DefaultScheduler) : Type 0 where
  consistent : IsConsistent s
  total_within : pos_part s.total_active_tasks ≤ k
  counts_within : (d : String) → pos_part (active_tasks d s.active_tasks_per_dag) ≤ k

active_tasks-started :
    (d j : String) (s : DefaultScheduler)
    → IsConsistent s
    → pos_part (active_tasks d s.active_tasks_per_dag) < max_int
    → active_tasks j (notify_task_started d s).active_tasks_per_dag ≡ (
        if d == j
        then pos (pos_part (active_tasks d s.active_tasks_per_dag) + 1)
        else active_tasks j s.active_tasks_per_dag)
unfolding notify_task_started increment
active_tasks-started d j s h room =
    let m = s.active_tasks_per_dag in
    ground (arith, Dict.lookup-insert d j (increment (active_tasks d m)) m, h.counters d)

active_tasks-completed :
    (d j : String) (s : DefaultScheduler)
    → IsConsistent s
    → active_tasks j (notify_task_completed d s).active_tasks_per_dag ≡ (
        if d == j
        then pos (pos_part (active_tasks d s.active_tasks_per_dag) - 1)
        else active_tasks j s.active_tasks_per_dag)
active_tasks-completed d j s h = ground (arith, lookup-notify_task_completed d j s, h.counters d)

total-started :
    (d : String) (s : DefaultScheduler)
    → IsConsistent s
    → pos_part s.total_active_tasks < max_int
    → (notify_task_started d s).total_active_tasks ≡ pos (pos_part s.total_active_tasks + 1)
unfolding notify_task_started increment
total-started d s h room = ground arith

notify-IsWithin :
    (k : ℕ) (n : Notification) (s : DefaultScheduler)
    → k < max_int
    → IsWithin k s
    → IsWithin (k + 1) (notify n s)
notify-IsWithin k (started d) s room h =
    let h_total = h.total_within in
    let h_count = h.counts_within d in
    record {
      consistent = notify_task_started-IsConsistent d s h.consistent (omega arith) (omega arith);
      total_within = ground (arith, total-started d s h.consistent);
      counts_within =
          λ j. ground (arith, active_tasks-started d j s h.consistent, h.counts_within j);
    }
notify-IsWithin k (completed d) s room h =
    let h_count = h.counts_within d in
    record {
      consistent = notify_task_completed-IsConsistent d s h.consistent;
      total_within = omega (arith, total-notify_task_completed d s, h.total_within);
      counts_within = λ j.
          ground (arith, active_tasks-completed d j s h.consistent, h.counts_within j, h_count);
    }

notify_all-IsConsistent :
    (ns : List Notification) (k : ℕ) (s : DefaultScheduler)
    → IsWithin k s
    → k + length ns ≤ max_int
    → IsConsistent (notify_all ns s)
unfolding notify_all
notify_all-IsConsistent [] k s h room = h.consistent
notify_all-IsConsistent (n ∷ ns) k s h room =
    notify_all-IsConsistent ns (k + 1) (notify n s) (notify-IsWithin k n s (omega arith) h)
      (omega arith)

active_tasks-notify_all :
    (d : String) (ns : List Notification) (k : ℕ) (s : DefaultScheduler)
    → IsWithin k s
    → k + length ns ≤ max_int
    → active_tasks d (notify_all ns s).active_tasks_per_dag
      ≡ pos (under_way d (pos_part (active_tasks d s.active_tasks_per_dag)) ns)
unfolding notify_all under_way
active_tasks-notify_all d [] k s h room = ground (arith, h.consistent.counters d)
active_tasks-notify_all d (started j ∷ ns) k s h room =
    active_tasks-notify_all d ns (k + 1) (notify (started j) s)
      (notify-IsWithin k (started j) s (omega arith) h) (omega arith)
    ∙ ap (λ n. pos (under_way d n ns))
        (ground (arith, active_tasks-started j d s h.consistent, h.counts_within j))
active_tasks-notify_all d (completed j ∷ ns) k s h room =
    active_tasks-notify_all d ns (k + 1) (notify (completed j) s)
      (notify-IsWithin k (completed j) s (omega arith) h) (omega arith)
    ∙ ap (λ n. pos (under_way d n ns)) (ground (arith, active_tasks-completed j d s h.consistent))

total-notify_all :
    (ns : List Notification) (k : ℕ) (s : DefaultScheduler)
    → IsWithin k s
    → k + length ns ≤ max_int
    → (notify_all ns s).total_active_tasks ≡ pos (all_under_way (pos_part s.total_active_tasks) ns)
unfolding notify_all all_under_way
total-notify_all [] k s h room = ground (arith, h.consistent.total_nonneg)
total-notify_all (started j ∷ ns) k s h room =
    total-notify_all ns (k + 1) (notify (started j) s)
      (notify-IsWithin k (started j) s (omega arith) h) (omega arith)
    ∙ ap (λ n. pos (all_under_way n ns))
        (ground (arith, total-started j s h.consistent, h.total_within))
total-notify_all (completed j ∷ ns) k s h room =
    total-notify_all ns (k + 1) (notify (completed j) s)
      (notify-IsWithin k (completed j) s (omega arith) h) (omega arith)
    ∙ ap (λ n. pos (all_under_way n ns)) (ground (arith, total-notify_task_completed j s))

new_scheduler-IsWithin : (config : SchedulerConfig) → IsWithin 0 (new_scheduler config)
unfolding new_scheduler Dict.lookup
new_scheduler-IsWithin config = record {
  consistent = record {
    nodup = tt;
    counters = λ d. tt;
    total_nonneg = refl;
    total_in_range = omega arith;
    total_le_sum = omega arith;
  };
  total_within = omega arith;
  counts_within = λ d. omega arith;
}

module _ (config : SchedulerConfig) (ns : List Notification) (short : length ns ≤ max_int) where
  -- After any notifications, at most `max_int` of them, on a new scheduler: no DAG is listed twice,
  -- every listed counter is at least 1, and the total is at least 0 and at most their sum.
  pub notify_all-IsConsistent_new : IsConsistent (notify_all ns (new_scheduler config))
  notify_all-IsConsistent_new =
      notify_all-IsConsistent ns 0 (new_scheduler config) (new_scheduler-IsWithin config)
        (omega arith)

  -- After any notifications, at most `max_int` of them, on a new scheduler, the counter of each DAG
  -- is the number of its tasks under way, that is of its starts less its completions, where a
  -- completion with nothing under way counts for nothing; and the total is the same number taken
  -- over all DAGs together.
  pub notify_all-eq-under_way :
      ((d : String)
        → active_tasks d (notify_all ns (new_scheduler config)).active_tasks_per_dag
          ≡ pos (under_way d 0 ns))
      × (get_active_task_count (notify_all ns (new_scheduler config)) ≡ pos (all_under_way 0 ns))
  unfolding get_active_task_count new_scheduler Dict.lookup
  notify_all-eq-under_way =
      let s = new_scheduler config in
      let within = new_scheduler-IsWithin config in
      (
        λ d. active_tasks-notify_all d ns 0 s within (omega arith),
        total-notify_all ns 0 s within (omega arith),
      )

-- A start and the completion that follows it leave every counter and the total of a consistent
-- scheduler as they were, if neither the total nor the counter of the DAG had reached the maximum.
pub notify_task_completed-started :
    (d : String) (s : DefaultScheduler)
    → IsConsistent s
    → pos_part s.total_active_tasks < max_int
    → pos_part (active_tasks d s.active_tasks_per_dag) < max_int
    → let t = notify_task_completed d (notify_task_started d s) in
      ((j : String) → active_tasks j t.active_tasks_per_dag ≡ active_tasks j s.active_tasks_per_dag)
      × (t.total_active_tasks ≡ s.total_active_tasks)
notify_task_completed-started d s h room room_d =
    let between = notify_task_started-IsConsistent d s h room room_d in
    (
      λ j. ground (
        arith,
        active_tasks-completed d j (notify_task_started d s) between,
        active_tasks-started d j s h,
        active_tasks-started d d s h,
        h.counters d,
      ),
      ground (
        arith,
        total-notify_task_completed d (notify_task_started d s),
        total-started d s h,
        h.total_nonneg,
      ),
    )
