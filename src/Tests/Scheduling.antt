-- ===== src/Tests/Scheduling.antt =====
-- The scheduler's theorems at a Dag whose first task has completed.
use nautikus.Prelude.{
  ◌+◌, ◌≡◌, refl, ◌≤◌, pos, List, [], ◌∷◌, length, take, filter, arith, string_dec, String,
}
use nautikus.Prelude.Dict
use mathlib.Core.List.{Memᴰ}
use nautikus.Errors.{ok}
use nautikus.Api.{completed, pending, running, Dag, TaskSpec, TaskState-discrete}
use nautikus.Scheduler.{
  DefaultScheduler, schedule, status_map, find_candidates, all_deps_completed, count_active,
  sort_by_policy, limit_candidates, new_scheduler, get_active_task_count, active_tasks,
  notify_task_started, notify_task_completed,
}
use nautikus.Scheduler.Readiness.{is_ready, free_slots, schedule-eq-take}
use nautikus.Scheduler.Limit.{active, schedule-le-max_active_tasks, schedule_complete}
use nautikus.Scheduler.Counters.{IsConsistent}
use nautikus.Scheduler.Notifications.{
  Notification, started, completed, notify_all, under_way, all_under_way,
  notify_all-IsConsistent_new, notify_all-eq-under_way, notify_task_completed-started,
}
use nautikus.Tests.Samples.{load, entry, etl, two_slots, idle}

abbrev half_done : Dag
half_done = etl running (entry "extract" nautikus.Api.completed ∷ [])

half_done_scheduled : schedule idle half_done ≡ ok (load ∷ [])
unfolding schedule status_map find_candidates all_deps_completed count_active sort_by_policy
    limit_candidates Dict.insert Dict.lookup TaskState-discrete string_dec
half_done_scheduled = refl

schedule-eq-take_example :
    schedule idle half_done
    ≡ ok (
        take
          (free_slots idle half_done)
          (filter (is_ready half_done.status.task_statuses) half_done.spec.tasks))
schedule-eq-take_example = schedule-eq-take idle half_done

schedule-le-max_active_tasks_example :
    length (active half_done.status.task_statuses) + length (load ∷ []) ≤ 2
schedule-le-max_active_tasks_example =
    schedule-le-max_active_tasks idle half_done {tasks = load ∷ []} half_done_scheduled (λ h. cc)

schedule_complete_example : Memᴰ load (load ∷ [])
unfolding count_active Dict.lookup TaskState-discrete string_dec
schedule_complete_example =
    schedule_complete idle half_done {tasks = load ∷ []} half_done_scheduled (omega arith) load
      (Memᴰ.tail (Memᴰ.head refl)) (refl, (refl, tt))

-- A start of each of two tasks, a completion of the first one, and one that nothing was started for.
abbrev history : List Notification
history = started "etl" ∷ started "etl" ∷ completed "etl" ∷ completed "report" ∷ []

notify_all-IsConsistent_new_example : IsConsistent (notify_all history (new_scheduler two_slots))
notify_all-IsConsistent_new_example = notify_all-IsConsistent_new two_slots history (omega arith)

notify_all-eq-under_way_example :
    ((d : String)
      → active_tasks d (notify_all history (new_scheduler two_slots)).active_tasks_per_dag
        ≡ pos (under_way d 0 history))
    × (get_active_task_count (notify_all history (new_scheduler two_slots))
        ≡ pos (all_under_way 0 history))
notify_all-eq-under_way_example = notify_all-eq-under_way two_slots history (omega arith)

-- One task of the Dag is under way.
abbrev busy : DefaultScheduler
busy = record idle { active_tasks_per_dag = ("etl", pos 1) ∷ []; total_active_tasks = pos 1 }

busy-IsConsistent : IsConsistent busy
unfolding Dict.lookup
busy-IsConsistent = record {
  nodup = (refl, tt);
  counters = λ d. ground arith;
  total_nonneg = refl;
  total_in_range = omega arith;
  total_le_sum = omega arith;
}

notify_task_completed-started_example :
    let t = notify_task_completed "etl" (notify_task_started "etl" busy) in
    ((j : String)
      → active_tasks j t.active_tasks_per_dag ≡ active_tasks j busy.active_tasks_per_dag)
    × (t.total_active_tasks ≡ busy.total_active_tasks)
unfolding Dict.lookup string_dec
notify_task_completed-started_example =
    notify_task_completed-started "etl" busy busy-IsConsistent (omega arith) (omega arith)
