-- ===== src/Scheduler/Limit.antt =====
-- The concurrency limit of `Schedule`, and that nothing ready is held back below it.
use nautikus.Prelude.{
  ◌==◌, ◌||◌, ap, ℕ, ◌+◌, ◌≤◌, ◌<◌, ◌≡◌, sym, ◌∙◌, ◌≢◌, List, [], ◌∷◌, ℤ, pos, pos_part, ◌-ℤ◌,
  length, length-take, take, take_all, filter, mem-filter, arith,
}
use mathlib.Core.Path.{subst}
use mathlib.Core.List.{Memᴰ}
use nautikus.Errors.{ok, ok-injective}
use nautikus.Api.{running, pending, task_state_eq, TaskSpec, TaskStatus, Dag}
use nautikus.Scheduler.Defs.{DefaultScheduler, count_active, schedule}
use nautikus.Scheduler.Readiness.{IsReady, is_ready, is_ready_iff, free_slots, schedule-eq-take}

-- The statuses that are running or pending.
abbrev pub active : List TaskStatus → List TaskStatus
active = filter (λ ts. ts.state == running || ts.state == pending)

pub count_active-eq : (n : ℕ) (sts : List TaskStatus) → count_active n sts ≡ n + length (active sts)
unfolding count_active
count_active-eq n [] = omega arith
count_active-eq n (ts ∷ rest) = ground (arith, count_active-eq n rest, count_active-eq (n + 1) rest)

slots_lem : (limit : ℤ) (n k : ℕ) → 0 < k → k ≤ pos_part (limit -ℤ pos n) → n + k ≤ pos_part limit
slots_lem limit n k some_task h = ground arith

room_lem : (limit : ℤ) (n k : ℕ) → n + k < pos_part limit → k < pos_part (limit -ℤ pos n)
room_lem limit n k h = ground arith

module _ (s : DefaultScheduler) (dag : Dag) {tasks : List TaskSpec}
    (e : schedule s dag ≡ ok tasks) where
  tasks-eq-take :
      tasks ≡ take (free_slots s dag) (filter (is_ready dag.status.task_statuses) dag.spec.tasks)
  tasks-eq-take = ok-injective (sym e ∙ schedule-eq-take s dag)

  -- If `Schedule` returns any task, the entries that are running or pending and the tasks that it
  -- returns are together at most `MaxActiveTasks`.
  pub schedule-le-max_active_tasks :
      tasks ≢ []
      → length (active dag.status.task_statuses) + length tasks ≤ pos_part s.config.max_active_tasks
  schedule-le-max_active_tasks some_task =
      let sts = dag.status.task_statuses in
      let fits =
        slots_lem s.config.max_active_tasks (count_active 0 sts) (length tasks) (ground arith) (
          omega (
            arith,
            ap length tasks-eq-take,
            length-take (free_slots s dag) (filter (is_ready sts) dag.spec.tasks),
          )) in
      omega (arith, fits, count_active-eq 0 sts)

  -- If the entries that are running or pending and the tasks that `Schedule` returns are together less
  -- than `MaxActiveTasks`, then `Schedule` returns every ready task of the specification.
  pub schedule_complete :
      length (active dag.status.task_statuses) + length tasks < pos_part s.config.max_active_tasks
      → (t : TaskSpec) → Memᴰ t dag.spec.tasks
      → IsReady dag.status.task_statuses t
      → Memᴰ t tasks
  schedule_complete below t m r =
      let sts = dag.status.task_statuses in
      let ready = filter (is_ready sts) dag.spec.tasks in
      let room =
        room_lem s.config.max_active_tasks (count_active 0 sts) (length tasks)
          (omega (arith, below, count_active-eq 0 sts)) in
      subst (Memᴰ t)
        (sym (
          tasks-eq-take
          ∙ take_all (free_slots s dag) ready
              (omega (arith, room, ap length tasks-eq-take, length-take (free_slots s dag) ready))))
        (mem-filter (is_ready dag.status.task_statuses) t dag.spec.tasks
          ((is_ready_iff dag.status.task_statuses t).1 r) m)
