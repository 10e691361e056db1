-- ===== src/Scheduler/Counters.antt =====
-- The two counters behind `NotifyTaskStarted` and `NotifyTaskCompleted`, against the numbers that
-- they stand for.
use nautikus.Prelude.{
  ℕ, zero, suc, ◌+◌, ◌-◌, min, ◌≤◌, ◌<◌, ◌≡◌, refl, String, Option, none, some, [], ◌∷◌, ◌==◌,
  string_eq, ℤ, pos, negsuc, pos_part, neg_part, max_int, increment, decrement, leb, arith,
  if◌then◌else◌,
}
use nautikus.Prelude.Dict
use nautikus.Prelude.Dict.{Dict}
use nautikus.Scheduler.Defs.{
  DefaultScheduler, active_tasks, is_positive, is_zero, lower_dag, drop_idle, notify_task_started,
  notify_task_completed,
}

-- What `NotifyTaskCompleted` makes of the counter of its DAG.
abbrev pub lowered : Option ℤ → Option ℤ
lowered none = none
lowered (some (pos n)) = if leb n 1 then none else some (pos (n - 1))
lowered (some (negsuc n)) = some (negsuc n)

lookup-lower_dag :
    (d j : String) (m : Dict String ℤ)
    → Dict.lookup j (lower_dag d m) ≡ (
        if d == j
        then (if is_positive (active_tasks d m)
            then some (decrement (active_tasks d m))
            else Dict.lookup d m)
        else Dict.lookup j m)
unfolding lower_dag
lookup-lower_dag d j m = ground (arith, Dict.lookup-insert d j (decrement (active_tasks d m)) m)

lookup-drop_idle :
    (d j : String) (m : Dict String ℤ)
    → Dict.lookup j (drop_idle d m) ≡ (
        if d == j
        then (if is_zero (active_tasks d m) then none else Dict.lookup d m)
        else Dict.lookup j m)
unfolding drop_idle
lookup-drop_idle d j m = ground (arith, Dict.lookup-erase d j m)

lowered_lem :
    (o : Option ℤ)
    → (let n =
          if is_positive (Dict.get_or (pos 0) o)
          then some (decrement (Dict.get_or (pos 0) o))
          else o in
        if is_zero (Dict.get_or (pos 0) n) then none else n)
      ≡ lowered o
unfolding decrement
lowered_lem none = refl
lowered_lem (some (pos zero)) = ground arith
lowered_lem (some (pos (suc zero))) = ground arith
lowered_lem (some (pos (suc (suc n)))) = ground arith
lowered_lem (some (negsuc n)) = ground arith

-- After a completion the counter of the DAG is lowered, and dropped at 0; the others are as before.
pub lookup-notify_task_completed :
    (d j : String) (s : DefaultScheduler)
    → Dict.lookup j (notify_task_completed d s).active_tasks_per_dag ≡ (
        if d == j
        then lowered (Dict.lookup d s.active_tasks_per_dag)
        else Dict.lookup j s.active_tasks_per_dag)
unfolding notify_task_completed
lookup-notify_task_completed d j s =
    let m = s.active_tasks_per_dag in
    ground (
      arith,
      lookup-drop_idle d j (lower_dag d m),
      lookup-lower_dag d d m,
      lookup-lower_dag d j m,
      lowered_lem (Dict.lookup d m),
    )

-- The sum of the counters.
abbrev pub sum_counts : Dict String ℤ → ℕ
sum_counts [] = 0
sum_counts ((_, n) ∷ m) = pos_part n + sum_counts m

sum_counts-insert :
    (d : String) (n : ℤ) (m : Dict String ℤ)
    → sum_counts (Dict.insert d n m) + pos_part (active_tasks d m) ≡ sum_counts m + pos_part n
unfolding Dict.insert Dict.lookup
sum_counts-insert d n [] = omega arith
sum_counts-insert d n ((j, w) ∷ m) = ground (arith, sum_counts-insert d n m)

sum_counts-erase :
    (d : String) (m : Dict String ℤ)
    → Dict.NodupKeys m
    → sum_counts (Dict.erase d m) + pos_part (active_tasks d m) ≡ sum_counts m
unfolding Dict.erase Dict.lookup
sum_counts-erase d [] u = omega arith
sum_counts-erase d ((j, w) ∷ m) u =
    ground (arith, sum_counts-erase d m u.1, Dict.erase-eq_of_absent d m)

-- A stored counter is at least 1 and within the range of `int`.
abbrev IsCounter : Option ℤ → Type 0
IsCounter none = Unit
IsCounter (some (pos n)) = (0 < n) × (n ≤ max_int)
IsCounter (some (negsuc n)) = ⊥

-- No DAG is listed twice, every stored counter is at least 1, and the total is not negative.
pub record IsConsistent (s : DefaultScheduler) : Type 0 where
  pub nodup : Dict.NodupKeys s.active_tasks_per_dag
  pub counters : (d : String) → IsCounter (Dict.lookup d s.active_tasks_per_dag)
  pub total_nonneg : neg_part s.total_active_tasks ≡ 0
  pub total_in_range : pos_part s.total_active_tasks ≤ max_int
  pub total_le_sum : pos_part s.total_active_tasks ≤ sum_counts s.active_tasks_per_dag

pub notify_task_started-IsConsistent :
    (d : String) (s : DefaultScheduler)
    → IsConsistent s
    → pos_part s.total_active_tasks < max_int
    → pos_part (active_tasks d s.active_tasks_per_dag) < max_int
    → IsConsistent (notify_task_started d s)
unfolding notify_task_started increment
notify_task_started-IsConsistent d s h room room_d =
    let m = s.active_tasks_per_dag in
    record {
      nodup = Dict.insert-NodupKeys d _ m h.nodup;
      counters = λ j. ground (
        arith,
        Dict.lookup-insert d j (increment (active_tasks d m)) m,
        h.counters d,
        h.counters j,
      );
      total_nonneg = ground arith;
      total_in_range = ground arith;
      total_le_sum =
          ground (arith, sum_counts-insert d (increment (active_tasks d m)) m, h.counters d);
    }

lower_dag-NodupKeys :
    (d : String) (m : Dict String ℤ) → Dict.NodupKeys m → Dict.NodupKeys (lower_dag d m)
unfolding lower_dag
lower_dag-NodupKeys d m u =
    ground (arith, Dict.insert-NodupKeys d (decrement (active_tasks d m)) m u)

drop_idle-NodupKeys :
    (d : String) (m : Dict String ℤ) → Dict.NodupKeys m → Dict.NodupKeys (drop_idle d m)
unfolding drop_idle
drop_idle-NodupKeys d m u = ground (arith, Dict.erase-NodupKeys d m u)

-- A completion lowers the total by one, and leaves it at 0.
pub total-notify_task_completed :
    (d : String) (s : DefaultScheduler)
    → (pos_part (notify_task_completed d s).total_active_tasks ≡ pos_part s.total_active_tasks - 1)
      × (neg_part (notify_task_completed d s).total_active_tasks ≡ neg_part s.total_active_tasks)
unfolding notify_task_completed decrement
total-notify_task_completed d s = ground arith

sum_counts-drop_idle :
    (d : String) (m : Dict String ℤ) → Dict.NodupKeys m → sum_counts (drop_idle d m) ≡ sum_counts m
unfolding drop_idle
sum_counts-drop_idle d m u = ground (arith, sum_counts-erase d m u)

sum_counts-lower_dag :
    (d : String) (m : Dict String ℤ)
    → sum_counts (lower_dag d m) + min 1 (pos_part (active_tasks d m)) ≡ sum_counts m
unfolding lower_dag decrement
sum_counts-lower_dag d m = ground (arith, sum_counts-insert d (decrement (active_tasks d m)) m)

-- A completion takes one off the sum of the counters if its DAG has any task, and nothing if not.
pub sum_counts-notify_task_completed :
    (d : String) (s : DefaultScheduler)
    → IsConsistent s
    → sum_counts (notify_task_completed d s).active_tasks_per_dag
        + min 1 (pos_part (active_tasks d s.active_tasks_per_dag))
      ≡ sum_counts s.active_tasks_per_dag
unfolding notify_task_completed
sum_counts-notify_task_completed d s h =
    let m = s.active_tasks_per_dag in
    omega (
      arith,
      sum_counts-drop_idle d (lower_dag d m) (lower_dag-NodupKeys d m h.nodup),
      sum_counts-lower_dag d m,
    )

pub notify_task_completed-IsConsistent :
    (d : String) (s : DefaultScheduler) → IsConsistent s → IsConsistent (notify_task_completed d s)
notify_task_completed-IsConsistent d s h =
    let m = s.active_tasks_per_dag in
    record {
      nodup =
          unfold notify_task_completed in drop_idle-NodupKeys d _ (lower_dag-NodupKeys d m h.nodup);
      counters =
          λ j. ground (arith, lookup-notify_task_completed d j s, h.counters d, h.counters j);
      total_nonneg = omega (arith, total-notify_task_completed d s, h.total_nonneg);
      total_in_range = omega (arith, total-notify_task_completed d s, h.total_in_range);
      total_le_sum = omega (
        arith,
        total-notify_task_completed d s,
        sum_counts-notify_task_completed d s h,
        h.total_le_sum,
      );
    }
