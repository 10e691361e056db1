-- ===== src/Controller/Rounds.antt =====
-- The three ways in which the part of `Reconcile` before the update of the status can end.
use nautikus.Prelude.{◌≡◌, refl, true, false, List, take, filter, Bool-cases, inl, inr}
use nautikus.Errors.{Error, Result, ok, err}
use nautikus.Api.{TaskSpec}
use nautikus.Kube.{Kube}
use nautikus.Scheduler.Readiness.{is_ready, free_slots, schedule-eq-take}
use nautikus.Runner.{DefaultRunner}
use nautikus.Controller.Sync.{Session, is_finished, sync_status}
use nautikus.Controller.Reconcile.{start_tasks, Ending, leave, after_start, after_sync, prepare}

-- What `Schedule` returns for a session.
abbrev pub scheduled : {K : Kube} → Session K → List TaskSpec
scheduled s =
    take (free_slots s.scheduler s.dag)
      (filter (is_ready s.dag.status.task_statuses) s.dag.spec.tasks)

module _ {K : Kube} (r : DefaultRunner K) (s : Session K) (P : Ending × Session K → Type 0) where
  pub prepare_cases :
      ((e : Error) → (sync_status r s).0 ≡ err e → P (leave (err e), (sync_status r s).1))
      → ((sync_status r s).0 ≡ ok tt
          → is_finished (sync_status r s).1.dag.status.state ≡ true
          → P (leave (ok false), (sync_status r s).1))
      → ((sync_status r s).0 ≡ ok tt
          → is_finished (sync_status r s).1.dag.status.state ≡ false
          → P (after_start (start_tasks r (scheduled (sync_status r s).1) (sync_status r s).1)))
      → P (prepare r s)
  unfolding prepare
  prepare_cases failing finished going = go (sync_status r s) failing finished going
    where
      go :
          (x : Result (Unit {0}) × Session K)
          → ((e : Error) → x.0 ≡ err e → P (leave (err e), x.1))
          → (x.0 ≡ ok tt → is_finished x.1.dag.status.state ≡ true → P (leave (ok false), x.1))
          → (x.0 ≡ ok tt
              → is_finished x.1.dag.status.state ≡ false
              → P (after_start (start_tasks r (scheduled x.1) x.1)))
          → P (after_sync r x)
      go (err e, s') f1 f2 f3 = f1 e refl
      go (ok _, s') f1 f2 f3 = elim (Bool-cases (is_finished s'.dag.status.state)) [
        | inl h ↦ rw h (f2 refl h)
        | inr h ↦ rw h (rw schedule-eq-take (f3 refl h))
      ]
