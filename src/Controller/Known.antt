-- ===== src/Controller/Known.antt =====
-- The entries of a Dag are pending, running, completed or failed, and what a pass of `syncStatus` does
-- to the number of those that are running or pending.
use nautikus.Prelude.{
  ℕ, zero, suc, ◌≡◌, refl, ◌∙◌, ap, inl, inr, String, false, true, some, List, [], ◌∷◌, length,
  get_elem?, modify, All, arith, Bool-cases, ◌+◌, ◌≤◌, ◌⊎◌, sym, Bool, if◌then◌else◌,
}
use mathlib.Core.Path.{subst}
use mathlib.Core.Option.{some-injective}
use nautikus.Prelude.Dict
use nautikus.Prelude.Dict.{Dict}
use nautikus.Errors.{Result, ok, err, ok-injective, is_not_found}
use nautikus.Api.{
  TaskState, TaskState-discrete, task_state_eq, TaskSpec, TaskStatus, Dag, unset, running, pending,
  completed, failed,
}
use nautikus.Kube.{Kube, Pod, PodPhase}
use nautikus.Runner.{DefaultRunner, new_default_runner, get_status, status_with}
use nautikus.Scheduler.{notify_task_completed}
use nautikus.Scheduler.Limit.{active}
use nautikus.Executor.{Executor}
use nautikus.Executor.Registry.{get, register, new_registry, contains, get-register}
use nautikus.Executor.Pod
use nautikus.Executor.Pod.{pod_executor, pod_key, handled_types, observed, state_of_phase}
use nautikus.Controller.Sync.{Session, is_finished}
use nautikus.Controller.Additions.{AllStart}
use nautikus.Controller.Reads.{set_up}
use nautikus.Controller.Walks.{IsKnown, AnswersKnown, is_open, Walk, Write, stay, later}
use Write.{look, finish, note, fail}

abbrev pub AllKnown : List TaskStatus → Type 0
AllKnown = All (λ ts. IsKnown ts.state)

AllKnown-modify :
    (sts : List TaskStatus) (i : ℕ) (state : TaskState)
    → IsKnown state
    → AllKnown sts
    → AllKnown (modify sts i (λ ts. record ts { state = state }))
AllKnown-modify [] i state known h = tt
AllKnown-modify (ts ∷ sts) zero state known h = (known, h.1)
AllKnown-modify (ts ∷ sts) (suc i) state known h = (h.0, AllKnown-modify sts i state known h.1)

finished-IsKnown : (state : TaskState) → is_finished state ≡ true → IsKnown state
unfolding TaskState-discrete
finished-IsKnown unset h = absurd cc
finished-IsKnown (TaskState.other s) h = absurd cc
finished-IsKnown pending h = tt
finished-IsKnown running h = tt
finished-IsKnown completed h = tt
finished-IsKnown failed h = tt

pub AllStart-AllKnown :
    (dag_name : String) (ts : List TaskSpec) (es : List TaskStatus)
    → AllStart dag_name ts es
    → AllKnown es
AllStart-AllKnown dag_name [] [] h = tt
AllStart-AllKnown dag_name (t ∷ ts) (e ∷ es) h =
    (elim h.0.state [ inl p ↦ rw p tt | inr p ↦ rw p tt ], AllStart-AllKnown dag_name ts es h.1)
AllStart-AllKnown dag_name [] (_ ∷ _) h = absurd h
AllStart-AllKnown dag_name (_ ∷ _) [] h = absurd h

open_lem : (state : TaskState) → IsKnown state → is_finished state ≡ false → is_open state ≡ true
unfolding TaskState-discrete
open_lem unset known h = absurd known
open_lem (TaskState.other s) known h = absurd known
open_lem pending known h = refl
open_lem running known h = refl
open_lem completed known h = absurd cc
open_lem failed known h = absurd cc

closed_lem : (state : TaskState) → is_finished state ≡ true → is_open state ≡ false
unfolding TaskState-discrete
closed_lem unset h = refl
closed_lem (TaskState.other s) h = refl
closed_lem pending h = absurd cc
closed_lem running h = absurd cc
closed_lem completed h = refl
closed_lem failed h = refl

-- Finishing an entry that is open takes it from the active ones.
active-finish :
    (sts : List TaskStatus) (i : ℕ) (entry : TaskStatus) (state : TaskState)
    → get_elem? sts i ≡ some entry
    → is_open entry.state ≡ true
    → is_open state ≡ false
    → 1 + length (active (modify sts i (λ ts. record ts { state = state }))) ≡ length (active sts)
active-finish [] i entry state e h k = absurd cc
active-finish (ts ∷ sts) zero entry state e h k = ground (arith, e, h, k)
active-finish (ts ∷ sts) (suc i) entry state e h k =
    ground (arith, active-finish sts i entry state e h k)

active-note :
    (sts : List TaskStatus) (i : ℕ) (entry : TaskStatus) (state : TaskState)
    → get_elem? sts i ≡ some entry
    → is_open entry.state ≡ true
    → is_open state ≡ true
    → length (active (modify sts i (λ ts. record ts { state = state }))) ≡ length (active sts)
active-note [] i entry state e h k = refl
active-note (ts ∷ sts) zero entry state e h k = ground (arith, e, h, k)
active-note (ts ∷ sts) (suc i) entry state e h k =
    ground (arith, active-note sts i entry state e h k)

AllKnown-at :
    (sts : List TaskStatus) (i : ℕ) (entry : TaskStatus)
    → get_elem? sts i ≡ some entry
    → AllKnown sts
    → IsKnown entry.state
AllKnown-at [] i entry e h = absurd cc
AllKnown-at (ts ∷ sts) zero entry e h =
    subst IsKnown (ap (λ (x : TaskStatus). x.state) (some-injective ts entry e)) h.0
AllKnown-at (ts ∷ sts) (suc i) entry e h = AllKnown-at sts i entry e h.1

module _ {K : Kube} (r : DefaultRunner K) where
  abbrev pub entries : Session K → List TaskStatus
  entries s = s.dag.status.task_statuses

  -- A write that tells the scheduler that a task has completed leaves one active entry less, any other
  -- leaves the scheduler and the number of active entries.
  abbrev pub Tallies : Session K → Session K → Type 0
  Tallies u v =
      ((v.scheduler ≡ u.scheduler) × (length (active (entries v)) ≡ length (active (entries u))))
      ⊎ ((v.scheduler ≡ notify_task_completed u.dag.name u.scheduler)
          × (1 + length (active (entries v)) ≡ length (active (entries u))))

  pub Write-active :
      {u v : Session K}
      → Write r u v
      → AllKnown (entries u)
      → AllKnown (entries v) × (v.dag.name ≡ u.dag.name) × Tallies u v
  Write-active (look s c seen) h = (h, refl, inl (refl, refl))
  Write-active (fail s) h = (h, refl, inl (refl, refl))
  Write-active (finish s i entry state e undone done) h =
      let was_open = open_lem entry.state (AllKnown-at (entries s) i entry e h) undone in
      (
        AllKnown-modify (entries s) i state (finished-IsKnown state done) h,
        refl,
        inr (refl, active-finish (entries s) i entry state e was_open (closed_lem state done)),
      )
  Write-active (note s i entry state e undone known still) h =
      let was_open = open_lem entry.state (AllKnown-at (entries s) i entry e h) undone in
      (
        AllKnown-modify (entries s) i state known h,
        refl,
        inl (
          refl,
          active-note (entries s) i entry state e was_open
              (open_lem state known (ground (arith, still, was_open))),
        ),
      )

  pub Walk-active :
      (s : Session K) {v : Session K}
      → Walk r s v
      → AllKnown (entries s)
      → AllKnown (entries v) × (length (active (entries v)) ≤ length (active (entries s)))
  Walk-active s stay h = (h, omega arith)
  Walk-active s (later earlier w) h =
      let (known, fewer) = Walk-active s earlier h in
      let (known', _, change) = Write-active w known in
      (
        known',
        elim change [
          | inl same ↦ omega (arith, fewer, same.1)
          | inr one ↦ omega (arith, fewer, one.1)
        ],
      )

phase-IsKnown : (phase : PodPhase) → IsKnown (state_of_phase phase)
unfolding state_of_phase
phase-IsKnown PodPhase.succeeded = tt
phase-IsKnown PodPhase.failed = tt
phase-IsKnown PodPhase.running = tt
phase-IsKnown _ = tt

observed-IsKnown :
    (answer : Result Pod) (state : TaskState) → observed answer ≡ ok state → IsKnown state
unfolding observed
observed-IsKnown (ok pod) state e = subst IsKnown (ok-injective e) (phase-IsKnown pod.phase)
observed-IsKnown (err x) state e = elim (Bool-cases (is_not_found x)) [
  | inl h ↦ let same : pending ≡ state = ground (arith, e, h) in subst IsKnown same tt
  | inr h ↦ let impossible : ⊥ = ground (arith, e, h) in absurd impossible
]

status_with-IsKnown :
    {K : Kube} (x : Result (Executor K))
    (task_known : (exec : Executor K)
      → x ≡ ok exec
      → (d : Dag) (task : TaskSpec) (c : K.Cluster) (state : TaskState)
      → (exec.get_status d task c).0 ≡ ok state
      → IsKnown state)
    (d : Dag) (task : TaskSpec) (c : K.Cluster) (state : TaskState)
    → (status_with x d task c).0 ≡ ok state
    → IsKnown state
unfolding status_with
status_with-IsKnown (ok exec) known d task c state e = known exec refl d task c state e
status_with-IsKnown (err x) known d task c state e = absurd cc

pod_executor-IsKnown :
    (K : Kube) (d : Dag) (task : TaskSpec) (c : K.Cluster) (state : TaskState)
    → (Pod.get_status K d task c).0 ≡ ok state
    → IsKnown state
unfolding Pod.get_status
pod_executor-IsKnown K d task c state e =
    observed-IsKnown (K.get_pod (pod_key K d task) c).0 state e

-- The runner of a reconciler whose components are set up answers with known states only.
pub set_up-AnswersKnown :
    (K : Kube) (range : Dict String String → List (String × String)) → AnswersKnown (set_up K range)
unfolding get_status new_default_runner new_registry get Dict.lookup
set_up-AnswersKnown K range d task c state =
    status_with-IsKnown (get task.type (register (pod_executor K range) (new_registry K)))
      (λ exec e.
        by_type (contains handled_types task.type) exec
          (sym (get-register task.type (pod_executor K range) (new_registry K)).0 ∙ e))
      d task c state
  where
    by_type :
        (b : Bool) (exec : Executor K)
        → (if b then ok (pod_executor K range) else get task.type (new_registry K)) ≡ ok exec
        → (d : Dag) (task : TaskSpec) (c : K.Cluster) (state : TaskState)
        → (exec.get_status d task c).0 ≡ ok state
        → IsKnown state
    by_type true exec e d task c state answer =
        pod_executor-IsKnown K d task c state
          (ap (λ (x : Executor K). (x.get_status d task c).0) (ok-injective e) ∙ answer)
    by_type false exec e d task c state answer = absurd cc
