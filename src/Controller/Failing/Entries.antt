-- ===== src/Controller/Failing/Entries.antt =====
-- The entries whose pods have failed, and what a write to one of them does to the state of the Dag.
use nautikus.Prelude.{
  ℕ, ◌≡◌, refl, String, Bool, true, false, not, ◌&&◌, ◌||◌, List, [], ◌∷◌, map, any, ◌==◌,
  string_eq, if◌then◌else◌, if_ind, arith,
}
use mathlib.Core.Bool.{Bool-set}
use mathlib.Core.Logic.Or
use mathlib.Core.List.{Mem, Subset, mem-cons, not-mem-nil, mem-cons_self, mem-cons_of_mem}
use nautikus.Api.{
  TaskState, running, pending, failed, TaskSpec, TaskStatus, task_state_eq, with_state,
}
use nautikus.Kube.{Kube}
use nautikus.Kube.Pods.{PodStore}
use nautikus.Executor.Pod.{get_pod_name}
use nautikus.Executor.Pod.Calls.{shown}
use nautikus.Controller.Sync.{Session, is_finished, complete, set_task_state, apply_state}
use nautikus.Controller.Starts.{task_name, entry_name}

-- An entry that is not completed or failed, whose pod has failed.
abbrev pub fails : {K : Kube} → PodStore K → String → String → K.Cluster → TaskStatus → Bool
fails P namespace dag_name c ts =
    not (is_finished ts.state)
    && shown (P.pod_at (record { namespace = namespace; name = get_pod_name dag_name ts.name }) c)
      == failed

-- The state of the Dag of a session.
abbrev pub state_of : {K : Kube} → Session K → TaskState
state_of s = s.dag.status.state

last_write :
    {K : Kube} (same is_failed : Bool) (s noted : Session K)
    → state_of noted ≡ state_of s
    → (is_failed ≡ true → same ≡ false)
    → state_of (
        if same
        then s
        else if is_failed
        then record noted { dag = with_state noted.dag failed }
        else noted)
      ≡ (if is_failed then failed else state_of s)
last_write true true s noted h differ = absurd (ground (arith, differ refl))
last_write true false s noted h differ = refl
last_write false true s noted h differ = refl
last_write false false s noted h differ = h

pub apply_state-state_of :
    {K : Kube} (i : ℕ) (previous state : TaskState) (s : Session K)
    → is_finished previous ≡ false
    → state_of (apply_state i previous state s) ≡ (if state == failed then failed else state_of s)
unfolding apply_state
apply_state-state_of i previous state s unfinished =
    let changed = record s { dag = set_task_state i state s.dag } in
    let noted =
      if_ind (λ (x : Session _). state_of x ≡ state_of s)
        (is_finished state && (previous == running || previous == pending)) (complete changed)
        changed refl refl in
    last_write (previous == state) (state == failed) s _ noted (λ h. ground (arith, h, unfinished))

-- The entry is of one of the tasks.
abbrev pub is_named : List TaskSpec → TaskStatus → Bool
is_named [] ts = false
is_named (t ∷ tasks) ts = ts.name == t.name || is_named tasks ts

pub is_named_of_Mem :
    (tasks : List TaskSpec) (ts : TaskStatus)
    → Mem ts.name (map task_name tasks)
    → is_named tasks ts ≡ true
is_named_of_Mem [] ts m = absurd (not-mem-nil m)
is_named_of_Mem (t ∷ tasks) ts m =
    Or.elim (Bool-set _ _) (mem-cons.0 m) (λ same. ground (arith, same))
      (λ later. ground (arith, is_named_of_Mem tasks ts later))

pub any-map_or :
    (p q r : TaskStatus → Bool) (g : TaskStatus → TaskStatus) (sts : List TaskStatus)
    → ((ts : TaskStatus) → p ts ≡ (q ts || r (g ts)))
    → any p sts ≡ (any q sts || any r (map g sts))
any-map_or p q r g [] h = refl
any-map_or p q r g (ts ∷ sts) h = ground (arith, h ts, any-map_or p q r g sts h)

pub any-unnamed :
    (p : TaskStatus → Bool) (sts : List TaskStatus) → any (λ ts. is_named [] ts && p ts) sts ≡ false
any-unnamed p [] = refl
any-unnamed p (ts ∷ sts) = any-unnamed p sts

pub fails_or :
    (a b : Bool) (state : TaskState)
    → (if b then failed else if a then failed else state) ≡ (if a || b then failed else state)
fails_or true true state = refl
fails_or true false state = refl
fails_or false true state = refl
fails_or false false state = refl

pub any-named :
    (tasks : List TaskSpec) (p : TaskStatus → Bool) (sts : List TaskStatus)
    → Subset (map entry_name sts) (map task_name tasks)
    → any (λ ts. is_named tasks ts && p ts) sts ≡ any p sts
any-named tasks p [] h = refl
any-named tasks p (ts ∷ sts) h =
    rw
      (
        is_named_of_Mem tasks ts (h ts.name mem-cons_self),
        any-named tasks p sts (λ name m. h name (mem-cons_of_mem ts.name m)),
      )
      refl
