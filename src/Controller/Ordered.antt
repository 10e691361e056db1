-- ===== src/Controller/Ordered.antt =====
-- A task has an entry only if all of its dependencies are completed.
use nautikus.Prelude.{
  ℕ, ◌≡◌, ◌≢◌, refl, sym, ◌∙◌, ap, ◌⊎◌, ◌↔◌, inl, inr, String, none, some, List, [], ◌∷◌, ◌++◌, map,
  All, All-imp, arith, string_eq, string_dec,
}
use mathlib.Core.Path.{subst}
use mathlib.Core.Logic.Or
use mathlib.Core.Logic.{∥∥₁_prop}
use mathlib.Core.List.{
  Memᴰ, Mem, Nodup, not-mem-nil, mem-cons, mem-cons_self, mem-cons_of_mem, Nodup-cons,
}
use nautikus.Api.{completed, TaskSpec, TaskStatus, task_state_eq}
use nautikus.Scheduler.Readiness.{last_state, IsReady}
use nautikus.Controller.Starts.{task_name, entry_name}
use nautikus.Controller.Tracked.{mem_of_last_state, AllLater-names}
use nautikus.Controller.Evolution.{AllLater}
use nautikus.Controller.Additions.{AllStart}
use nautikus.Controller.Launches.{Launches}

abbrev pub Completed : List TaskStatus → String → Type 0
Completed sts name = last_state name sts ≡ some completed

-- A completed task stays so while the entries evolve.
AllLater-Completed :
    (name : String) (sts old : List TaskStatus)
    → AllLater sts old
    → ((last_state name old ≡ none) ↔ (last_state name sts ≡ none))
      × (Completed sts name → Completed old name)
AllLater-Completed name [] [] h = ((λ e. e, λ e. e), λ e. e)
AllLater-Completed name (a ∷ as') (b ∷ bs) h =
    let rest = AllLater-Completed name as' bs h.1 in
    let same = h.0.name in let kept = h.0.finished in ground (arith, rest, same, kept)
AllLater-Completed name [] (_ ∷ _) h = absurd h
AllLater-Completed name (_ ∷ _) [] h = absurd h

-- A new entry for another task changes nothing.
last_state_left :
    (name : String) (old new : List TaskStatus)
    → last_state name new ≡ none
    → last_state name (old ++ new) ≡ last_state name old
last_state_left name [] new h = h
last_state_left name (ts ∷ old) new h = rw (last_state_left name old new h) refl

-- The tasks of new entries had none, so that no completed task is among them.
AllStart-last_state :
    (dag_name name : String) (old : List TaskStatus) (ts : List TaskSpec) (new : List TaskStatus)
    → AllStart dag_name ts new
    → All (IsReady old) ts
    → last_state name old ≢ none
    → last_state name new ≡ none
AllStart-last_state dag_name name old [] [] h ready some_state = refl
AllStart-last_state dag_name name old (t ∷ ts) (e ∷ es) h ready some_state =
    let rest = AllStart-last_state dag_name name old ts es h.1 ready.1 some_state in
    let same = h.0.name in
    let (absent, _) = ready.0 in
    let other : e.name ≢ name =
      λ p. some_state (subst (λ n. last_state n old ≡ none) (sym same ∙ p) absent) in
    rw rest (ground (arith, other))
AllStart-last_state dag_name name old [] (_ ∷ _) h ready some_state = absurd h
AllStart-last_state dag_name name old (_ ∷ _) [] h ready some_state = absurd h

Launches-Completed :
    (limit : ℕ) (dag_name name : String) (tasks : List TaskSpec) (old sts' : List TaskStatus)
    → Launches limit dag_name tasks old sts'
    → Completed old name
    → Completed sts' name
Launches-Completed limit dag_name name tasks old sts' h done =
    let absent =
      AllStart-last_state dag_name name old h.started h.new h.starts h.ready
        (λ e. ground (arith, e, done)) in
    ap (last_state name) h.result ∙ last_state_left name old h.new absent ∙ done

-- Every task of the specification that has an entry has all of its dependencies completed.
abbrev pub IsOrdered : List TaskSpec → List TaskStatus → Type 0
IsOrdered tasks sts =
    (t : TaskSpec)
    → Memᴰ t tasks
    → Mem t.name (map entry_name sts)
    → All (Completed sts) t.dependencies

name_of_Memᴰ :
    (t : TaskSpec) (tasks : List TaskSpec) → Memᴰ t tasks → Mem t.name (map task_name tasks)
name_of_Memᴰ t [] m = elim m [ ]
name_of_Memᴰ t (u ∷ tasks) (Memᴰ.head e) =
    subst (λ (x : TaskSpec). Mem x.name (u.name ∷ map task_name tasks)) (sym e) mem-cons_self
name_of_Memᴰ t (u ∷ tasks) (Memᴰ.tail m) = mem-cons_of_mem u.name (name_of_Memᴰ t tasks m)

-- Where names are distinct, a task is determined by its name.
task_unique :
    (tasks : List TaskSpec) (t u : TaskSpec)
    → Nodup (map task_name tasks)
    → Memᴰ t tasks
    → Memᴰ u tasks
    → u.name ≡ t.name
    → u ≡ t
task_unique [] t u distinct m m' same = elim m [ ]
task_unique (x ∷ tasks) t u distinct (Memᴰ.head e) (Memᴰ.head e') same = e' ∙ sym e
task_unique (x ∷ tasks) t u distinct (Memᴰ.head e) (Memᴰ.tail m') same = absurd (
    (Nodup-cons.0 distinct).0
      (subst (λ n. Mem n (map task_name tasks)) (same ∙ ap task_name e) (name_of_Memᴰ u tasks m')))
task_unique (x ∷ tasks) t u distinct (Memᴰ.tail m) (Memᴰ.head e') same = absurd (
    (Nodup-cons.0 distinct).0 (
      subst (λ n. Mem n (map task_name tasks)) (sym same ∙ ap task_name e')
        (name_of_Memᴰ t tasks m)))
task_unique (x ∷ tasks) t u distinct (Memᴰ.tail m) (Memᴰ.tail m') same =
    task_unique tasks t u (Nodup-cons.0 distinct).1 m m' same

-- The dependencies of a task with a new entry were completed.
started_deps :
    (dag_name : String) (tasks : List TaskSpec) (old : List TaskStatus) (ts : List TaskSpec)
    (new : List TaskStatus)
    → AllStart dag_name ts new
    → All (λ u. Memᴰ u tasks) ts
    → All (IsReady old) ts
    → Nodup (map task_name tasks)
    → (t : TaskSpec) → Memᴰ t tasks
    → Mem t.name (map entry_name new)
    → All (Completed old) t.dependencies
started_deps dag_name tasks old [] [] h known ready distinct t m e = absurd (not-mem-nil e)
started_deps dag_name tasks old (u ∷ us) (x ∷ xs) h known ready distinct t m e =
    elim (string_dec x.name t.name) [
      | yes same ↦
          let here = task_unique tasks t u distinct m known.0 (sym h.0.name ∙ same) in
          subst (λ (v : TaskSpec). All (Completed old) v.dependencies) here ready.0.1
      | no differ ↦
          started_deps dag_name tasks old us xs h.1 known.1 ready.1 distinct t m
            (Or.elim ∥∥₁_prop (mem-cons.0 e) (λ same. absurd (differ (sym same))) (λ later. later))
    ]
started_deps dag_name tasks old [] (_ ∷ _) h known ready distinct t m e = absurd h
started_deps dag_name tasks old (_ ∷ _) [] h known ready distinct t m e = absurd h

-- A name among the old ones, or else among the new ones.
names_split :
    (name : String) (old new : List TaskStatus)
    → Mem name (map entry_name (old ++ new))
    → (last_state name old ≢ none) ⊎ Mem name (map entry_name new)
names_split name [] new m = inr m
names_split name (ts ∷ old) new m = elim (string_dec ts.name name) [
  | yes same ↦ inl (λ e. ground (arith, e, same))
  | no differ ↦
      elim (names_split name old new
        (Or.elim ∥∥₁_prop (mem-cons.0 m) (λ same. absurd (differ (sym same))) (λ later. later))) [
          | inl here ↦ inl (λ e. ground (arith, e, here))
          | inr there ↦ inr there
        ]
]

module _ (limit : ℕ) (dag_name : String) (tasks : List TaskSpec)
    (distinct : Nodup (map task_name tasks)) (sts old sts' : List TaskStatus)
    (evolved : AllLater sts old) (h : Launches limit dag_name tasks old sts') where
  pub Completed-stays : (name : String) → Completed sts name → Completed sts' name
  Completed-stays name done =
      Launches-Completed limit dag_name name tasks old sts' h
        ((AllLater-Completed name sts old evolved).1 done)

  -- An evolution and the start of ready tasks keep the order.
  pub Launches-IsOrdered : IsOrdered tasks sts → IsOrdered tasks sts'
  Launches-IsOrdered ordered t m e =
      elim (names_split t.name old h.new (subst (λ l. Mem t.name (map entry_name l)) h.result e)) [
        | inl before ↦
            let names_same = AllLater-names sts old evolved in
            All-imp (Completed sts) (Completed sts') Completed-stays t.dependencies
              (ordered t m (subst (Mem t.name) names_same (mem_of_last_state t.name old before)))
        | inr fresh ↦
            All-imp (Completed old) (Completed sts')
              (λ name. Launches-Completed limit dag_name name tasks old sts' h) t.dependencies
              (started_deps dag_name tasks old h.started h.new h.starts h.known h.ready distinct t m
                fresh)
      ]
