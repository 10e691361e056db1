-- ===== src/Controller/Observed/Passes.antt =====
-- A function applied to the entries of one task after another, and to all entries at once.
use nautikus.Prelude.{
  ℕ, zero, suc, ◌+◌, ◌≡◌, refl, ◌∙◌, ap, String, Option, none, some, List, [], ◌∷◌, map, ◌==◌,
  string_eq, modify, if◌then◌else◌, if_ind, Bool-cases, arith, inl, inr,
}
use mathlib.Core.Path.{ap₂}
use mathlib.Core.Logic.{∥∥₁_prop}
use mathlib.Core.Logic.Or
use mathlib.Core.List.{Mem, Subset, mem-cons, not-mem-nil, mem-cons_self, mem-cons_of_mem}
use nautikus.Api.{TaskSpec, TaskStatus, task_state_eq}
use nautikus.Controller.Starts.{task_name, entry_name}
use nautikus.Controller.Observed.Positions.{position, at_name}

pub modify_same : (sts : List TaskStatus) (i : ℕ) → modify sts i (λ ts. ts) ≡ sts
modify_same [] i = refl
modify_same (ts ∷ sts) zero = refl
modify_same (ts ∷ sts) (suc i) = ap (λ l. ts ∷ l) (modify_same sts i)

-- The function at the name of each task in turn.
abbrev pub obs_all : (TaskStatus → TaskStatus) → List TaskSpec → TaskStatus → TaskStatus
obs_all f [] ts = ts
obs_all f (t ∷ tasks) ts = obs_all f tasks (at_name f t.name ts)

pub map-obs_all_none :
    (f : TaskStatus → TaskStatus) (sts : List TaskStatus) → map (obs_all f []) sts ≡ sts
map-obs_all_none f [] = refl
map-obs_all_none f (ts ∷ sts) = ap (λ l. ts ∷ l) (map-obs_all_none f sts)

pub map-map :
    (f g : TaskStatus → TaskStatus) (sts : List TaskStatus)
    → map f (map g sts) ≡ map (λ ts. f (g ts)) sts
map-map f g [] = refl
map-map f g (ts ∷ sts) = ap (λ l. f (g ts) ∷ l) (map-map f g sts)

module _ (f : TaskStatus → TaskStatus) (keeps : (ts : TaskStatus) → (f ts).name ≡ ts.name)
    (name : String) where
  at_name_keeps : (ts : TaskStatus) → (at_name f name ts).name ≡ ts.name
  at_name_keeps ts =
      if_ind (λ (x : TaskStatus). x.name ≡ ts.name) (ts.name == name) _ _ (keeps ts) refl

  pub names-at_name :
      (sts : List TaskStatus) → map entry_name (map (at_name f name) sts) ≡ map entry_name sts
  names-at_name [] = refl
  names-at_name (ts ∷ sts) = ap₂ (λ n l. n ∷ l) (at_name_keeps ts) (names-at_name sts)

  pub position-at_name :
      (other : String) (i : ℕ) (sts : List TaskStatus)
      → position other i (map (at_name f name) sts) ≡ position other i sts
  position-at_name other i [] = refl
  position-at_name other i (ts ∷ sts) =
      let step : Option ℕ → String → Option ℕ =
        λ o n. elim o [ some j ↦ some j | none ↦ if n == other then some i else none ] in
      ap₂ step (position-at_name other (i + 1) sts) (at_name_keeps ts)

module _ (f : TaskStatus → TaskStatus) (keeps : (ts : TaskStatus) → (f ts).name ≡ ts.name)
    (idem : (ts : TaskStatus) → f (f ts) ≡ f ts) where
  obs_all_done : (tasks : List TaskSpec) (ts : TaskStatus) → obs_all f tasks (f ts) ≡ f ts
  obs_all_done [] ts = refl
  obs_all_done (t ∷ tasks) ts =
      ap (obs_all f tasks)
        (if_ind (λ (x : TaskStatus). x ≡ f ts) ((f ts).name == t.name) _ _ (idem ts) refl)
      ∙ obs_all_done tasks ts

  obs_all_listed :
      (tasks : List TaskSpec) (ts : TaskStatus)
      → Mem ts.name (map task_name tasks)
      → obs_all f tasks ts ≡ f ts
  obs_all_listed [] ts m = absurd (not-mem-nil m)
  obs_all_listed (t ∷ tasks) ts m = elim (Bool-cases (ts.name == t.name)) [
    | inl same ↦ rw same (obs_all_done tasks ts)
    | inr differ ↦ rw differ (
        obs_all_listed tasks ts (
          Or.elim ∥∥₁_prop (mem-cons.0 m) (λ same. absurd (ground (arith, differ, same)))
            (λ later. later)))
  ]

  pub map-obs_all_listed :
      (tasks : List TaskSpec) (sts : List TaskStatus)
      → Subset (map entry_name sts) (map task_name tasks)
      → map (obs_all f tasks) sts ≡ map f sts
  map-obs_all_listed tasks [] h = refl
  map-obs_all_listed tasks (ts ∷ sts) h =
      ap₂ (λ x l. x ∷ l) (obs_all_listed tasks ts (h ts.name mem-cons_self))
        (map-obs_all_listed tasks sts (λ name m. h name (mem-cons_of_mem ts.name m)))
