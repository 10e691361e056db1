-- ===== src/Executor/Registry.antt =====
-- internal/executor/registry.go. The lock is held for the whole of each method, so a method is one
-- step on the map.
use nautikus.Prelude.{
  ◌≡◌, refl, sym, ◌∙◌, ap, ◌↔◌, ◌≢◌, String, ◌<>◌, Bool, true, false, ◌||◌, Option, none, some,
  List, [], ◌∷◌, ◌++◌, ◌==◌, arith, if◌then◌else◌,
}
use mathlib.Core.Option.{some-ne-none}
use mathlib.Core.List.{Perm, Mem, Nodup, append_assoc, append-nil}
use mathlib.Core.List.Perm
use nautikus.Prelude.Dict
use nautikus.Prelude.Dict.{Dict}
use nautikus.Errors.{text, Result, ok, err}
use nautikus.Api.{TaskType, bash, python, go, custom, task_type_eq}
use nautikus.Kube.{Kube}
use nautikus.Executor.{Executor}

-- The text of a task type.
abbrev pub type_text : TaskType → String
type_text bash = "Bash"
type_text python = "Python"
type_text go = "Go"
type_text (custom s) = s

abbrev is_some {ℓ} : {A : Type ℓ} → Option A → Bool
is_some none = false
is_some (some _) = true

is_some_iff {ℓ} : {A : Type ℓ} (o : Option A) → (is_some o ≡ true) ↔ (o ≢ none)
is_some_iff none = (λ h. cc, λ h. absurd (h refl))
is_some_iff (some a) = (λ h. some-ne-none a, λ h. refl)

is_some-if {ℓ} :
    {A : Type ℓ} (b : Bool) (a : A) (o : Option A)
    → is_some (if b then some a else o) ≡ (b || is_some o)
is_some-if true a o = refl
is_some-if false a o = refl

pub record Registry (K : Kube) : Type 0 where
  pub executors : Dict TaskType (Executor K)

module _ {K : Kube} where
  -- The loop of `Register` over `exec.Type()`.
  unfoldable pub register_types :
      List TaskType → Executor K → Dict TaskType (Executor K) → Dict TaskType (Executor K)
  register_types [] exec m = m
  register_types (t ∷ ts) exec m = register_types ts exec (Dict.insert t exec m)

  unfoldable pub register : Executor K → Registry K → Registry K
  register exec r = record { executors = register_types exec.types exec r.executors }

  abbrev found : TaskType → Option (Executor K) → Result (Executor K)
  found t none = err (text ("no executor registered for task type: " <> type_text t))
  found t (some exec) = ok exec

  unfoldable pub get : TaskType → Registry K → Result (Executor K)
  get t r = found t (Dict.lookup t r.executors)

  unfoldable pub has : TaskType → Registry K → Bool
  has t r = is_some (Dict.lookup t r.executors)

  -- The loop of `Types` over the entries in the order in which Go ranges over the map.
  unfoldable pub types_from : List TaskType → List (TaskType × Executor K) → List TaskType
  types_from acc [] = acc
  types_from acc ((t, _) ∷ rest) = types_from (acc ++ t ∷ []) rest

  -- Go does not fix the order in which it ranges over a map: `range` chooses it.
  unfoldable pub types :
      (Dict TaskType (Executor K) → List (TaskType × Executor K)) → Registry K → List TaskType
  types range r = types_from [] (range r.executors)

unfoldable pub new_registry : (K : Kube) → Registry K
new_registry K = record { executors = [] }

abbrev pub contains : List TaskType → TaskType → Bool
contains [] t = false
contains (x ∷ xs) t = x == t || contains xs t

module _ {K : Kube} where
  lookup-register_types :
      (t : TaskType) (ts : List TaskType) (exec : Executor K) (m : Dict TaskType (Executor K))
      → Dict.lookup t (register_types ts exec m)
        ≡ (if contains ts t then some exec else Dict.lookup t m)
  unfolding register_types
  lookup-register_types t [] exec m = refl
  lookup-register_types t (x ∷ ts) exec m =
      lookup-register_types t ts exec (Dict.insert x exec m) ∙ rw Dict.lookup-insert (ground arith)

  found-if :
      (t : TaskType) (b : Bool) (exec : Executor K) (o : Option (Executor K))
      → found t (if b then some exec else o) ≡ (if b then ok exec else found t o)
  found-if t true exec o = refl
  found-if t false exec o = refl

  -- After `Register`, `Get` gives the new executor for each of its types, and for any other type
  -- what it gave before, the error for a type that is not registered included; and `Has` answers
  -- yes for each of the new executor's types, and as before for any other.
  pub get-register :
      (t : TaskType) (exec : Executor K) (r : Registry K)
      → (get t (register exec r) ≡ (if contains exec.types t then ok exec else get t r))
        × (has t (register exec r) ≡ (contains exec.types t || has t r))
  unfolding get has register
  get-register t exec r =
      let e = lookup-register_types t exec.types exec r.executors in
      (
        ap (found t) e ∙ found-if t (contains exec.types t) exec (Dict.lookup t r.executors),
        ap is_some e ∙ is_some-if (contains exec.types t) exec (Dict.lookup t r.executors),
      )

  types_from-eq :
      (acc : List TaskType) (entries : List (TaskType × Executor K))
      → types_from acc entries ≡ acc ++ Dict.keys entries
  unfolding types_from
  types_from-eq acc [] = sym (append-nil acc)
  types_from-eq acc ((t, _) ∷ rest) =
      types_from-eq (acc ++ t ∷ []) rest ∙ append_assoc acc (t ∷ []) (Dict.keys rest)

  -- If no type is a key of the map twice, then, whatever the order in which Go ranges over the map,
  -- `Types` lists exactly the types for which `Has` answers yes, each once.
  pub types-has :
      (range : Dict TaskType (Executor K) → List (TaskType × Executor K)) (r : Registry K)
      → Perm (range r.executors) r.executors
      → Dict.NodupKeys r.executors
      → Nodup (types range r) × ((t : TaskType) → Mem t (types range r) ↔ (has t r ≡ true))
  unfolding types has
  types-has range r p u =
      let keys_perm = Perm.map (λ (t, _). t) p in
      rw types_from-eq (
        Perm.nodup (Perm.symm keys_perm) (Dict.keys-Nodup r.executors u),
        λ t. (
          λ m. (is_some_iff _).1 ((Dict.mem-keys t r.executors).0 (Perm.subset keys_perm t m)),
          λ h.
              Perm.subset (Perm.symm keys_perm) t
                ((Dict.mem-keys t r.executors).1 ((is_some_iff _).0 h)),
        ),
      )
