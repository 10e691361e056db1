-- ===== src/Controller/Linked.antt =====
-- What `SetupComponents` leaves in the heap of registries.
use nautikus.Prelude.{
  ℕ, ◌<◌, String, Option, none, some, List, length, get_elem?, ◌≡◌, ◌≢◌, refl, sym, ◌∙◌,
  if◌then◌else◌,
}
use nautikus.Prelude.Dict
use nautikus.Prelude.Dict.{Dict}
use nautikus.Errors.{ok}
use nautikus.Api.{TaskType}
use nautikus.Kube.{Kube}
use nautikus.Executor.Registry.{Registry, new_registry, register, get, contains, get-register}
use nautikus.Executor.Pod.{handled_types, pod_executor}
use nautikus.Controller.Setup.{DagReconciler, Heap, or_registry, setup_components}
use nautikus.Prelude.{
  get_elem?-modify, get_elem?-modify_other, get_elem?-append_last, get_elem?-append_left,
  get_elem?-found,
}

-- The registry that the reconciler registers in, as it is before.
abbrev pub registry_before : {K : Kube} → Option ℕ → Heap K → Registry K
registry_before none h = new_registry _
registry_before (some a) h = Dict.get_or (new_registry _) (get_elem? h a)

-- Where the registry of the reconciler is, and that the others stay.
or_registry_lem :
    {K : Kube} (r : Option ℕ) (h : Heap K)
    → ((a : ℕ) → r ≡ some a → a < length h)
    → (get_elem? (or_registry r h).1 (or_registry r h).0 ≡ some (registry_before r h))
      × ((b : ℕ) → b < length h → get_elem? (or_registry r h).1 b ≡ get_elem? h b)
or_registry_lem none h inside =
    (get_elem?-append_last h (new_registry _), λ b. get_elem?-append_left h _ b)
or_registry_lem (some a) h inside =
    (get_elem?-found h a (new_registry _) (inside a refl), λ b small. refl)

module _ {K : Kube} (range : Dict String String → List (String × String)) where
  -- If the registry of a reconciler, where it is set, is in the heap, then after `SetupComponents` it
  -- is set, the registry in which it leads gives the pod executor for each of the types that the pod
  -- executor handles and for any other type what the reconciler's registry gave before, a new one if
  -- there was none; and every other registry of the heap is as it was.
  pub setup_components-registers :
      (r : DagReconciler) (h : Heap K)
      → ((a : ℕ) → r.executor_registry ≡ some a → a < length h)
      → (a : ℕ) × (registry : Registry K) × ((setup_components range r h).0.executor_registry
          ≡ some a)
        × (get_elem? (setup_components range r h).1 a ≡ some registry)
        × ((t : TaskType)
            → get t registry ≡ (
                if contains handled_types t
                then ok (pod_executor K range)
                else get t (registry_before r.executor_registry h)))
        × ((b : ℕ)
            → b < length h
            → b ≢ a
            → get_elem? (setup_components range r h).1 b ≡ get_elem? h b)
  unfolding setup_components
  setup_components-registers r h inside =
      let (a, h1) = or_registry r.executor_registry h in
      let (here, others) = or_registry_lem r.executor_registry h inside in
      let registry = register (pod_executor K range) (registry_before r.executor_registry h) in
      (
        a,
        registry,
        refl,
        get_elem?-modify h1 a (register (pod_executor K range))
            (registry_before r.executor_registry h) here,
        λ t. (get-register t (pod_executor K range) (registry_before r.executor_registry h)).0,
        λ b small differs.
            get_elem?-modify_other h1 a b (register (pod_executor K range)) (λ e. differs (sym e))
            ∙ others b small,
      )
