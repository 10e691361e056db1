-- ===== src/Sdk/Sources.antt =====
-- Which source file `GenerateManifest` puts into the manifest.
use nautikus.Prelude.{
  ℕ, zero, suc, ◌+◌, ◌<◌, String, Bool, true, false, not, ◌⊎◌, inl, inr, Option, some, List, [],
  ◌∷◌, map, sym, if◌then◌else◌, ◌≡◌, refl, ◌∙◌, arith,
}
use mathlib.Core.Path.{subst}
use nautikus.Api.{go, TaskSpec}
use nautikus.Errors.{Error, Result, ok, err}
use nautikus.Sdk.Defs.{TaskDef}
use nautikus.Sdk.Serving.{task_specs-append}
use nautikus.Sdk.Manifests.{
  Process, Manifest, Output, task_spec, task_specs, is_sdk_file, search_callers, read_caller_source,
  manifest_of, output_of, generate_manifest,
}

no_more : (i : ℕ) → i + 0 ≡ i
no_more i = omega arith

one_more : (i j : ℕ) → i + suc j ≡ i + 1 + j
one_more i j = omega arith

-- The output is what was encoded, or the process exits where that failed.
abbrev pub Encodes : Result String → Output → Type 0
Encodes (ok text) out = out ≡ Output.prints text
Encodes (err e) out = out ≡ Output.exits

output-Encodes : (x : Result String) → Encodes x (output_of x)
output-Encodes (ok text) = refl
output-Encodes (err e) = refl

module _ {Fn BranchFn : Type 0} where
  -- Task by task: the name, the dependencies, the type and the script.
  abbrev pub AllScripts : String → List (TaskDef Fn BranchFn) → List TaskSpec → Type 0
  AllScripts content [] [] = Unit
  AllScripts content (t ∷ ts) (spec ∷ specs) =
      ((spec.name ≡ t.name)
        × (spec.dependencies ≡ t.dependencies)
        × (spec.type ≡ go)
        × (spec.script ≡ content))
      × AllScripts content ts specs
  AllScripts content [] (_ ∷ _) = ⊥
  AllScripts content (_ ∷ _) [] = ⊥

  map-AllScripts :
      (content : String) (tasks : List (TaskDef Fn BranchFn))
      → AllScripts content tasks (map (task_spec content) tasks)
  map-AllScripts content [] = tt
  map-AllScripts content (t ∷ tasks) = ((refl, refl, refl, refl), map-AllScripts content tasks)

  task_specs-AllScripts :
      (content : String) (tasks : List (TaskDef Fn BranchFn))
      → AllScripts content tasks (task_specs content [] tasks)
  task_specs-AllScripts content tasks =
      subst (AllScripts content tasks) (sym (task_specs-append content [] tasks))
        (map-AllScripts content tasks)

module _ (p : Process) where
  -- The caller is a file of the SDK, or a file that cannot be read.
  abbrev pub Passed : ℕ → Type 0
  Passed i =
      (file : List ℕ) × (p.caller i ≡ some file)
      × ((is_sdk_file file ≡ true) ⊎ ((e : Error) × (p.read_file file ≡ err e)))

  -- The caller is a file of the user with the text.
  abbrev pub IsSource : ℕ → String → Type 0
  IsSource i content =
      (file : List ℕ) × (p.caller i ≡ some file)
      × (is_sdk_file file ≡ false)
      × (p.read_file file ≡ ok content)

  passed_lem : (n i : ℕ) → Passed i → search_callers p (suc n) i ≡ search_callers p n (i + 1)
  unfolding search_callers
  passed_lem n i (file, here, inl sdk) = rw (here, sdk) refl
  passed_lem n i (file, here, inr (e, failed)) =
      rw (here, failed) (same (not (is_sdk_file file)) (search_callers p n (i + 1)))
    where
      same : (b : Bool) (next : Option String) → (if b then next else next) ≡ next
      same true next = refl
      same false next = refl

  search_callers-first :
      (k n i : ℕ) (content : String)
      → k < n
      → ((j : ℕ) → j < k → Passed (i + j))
      → IsSource (i + k) content
      → search_callers p n i ≡ some content
  unfolding search_callers
  search_callers-first k zero i content small passed source = absurd (omega arith)
  search_callers-first zero (suc n) i content small passed source =
      let (file, here, user, text) = subst (λ m. IsSource m content) (no_more i) source in
      rw (here, user, text) refl
  search_callers-first (suc k) (suc n) i content small passed source =
      passed_lem n i (subst Passed (no_more i) (passed 0 (omega arith)))
      ∙ search_callers-first k n (i + 1) content (omega arith)
          (λ j lower. subst Passed (one_more i j) (passed (suc j) (omega arith)))
          (subst (λ m. IsSource m content) (one_more i k) source)

  -- If one of the nine callers up the stack is a file outside of the SDK that can be read, and the
  -- callers before it are files of the SDK or cannot be read, then `GenerateManifest` encodes a manifest
  -- of the DAG's name with one task for each task of the DAG, in order, with its name and its
  -- dependencies, the type Go and this file's text as the script, and prints the encoding, or exits where
  -- the manifest cannot be encoded.
  pub generate_manifest-first :
      {Fn BranchFn : Type 0} (marshal : Manifest → Result String) (dag_name : String)
      (tasks : List (TaskDef Fn BranchFn)) (k : ℕ) (content : String)
      → k < 9
      → ((j : ℕ) → j < k → Passed (1 + j))
      → IsSource (1 + k) content
      → (m : Manifest) × Encodes (marshal m) (generate_manifest p marshal dag_name tasks)
        × (m.dag.name ≡ dag_name)
        × AllScripts content tasks m.dag.spec.tasks
  unfolding generate_manifest read_caller_source manifest_of
  generate_manifest-first marshal dag_name tasks k content small passed source =
      let m = manifest_of p marshal content dag_name tasks in
      (
        m,
        rw (search_callers-first k 9 1 content small passed source) (output-Encodes (marshal m)),
        refl,
        task_specs-AllScripts content tasks,
      )
