-- ===== src/Prelude/Dict.antt =====
-- Go's maps as association lists. A key that is not there reads as `none`; `m[k]` of the source,
-- which gives the zero value then, is `get_or`. Proofs go by the laws.
use mathlib.Core.Path.{◌≡◌, refl}
use mathlib.Core.Logic.Or
use mathlib.Core.HLevel.{⊥_prop, Π_prop}
use mathlib.Core.Path.{subst}
use mathlib.Core.Logic.{◌≢◌, ◌↔◌}
use mathlib.Core.List.{
  Mem, Nodup, Nodup-nil, Nodup-cons, mem-cons, mem-cons_self, mem-cons_of_mem, not-mem-nil,
}
use mathlib.Core.Option.{Option, none, some}
use mathlib.Core.List.{List, [], ◌∷◌, map}
use native.Mathlib.Omega.{arith}
use nautikus.Prelude.Equality.{Eq, ◌==◌, if◌then◌else◌}

abbrev pub Dict {ℓ κ} : Type ℓ → Type κ → Type (ℓ ⊔ κ)
Dict K V = List (K × V)

abbrev pub keys {ℓ κ} : {K : Type ℓ} {V : Type κ} → Dict K V → List K
keys m = map (λ (k, _). k) m

abbrev pub get_or {ℓ} : {V : Type ℓ} → V → Option V → V
get_or d none = d
get_or d (some v) = v

module _ {ℓ κ} {K : Type ℓ} {V : Type κ} ⦃e : Eq K⦄ where
  unfoldable pub lookup : K → Dict K V → Option V
  lookup key [] = none
  lookup key ((other, value) ∷ dict) = if other == key then some value else lookup key dict

  -- `m[k] = v`
  unfoldable pub insert : K → V → Dict K V → Dict K V
  insert key value [] = (key, value) ∷ []
  insert key value ((other, held) ∷ dict) =
      if other == key then (key, value) ∷ dict else (other, held) ∷ insert key value dict

  -- `delete(m, k)`
  unfoldable pub erase : K → Dict K V → Dict K V
  erase key [] = []
  erase key ((other, held) ∷ dict) =
      let rest = erase key dict in if other == key then rest else (other, held) ∷ rest

  -- A map holds a key once.
  abbrev pub NodupKeys : Dict K V → Type κ
  NodupKeys [] = Unit
  NodupKeys ((key, _) ∷ dict) = (lookup key dict ≡ none) × NodupKeys dict

  pub lookup-nil : (key : K) → lookup key [] ≡ none
  unfolding lookup
  lookup-nil key = refl

  pub lookup-cons :
      (key other : K) (value : V) (dict : Dict K V)
      → lookup other ((key, value) ∷ dict)
        ≡ (if key == other then some value else lookup other dict)
  unfolding lookup
  lookup-cons key other value dict = refl

  pub lookup-insert :
      (key other : K) (value : V) (dict : Dict K V)
      → lookup other (insert key value dict)
        ≡ (if key == other then some value else lookup other dict)
  unfolding lookup insert
  lookup-insert key other value [] = refl
  lookup-insert key other value ((i, held) ∷ dict) =
      ground (arith, lookup-insert key other value dict)

  pub lookup-erase :
      (key other : K) (dict : Dict K V)
      → lookup other (erase key dict) ≡ (if key == other then none else lookup other dict)
  unfolding lookup erase
  lookup-erase key other [] = ground arith
  lookup-erase key other ((i, held) ∷ dict) = ground (arith, lookup-erase key other dict)

  pub insert-NodupKeys :
      (key : K) (value : V) (dict : Dict K V) → NodupKeys dict → NodupKeys (insert key value dict)
  unfolding insert
  insert-NodupKeys key value [] u = (lookup-nil key, tt)
  insert-NodupKeys key value ((other, held) ∷ dict) u =
      ground (arith, insert-NodupKeys key value dict u.1, lookup-insert key other value dict)

  pub erase-NodupKeys : (key : K) (dict : Dict K V) → NodupKeys dict → NodupKeys (erase key dict)
  unfolding erase
  erase-NodupKeys key [] u = tt
  erase-NodupKeys key ((other, held) ∷ dict) u =
      ground (arith, erase-NodupKeys key dict u.1, lookup-erase key other dict)

  pub erase-eq_of_absent :
      (key : K) (dict : Dict K V) → lookup key dict ≡ none → erase key dict ≡ dict
  unfolding lookup erase
  erase-eq_of_absent key [] h = refl
  erase-eq_of_absent key ((other, held) ∷ dict) h = ground (arith, erase-eq_of_absent key dict)

  pub mem-keys : (key : K) (dict : Dict K V) → Mem key (keys dict) ↔ (lookup key dict ≢ none)
  unfolding lookup
  mem-keys key [] = (λ h. absurd (not-mem-nil h), λ h. absurd (h refl))
  mem-keys key ((other, value) ∷ dict) = (
    λ h.
        Or.elim (Π_prop λ _. ⊥_prop) (mem-cons.0 h) (λ e. ground arith)
          (λ later. ground (arith, (mem-keys key dict).0 later)),
    λ h. elim (e.dec other key) [
      | yes same ↦ subst (λ x. Mem x (other ∷ keys dict)) same mem-cons_self
      | no differ ↦ mem-cons_of_mem other ((mem-keys key dict).1 (ground arith))
    ],
  )

  pub keys-Nodup : (dict : Dict K V) → NodupKeys dict → Nodup (keys dict)
  keys-Nodup [] u = Nodup-nil
  keys-Nodup ((other, value) ∷ dict) u =
      Nodup-cons.1 ((λ h. (mem-keys other dict).0 h u.0), keys-Nodup dict u.1)
