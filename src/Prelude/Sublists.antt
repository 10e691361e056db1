-- ===== src/Prelude/Sublists.antt =====
-- Sublists and permutations of lists of names.
use Prim.Native.Nat.{ℕ, zero, suc, ◌≤◌}
use mathlib.Core.Path.{◌≡◌, refl, sym, ap}
use mathlib.Core.Logic.{inl, inr}
use mathlib.Core.Bool.{Bool}
use mathlib.Core.List
use mathlib.Core.List.{List, [], ◌∷◌, map, Sublist, Nodup, Subset, Perm, nil-sublist}
use mathlib.Core.List.Nodup
use mathlib.Core.List.Sublist
use mathlib.Core.List.Subperm
use mathlib.Core.Nat
use mathlib.Core.Nat.{le_of_eq}
use native.Mathlib.Omega.{arith}
use nautikus.Prelude.Equality.{Bool-cases}
use nautikus.Prelude.Lists.{length, take, filter}

module _ {ℓ κ} {A : Type ℓ} {B : Type κ} (f : A → B) where
  pub map-take-sublist : (n : ℕ) (xs : List A) → Sublist (map f (take n xs)) (map f xs)
  map-take-sublist zero xs = nil-sublist (map f xs)
  map-take-sublist (suc n) [] = nil-sublist []
  map-take-sublist (suc n) (x ∷ xs) = Sublist.cons-cons (f x) (map-take-sublist n xs)

  pub map-filter-sublist : (p : A → Bool) (xs : List A) → Sublist (map f (filter p xs)) (map f xs)
  map-filter-sublist p [] = nil-sublist []
  map-filter-sublist p (x ∷ xs) = elim (Bool-cases (p x)) [
    | inl e ↦ rw (e, filter) (Sublist.cons-cons (f x) (map-filter-sublist p xs))
    | inr e ↦ rw (e, filter) (Sublist.cons (f x) (map-filter-sublist p xs))
  ]

module _ {ℓ} {A : Type ℓ} where
  length-transfer : (xs ys : List A) → length xs ≡ length ys → List.length xs ≡ List.length ys
  length-transfer [] [] e = refl
  length-transfer [] (y ∷ ys) e = absurd (omega arith)
  length-transfer (x ∷ xs) [] e = absurd (omega arith)
  length-transfer (x ∷ xs) (y ∷ ys) e = ap Nat.suc (length-transfer xs ys (omega arith))

  -- Distinct items, all taken from a list of the same length, are that list in some order.
  pub perm_of_Subset :
      {xs ys : List A} → Nodup xs → Subset xs ys → length xs ≡ length ys → Perm xs ys
  perm_of_Subset {xs} {ys} u s e =
      Subperm.perm_of_length_le (Nodup.subperm u s) (le_of_eq (sym (length-transfer xs ys e)))

  le-transfer : (xs ys : List A) → Nat.◌≤◌ (List.length xs) (List.length ys) → length xs ≤ length ys
  le-transfer [] ys h = omega arith
  le-transfer (x ∷ xs) [] h = elim h [ ]
  le-transfer (x ∷ xs) (y ∷ ys) h = omega (arith, le-transfer xs ys (Nat.le_of_suc-le-suc h))

  -- Distinct items, all taken from a list, are no more than the list has.
  pub length-le_of_Subset : {xs ys : List A} → Nodup xs → Subset xs ys → length xs ≤ length ys
  length-le_of_Subset {xs} {ys} u s = le-transfer xs ys (Subperm.length-le (Nodup.subperm u s))
