-- ===== src/Prelude/Elements.antt =====
-- Reading a list at an index.
use mathlib.Core.Path.{◌≡◌, refl, ap}
use mathlib.Core.Logic.{◌≢◌}
use mathlib.Core.Option.{some}
use mathlib.Core.List.{List, [], ◌∷◌, ◌++◌}
use Prim.Native.Nat.{ℕ, zero, suc, ◌<◌}
use native.Mathlib.Omega.{arith}
use nautikus.Prelude.Dict
use nautikus.Prelude.Lists.{length, get_elem?, modify}

module _ {A : Type 0} where
  pub get_elem?-modify :
      (xs : List A) (i : ℕ) (f : A → A) (x : A)
      → get_elem? xs i ≡ some x
      → get_elem? (modify xs i f) i ≡ some (f x)
  get_elem?-modify [] i f x e = absurd cc
  get_elem?-modify (y ∷ xs) zero f x e = ground (arith, e)
  get_elem?-modify (y ∷ xs) (suc i) f x e = get_elem?-modify xs i f x e

  pub get_elem?-modify_other :
      (xs : List A) (i j : ℕ) (f : A → A) → i ≢ j → get_elem? (modify xs i f) j ≡ get_elem? xs j
  get_elem?-modify_other [] i j f h = refl
  get_elem?-modify_other (y ∷ xs) zero zero f h = absurd (h refl)
  get_elem?-modify_other (y ∷ xs) zero (suc j) f h = refl
  get_elem?-modify_other (y ∷ xs) (suc i) zero f h = refl
  get_elem?-modify_other (y ∷ xs) (suc i) (suc j) f h =
      get_elem?-modify_other xs i j f (λ e. h (ap suc e))

  pub get_elem?-append_last : (xs : List A) (x : A) → get_elem? (xs ++ x ∷ []) (length xs) ≡ some x
  get_elem?-append_last [] x = refl
  get_elem?-append_last (y ∷ xs) x = get_elem?-append_last xs x

  pub get_elem?-append_left :
      (xs ys : List A) (i : ℕ) → i < length xs → get_elem? (xs ++ ys) i ≡ get_elem? xs i
  get_elem?-append_left [] ys i h = absurd (omega arith)
  get_elem?-append_left (x ∷ xs) ys zero h = refl
  get_elem?-append_left (x ∷ xs) ys (suc i) h = get_elem?-append_left xs ys i (omega arith)

  pub get_elem?-found :
      (xs : List A) (i : ℕ) (d : A)
      → i < length xs
      → get_elem? xs i ≡ some (Dict.get_or d (get_elem? xs i))
  get_elem?-found [] i d h = absurd (omega arith)
  get_elem?-found (x ∷ xs) zero d h = refl
  get_elem?-found (x ∷ xs) (suc i) d h = get_elem?-found xs i d (omega arith)
