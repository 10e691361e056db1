-- ===== src/Prelude/Lists.antt =====
-- Lists measured by native numbers, under the library's names, and predicates on their items.
use Prim.Native.Nat.{ℕ, zero, suc, ◌+◌, ◌≤◌, min}
use mathlib.Core.Path.{◌≡◌, refl, sym, ap, ◌∙◌, subst}
use mathlib.Core.Logic.{inl, inr}
use mathlib.Core.Bool.{Bool, true, false}
use mathlib.Core.Option.{Option, none, some}
use mathlib.Core.List.{List, [], ◌∷◌, ◌++◌, map, Memᴰ}
use native.Mathlib.Omega.{arith}
use nautikus.Prelude.Equality.{Bool-cases, if◌then◌else◌}

module _ {ℓ} {A : Type ℓ} where
  abbrev pub length : List A → ℕ
  length [] = 0
  length (x ∷ xs) = suc (length xs)

  abbrev pub take : ℕ → List A → List A
  take zero xs = []
  take (suc n) [] = []
  take (suc n) (x ∷ xs) = x ∷ take n xs

  abbrev pub get_elem? : List A → ℕ → Option A
  get_elem? [] i = none
  get_elem? (x ∷ xs) zero = some x
  get_elem? (x ∷ xs) (suc i) = get_elem? xs i

  -- The item at an index changed in place. An index out of range changes nothing.
  abbrev pub modify : List A → ℕ → (A → A) → List A
  modify [] i f = []
  modify (x ∷ xs) zero f = f x ∷ xs
  modify (x ∷ xs) (suc i) f = x ∷ modify xs i f

  pub length-append : (xs ys : List A) → length (xs ++ ys) ≡ length xs + length ys
  length-append [] ys = omega arith
  length-append (x ∷ xs) ys = omega (arith, length-append xs ys)

  pub length-take : (n : ℕ) (xs : List A) → length (take n xs) ≡ min n (length xs)
  length-take zero xs = omega arith
  length-take (suc n) [] = omega arith
  length-take (suc n) (x ∷ xs) = omega (arith, length-take n xs)

  pub take_all : (n : ℕ) (xs : List A) → length xs ≤ n → take n xs ≡ xs
  take_all zero [] h = refl
  take_all zero (x ∷ xs) h = absurd (omega arith)
  take_all (suc n) [] h = refl
  take_all (suc n) (x ∷ xs) h = ap (λ r. x ∷ r) (take_all n xs (omega arith))

  pub length-modify : (xs : List A) (i : ℕ) (f : A → A) → length (modify xs i f) ≡ length xs
  length-modify [] i f = refl
  length-modify (x ∷ xs) zero f = refl
  length-modify (x ∷ xs) (suc i) f = ap suc (length-modify xs i f)

  -- Every item has the property.
  abbrev pub All {κ} : (A → Type κ) → List A → Type κ
  All P [] = Unit
  All P (x ∷ xs) = P x × All P xs

  module _ {κ} (P : A → Type κ) where
    pub All-append : (xs ys : List A) → All P xs → All P ys → All P (xs ++ ys)
    All-append [] ys hx hy = hy
    All-append (x ∷ xs) ys hx hy = (hx.0, All-append xs ys hx.1 hy)

    pub All-take : (n : ℕ) (xs : List A) → All P xs → All P (take n xs)
    All-take zero xs h = tt
    All-take (suc n) [] h = tt
    All-take (suc n) (x ∷ xs) h = (h.0, All-take n xs h.1)

-- The items that pass a Boolean test.
abbrev pub any {ℓ} : {A : Type ℓ} → (A → Bool) → List A → Bool
any p [] = false
any p (x ∷ xs) = if p x then true else any p xs

abbrev pub filter {ℓ} : {A : Type ℓ} → (A → Bool) → List A → List A
filter p [] = []
filter p (x ∷ xs) = let rest = filter p xs in elim (p x) [ true ↦ x ∷ rest | false ↦ rest ]

module _ {ℓ} {A : Type ℓ} (p : A → Bool) where
  pub mem-filter : (a : A) (xs : List A) → p a ≡ true → Memᴰ a xs → Memᴰ a (filter p xs)
  mem-filter a [] h m = elim m [ ]
  mem-filter a (x ∷ xs) h (Memᴰ.head e) = rw (ap p (sym e) ∙ h, filter) (Memᴰ.head e)
  mem-filter a (x ∷ xs) h (Memᴰ.tail m) = elim (Bool-cases (p x)) [
    | inl q ↦ rw (q, filter) (Memᴰ.tail (mem-filter a xs h m))
    | inr q ↦ rw (q, filter) (mem-filter a xs h m)
  ]

  pub All-filter {κ} :
      (P : A → Type κ) → ((a : A) → p a ≡ true → P a) → (xs : List A) → All P (filter p xs)
  All-filter P h [] = tt
  All-filter P h (x ∷ xs) = elim (Bool-cases (p x)) [
    | inl e ↦ rw (e, All) (h x e, All-filter P h xs)
    | inr e ↦ rw (e, All) (All-filter P h xs)
  ]

module _ {ℓ κ} {A : Type ℓ} (P : A → Type κ) (p : A → Bool) where
  pub All-filter_of_All : (xs : List A) → All P xs → All P (filter p xs)
  All-filter_of_All [] h = tt
  All-filter_of_All (x ∷ xs) h = elim (Bool-cases (p x)) [
    | inl e ↦ rw (e, All) (h.0, All-filter_of_All xs h.1)
    | inr e ↦ rw (e, All) (All-filter_of_All xs h.1)
  ]

pub map-modify {ℓ κ} :
    {A : Type ℓ} {B : Type κ} (g : A → B) (f : A → A)
    → ((a : A) → g (f a) ≡ g a)
    → (xs : List A) (i : ℕ) → map g (modify xs i f) ≡ map g xs
map-modify g f h [] i = refl
map-modify g f h (x ∷ xs) zero = ap (λ b. b ∷ map g xs) (h x)
map-modify g f h (x ∷ xs) (suc i) = ap (λ r. g x ∷ r) (map-modify g f h xs i)

pub length-map {ℓ κ} :
    {A : Type ℓ} {B : Type κ} (f : A → B) (xs : List A) → length (map f xs) ≡ length xs
length-map f [] = refl
length-map f (x ∷ xs) = ap suc (length-map f xs)

module _ {ℓ} {A : Type ℓ} where
  pub All-imp {κ μ} :
      (P : A → Type κ) (Q : A → Type μ)
      → ((a : A) → P a → Q a)
      → (xs : List A) → All P xs
      → All Q xs
  All-imp P Q h [] all = tt
  All-imp P Q h (x ∷ xs) all = (h x all.0, All-imp P Q h xs all.1)

  pub All-at {κ} : (P : A → Type κ) (xs : List A) (a : A) → All P xs → Memᴰ a xs → P a
  All-at P [] a all m = elim m [ ]
  All-at P (x ∷ xs) a all (Memᴰ.head e) = subst P (sym e) all.0
  All-at P (x ∷ xs) a all (Memᴰ.tail m) = All-at P xs a all.1 m

  pub All-self : (xs : List A) → All (λ a. Memᴰ a xs) xs
  All-self [] = tt
  All-self (x ∷ xs) = (Memᴰ.head refl, All-imp _ _ (λ a m. Memᴰ.tail m) xs (All-self xs))
