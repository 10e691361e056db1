-- ===== src/Sdk/Search.antt =====
-- The search for a text in a text.
use nautikus.Prelude.{
  ℕ, zero, suc, ◌+◌, ◌-◌, ◌≤◌, ◌<◌, ◌≡◌, refl, sym, ◌∙◌, ap, ◌↔◌, inl, inr, Bool, true, ◌&&◌, ◌||◌,
  Bool-cases, List, [], ◌∷◌, ◌++◌, length, length-append, take, leb, ltb, arith,
}
use mathlib.Core.List.{append-nil}
use mathlib.Core.Path.{subst}
use nautikus.Sdk.Manifests.{same_bytes, tail, search_from, contains_helper, contains}

-- The text occurs in the other one.
abbrev pub Occurs : List ℕ → List ℕ → Type 0
Occurs substr s = (before : List ℕ) × (behind : List ℕ) × (s ≡ before ++ (substr ++ behind))

same_bytes_self : (xs : List ℕ) → same_bytes xs xs ≡ true
same_bytes_self [] = refl
same_bytes_self (x ∷ xs) = ground (arith, same_bytes_self xs)

same_bytes-take :
    (substr behind : List ℕ) → same_bytes (take (length substr) (substr ++ behind)) substr ≡ true
same_bytes-take [] behind = refl
same_bytes-take (x ∷ xs) behind = ground (arith, same_bytes-take xs behind)

eq_of_same_bytes : (xs ys : List ℕ) → same_bytes xs ys ≡ true → xs ≡ ys
eq_of_same_bytes [] [] h = refl
eq_of_same_bytes [] (y ∷ ys) h = absurd cc
eq_of_same_bytes (x ∷ xs) [] h = absurd cc
eq_of_same_bytes (x ∷ xs) (y ∷ ys) h =
    let first : x ≡ y = ground (arith, h) in
    let rest : same_bytes xs ys ≡ true = ground (arith, h) in
    λ i. first i ∷ eq_of_same_bytes xs ys rest i

take_rest : (n : ℕ) (s : List ℕ) → (behind : List ℕ) × (s ≡ take n s ++ behind)
take_rest zero s = (s, refl)
take_rest (suc n) [] = ([], refl)
take_rest (suc n) (x ∷ s) = let (behind, e) = take_rest n s in (behind, ap (λ r. x ∷ r) e)

Occurs-search_from : (n : ℕ) (s substr : List ℕ) → search_from n s substr ≡ true → Occurs substr s
unfolding search_from
Occurs-search_from zero s substr h = absurd cc
Occurs-search_from (suc n) s substr h =
    elim (Bool-cases (same_bytes (take (length substr) s) substr)) [
      | inl e ↦
          let (behind, split) = take_rest (length substr) s in
          (
            [],
            behind,
            split ∙ ap (λ r. r ++ behind) (eq_of_same_bytes (take (length substr) s) substr e),
          )
      | inr e ↦
          let later : search_from n (tail s) substr ≡ true = ground (arith, h, e) in
          from s (Occurs-search_from n (tail s) substr later)
    ]
  where
    from : (s' : List ℕ) → Occurs substr (tail s') → Occurs substr s'
    from [] found = found
    from (x ∷ s') (before, behind, e) = (x ∷ before, behind, ap (λ r. x ∷ r) e)

search_from-Occurs :
    (n : ℕ) (before substr behind : List ℕ)
    → length before < n
    → search_from n (before ++ (substr ++ behind)) substr ≡ true
unfolding search_from
search_from-Occurs zero before substr behind h = absurd (omega arith)
search_from-Occurs (suc n) [] substr behind h = rw (same_bytes-take substr behind) refl
search_from-Occurs (suc n) (x ∷ before) substr behind h =
    let rest = search_from-Occurs n before substr behind (omega arith) in rw rest (ground arith)

nonempty_or :
    (s substr : List ℕ) (found : Bool)
    → length substr ≤ length s
    → found ≡ true
    → (same_bytes s substr || (ltb 0 (length s) && found)) ≡ true
nonempty_or [] [] found short h = refl
nonempty_or [] (y ∷ ys) found short h = absurd (omega arith)
nonempty_or (x ∷ s) substr found short h = ground (arith, h)

-- `contains` answers yes just when the second text occurs in the first, the empty text included.
pub contains-Occurs_iff : (s substr : List ℕ) → (contains s substr ≡ true) ↔ Occurs substr s
unfolding contains contains_helper
contains-Occurs_iff s substr = (
  λ h. elim (Bool-cases (same_bytes s substr)) [
    | inl e ↦ ([], [], eq_of_same_bytes s substr e ∙ sym (append-nil substr))
    | inr e ↦ Occurs-search_from (length s + 1 - length substr) s substr (ground (arith, h, e))
  ],
  λ (before, behind, e).
      let size : length s ≡ length before + (length substr + length behind) =
        ap length e
        ∙ length-append before (substr ++ behind)
        ∙ ap (λ n. length before + n) (length-append substr behind) in
      let found : contains_helper s substr ≡ true =
        subst (λ r. search_from (length s + 1 - length substr) r substr ≡ true) (sym e)
          (search_from-Occurs (length s + 1 - length substr) before substr behind
            (omega (arith, size))) in
      let some_text = nonempty_or s substr (contains_helper s substr) (omega (arith, size)) found in
      let fits : leb (length substr) (length s) ≡ true = ground (arith, size) in
      rw (fits, some_text) refl,
)
