-- ===== src/Controller/Observed/Positions.antt =====
-- The map of `syncStatus` from names to entries, and a write through it.
use nautikus.Prelude.{
  any, ◌&&◌, Bool, false, ℕ, zero, suc, ◌+◌, ◌≡◌, ◌≢◌, refl, sym, ◌∙◌, String, Option, none, some,
  List, [], ◌∷◌, map, ◌==◌, string_eq, get_elem?, modify, if◌then◌else◌, arith,
}
use mathlib.Core.Path.{subst}
use mathlib.Core.Option.{or_else}
use mathlib.Core.List.{Mem, Nodup, Nodup-cons, mem-cons_self, mem-cons_of_mem}
use nautikus.Prelude.Dict
use nautikus.Prelude.Dict.{Dict}
use nautikus.Api.{TaskStatus}
use nautikus.Controller.Sync.{index_map}
use nautikus.Controller.Starts.{entry_name}

-- The index of the last entry for a name, counted from `i`.
abbrev pub position : String → ℕ → List TaskStatus → Option ℕ
position name i [] = none
position name i (ts ∷ rest) = elim (position name (i + 1) rest) [
  | some j ↦ some j
  | none ↦ if ts.name == name then some i else none
]

lookup-index_map_from :
    (name : String) (i : ℕ) (m : Dict String ℕ) (sts : List TaskStatus)
    → Dict.lookup name (index_map i m sts) ≡ or_else (position name i sts) (Dict.lookup name m)
unfolding index_map or_else
lookup-index_map_from name i m [] = refl
lookup-index_map_from name i m (ts ∷ rest) =
    lookup-index_map_from name (i + 1) (Dict.insert ts.name i m) rest
    ∙ rw Dict.lookup-insert (ground arith)

pub lookup-index_map :
    (name : String) (sts : List TaskStatus)
    → Dict.lookup name (index_map 0 [] sts) ≡ position name 0 sts
unfolding or_else
lookup-index_map name sts = lookup-index_map_from name 0 [] sts ∙ rw Dict.lookup-nil (ground arith)

-- A function that is applied to the entries for a name.
abbrev pub at_name : (TaskStatus → TaskStatus) → String → TaskStatus → TaskStatus
at_name f name ts = if ts.name == name then f ts else ts

mem-get_elem? :
    (k : ℕ) (sts : List TaskStatus) {entry : TaskStatus}
    → get_elem? sts k ≡ some entry
    → Mem entry.name (map entry_name sts)
mem-get_elem? k [] h = absurd cc
mem-get_elem? zero (ts ∷ sts) {entry} h =
    subst (λ n. Mem n (map entry_name (ts ∷ sts))) (ground arith) mem-cons_self
mem-get_elem? (suc k) (ts ∷ sts) h = mem-cons_of_mem ts.name (mem-get_elem? k sts h)

pub any-at_name_absent :
    (name : String) (p : TaskStatus → Bool) (i : ℕ) (sts : List TaskStatus)
    → position name i sts ≡ none
    → any (λ ts. ts.name == name && p ts) sts ≡ false
any-at_name_absent name p i [] h = refl
any-at_name_absent name p i (ts ∷ rest) h = ground (arith, any-at_name_absent name p (i + 1) rest)

module _ (f : TaskStatus → TaskStatus) (name : String) where
  pub map-at_name_absent :
      (i : ℕ) (sts : List TaskStatus) → position name i sts ≡ none → map (at_name f name) sts ≡ sts
  map-at_name_absent i [] h = refl
  map-at_name_absent i (ts ∷ rest) h = ground (arith, map-at_name_absent (i + 1) rest)

  -- The entry that an index stands for. Writing there is applying the function to the name.
  pub record Writes (i j : ℕ) (sts : List TaskStatus) : Type 0 where
    pub offset : ℕ
    pub entry : TaskStatus
    pub index : j ≡ i + offset
    pub there : get_elem? sts offset ≡ some entry
    pub named : entry.name ≡ name
    pub writes :
        (g : TaskStatus → TaskStatus)
        → g entry ≡ f entry
        → modify sts offset g ≡ map (at_name f name) sts
    pub alone : (p : TaskStatus → Bool) → any (λ ts. ts.name == name && p ts) sts ≡ p entry

  pub position-Writes :
      (i j : ℕ) (sts : List TaskStatus)
      → Nodup (map entry_name sts)
      → position name i sts ≡ some j
      → Writes i j sts
  position-Writes i j [] u h = absurd cc
  position-Writes i j (ts ∷ rest) u h =
      go (λ j' e. position-Writes (i + 1) j' rest (Nodup-cons.0 u).1 e) (position name (i + 1) rest)
        refl
    where
      go :
          ((j' : ℕ) → position name (i + 1) rest ≡ some j' → Writes (i + 1) j' rest)
          → (o : Option ℕ) → position name (i + 1) rest ≡ o
          → Writes i j (ts ∷ rest)
      go later none e = record {
        offset = 0;
        entry = ts;
        index = ground arith;
        there = refl;
        named = ground arith;
        writes = λ g same. ground (arith, same, map-at_name_absent (i + 1) rest e);
        alone = λ p. ground (arith, any-at_name_absent name p (i + 1) rest e);
      }
      go later (some j') e =
          let w = later j' e in
          let other : ts.name ≢ name = λ same. (Nodup-cons.0 u).0 (
            subst (λ n. Mem n (map entry_name rest)) (w.named ∙ sym same)
              (mem-get_elem? w.offset rest w.there)) in
          record {
            offset = suc w.offset;
            entry = w.entry;
            index = ground (arith, w.index);
            there = w.there;
            named = w.named;
            writes = λ g same. ground (arith, w.writes g same);
            alone = λ p. ground (arith, w.alone p);
          }
