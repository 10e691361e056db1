-- ===== src/DeepCopies/Values.antt =====
-- The value of an object by the heap, and that a copy has the value of what it copies.
use nautikus.Prelude.{
  ◌≤◌, ◌<◌, ◌≡◌, refl, sym, ◌∙◌, ap, Option, none, some, List, [], ◌∷◌, ◌++◌, map, length,
  length-append, get_elem?-append_left, get_elem?-append_last, All, arith,
}
use mathlib.Core.List.{append_assoc, append-nil}
use nautikus.Api.{TaskSpec, DagSpec, DagStatus}
use nautikus.DeepCopies.Memory.{
  Machinery, Address, TaskSpecObject, DagSpecObject, DagStatusObject, DagObject, Heap, read,
}

-- The address is nil or that of an array.
abbrev pub Allocated : {A : Type 0} → Address → List A → Type 0
Allocated none arrays = Unit
Allocated (some a) arrays = a < length arrays

-- The address is nil or not yet that of an array.
abbrev pub Fresh : {A : Type 0} → Address → List A → Type 0
Fresh none arrays = Unit
Fresh (some a) arrays = length arrays ≤ a

abbrev pub Extends : {A : Type 0} → List A → List A → Type 0
Extends xs ys = (new : List _) × (ys ≡ xs ++ new)

module _ {A : Type 0} where
  pub Extends-refl : (xs : List A) → Extends xs xs
  Extends-refl xs = ([], sym (append-nil xs))

  pub Extends-trans : (xs ys zs : List A) → Extends xs ys → Extends ys zs → Extends xs zs
  Extends-trans xs ys zs (new, e) (newer, e') =
      (new ++ newer, e' ∙ ap (λ l. l ++ newer) e ∙ append_assoc xs new newer)

  pub Allocated-Extends :
      (a : Address) (xs ys : List A) → Extends xs ys → Allocated a xs → Allocated a ys
  Allocated-Extends none xs ys h here = tt
  Allocated-Extends (some a) xs ys (new, e) here =
      omega (arith, here, ap length e, length-append xs new)

  pub Fresh-Extends : (a : Address) (xs ys : List A) → Extends xs ys → Fresh a ys → Fresh a xs
  Fresh-Extends none xs ys h new = tt
  Fresh-Extends (some a) xs ys (new, e) later =
      omega (arith, later, ap length e, length-append xs new)

  pub read-Extends :
      (a : Address) (xs ys : List (List A)) → Extends xs ys → Allocated a xs → read a ys ≡ read a xs
  read-Extends none xs ys h here = refl
  read-Extends (some a) xs ys (new, e) here =
      ap (λ l. read (some a) l) e
      ∙ ap (λ (o : Option (List A)). elim o [ none ↦ [] | some zs ↦ zs ])
          (get_elem?-append_left xs new a here)

  pub read-last : (xs : List (List A)) (x : List A) → read (some (length xs)) (xs ++ x ∷ []) ≡ x
  read-last xs x =
      ap (λ (o : Option (List A)). elim o [ none ↦ [] | some zs ↦ zs ]) (get_elem?-append_last xs x)

  pub Allocated-last : (xs : List A) (x : A) → Allocated (some (length xs)) (xs ++ x ∷ [])
  Allocated-last xs x = omega (arith, length-append xs (x ∷ []))

module _ {M : Machinery} where
  -- Nothing that is there is changed.
  pub record Grows (h h' : Heap M) : Type 0 where
    pub texts : Extends h.texts h'.texts
    pub specs : Extends h.specs h'.specs
    pub statuses : Extends h.statuses h'.statuses
    pub maps : h'.maps ≡ h.maps

  pub Grows-refl : (h : Heap M) → Grows h h
  Grows-refl h = record {
    texts = Extends-refl h.texts;
    specs = Extends-refl h.specs;
    statuses = Extends-refl h.statuses;
    maps = refl;
  }

  pub Grows-trans : (a b c : Heap M) → Grows a b → Grows b c → Grows a c
  Grows-trans a b c h k = record {
    texts = Extends-trans a.texts b.texts c.texts h.texts k.texts;
    specs = Extends-trans a.specs b.specs c.specs h.specs k.specs;
    statuses = Extends-trans a.statuses b.statuses c.statuses h.statuses k.statuses;
    maps = k.maps ∙ h.maps;
  }

  -- What an object is worth. Nil counts as empty.
  abbrev pub task_value : Heap M → TaskSpecObject → TaskSpec
  task_value h t = record {
    name = t.name;
    type = t.type;
    dependencies = read t.dependencies h.texts;
    command = t.command;
    script = t.script;
    image = t.image;
    env = read t.env h.maps;
  }

  abbrev pub spec_value : Heap M → DagSpecObject → DagSpec
  spec_value h s = record { tasks = map (task_value h) (read s.tasks h.specs) }

  abbrev pub status_value : Heap M → DagStatusObject → DagStatus
  status_value h s = record { state = s.state; task_statuses = read s.task_statuses h.statuses }

  abbrev pub IsTaskAllocated : Heap M → TaskSpecObject → Type 0
  IsTaskAllocated h t = Allocated t.dependencies h.texts

  -- The slices of the object and of its tasks are nil or allocated.
  pub record IsAllocated (h : Heap M) (d : DagObject M) : Type 0 where
    pub tasks : Allocated d.spec.tasks h.specs
    pub dependencies : All (IsTaskAllocated h) (read d.spec.tasks h.specs)
    pub statuses : Allocated d.status.task_statuses h.statuses

  -- What is allocated in the first heap reads the same in the second.
  pub record Agrees (h h' : Heap M) : Type 0 where
    pub texts : (a : Address) → Allocated a h.texts → read a h'.texts ≡ read a h.texts
    pub specs : (a : Address) → Allocated a h.specs → read a h'.specs ≡ read a h.specs
    pub statuses : (a : Address) → Allocated a h.statuses → read a h'.statuses ≡ read a h.statuses
    pub maps : h'.maps ≡ h.maps

  pub Grows-Agrees : (h h' : Heap M) → Grows h h' → Agrees h h'
  Grows-Agrees h h' g = record {
    texts = λ a. read-Extends a h.texts h'.texts g.texts;
    specs = λ a. read-Extends a h.specs h'.specs g.specs;
    statuses = λ a. read-Extends a h.statuses h'.statuses g.statuses;
    maps = g.maps;
  }

  pub task_value-Agrees :
      (h h' : Heap M) (t : TaskSpecObject)
      → Agrees h h'
      → IsTaskAllocated h t
      → task_value h' t ≡ task_value h t
  task_value-Agrees h h' t g here = λ i. record (task_value h t) {
    dependencies = g.texts t.dependencies here i;
    env = read t.env (g.maps i);
  }

  pub task_values-Agrees :
      (h h' : Heap M) (ts : List TaskSpecObject)
      → Agrees h h'
      → All (IsTaskAllocated h) ts
      → map (task_value h') ts ≡ map (task_value h) ts
  task_values-Agrees h h' [] g here = refl
  task_values-Agrees h h' (t ∷ ts) g here =
      λ i. task_value-Agrees h h' t g here.0 i ∷ task_values-Agrees h h' ts g here.1 i

  -- What is allocated keeps its value.
  pub value-Agrees :
      (h h' : Heap M) (d : DagObject M)
      → Agrees h h'
      → IsAllocated h d
      → (spec_value h' d.spec ≡ spec_value h d.spec)
        × (status_value h' d.status ≡ status_value h d.status)
  value-Agrees h h' d g here = (
    ap (λ ts. record { tasks = ts })
        (ap (λ l. map (task_value h') l) (g.specs d.spec.tasks here.tasks)
          ∙ task_values-Agrees h h' (read d.spec.tasks h.specs) g here.dependencies),
    ap (λ sts. record { state = d.status.state; task_statuses = sts })
        (g.statuses d.status.task_statuses here.statuses),
  )
