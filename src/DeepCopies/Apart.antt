-- ===== src/DeepCopies/Apart.antt =====
-- What is written to a copy, and what of it is seen in the original.
use nautikus.Prelude.{
  ℕ, ◌≡◌, refl, sym, ◌∙◌, ap, String, Option, none, some, List, [], ◌∷◌, get_elem?,
  get_elem?-modify, get_elem?-modify_other, modify, arith,
}
use mathlib.Core.Option.{some-injective}
use nautikus.Prelude.Dict.{Dict}
use nautikus.Api.{TaskStatus}
use nautikus.DeepCopies.Memory.{Machinery, Address, TaskSpecObject, DagObject, Heap, read, copy_dag}
use nautikus.DeepCopies.Values.{
  Allocated, Fresh, Extends, read-Extends, Grows, Agrees, Grows-Agrees, task_value, spec_value,
  status_value, IsAllocated, value-Agrees,
}
use nautikus.DeepCopies.Copied.{TasksFresh, copy_dag-copied}

-- The arrays with other elements at an address; a write to nil is none.
abbrev pub write : {A : Type 0} → Address → (List A → List A) → List (List A) → List (List A)
write none f arrays = arrays
write (some a) f arrays = modify arrays a f

write_other :
    {A : Type 0} (a a' : Address) (xs ys : List (List A)) (f : List A → List A)
    → Extends xs ys
    → Allocated a xs
    → Fresh a' xs
    → read a (write a' f ys) ≡ read a xs
write_other none a' xs ys f more here new = refl
write_other (some a) none xs ys f more here new = read-Extends (some a) xs ys more here
write_other (some a) (some a') xs ys f more here new =
    ap (λ (o : Option (List _)). elim o [ none ↦ [] | some zs ↦ zs ])
      (get_elem?-modify_other ys a' a f (λ e. absurd (omega (arith, e, here, new))))
    ∙ read-Extends (some a) xs ys more here

write_same :
    {A : Type 0} (a : ℕ) (xs : List (List A)) (x : List A) (f : List A → List A)
    → get_elem? xs a ≡ some x
    → read (some a) (write (some a) f xs) ≡ f x
write_same a xs x f e =
    ap (λ (o : Option (List _)). elim o [ none ↦ [] | some zs ↦ zs ]) (get_elem?-modify xs a f x e)

module _ {M : Machinery} where
  -- A write to the array of task statuses, to the array of tasks, and to the dependencies of the task at an
  -- index, if there is one.
  abbrev pub write_statuses : DagObject M → (List TaskStatus → List TaskStatus) → Heap M → Heap M
  write_statuses d f h = record h { statuses = write d.status.task_statuses f h.statuses }

  abbrev pub write_tasks :
      DagObject M → (List TaskSpecObject → List TaskSpecObject) → Heap M → Heap M
  write_tasks d f h = record h { specs = write d.spec.tasks f h.specs }

  abbrev pub write_of : Option TaskSpecObject → (List String → List String) → Heap M → Heap M
  write_of none f h = h
  write_of (some t) f h = record h { texts = write t.dependencies f h.texts }

  abbrev pub write_dependencies : DagObject M → ℕ → (List String → List String) → Heap M → Heap M
  write_dependencies d i f h = write_of (get_elem? (read d.spec.tasks h.specs) i) f h

  -- The Dag has the specification and the status that it has in the first heap.
  abbrev pub Keeps : DagObject M → Heap M → Heap M → Type 0
  Keeps d h h' =
      (spec_value h' d.spec ≡ spec_value h d.spec)
      × (status_value h' d.status ≡ status_value h d.status)

  module _ (h h' : Heap M) (g : Grows h h') where
    statuses_lem :
        (d' : DagObject M) (f : List TaskStatus → List TaskStatus)
        → Fresh d'.status.task_statuses h.statuses
        → Agrees h (write_statuses d' f h')
    statuses_lem d' f new =
        let same = Grows-Agrees h h' g in
        record {
          texts = same.texts;
          specs = same.specs;
          statuses = λ a here.
              write_other a d'.status.task_statuses h.statuses h'.statuses f g.statuses here new;
          maps = same.maps;
        }

    tasks_lem :
        (d' : DagObject M) (f : List TaskSpecObject → List TaskSpecObject)
        → Fresh d'.spec.tasks h.specs
        → Agrees h (write_tasks d' f h')
    tasks_lem d' f new =
        let same = Grows-Agrees h h' g in
        record {
          texts = same.texts;
          specs = λ a here. write_other a d'.spec.tasks h.specs h'.specs f g.specs here new;
          statuses = same.statuses;
          maps = same.maps;
        }

    dependencies_lem :
        (ts ts' : List TaskSpecObject) (i : ℕ) (f : List String → List String)
        → TasksFresh h ts ts'
        → Agrees h (write_of (get_elem? ts' i) f h')
    dependencies_lem [] [] i f new = Grows-Agrees h h' g
    dependencies_lem (t ∷ ts) (t' ∷ ts') ℕ.zero f new =
        let same = Grows-Agrees h h' g in
        record {
          texts = λ a here. write_other a t'.dependencies h.texts h'.texts f g.texts here new.0;
          specs = same.specs;
          statuses = same.statuses;
          maps = same.maps;
        }
    dependencies_lem (t ∷ ts) (t' ∷ ts') (ℕ.suc i) f new = dependencies_lem ts ts' i f new.2
    dependencies_lem [] (_ ∷ _) i f new = absurd new
    dependencies_lem (_ ∷ _) [] i f new = absurd new

  -- If the slices of a Dag and of its tasks are nil or allocated, then no write to the task statuses, to
  -- the tasks or to the dependencies of a task of its deep copy changes the specification or the status
  -- of the Dag.
  pub copy_dag-Keeps :
      (d : DagObject M) (h : Heap M) (f : List TaskStatus → List TaskStatus)
      (g : List TaskSpecObject → List TaskSpecObject) (i : ℕ) (k : List String → List String)
      → IsAllocated h d
      → let (d', h') = copy_dag d h in
        Keeps d h (write_statuses d' f h')
        × Keeps d h (write_tasks d' g h')
        × Keeps d h (write_dependencies d' i k h')
  copy_dag-Keeps d h f g i k here =
      let (d', h') = copy_dag d h in
      let c = copy_dag-copied d h here in
      (
        value-Agrees h (write_statuses d' f h') d (statuses_lem h h' c.grows d' f c.fresh_statuses)
            here,
        value-Agrees h (write_tasks d' g h') d (tasks_lem h h' c.grows d' g c.fresh_tasks) here,
        value-Agrees h (write_dependencies d' i k h') d
            (dependencies_lem h h' c.grows (read d.spec.tasks h.specs) (read d'.spec.tasks h'.specs)
              i k c.tasks)
            here,
      )

  -- The map of a task of a copy is that of the task that it copies.
  abbrev pub write_env :
      TaskSpecObject → (Dict String String → Dict String String) → Heap M → Heap M
  write_env t f h = record h { maps = write t.env f h.maps }

  TasksFresh-env :
      (h : Heap M) (ts ts' : List TaskSpecObject) (i : ℕ) (t t' : TaskSpecObject)
      → TasksFresh h ts ts'
      → get_elem? ts i ≡ some t
      → get_elem? ts' i ≡ some t'
      → t'.env ≡ t.env
  TasksFresh-env h [] ts' i t t' f e e' = absurd cc
  TasksFresh-env h (u ∷ us) (u' ∷ us') ℕ.zero t t' f e e' =
      ap (λ (x : TaskSpecObject). x.env) (sym (some-injective u' t' e'))
      ∙ f.1
      ∙ ap (λ (x : TaskSpecObject). x.env) (some-injective u t e)
  TasksFresh-env h (u ∷ us) (u' ∷ us') (ℕ.suc i) t t' f e e' =
      TasksFresh-env h us us' i t t' f.2 e e'
  TasksFresh-env h (u ∷ us) [] i t t' f e e' = absurd f

  -- If the slices of a Dag and of its tasks are nil or allocated, then a write to the environment of a
  -- task of its deep copy, whose environment is not nil, is the environment of the same task of the Dag too.
  pub copy_dag-shares_env :
      (d : DagObject M) (h : Heap M) (i a : ℕ) (t t' : TaskSpecObject) (env : Dict String String)
      (f : Dict String String → Dict String String)
      → IsAllocated h d
      → get_elem? (read d.spec.tasks h.specs) i ≡ some t
      → t.env ≡ some a
      → get_elem? h.maps a ≡ some env
      → let (d', h') = copy_dag d h in
        get_elem? (read d'.spec.tasks h'.specs) i ≡ some t'
        → (task_value (write_env t' f h') t).env ≡ f env
  copy_dag-shares_env d h i a t t' env f here e at_map there e' =
      let (d', h') = copy_dag d h in
      let c = copy_dag-copied d h here in
      let same : t'.env ≡ t.env =
        TasksFresh-env h (read d.spec.tasks h.specs) (read d'.spec.tasks h'.specs) i t t' c.tasks e
          e' in
      (λ j. read (at_map j) (write ((same ∙ at_map) j) f (c.grows.maps j)))
      ∙ write_same a h.maps env f there
