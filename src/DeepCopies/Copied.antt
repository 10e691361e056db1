-- ===== src/DeepCopies/Copied.antt =====
-- What a copy has in common with what it copies.
use nautikus.Prelude.{
  ◌≡◌, refl, sym, ◌∙◌, ap, none, some, List, [], ◌∷◌, ◌++◌, map, length, All, All-imp, arith,
}
use mathlib.Core.Path.{subst}
use nautikus.DeepCopies.Memory.{
  Machinery, Address, TaskSpecObject, DagObject, Heap, read, copy_texts, copy_statuses,
  copy_task_spec, copy_elements, copy_specs, copy_dag_spec, copy_dag_status, copy_dag,
}
use nautikus.DeepCopies.Values.{
  Allocated, Fresh, Extends-refl, Allocated-Extends, Fresh-Extends, read-last, Allocated-last,
  Grows, Grows-refl, Grows-trans, Grows-Agrees, task_value, spec_value, status_value,
  IsTaskAllocated, IsAllocated, task_value-Agrees, task_values-Agrees, value-Agrees,
}

-- A copied array: it has the value of what is copied, and stands at a new address.
pub record ArrayCopied {A : Type 0} (a a' : Address) (xs ys : List (List A)) : Type 0 where
  pub value : read a' ys ≡ read a xs
  pub allocated : Allocated a' ys
  pub fresh : Fresh a' xs

array-copied :
    {A : Type 0} (a : Address) (xs : List (List A))
    → (zs : List A) → zs ≡ read a xs
    → ArrayCopied a (some (length xs)) xs (xs ++ zs ∷ [])
array-copied a xs zs same = record {
  value = read-last xs zs ∙ same;
  allocated = Allocated-last xs zs;
  fresh = omega arith;
}

module _ {M : Machinery} where
  copy_texts-copied :
      (a : Address) (h : Heap M)
      → let (a', h') = copy_texts a h in Grows h h' × ArrayCopied a a' h.texts h'.texts
  unfolding copy_texts
  copy_texts-copied none h = (Grows-refl h, record { value = refl; allocated = tt; fresh = tt })
  copy_texts-copied (some a) h = (
    record {
      texts = (_, refl);
      specs = Extends-refl h.specs;
      statuses = Extends-refl h.statuses;
      maps = refl;
    },
    array-copied (some a) h.texts (read (some a) h.texts) refl,
  )

  pub copy_statuses-copied :
      (a : Address) (h : Heap M)
      → let (a', h') = copy_statuses a h in Grows h h' × ArrayCopied a a' h.statuses h'.statuses
  unfolding copy_statuses
  copy_statuses-copied none h = (Grows-refl h, record { value = refl; allocated = tt; fresh = tt })
  copy_statuses-copied (some a) h = (
    record {
      texts = Extends-refl h.texts;
      specs = Extends-refl h.specs;
      statuses = (_, refl);
      maps = refl;
    },
    array-copied (some a) h.statuses (read (some a) h.statuses) refl,
  )

  copy_texts-specs : (a : Address) (h : Heap M) → (copy_texts a h).1.specs ≡ h.specs
  unfolding copy_texts
  copy_texts-specs none h = refl
  copy_texts-specs (some a) h = refl

  copy_texts-statuses : (a : Address) (h : Heap M) → (copy_texts a h).1.statuses ≡ h.statuses
  unfolding copy_texts
  copy_texts-statuses none h = refl
  copy_texts-statuses (some a) h = refl

  -- Copied tasks: they are worth what is copied, their dependencies stand at new addresses, and their
  -- maps are those of what is copied.
  abbrev pub TasksFresh : Heap M → List TaskSpecObject → List TaskSpecObject → Type 0
  TasksFresh h [] [] = Unit
  TasksFresh h (t ∷ ts) (t' ∷ ts') =
      (Fresh t'.dependencies h.texts) × (t'.env ≡ t.env) × TasksFresh h ts ts'
  TasksFresh h [] (_ ∷ _) = ⊥
  TasksFresh h (_ ∷ _) [] = ⊥

  record TasksCopied (ts ts' : List TaskSpecObject) (h h' : Heap M) : Type 0 where
    pub grows : Grows h h'
    pub same_specs : h'.specs ≡ h.specs
    pub same_statuses : h'.statuses ≡ h.statuses
    pub value : map (task_value h') ts' ≡ map (task_value h) ts
    pub allocated : All (IsTaskAllocated h') ts'
    pub fresh : TasksFresh h ts ts'

  TasksFresh-Grows :
      (h h1 : Heap M) (ts ts' : List TaskSpecObject)
      → Grows h h1
      → TasksFresh h1 ts ts'
      → TasksFresh h ts ts'
  TasksFresh-Grows h h1 [] [] g f = tt
  TasksFresh-Grows h h1 (t ∷ ts) (t' ∷ ts') g (fresh, env, rest) = (
    Fresh-Extends t'.dependencies h.texts h1.texts g.texts fresh,
    env,
    TasksFresh-Grows h h1 ts ts' g rest,
  )
  TasksFresh-Grows h h1 [] (_ ∷ _) g f = f
  TasksFresh-Grows h h1 (_ ∷ _) [] g f = f

  copy_task_specs-copied :
      (ts : List TaskSpecObject) (h : Heap M)
      → All (IsTaskAllocated h) ts
      → let (ts', h') = copy_elements copy_task_spec ts h in TasksCopied ts ts' h h'
  unfolding copy_elements copy_task_spec
  copy_task_specs-copied [] h here = record {
    grows = Grows-refl h;
    same_specs = refl;
    same_statuses = refl;
    value = refl;
    allocated = tt;
    fresh = tt;
  }
  copy_task_specs-copied (t ∷ ts) h here =
      let (a, h1) = copy_texts t.dependencies h in
      let (g, c) = copy_texts-copied t.dependencies h in
      let t' = record t { dependencies = a } in
      let (ts', h2) = copy_elements copy_task_spec ts h1 in
      let rest = copy_task_specs-copied ts h1 (
        All-imp (IsTaskAllocated h) (IsTaskAllocated h1)
          (λ u. Allocated-Extends u.dependencies h.texts h1.texts g.texts) ts here.1) in
      let head : task_value h1 t' ≡ task_value h t =
        λ i. record (task_value h t) { dependencies = c.value i; env = read t.env (g.maps i) } in
      record {
        grows = Grows-trans h h1 h2 g rest.grows;
        same_specs = rest.same_specs ∙ copy_texts-specs t.dependencies h;
        same_statuses = rest.same_statuses ∙ copy_texts-statuses t.dependencies h;
        value = λ i.
            (task_value-Agrees h1 h2 t' (Grows-Agrees h1 h2 rest.grows) c.allocated ∙ head) i
            ∷ (rest.value ∙ task_values-Agrees h h1 ts (Grows-Agrees h h1 g) here.1) i;
        allocated =
            (Allocated-Extends a h1.texts h2.texts rest.grows.texts c.allocated, rest.allocated);
        fresh = (c.fresh, refl, TasksFresh-Grows h h1 ts ts' g rest.fresh);
      }

  -- A copied Dag.
  pub record DagCopied (d d' : DagObject M) (h h' : Heap M) : Type 0 where
    pub grows : Grows h h'
    pub spec : spec_value h' d'.spec ≡ spec_value h d.spec
    pub status : status_value h' d'.status ≡ status_value h d.status
    pub fresh_tasks : Fresh d'.spec.tasks h.specs
    pub fresh_statuses : Fresh d'.status.task_statuses h.statuses
    pub tasks : TasksFresh h (read d.spec.tasks h.specs) (read d'.spec.tasks h'.specs)

  record SpecsCopied (a a' : Address) (h h' : Heap M) : Type 0 where
    pub grows : Grows h h'
    pub value : map (task_value h') (read a' h'.specs) ≡ map (task_value h) (read a h.specs)
    pub allocated : Allocated a' h'.specs
    pub fresh : Fresh a' h.specs
    pub tasks : TasksFresh h (read a h.specs) (read a' h'.specs)
    pub same_statuses : h'.statuses ≡ h.statuses

  copy_specs-copied :
      (a : Address) (h : Heap M)
      → All (IsTaskAllocated h) (read a h.specs)
      → let (a', h') = copy_specs a h in SpecsCopied a a' h h'
  unfolding copy_specs
  copy_specs-copied none h here = record {
    grows = Grows-refl h;
    value = refl;
    allocated = tt;
    fresh = tt;
    tasks = tt;
    same_statuses = refl;
  }
  copy_specs-copied (some a) h here =
      let (new, h1) = copy_elements copy_task_spec (read (some a) h.specs) h in
      let c = copy_task_specs-copied (read (some a) h.specs) h here in
      let last = read-last h1.specs new in
      record {
        grows = record {
          texts = c.grows.texts;
          specs = (new ∷ [], ap (λ l. l ++ new ∷ []) c.same_specs);
          statuses = c.grows.statuses;
          maps = c.grows.maps;
        };
        value = ap (λ l. map (task_value h1) l) last ∙ c.value;
        allocated = Allocated-last h1.specs new;
        fresh = omega (arith, ap length c.same_specs);
        tasks = subst (TasksFresh h (read (some a) h.specs)) (sym last) c.fresh;
        same_statuses = c.same_statuses;
      }

  copy_statuses-others :
      (a : Address) (h : Heap M)
      → let (_, h') = copy_statuses a h in
        (h'.texts ≡ h.texts) × (h'.specs ≡ h.specs) × (h'.maps ≡ h.maps)
  unfolding copy_statuses
  copy_statuses-others none h = (refl, refl, refl)
  copy_statuses-others (some a) h = (refl, refl, refl)

  pub copy_dag-copied :
      (d : DagObject M) (h : Heap M)
      → IsAllocated h d
      → let (d', h') = copy_dag d h in DagCopied d d' h h'
  unfolding copy_dag copy_dag_spec copy_dag_status
  copy_dag-copied d h here =
      let (a, h1) = copy_specs d.spec.tasks h in
      let c = copy_specs-copied d.spec.tasks h here.dependencies in
      let (b, h2) = copy_statuses d.status.task_statuses h1 in
      let (grows, array) = copy_statuses-copied d.status.task_statuses h1 in
      let (texts, specs, maps) = copy_statuses-others d.status.task_statuses h1 in
      record {
        grows = Grows-trans h h1 h2 c.grows grows;
        spec =
            (λ i.
              spec_value (record h1 { texts = texts i; specs = specs i; maps = maps i })
                (record { tasks = a }))
            ∙ ap (λ ts. record { tasks = ts }) c.value;
        status =
            ap (λ sts. record { state = d.status.state; task_statuses = sts })
              (array.value ∙ ap (read d.status.task_statuses) c.same_statuses);
        fresh_tasks = c.fresh;
        fresh_statuses = subst (Fresh b) c.same_statuses array.fresh;
        tasks =
            subst (λ l. TasksFresh h (read d.spec.tasks h.specs) (read a l)) (sym specs) c.tasks;
      }

  -- If the slices of a Dag and of its tasks are nil or allocated, then a deep copy of it has the same
  -- specification and the same status, and the Dag itself keeps both.
  pub copy_dag-Same :
      (d : DagObject M) (h : Heap M)
      → IsAllocated h d
      → let (d', h') = copy_dag d h in
        (spec_value h' d'.spec ≡ spec_value h d.spec)
        × (status_value h' d'.status ≡ status_value h d.status)
        × (spec_value h' d.spec ≡ spec_value h d.spec)
        × (status_value h' d.status ≡ status_value h d.status)
  copy_dag-Same d h here =
      let c = copy_dag-copied d h here in
      let (spec, status) =
        value-Agrees h (copy_dag d h).1 d (Grows-Agrees h (copy_dag d h).1 c.grows) here in
      (c.spec, c.status, spec, status)
