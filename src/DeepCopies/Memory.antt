-- ===== src/DeepCopies/Memory.antt =====
-- api/v1/zz_generated.deepcopy.go. A slice or a map is nil or an address in the heap; a slice is its whole
-- array. `ObjectMeta`, `ListMeta` and `TypeMeta` and the copies of the first two are the API machinery's.
use nautikus.Prelude.{ℕ, String, Option, none, some, List, [], ◌∷◌, ◌++◌, length, get_elem?}
use nautikus.Prelude.Dict.{Dict}
use nautikus.Api.{TaskType, TaskState, TaskStatus}

-- The objects of the API machinery, which hold no address of the model's heap.
pub record Machinery : Type 1 where
  pub TypeMeta : Type 0
  pub ObjectMeta : Type 0
  pub ListMeta : Type 0
  pub copy_object_meta : ObjectMeta → ObjectMeta
  pub copy_list_meta : ListMeta → ListMeta

-- `none` is nil.
abbrev pub Address : Type 0
Address = Option ℕ

pub record TaskSpecObject : Type 0 where
  pub name : String
  pub type : TaskType
  pub dependencies : Address
  pub command : String
  pub script : String
  pub image : String
  pub env : Address

pub record DagSpecObject : Type 0 where
  pub tasks : Address

pub record DagStatusObject : Type 0 where
  pub state : TaskState
  pub task_statuses : Address

pub record DagObject (M : Machinery) : Type 0 where
  pub type_meta : M.TypeMeta
  pub object_meta : M.ObjectMeta
  pub spec : DagSpecObject
  pub status : DagStatusObject

pub record DagListObject (M : Machinery) : Type 0 where
  pub type_meta : M.TypeMeta
  pub list_meta : M.ListMeta
  pub items : Address

-- The arrays by the type of their elements, and the maps.
pub record Heap (M : Machinery) : Type 0 where
  pub texts : List (List String)
  pub specs : List (List TaskSpecObject)
  pub statuses : List (List TaskStatus)
  pub dags : List (List (DagObject M))
  pub maps : List (Dict String String)

-- The array at an address. There is none at nil, where it reads as an array without elements.
abbrev pub read : {A : Type 0} → Address → List (List A) → List A
read none arrays = []
read (some a) arrays = elim (get_elem? arrays a) [ none ↦ [] | some xs ↦ xs ]

module _ {M : Machinery} where
  -- `copy(*out, *in)` into a new array.
  unfoldable pub copy_texts : Address → Heap M → Address × Heap M
  copy_texts none h = (none, h)
  copy_texts (some a) h =
      (some (length h.texts), record h { texts = h.texts ++ read (some a) h.texts ∷ [] })

  unfoldable pub copy_statuses : Address → Heap M → Address × Heap M
  copy_statuses none h = (none, h)
  copy_statuses (some a) h = (
    some (length h.statuses),
    record h { statuses = h.statuses ++ read (some a) h.statuses ∷ [] },
  )

  -- `DeepCopyInto` of a `TaskSpec`. The map `Env` is only assigned.
  unfoldable pub copy_task_spec : TaskSpecObject → Heap M → TaskSpecObject × Heap M
  copy_task_spec t h =
      let (dependencies, h1) = copy_texts t.dependencies h in
      (record t { dependencies = dependencies }, h1)

  -- `DeepCopyInto` of a `TaskStatus`.
  abbrev pub copy_task_status : TaskStatus → Heap M → TaskStatus × Heap M
  copy_task_status ts h = (ts, h)

  -- The loop over the elements of a slice, with the copy of an element.
  unfoldable pub copy_elements :
      {A : Type 0} → (A → Heap M → A × Heap M) → List A → Heap M → List A × Heap M
  copy_elements copy [] h = ([], h)
  copy_elements copy (x ∷ xs) h =
      let (y, h1) = copy x h in let (ys, h2) = copy_elements copy xs h1 in (y ∷ ys, h2)

  -- The new array of a slice is at its address from `make` on, and filled by the loop, which neither
  -- reads it nor makes another array of this type.
  unfoldable pub copy_specs : Address → Heap M → Address × Heap M
  copy_specs none h = (none, h)
  copy_specs (some a) h =
      let (new, h1) = copy_elements copy_task_spec (read (some a) h.specs) h in
      (some (length h1.specs), record h1 { specs = h1.specs ++ new ∷ [] })

  unfoldable pub copy_dag_spec : DagSpecObject → Heap M → DagSpecObject × Heap M
  copy_dag_spec s h = let (tasks, h1) = copy_specs s.tasks h in (record { tasks = tasks }, h1)

  unfoldable pub copy_dag_status : DagStatusObject → Heap M → DagStatusObject × Heap M
  copy_dag_status s h =
      let (task_statuses, h1) = copy_statuses s.task_statuses h in
      (record s { task_statuses = task_statuses }, h1)

  unfoldable pub copy_dag : DagObject M → Heap M → DagObject M × Heap M
  copy_dag d h =
      let (spec, h1) = copy_dag_spec d.spec h in
      let (status, h2) = copy_dag_status d.status h1 in
      (
        record d { object_meta = M.copy_object_meta d.object_meta; spec = spec; status = status },
        h2,
      )

  unfoldable pub copy_dags : Address → Heap M → Address × Heap M
  copy_dags none h = (none, h)
  copy_dags (some a) h =
      let (new, h1) = copy_elements copy_dag (read (some a) h.dags) h in
      (some (length h1.dags), record h1 { dags = h1.dags ++ new ∷ [] })

  unfoldable pub copy_dag_list : DagListObject M → Heap M → DagListObject M × Heap M
  copy_dag_list l h =
      let (items, h1) = copy_dags l.items h in
      (record l { list_meta = M.copy_list_meta l.list_meta; items = items }, h1)

  -- `DeepCopy` of a pointer, which may be nil.
  abbrev pub deep_copy :
      {A : Type 0} → (A → Heap M → A × Heap M) → Option A → Heap M → Option A × Heap M
  deep_copy copy none h = (none, h)
  deep_copy copy (some x) h = let (y, h1) = copy x h in (some y, h1)

  abbrev pub deep_copy_task_spec : Option TaskSpecObject → Heap M → Option TaskSpecObject × Heap M
  deep_copy_task_spec = deep_copy copy_task_spec

  abbrev pub deep_copy_task_status : Option TaskStatus → Heap M → Option TaskStatus × Heap M
  deep_copy_task_status = deep_copy copy_task_status

  abbrev pub deep_copy_dag_spec : Option DagSpecObject → Heap M → Option DagSpecObject × Heap M
  deep_copy_dag_spec = deep_copy copy_dag_spec

  abbrev pub deep_copy_dag_status :
      Option DagStatusObject → Heap M → Option DagStatusObject × Heap M
  deep_copy_dag_status = deep_copy copy_dag_status

  abbrev pub deep_copy_dag : Option (DagObject M) → Heap M → Option (DagObject M) × Heap M
  deep_copy_dag = deep_copy copy_dag

  abbrev pub deep_copy_dag_list :
      Option (DagListObject M) → Heap M → Option (DagListObject M) × Heap M
  deep_copy_dag_list = deep_copy copy_dag_list

  -- `DeepCopyObject`: an interface that is nil for a pointer that is nil.
  abbrev pub object_of : {A : Type 0} → Option A × Heap M → Option A × Heap M
  object_of (none, h) = (none, h)
  object_of (some c, h) = (some c, h)

  abbrev pub deep_copy_object_dag : Option (DagObject M) → Heap M → Option (DagObject M) × Heap M
  deep_copy_object_dag d h = object_of (deep_copy_dag d h)

  abbrev pub deep_copy_object_dag_list :
      Option (DagListObject M) → Heap M → Option (DagListObject M) × Heap M
  deep_copy_object_dag_list l h = object_of (deep_copy_dag_list l h)
