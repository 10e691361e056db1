-- ===== src/Tests/Copies.antt =====
-- The theorems on deep copies.
use nautikus.Prelude.{map, ◌≡◌, refl, some, [], ◌∷◌, String, List, arith}
use nautikus.Api.{bash, running, pending, completed, TaskStatus}
use nautikus.DeepCopies.Memory.{
  Machinery, TaskSpecObject, DagObject, Heap, copy_dag, copy_dag_spec, copy_dag_status, copy_specs,
  copy_statuses, copy_elements, copy_task_spec, copy_texts,
}
use nautikus.DeepCopies.Values.{IsAllocated, spec_value, status_value, task_value}
use nautikus.DeepCopies.Copied.{copy_dag-Same}
use nautikus.DeepCopies.Apart.{
  Keeps, write_statuses, write_tasks, write_dependencies, write_env, copy_dag-Keeps,
  copy_dag-shares_env,
}
use nautikus.Tests.Samples.{entry}

abbrev machinery : Machinery
machinery = record {
  TypeMeta = Unit;
  ObjectMeta = String;
  ListMeta = Unit;
  copy_object_meta = λ m. m;
  copy_list_meta = λ m. m;
}

abbrev load_object : TaskSpecObject
load_object = record {
  name = "load";
  type = bash;
  dependencies = some 0;
  command = "load";
  script = "";
  image = "";
  env = some 0;
}

abbrev etl_object : DagObject machinery
etl_object = record {
  type_meta = tt;
  object_meta = "etl";
  spec = record { tasks = some 0 };
  status = record { state = running; task_statuses = some 0 };
}

abbrev etl_heap : Heap machinery
etl_heap = record {
  texts = ("extract" ∷ []) ∷ [];
  specs = (load_object ∷ []) ∷ [];
  statuses = (entry "load" pending ∷ []) ∷ [];
  dags = [];
  maps = (("LEVEL", "1") ∷ []) ∷ [];
}

etl_object-IsAllocated : IsAllocated etl_heap etl_object
etl_object-IsAllocated = record {
  tasks = omega arith;
  dependencies = (omega arith, tt);
  statuses = omega arith;
}

copy_dag-Same_example :
    let (d', h') = copy_dag etl_object etl_heap in
    (spec_value h' d'.spec ≡ spec_value etl_heap etl_object.spec)
    × (status_value h' d'.status ≡ status_value etl_heap etl_object.status)
    × (spec_value h' etl_object.spec ≡ spec_value etl_heap etl_object.spec)
    × (status_value h' etl_object.status ≡ status_value etl_heap etl_object.status)
copy_dag-Same_example = copy_dag-Same etl_object etl_heap etl_object-IsAllocated

finish_all : List TaskStatus → List TaskStatus
finish_all sts = map (λ (ts : TaskStatus). record ts { state = completed }) sts

copy_dag-Keeps_example :
    let (d', h') = copy_dag etl_object etl_heap in
    Keeps etl_object etl_heap (write_statuses d' finish_all h')
    × Keeps etl_object etl_heap (write_tasks d' (λ _. []) h')
    × Keeps etl_object etl_heap (write_dependencies d' 0 (λ _. "other" ∷ []) h')
copy_dag-Keeps_example =
    copy_dag-Keeps etl_object etl_heap finish_all (λ _. []) 0 (λ _. "other" ∷ [])
      etl_object-IsAllocated

copy_dag-shares_env_example :
    (task_value
      (write_env
        (record load_object { dependencies = some 1 })
        (λ _. [])
        (copy_dag etl_object etl_heap).1)
      load_object).env
    ≡ []
unfolding copy_dag copy_dag_spec copy_dag_status copy_specs copy_statuses copy_elements
    copy_task_spec copy_texts
copy_dag-shares_env_example =
    copy_dag-shares_env etl_object etl_heap 0 0 load_object
      (record load_object { dependencies = some 1 }) (("LEVEL", "1") ∷ []) (λ _. [])
      etl_object-IsAllocated refl refl refl refl
