-- ===== src/Executor/Pod/Names.antt =====
-- The names of the pods.
use nautikus.Prelude.{◌≡◌, ◌∙◌, ap, String, ◌<>◌}
use text.Mathlib.TextLemmas.{append_assoc, append_cancel_left}
use nautikus.Executor.Pod.Defs.{get_pod_name}

-- Within a DAG the pod's name determines the task's name.
pub get_pod_name_injective :
    (dag_name t u : String) → get_pod_name dag_name t ≡ get_pod_name dag_name u → t ≡ u
unfolding get_pod_name
get_pod_name_injective dag_name t u e =
    append_cancel_left "-" t u (append_cancel_left dag_name ("-" <> t) ("-" <> u) e)

-- The pod's name does not determine the DAG: the task `c` of the DAG `a-b` has the pod name of the
-- task `b-c` of the DAG `a`.
pub get_pod_name_shared :
    (dag_name part task_name : String)
    → get_pod_name (dag_name <> ("-" <> part)) task_name
      ≡ get_pod_name dag_name (part <> ("-" <> task_name))
unfolding get_pod_name
get_pod_name_shared dag_name part task_name =
    append_assoc dag_name ("-" <> part) ("-" <> task_name)
    ∙ ap (λ s. dag_name <> s) (append_assoc "-" part ("-" <> task_name))
