-- ===== src/Tests/Operators.antt =====
-- The theorems on the running operator.
use nautikus.Prelude.{
  ap, string_dec, ◌≡◌, refl, sym, ◌∙◌, inl, inr, none, some, [], if-eq_self, if-eq_other,
  if◌then◌else◌, ◌==◌,
}
use mathlib.Core.Path.{subst}
use mathlib.Core.Option.{some-injective}
use nautikus.Prelude.Dict
use nautikus.Api.{Dag}
use nautikus.Kube.{NamespacedName, NamespacedName-discrete, namespaced_name_eq}
use nautikus.Kube.Dags.{dag_key}
use nautikus.Kube.Memory.{memory, memory_server, memory_dags}
use nautikus.Scheduler.{new_scheduler}
use nautikus.Controller.{World, reconcile}
use nautikus.Controller.Reads.{set_up}
use nautikus.Controller.Stored.{Leaves, reconcile-Leaves}
use nautikus.Controller.Safe.{IsSafe}
use nautikus.Operator.{Others, Step, Reachable, limit, stored-IsSafe}
use nautikus.Operator.History.{Undisturbed, Kept, stored-Kept}
use nautikus.Tests.Samples.{in_order, two_slots, fresh, etl_names}
use nautikus.Tests.Lives.{
  round, created, round1, round2, etl1, etl2, stored, round1_lem, round2_lem,
}

fresh_lem : (k : NamespacedName) → Others k none (memory_server.dag_at k created.cluster)
unfolding memory_server memory_dags
fresh_lem k = elim (NamespacedName-discrete (dag_key fresh) k) [
  | yes same ↦ inr (
      inr (
        fresh,
        Dict.lookup-cons (dag_key fresh) k fresh []
            ∙ subst
                (λ j. (if dag_key fresh == j then some fresh else Dict.lookup j []) ≡ some fresh)
                same (if-eq_self (dag_key fresh) (some fresh) (Dict.lookup (dag_key fresh) [])),
        record { key = same; distinct = etl_names; entries = refl; state = refl },
      ))
  | no other ↦ inl (
      Dict.lookup-cons (dag_key fresh) k fresh []
      ∙ if-eq_other (dag_key fresh) k (some fresh) (Dict.lookup k []) other
      ∙ Dict.lookup-nil k)
]

-- The pods have succeeded, and nothing has happened to the Dags.
round_lem :
    (w : World memory)
    → Reachable memory_server in_order two_slots w
    → Reachable memory_server in_order two_slots (round w)
unfolding memory_server memory_dags
round_lem w reached =
    let w1 = (reconcile (set_up memory in_order) (dag_key fresh) w).1 in
    Reachable.later w1 (Reachable.later w reached (Step.reconciled (dag_key fresh) w))
      (Step.others w1 (round w).cluster (λ k. inl refl))

created_lem : Reachable memory_server in_order two_slots created
unfolding new_scheduler
created_lem = Reachable.start created.cluster fresh_lem

stored-IsSafe_example : IsSafe (limit two_slots) etl2
unfolding stored memory_server memory_dags
stored-IsSafe_example =
    stored-IsSafe memory_server in_order two_slots round2 (dag_key fresh) etl2
      (round_lem round1 (round_lem created created_lem)) round2_lem.0

created_named :
    (d : Dag)
    → memory_server.dag_at (dag_key fresh) created.cluster ≡ some d
    → dag_key d ≡ dag_key fresh
unfolding memory_server memory_dags Dict.lookup NamespacedName-discrete string_dec
created_named d e = ap dag_key (sym (some-injective fresh d e))

reconcile-Leaves_example :
    Leaves memory_server in_order
      (dag_key fresh)
      (dag_key fresh)
      created
      (reconcile (set_up memory in_order) (dag_key fresh) created).1
unfolding memory_server memory_dags
reconcile-Leaves_example =
    reconcile-Leaves memory_server in_order (dag_key fresh) created created_named (dag_key fresh)

stored-Kept_example : Kept memory_server in_order two_slots (dag_key fresh) etl1 round2
unfolding stored memory_server memory_dags
stored-Kept_example =
    let w1 = (reconcile (set_up memory in_order) (dag_key fresh) round1).1 in
    stored-Kept memory_server in_order two_slots (dag_key fresh) etl1 round1 round2
      (round_lem created created_lem) round1_lem.0
      (Undisturbed.others w1 round2.cluster
        (Undisturbed.reconciled (dag_key fresh) round1 Undisturbed.here) refl
        (Step.others w1 round2.cluster (λ k. inl refl)))
