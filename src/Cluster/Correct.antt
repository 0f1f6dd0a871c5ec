-- ===== src/Cluster/Correct.antt =====
-- Whole calculations through the broker, from the start of a problem to the reply.
use distributed_task_dispatc.Prelude.{
  inr, ℕ, ◌≤◌, ◌^◌, ◌≡◌, true, false, List, [], none, some, Result, ok, length, get_last?, In,
  lookup, Eq_nat,
}
use distributed_task_dispatc.Domain.{ExprResult}
use distributed_task_dispatc.Domain.Arith.{Reducer}
use distributed_task_dispatc.Expr.{Expr}
use distributed_task_dispatc.Expr.Traversal.{postorder, is_complete}
use distributed_task_dispatc.Dag.Library.{GraphLibrary}
use distributed_task_dispatc.Decomposition.Order.{Sorts}
use distributed_task_dispatc.Decomposition.Independent.{variable_of, is_constant}
use distributed_task_dispatc.Messages.{Task}
use distributed_task_dispatc.Database.{
  clear_intermediate_calculations, dyn_id, dyn_record_id, find_row, read_data,
}
use distributed_task_dispatc.Dispatch.{completed, Dispatcher, new_calculation}
use distributed_task_dispatc.Manager.{answer_request, to_reply}
use distributed_task_dispatc.System.{evaluate, static_value}
use distributed_task_dispatc.System.Correct.{making, made-Coherent, Coherent-correct}
use distributed_task_dispatc.Cluster.{Cluster, Run, IsOther}
use distributed_task_dispatc.Cluster.Holds.{Holds, Holds-imply}
use distributed_task_dispatc.Cluster.Explained.{Asked, Replied, IsExplained}
use distributed_task_dispatc.Cluster.Steps.{Run-IsExplained}

module _ (lib : GraphLibrary) (sort : lib.Graph → Result (List ℕ)) (sorts : Sorts lib sort)
    (root : Expr) (complete : is_complete root ≡ true)
    (plain : (e : Expr) → In e (postorder root) → is_constant e ≡ false)
    (operation : variable_of root ≡ []) (r : Reducer) (problem_id : ℕ) (κ : Cluster lib sort)
    (fresh : (t : ℕ) → find_row (dyn_record_id problem_id t) κ.store.dynamic_data ≡ none)
    (foreign : Holds lib sort
      (λ (t : Task). IsOther problem_id t.id)
      (λ id. IsOther problem_id id)
      κ)
    (made : new_calculation lib sort root ≡ ok κ.entry)
    (small : length (lib.properties κ.entry.decompositor.graph) ≤ 2 ^ 32) (last : ℕ)
    (at_end : get_last? κ.entry.decompositor.tasks ≡ some last) where
  -- For every sort that meets `Sorts`, every order in which the standard library reduces, and every
  -- tree without null operands and constants that is not a single variable and has at most 2 ^ 32
  -- distinct nodes; for every broker, workers and connections that hold only messages of other
  -- problems when the problem starts, and every store without values of the problem; for every
  -- order of the steps of dispatcher, broker and workers, with workers that join, requests that the
  -- socket does not take, messages that a subscription loses, and tasks of other problems: whenever
  -- the last task is computed, the tree has a value, and the manager replies with it and clears the
  -- problem in the store.
  pub routed_value :
      (μ : Cluster lib sort)
      → Run lib sort r problem_id κ μ
      → lookup last μ.entry.processed_tasks_to_status ≡ some completed
      → (v : ExprResult) × (evaluate r (static_value κ.store) root ≡ ok v)
        × (read_data μ.store (dyn_id (dyn_record_id problem_id last)) ≡ ok v)
        × ((m : Dispatcher lib sort)
            → (answer_request lib sort m μ.store problem_id last).1
              ≡ ok (clear_intermediate_calculations μ.store problem_id, to_reply v))
  routed_value μ run done =
      let F = IsOther problem_id in
      let m =
        making lib sort sorts root complete plain operation r problem_id κ.store fresh κ.entry made
          small last at_end in
      let start : IsExplained lib sort root m.d m.h r (static_value κ.store) problem_id complete
          plain m.bound F (λ id f. f) κ =
        record {
          sent = [];
          answered = [];
          coherent =
              made-Coherent lib sort sorts root complete plain operation r problem_id κ.store fresh
                κ.entry made small last at_end;
          holds =
              Holds-imply lib sort (λ (t : Task). F t.id) (Asked F []) F (Replied F []) κ (λ t. inr)
                (λ id. inr) foreign;
        } in
      let x =
        Run-IsExplained lib sort root m.d m.h r (static_value κ.store) problem_id complete plain
          m.bound F (λ id f. f) (λ id f. f) κ μ run start in
      Coherent-correct lib sort sorts root complete plain operation r problem_id κ.store fresh
        κ.entry made small last at_end _ x.coherent done
