-- ===== src/Cluster/Served.antt =====
-- grpc-server/grpc_server.cpp with everything behind it: from the document of a request to the reply.
use distributed_task_dispatc.Prelude.{
  ℕ, ◌≤◌, ◌^◌, ◌≡◌, sym, ap, ◌∙◌, subst, true, false, List, none, some, String, Result, ok, length,
  get_last?, In, lookup, keys, Eq_nat, [],
}
use distributed_task_dispatc.Domain.{ExprResult}
use distributed_task_dispatc.Domain.Arith.{Reducer}
use distributed_task_dispatc.Expr.{Expr}
use distributed_task_dispatc.Expr.Json.{Json}
use distributed_task_dispatc.Expr.Json.RoundTrip.{one, to_json, Fits}
use distributed_task_dispatc.Expr.Traversal.{postorder, is_complete}
use distributed_task_dispatc.Dag.Library.{GraphLibrary}
use distributed_task_dispatc.Decomposition.Order.{Sorts}
use distributed_task_dispatc.Decomposition.Independent.{variable_of, is_constant}
use distributed_task_dispatc.Messages.{Task}
use distributed_task_dispatc.Database.{clear_intermediate_calculations, dyn_record_id, find_row}
use distributed_task_dispatc.Dispatch.{CalculationData, completed, Dispatcher, new_calculation}
use distributed_task_dispatc.Dispatch.Serving.{IsServing}
use distributed_task_dispatc.Manager.{accept_request, answer_request, to_reply}
use distributed_task_dispatc.Manager.Requests.{accept_request-starts}
use distributed_task_dispatc.System.{evaluate, static_value}
use distributed_task_dispatc.Cluster.{Cluster, Run, IsOther}
use distributed_task_dispatc.Cluster.Holds.{Holds}
use distributed_task_dispatc.Cluster.Correct.{routed_value}

module _ (lib : GraphLibrary) (sort : lib.Graph → Result (List ℕ)) (sorts : Sorts lib sort)
    (parse : String → Result Json) (request : String) (root : Expr) (fits : Fits root)
    (parsed : parse request ≡ ok (one "ast" (to_json root))) (complete : is_complete root ≡ true)
    (plain : (e : Expr) → In e (postorder root) → is_constant e ≡ false)
    (operation : variable_of root ≡ []) (r : Reducer) (m : Dispatcher lib sort)
    (serving : IsServing lib sort m) (unused : ¬ In m.next_problem_id (keys m.calculations))
    (unused_flag : ¬ In m.next_problem_id (keys m.sync)) where
  -- For every sort that meets `Sorts` and every order in which the standard library reduces: when the
  -- server has taken the document of a tree with 32-bit constants that has no null operand and no
  -- constant and is not a single variable, on a dispatcher whose problems are consistent and whose
  -- next number was not in use, and the cluster runs from the entry that this made, as in
  -- `routed_value`, with at most 2 ^ 32 distinct nodes, a store without values of the problem and
  -- only messages of others: once the task that the server waits for is computed, the tree has a
  -- value, and the server answers with it and clears the problem in the store.
  pub served_value :
      (m' : Dispatcher lib sort) (last : ℕ) (κ μ : Cluster lib sort)
      → accept_request lib sort parse m request ≡ ok (m', m.next_problem_id, last)
      → lookup m.next_problem_id m'.calculations ≡ some κ.entry
      → ((t : ℕ) → find_row (dyn_record_id m.next_problem_id t) κ.store.dynamic_data ≡ none)
      → Holds lib sort
          (λ (t : Task). IsOther m.next_problem_id t.id)
          (λ id. IsOther m.next_problem_id id)
          κ
      → length (lib.properties κ.entry.decompositor.graph) ≤ 2 ^ 32
      → Run lib sort r m.next_problem_id κ μ
      → lookup last μ.entry.processed_tasks_to_status ≡ some completed
      → (v : ExprResult) × (evaluate r (static_value κ.store) root ≡ ok v)
        × ((later : Dispatcher lib sort)
            → (answer_request lib sort later μ.store m.next_problem_id last).1
              ≡ ok (clear_intermediate_calculations μ.store m.next_problem_id, to_reply v))
  served_value m' last κ μ accepted there fresh foreign small run done =
      let (s, c, end, run', made, _, found, _, at_end, _) =
        accept_request-starts lib sort sorts parse m request root fits parsed complete plain serving
          unused unused_flag in
      let q : ok (s, m.next_problem_id, end) ≡ ok (m', m.next_problem_id, last) =
        sym run' ∙ accepted in
      let same : s ≡ m' = cc q in
      let same_end : end ≡ last = cc q in
      let both : some c ≡ some κ.entry =
        sym found
        ∙ ap (λ (z : Dispatcher lib sort). lookup m.next_problem_id z.calculations) same
        ∙ there in
      let entry : c ≡ κ.entry = cc both in
      let made' = subst (λ z. new_calculation lib sort root ≡ ok z) entry made in
      let last' : get_last? κ.entry.decompositor.tasks ≡ some last =
        subst (λ (z : CalculationData lib sort). get_last? z.decompositor.tasks ≡ some last) entry
          (at_end ∙ ap some same_end) in
      let (v, value, _, replies) =
        routed_value lib sort sorts root complete plain operation r m.next_problem_id κ fresh
          foreign made' small last last' μ run done in
      (v, value, replies)
