-- ===== src/Tests/Requests.antt =====
-- Requests to the manager, and lines of the log.
use distributed_task_dispatc.Prelude.{
  ◌&&◌, ℕ, List, if◌then◌else◌, ◌==◌, arith, ◌≡◌, ◌≢◌, refl, ap, inl, inr, false, [], ◌∷◌, String,
  Result, ok, err, some, true, bad_deref, logic_error, In, get_last?, lookup, keys, Eq_nat,
}
use distributed_task_dispatc.Prelude.Int.{pos}
use distributed_task_dispatc.Domain.{of_scalar}
use distributed_task_dispatc.Expr.{
  Expr, ptr, nullptr, scalar_op, map_op, list, scalar_const, ScalarOpType, MapType,
}
use distributed_task_dispatc.Expr.Traversal.{postorder}
use distributed_task_dispatc.Expr.Json.{Json, from_json}
use distributed_task_dispatc.Expr.Json.RoundTrip.{one, to_json, from_json-to_json}
use distributed_task_dispatc.Messages.{uint32, TaskId, Task}
use distributed_task_dispatc.Decomposition.Independent.{is_constant}
use distributed_task_dispatc.Database.{
  Store, dyn_id, dyn_record_id, read_data, read_data_impl, find_row, to_field, of_field, call,
}
use distributed_task_dispatc.Dispatch.{new_calculation, completed, CalculationData, Dispatcher}
use distributed_task_dispatc.Dispatch.Serving.{IsServing}
use distributed_task_dispatc.Manager.{run_dispatcher, accept_request, answer_request, to_reply}
use distributed_task_dispatc.Manager.Replies.{is_last}
use distributed_task_dispatc.Manager.Entries.{run_dispatcher-entry}
use distributed_task_dispatc.Dispatch.Completion.{answer}
use distributed_task_dispatc.Dispatch.{send_problem}
use distributed_task_dispatc.Manager.Rounds.{run_dispatcher-IsServing}
use distributed_task_dispatc.Manager.Requests.{
  accept_request-starts, accept_request-incomplete, answer_request-returns,
}
use distributed_task_dispatc.Tests.{list_graph, range_sort, range-Sorts, total_of_list}
use distributed_task_dispatc.Tests.Dispatching.{c, inv, sent}
use distributed_task_dispatc.Tests.Serving.{serving_one, one-IsServing, reply, reply-IsOutstanding}

-- A parser that gives the document of a tree for every text.
abbrev pub parse_as : Expr → String → Result Json
parse_as e text = ok (one "ast" (to_json e))

-- `2 + 3`.
abbrev two_plus_three : Expr
two_plus_three =
    scalar_op ScalarOpType.add (ptr (scalar_const (pos 2))) (ptr (scalar_const (pos 3)))

from_json-to_json_example : from_json (parse_as two_plus_three) "{}" ≡ ok two_plus_three
from_json-to_json_example =
    from_json-to_json (parse_as two_plus_three) "{}" two_plus_three (omega arith, omega arith) refl

-- `L + ?`.
abbrev without_operand : Expr
without_operand = map_op MapType.add (ptr (list "L")) nullptr

accept_request-incomplete_example :
    (from_json (parse_as without_operand) "{}" ≡ ok without_operand)
    × (accept_request list_graph range_sort (parse_as without_operand) (serving_one c) "{}"
        ≡ err bad_deref)
accept_request-incomplete_example =
    accept_request-incomplete list_graph range_sort (parse_as without_operand) (serving_one c) "{}"
      without_operand (tt, tt) refl refl

pub variables_only : (e : Expr) → In e (postorder total_of_list) → is_constant e ≡ false
variables_only e (inl q) = ap is_constant q
variables_only e (inr (inl q)) = ap is_constant q
variables_only e (inr (inr i)) = absurd i

accept_request-starts_example :
    (s' : Dispatcher list_graph range_sort) × (c' : CalculationData list_graph range_sort)
    × (last : ℕ) × (accept_request list_graph range_sort
          (parse_as total_of_list)
          (serving_one c)
          "{}"
        ≡ ok (s', 1, last))
    × (new_calculation list_graph range_sort total_of_list ≡ ok c')
    × IsServing list_graph range_sort s'
    × (lookup 1 s'.calculations ≡ some c')
    × (lookup 1 s'.sync ≡ some false)
    × (get_last? c'.decompositor.tasks ≡ some last)
    × ((j : ℕ) → j ≢ 1 → lookup j s'.calculations ≡ lookup j (serving_one c).calculations)
accept_request-starts_example =
    accept_request-starts list_graph range_sort range-Sorts (parse_as total_of_list) (serving_one c)
      "{}" total_of_list tt refl refl variables_only (one-IsServing c inv)
      (λ i. elim i [ inl q ↦ absurd (omega arith) | inr z ↦ z ])
      (λ i. elim i [ inl q ↦ absurd (omega arith) | inr z ↦ z ])

abbrev with_result : Store
with_result = record {
  dynamic_data = (dyn_record_id 0 1, to_field (of_scalar (pos 7))) ∷ [];
  static_data = [];
}

result_there : read_data with_result (dyn_id (dyn_record_id 0 1)) ≡ ok (of_scalar (pos 7))
unfolding read_data read_data_impl find_row to_field of_field call
result_there = refl

answer_request-returns_example :
    (s' : Dispatcher list_graph range_sort) × (store' : Store) × (answer_request list_graph
        range_sort
        (serving_one c)
        with_result
        0
        1
      ≡ (s', ok (store', to_reply (of_scalar (pos 7)))))
    × IsServing list_graph range_sort s'
    × (¬ In 0 (keys s'.calculations))
    × ((j : ℕ) → j ≢ 0 → lookup j s'.calculations ≡ lookup j (serving_one c).calculations)
    × ((t : ℕ) → read_data store' (dyn_id (dyn_record_id 0 t)) ≡ err logic_error)
    × ((k : TaskId)
        → k.problem_id ≢ uint32 0
        → read_data store' (dyn_id k) ≡ read_data with_result (dyn_id k))
    × (store'.static_data ≡ [])
answer_request-returns_example =
    answer_request-returns list_graph range_sort (serving_one c) with_result 0 1 (of_scalar (pos 7))
      (one-IsServing c inv) result_there

-- The round with the reply.
abbrev replied_round :
    (requests : List Task) × (s' : Dispatcher list_graph range_sort) × (e : CalculationData
      list_graph range_sort)
    × (run_dispatcher list_graph range_sort (serving_one sent.1) true (some reply)
        ≡ ok (requests, s'))
    × IsServing list_graph range_sort s'
    × (lookup 0 s'.calculations ≡ some e)
    × (lookup 1 e.processed_tasks_to_status ≡ some completed)
replied_round =
    (run_dispatcher-IsServing list_graph range_sort (serving_one sent.1) reply
      (one-IsServing sent.1 sent.4) reply-IsOutstanding).1

entry_found : lookup 0 (serving_one sent.1).calculations ≡ some sent.1
unfolding lookup
entry_found = refl

run_dispatcher-entry_example :
    (more : List Task) × (c₁ : CalculationData list_graph range_sort) × (c₂ : CalculationData
      list_graph range_sort)
    × (send_problem list_graph range_sort 0 sent.1 ≡ ok (more, c₁))
    × ((t : Task) → In t more → In t replied_round.0)
    × ((if 0 == 0 then answer list_graph range_sort c₁ 1 else ok c₁) ≡ ok c₂)
    × (lookup 0 replied_round.1.calculations ≡ some c₂)
    × (lookup 0 replied_round.1.sync ≡ (
        if 0 == 0 && is_last list_graph range_sort c₁ 1
        then some true
        else lookup 0 (serving_one sent.1).sync))
run_dispatcher-entry_example =
    run_dispatcher-entry list_graph range_sort (serving_one sent.1) replied_round.1 replied_round.0
      reply 0 sent.1 replied_round.3 entry_found
