-- ===== src/Tests/Calculating/Truncated.antt =====
-- A problem whose number does not fit into the messages.
use distributed_task_dispatc.Prelude.{
  ◌+◌, ◌^◌, ◌≡◌, refl, ◌⊎◌, inl, false, [], ◌∷◌, none, some, ok, err, Fault, out_of_range, arith,
  lookup, assign, emplace, Eq_nat,
}
use distributed_task_dispatc.Domain.{type_index}
use distributed_task_dispatc.Expr.{
  postorder_traverse, expr_eq, get_lhs, get_rhs, get_type, get_data,
}
use distributed_task_dispatc.Expr.Equality.{equals}
use distributed_task_dispatc.Dag.{build_graph, visit, find_index, find_if}
use distributed_task_dispatc.Decomposition.{
  new, get_independent_tasks, is_independent, get_variable_id, get_computable_tasks, is_computable,
  contains, all_of, get_operation_type,
}
use distributed_task_dispatc.Dispatch.{
  Dispatcher, new_calculation, send_problem, send_loop, form_task_request, form_operand,
  complete_independent, update_computable_tasks,
}
use distributed_task_dispatc.Dispatch.Truncated.{LeavesAlone, truncated_reply-lost}
use distributed_task_dispatc.Tests.{list_graph, range_sort, up_to}
use distributed_task_dispatc.Tests.Calculating.{Entry, first, after_send, request}

-- A problem numbered 2 ^ 32 sends requests under the number 0.
sends_large : send_problem list_graph range_sort (2 ^ 32) first ≡ ok (request ∷ [], after_send.1)
unfolding send_problem send_loop form_task_request form_operand get_operation_type new_calculation
    new postorder_traverse build_graph visit find_index find_if equals expr_eq get_lhs get_rhs
    get_independent_tasks up_to is_independent get_type get_variable_id get_data
    complete_independent get_computable_tasks emplace is_computable contains all_of type_index
    lookup assign
sends_large = refl

abbrev only_large : Dispatcher list_graph range_sort
only_large = record {
  calculations = (2 ^ 32, after_send.1) ∷ [];
  sync = (2 ^ 32, false) ∷ [];
  next_problem_id = 2 ^ 32 + 1;
}

truncated_reply-lost_example :
    (request.id.problem_id ≡ 0)
    × (((lookup 0 only_large.calculations ≡ none)
          × (update_computable_tasks list_graph range_sort only_large (some request.id)
              ≡ err out_of_range))
        ⊎ ((other : Entry) × (lookup 0 only_large.calculations ≡ some other)
            × (((f : Fault) × (update_computable_tasks list_graph range_sort only_large
                      (some request.id)
                    ≡ err f))
                ⊎ ((m' : Dispatcher list_graph range_sort) × (update_computable_tasks list_graph
                        range_sort only_large
                        (some request.id)
                      ≡ ok m')
                    × LeavesAlone list_graph range_sort (2 ^ 32) only_large m'))))
truncated_reply-lost_example =
    truncated_reply-lost list_graph range_sort (2 ^ 32) first after_send.1 (request ∷ []) request
      only_large (omega arith) sends_large (inl refl)

large_test :
    update_computable_tasks list_graph range_sort only_large (some request.id) ≡ err out_of_range
unfolding update_computable_tasks lookup
large_test = refl
