-- ===== src/Tests/Calculating.antt =====
-- A whole calculation of `Sum(L)`: the problem is sent, a worker calculates, the reply comes.
mod Routed
mod Truncated
use distributed_task_dispatc.Prelude.{
  err, logic_error, ℕ, ◌*◌, ◌≤◌, ◌^◌, ◌≡◌, ◌≢◌, refl, ◌⊎◌, List, [], ◌∷◌, none, some, Result, ok,
  err, arith, length, lookup, assign, emplace, Eq_nat, get_last?,
}
use distributed_task_dispatc.Prelude.Int.{pos, ◌+ℤ◌}
use distributed_task_dispatc.Domain.{ExprResult, of_list, of_scalar, type_index, expr_type_of}
use distributed_task_dispatc.Domain.Arith.{sum_list, run_plan, sum_scalars, checked}
use distributed_task_dispatc.Expr.{
  postorder_traverse, expr_eq, get_lhs, get_rhs, get_type, get_data,
}
use distributed_task_dispatc.Dag.{build_graph, visit, find_index, find_if}
use distributed_task_dispatc.Expr.Equality.{equals}
use distributed_task_dispatc.Messages.{Task, static_operand}
use distributed_task_dispatc.Decomposition.{
  new, get_independent_tasks, is_independent, get_variable_id, get_computable_tasks, is_computable,
  contains, all_of, get_operation_type,
}
use distributed_task_dispatc.Database.{
  Store, dyn_id, dyn_record_id, read_data, read_data_impl, find_row, to_field, of_field, call,
  write_dynamic_data, write_dynamic_data_impl,
}
use distributed_task_dispatc.Dispatch.{
  completed, CalculationData, new_calculation, send_problem, send_loop, form_task_request,
  form_operand, complete_independent, complete_last,
}
use distributed_task_dispatc.Dispatch.Completion.{answer}
use distributed_task_dispatc.Worker.{
  calculate_task, calculate_task_impl, extract_operands, calculate, get_list, get_scalar,
}
use distributed_task_dispatc.System.{System, Step, Run, initially, evaluate, static_value}
use distributed_task_dispatc.Dispatch.{Dispatcher}
use distributed_task_dispatc.Messages.{uint32}
use distributed_task_dispatc.Database.{
  clear_intermediate_calculations, clear_intermediate_calculations_impl, delete_problem,
}
use distributed_task_dispatc.Manager.{answer_request, to_reply}
use distributed_task_dispatc.System.Correct.{Run-fault, Run-correct, Run-terminates}
use distributed_task_dispatc.Tests.{list_graph, range_sort, range-Sorts, up_to, total_of_list}
use distributed_task_dispatc.Tests.Values.{from_right, sample}
use distributed_task_dispatc.Tests.Requests.{variables_only}

abbrev Entry : Type 0
Entry = CalculationData list_graph range_sort

-- What an example returns.
abbrev entry_of : Result Entry → Entry
entry_of (ok e) = e
entry_of (err f) = record {
  decompositor = record { graph = list_graph.empty; tasks = [] };
  processed_tasks_to_status = [];
  task_to_variable_id = [];
  computable_task_to_dependencies = [];
}

abbrev first : Entry
first = entry_of (new_calculation list_graph range_sort total_of_list)

made : new_calculation list_graph range_sort total_of_list ≡ ok first
unfolding new_calculation new postorder_traverse build_graph visit find_index find_if equals expr_eq
    get_lhs get_rhs get_independent_tasks up_to is_independent get_type get_variable_id get_data
    complete_independent get_computable_tasks emplace is_computable contains all_of
made = refl

abbrev requests_of : Result (List Task × Entry) → List Task × Entry
requests_of (ok p) = p
requests_of (err f) = ([], first)

abbrev after_send : List Task × Entry
after_send = requests_of (send_problem list_graph range_sort 0 first)

abbrev request : Task
request = record {
  id = record { problem_id = 0; task_id = 1 };
  operation_type = 4;
  operands = static_operand "L" ∷ [];
}

sends : send_problem list_graph range_sort 0 first ≡ ok (request ∷ [], after_send.1)
unfolding send_problem send_loop form_task_request form_operand get_operation_type new_calculation
    new postorder_traverse build_graph visit find_index find_if equals expr_eq get_lhs get_rhs
    get_independent_tasks up_to is_independent get_type get_variable_id get_data
    complete_independent get_computable_tasks emplace is_computable contains all_of type_index
    lookup assign
sends = refl

-- The list `L` is 3, -2, 4.
abbrev store : Store
store = record { dynamic_data = []; static_data = ("L", to_field (of_list sample)) ∷ [] }

abbrev result_store : Store
result_store = record store {
  dynamic_data = (dyn_record_id 0 1, to_field (of_scalar (pos 5))) ∷ [];
}

calculates :
    calculate_task from_right store (record { identity = "w"; task = request })
    ≡ ok (result_store, record { identity = "w"; id = request.id })
unfolding calculate_task calculate_task_impl extract_operands calculate get_list get_scalar
    read_data read_data_impl of_field to_field call lookup write_dynamic_data
    write_dynamic_data_impl find_row expr_type_of sum_list run_plan sum_scalars checked ◌+ℤ◌
calculates = refl

abbrev last_entry : Entry
last_entry = entry_of (answer list_graph range_sort after_send.1 1)

answers : answer list_graph range_sort after_send.1 1 ≡ ok last_entry
unfolding complete_last send_problem send_loop form_task_request form_operand get_operation_type
    new_calculation new postorder_traverse build_graph visit find_index find_if equals expr_eq
    get_lhs get_rhs get_independent_tasks up_to is_independent get_type get_variable_id get_data
    complete_independent get_computable_tasks emplace is_computable contains all_of type_index
    lookup assign
answers = refl

abbrev start : System list_graph range_sort
start = initially list_graph range_sort first store

-- Problem 5 is cleared in between.
unrelated : uint32 5 ≢ uint32 0
unrelated q = omega arith

abbrev finish : System list_graph range_sort
finish = record { entry = last_entry; sent = []; answered = []; store = result_store }

something_left : first.computable_task_to_dependencies ≢ []
unfolding new_calculation new postorder_traverse build_graph visit find_index find_if equals expr_eq
    get_lhs get_rhs get_independent_tasks up_to is_independent get_type get_variable_id get_data
    complete_independent get_computable_tasks emplace is_computable contains all_of
something_left = λ q. cc

run : Run list_graph range_sort from_right 0 3 start finish
unfolding clear_intermediate_calculations clear_intermediate_calculations_impl delete_problem
run = Run.step (Step.send something_left sends) (
    Run.step (Step.work "w" [] [] request refl calculates)
      (Run.step (Step.reply [] [] request.id refl refl answers) Run.stop))

finish_done : lookup 1 finish.entry.processed_tasks_to_status ≡ some completed
unfolding complete_last send_problem send_loop form_task_request form_operand get_operation_type
    new_calculation new postorder_traverse build_graph visit find_index find_if equals expr_eq
    get_lhs get_rhs get_independent_tasks up_to is_independent get_type get_variable_id get_data
    complete_independent get_computable_tasks emplace is_computable contains all_of type_index
    lookup assign
finish_done = refl

vertex_count : length (list_graph.properties first.decompositor.graph) ≤ 2 ^ 32
unfolding new_calculation new postorder_traverse build_graph visit find_index find_if equals expr_eq
    get_lhs get_rhs get_independent_tasks up_to is_independent get_type get_variable_id get_data
vertex_count = omega arith

last_is : get_last? first.decompositor.tasks ≡ some 1
unfolding new_calculation new postorder_traverse build_graph visit find_index find_if equals expr_eq
    get_lhs get_rhs get_independent_tasks up_to is_independent get_type get_variable_id get_data
last_is = refl

no_rows : (t : ℕ) → find_row (dyn_record_id 0 t) store.dynamic_data ≡ none
unfolding find_row
no_rows t = refl

has_value : evaluate from_right (static_value store) total_of_list ≡ ok (of_scalar (pos 5))
unfolding evaluate calculate get_list get_scalar read_data read_data_impl of_field to_field call
    lookup get_type sum_list run_plan sum_scalars checked ◌+ℤ◌
has_value = refl

Run-terminates_example :
    (3 ≤ 6 * length first.decompositor.tasks)
    × ((read_data result_store (dyn_id (dyn_record_id 0 1)) ≡ ok (of_scalar (pos 5)))
        ⊎ ((υ : System list_graph range_sort) × Step list_graph range_sort from_right 0 finish υ))
Run-terminates_example =
    Run-terminates list_graph range_sort range-Sorts total_of_list refl variables_only refl
      from_right 0 store no_rows first made vertex_count 1 last_is (omega arith) (of_scalar (pos 5))
      has_value 3 finish run

-- A store without `L`.
abbrev empty_store : Store
empty_store = record { dynamic_data = []; static_data = [] }

no_value : evaluate from_right (static_value empty_store) total_of_list ≡ err logic_error
unfolding evaluate read_data read_data_impl of_field call lookup
no_value = refl

no_rows_empty : (t : ℕ) → find_row (dyn_record_id 0 t) empty_store.dynamic_data ≡ none
unfolding find_row
no_rows_empty t = refl

after_first :
    Run list_graph range_sort from_right 0 1
      (initially list_graph range_sort first empty_store)
      (record { entry = after_send.1; sent = request ∷ []; answered = []; store = empty_store })
after_first = Run.step (Step.send something_left sends) Run.stop

Run-fault_example : lookup 1 after_send.1.processed_tasks_to_status ≢ some completed
Run-fault_example =
    Run-fault list_graph range_sort range-Sorts total_of_list refl variables_only refl from_right 0
      empty_store no_rows_empty first made vertex_count 1 last_is logic_error no_value 1
      (record { entry = after_send.1; sent = request ∷ []; answered = []; store = empty_store })
      after_first
