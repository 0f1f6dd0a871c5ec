-- ===== src/Tests/Dispatching.antt =====
-- Problems of the dispatcher from their start to the last reply.
use distributed_task_dispatc.Prelude.{
  ℕ, ◌≡◌, ◌≢◌, refl, sym, ap, ◌∙◌, inl, inr, false, List, [], ◌∷◌, Result, ok, err, some,
  bad_variant_access, In, lookup, assign, emplace, Eq_nat,
}
use distributed_task_dispatc.Prelude.Int.{pos}
use distributed_task_dispatc.Messages.{Task}
use distributed_task_dispatc.Expr.{
  Expr, ptr, scalar_op, scalar_const, ScalarOpType, postorder_traverse, expr_eq, get_lhs, get_rhs,
  get_type, get_data,
}
use distributed_task_dispatc.Dag.{build_graph, visit, find_index, find_if}
use distributed_task_dispatc.Expr.Equality.{equals}
use distributed_task_dispatc.Expr.Traversal.{postorder}
use distributed_task_dispatc.Decomposition.{
  TaskDecompositor, new, get_independent_tasks, is_independent, get_variable_id,
  get_computable_tasks, is_computable, contains, all_of,
}
use distributed_task_dispatc.Decomposition.Order.{IsDecomposition}
use distributed_task_dispatc.Decomposition.Independent.{is_constant}
use distributed_task_dispatc.Dispatch.{
  TaskStatus, processing, completed, CalculationData, new_calculation, send_problem,
  complete_independent, update_computable_tasks_impl,
}
use distributed_task_dispatc.Dispatch.Invariant.{
  IsConsistent, update_computable_tasks_impl-IsConsistent,
}
use distributed_task_dispatc.Dispatch.Start.{
  LeavesOnly, new_calculation-IsConsistent, new_calculation-constant,
}
use distributed_task_dispatc.Dispatch.Send.{AreRequests, mark_processing, send_problem-IsConsistent}
use distributed_task_dispatc.Tests.{list_graph, range_sort, range-Sorts, total_of_list, up_to}

abbrev pub Started : Expr → Type 0
Started root =
    (d : TaskDecompositor list_graph range_sort) × (h : IsDecomposition list_graph range_sort root
      d)
    × (c : CalculationData list_graph range_sort) × (new_calculation list_graph range_sort root
        ≡ ok c)
    × IsConsistent list_graph range_sort root d h c
    × LeavesOnly list_graph range_sort root d h c.processed_tasks_to_status

plain : (e : Expr) → In e (postorder total_of_list) → is_constant e ≡ false
plain e (inl q) = ap is_constant q
plain e (inr (inl q)) = ap is_constant q
plain e (inr (inr i)) = absurd i

new_calculation-IsConsistent_example : Started total_of_list
new_calculation-IsConsistent_example =
    new_calculation-IsConsistent list_graph range_sort range-Sorts total_of_list refl plain

pub start : Started total_of_list
start = new_calculation-IsConsistent list_graph range_sort range-Sorts total_of_list refl plain

-- The entry of the problem, with its decompositor.
abbrev pub d : TaskDecompositor list_graph range_sort
d = start.0

abbrev pub h : IsDecomposition list_graph range_sort total_of_list d
h = start.1

abbrev pub c : CalculationData list_graph range_sort
c = start.2

abbrev pub inv : IsConsistent list_graph range_sort total_of_list d h c
inv = start.4

abbrev View : Type 0
View = List (ℕ × TaskStatus) × List (ℕ × List ℕ) × List ℕ

abbrev view : CalculationData list_graph range_sort → View
view e = (e.processed_tasks_to_status, e.computable_task_to_dependencies, e.decompositor.tasks)

abbrev view_of : Result (CalculationData list_graph range_sort) → View
view_of (ok e) = view e
view_of (err e) = ([], [], [])

abbrev first_view : View
first_view = ((0, completed) ∷ [], (1, 0 ∷ []) ∷ [], 0 ∷ 1 ∷ [])

run_view : view_of (new_calculation list_graph range_sort total_of_list) ≡ first_view
unfolding new_calculation new postorder_traverse build_graph visit find_index find_if equals expr_eq
    get_lhs get_rhs get_independent_tasks up_to is_independent get_type get_variable_id get_data
    complete_independent get_computable_tasks emplace is_computable contains all_of
run_view = refl

start_view : view c ≡ first_view
start_view = ap view_of (sym start.3) ∙ run_view

statuses : c.processed_tasks_to_status ≡ (0, completed) ∷ []
statuses = ap (λ (v : View). v.0) start_view

entries : c.computable_task_to_dependencies ≡ (1, 0 ∷ []) ∷ []
entries = ap (λ (v : View). v.1) start_view

tasks : d.tasks ≡ 0 ∷ 1 ∷ []
tasks =
    ap (λ (e : TaskDecompositor list_graph range_sort). e.tasks) (sym inv.same)
    ∙ ap (λ (v : View). v.2) start_view

-- `Sum(L) + 2`.
abbrev with_constant : Expr
with_constant = scalar_op ScalarOpType.add (ptr total_of_list) (ptr (scalar_const (pos 2)))

new_calculation-constant_example :
    new_calculation list_graph range_sort with_constant ≡ err bad_variant_access
new_calculation-constant_example =
    new_calculation-constant list_graph range_sort range-Sorts with_constant refl (pos 2)
      (inr (inr (inl refl)))

abbrev pub Sent : Type 0
Sent =
    (requests : List Task) × (c' : CalculationData list_graph range_sort) × (send_problem list_graph
        range_sort 0 c
      ≡ ok (requests, c'))
    × AreRequests list_graph range_sort total_of_list d h 0 c c.computable_task_to_dependencies
        requests
    × IsConsistent list_graph range_sort total_of_list d h c'
    × (c'.processed_tasks_to_status
        ≡ mark_processing c.computable_task_to_dependencies c.processed_tasks_to_status)

send_problem-IsConsistent_example : Sent
send_problem-IsConsistent_example =
    send_problem-IsConsistent list_graph range_sort total_of_list d h 0 c inv

pub sent : Sent
sent = send_problem-IsConsistent list_graph range_sort total_of_list d h 0 c inv

pub sent_status : lookup 1 sent.1.processed_tasks_to_status ≡ some processing
unfolding lookup assign
sent_status = rw (sent.5, statuses, entries) refl

update_computable_tasks_impl-IsConsistent_example :
    (c' : CalculationData list_graph range_sort) × (update_computable_tasks_impl list_graph
        range_sort sent.1 1
      ≡ ok c')
    × IsConsistent list_graph range_sort total_of_list d h c'
    × (c'.processed_tasks_to_status ≡ assign 1 completed sent.1.processed_tasks_to_status)
update_computable_tasks_impl-IsConsistent_example =
    update_computable_tasks_impl-IsConsistent list_graph range_sort total_of_list d h sent.1 1
      processing sent.4 sent_status

first_left : c.computable_task_to_dependencies ≢ []
first_left = rw entries (λ q. cc)
