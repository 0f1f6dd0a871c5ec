-- ===== src/Manager.antt =====
-- manager/src/dispatch/dispatch.cpp and task_dealer.cpp and grpc-server/grpc_server.cpp: a problem from the request to the reply.
pub mod Connection
pub mod Requests
pub mod Rounds
pub mod Replies
pub mod Entries
use Prim.Native.String.{◌++◌}
use distributed_task_dispatc.Prelude.{
  ℕ, Bool, false, true, List, [], ◌∷◌, Option, none, some, String, Result, ok, err, ◌>>=◌, or_fault,
  out_of_range, bad_deref, domain_error, invalid_argument, get_last?, lookup, Eq_nat, if◌then◌else◌,
}
use distributed_task_dispatc.Domain.{ExprResult, of_list, of_scalar, Scalar, Vector, enum_name}
use distributed_task_dispatc.Expr.{Expr, postorder_traverse}
use distributed_task_dispatc.Expr.Json.{Json, from_json}
use distributed_task_dispatc.Expr.Ast.{Ast, ast_from_json}
use distributed_task_dispatc.Dag.Library.{GraphLibrary}
use distributed_task_dispatc.Decomposition.{TaskDecompositor, properties_of}
use distributed_task_dispatc.Messages.{from_message, TaskId, Task}
use distributed_task_dispatc.Database.{
  Store, dyn_id, dyn_record_id, read_data, clear_intermediate_calculations,
}
use distributed_task_dispatc.Dispatch.{
  CalculationData, Dispatcher, new_calculation, push_problem, clear_problem, send_computable_tasks,
  update_computable_tasks,
}

-- `dcmp::CalculationReply`, a `oneof`.
pub data CalculationReply : Type 0 where
  scalar : Scalar → CalculationReply
  list : Vector → CalculationReply
  value_not_set : CalculationReply

-- `ExprResultVisitor`.
unfoldable pub to_reply : ExprResult → CalculationReply
to_reply (of_list l) = list l
to_reply (of_scalar x) = scalar x

-- `ReadReply`. The arguments are whether the poll finds a message, and what the parser of the
-- message library makes of it.
unfoldable pub read_reply : Bool → Option TaskId → Result (Option TaskId)
read_reply false parsed = ok none
read_reply true parsed = do finished_task ← from_message parsed; ok (some finished_task)

module _ (lib : GraphLibrary) (sort : lib.Graph → Result (List ℕ)) where
  -- The loop of `PrintTasks`.
  unfoldable pub print_tasks : TaskDecompositor lib sort → String → List ℕ → Result String
  print_tasks d output [] = ok output
  print_tasks d output (task ∷ tasks) = do
    properties ← properties_of lib sort d task
    print_tasks d (output ++ (enum_name properties.type ++ "\n")) tasks

  -- One round of `RunDispatcher`, with the requests that it sends.
  unfoldable pub run_dispatcher :
      Dispatcher lib sort → Bool → Option TaskId → Result (List Task × Dispatcher lib sort)
  unfolding read_reply
  run_dispatcher s readable parsed = do
    (requests, s') ← send_computable_tasks lib sort s
    reply ← read_reply readable parsed
    s'' ← update_computable_tasks lib sort s' reply
    ok (requests, s'')

  -- `CalculateProblem` up to the wait, with the number of the problem and its last task.
  unfoldable pub begin_problem : Dispatcher lib sort → Expr → Result (Dispatcher lib sort × ℕ × ℕ)
  begin_problem s ast = do
    calc_data ← new_calculation lib sort ast
    let (s', problem_id) = push_problem lib sort s calc_data
    task_id ← or_fault (get_last? calc_data.decompositor.tasks) bad_deref
    ok (s', problem_id, task_id)

  -- The predicate of the wait.
  unfoldable pub is_computed : Dispatcher lib sort → ℕ → Result Bool
  is_computed s problem_id = or_fault (lookup problem_id s.sync) out_of_range

  -- `CalculateProblem` after the wait: the state, the store and the result. `ClearProblem` comes
  -- before the read, so it is done even if the read throws.
  unfoldable pub end_problem :
      Dispatcher lib sort → Store → ℕ → ℕ → Dispatcher lib sort × Result (Store × ExprResult)
  end_problem s store problem_id task_id = (
    clear_problem lib sort s problem_id,
    (do
      expr_result ← read_data store (dyn_id (dyn_record_id problem_id task_id))
      ok (clear_intermediate_calculations store problem_id, expr_result)),
  )

  -- The server's `CalculateProblem` around the wait.
  unfoldable pub accept_request :
      (String → Result Json) → Dispatcher lib sort → String → Result (Dispatcher lib sort × ℕ × ℕ)
  unfolding begin_problem ast_from_json
  accept_request parse s request = do ast ← ast_from_json parse request; begin_problem s ast.root

  unfoldable pub answer_request :
      Dispatcher lib sort → Store → ℕ → ℕ → Dispatcher lib sort × Result (Store × CalculationReply)
  unfolding end_problem to_reply
  answer_request s store problem_id task_id =
      let (s', ended) = end_problem s store problem_id task_id in
      (s', ended >>= λ (store', expr_result). ok (store', to_reply expr_result))
