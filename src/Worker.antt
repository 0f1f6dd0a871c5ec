-- ===== src/Worker.antt =====
-- worker/src/worker-impl/thread_pool.cpp and worker_impl.cpp: a worker. A thread of the pool is the
-- steps `take_task` and `finish_task`; the database is the store that its calls reach.
pub mod Compute
pub mod Queues
pub mod Pool
use distributed_task_dispatc.Prelude.{
  ℕ, zero, suc, ◌+◌, ◌-◌, ◌%◌, ◌^◌, Bool, true, false, List, [], ◌∷◌, ◌++◌, Option, none, some,
  String, Result, ok, err, ◌>>=◌, or_fault, bad_deref, bad_variant_access, logic_error, get_last?,
  get_elem?, if◌then◌else◌, str_eq, ltb, length,
}
use distributed_task_dispatc.Domain.{
  ExprType, ExprResult, of_list, of_scalar, Scalar, Vector, expr_type_of,
}
use distributed_task_dispatc.Domain.Arith.{
  Reducer, min_list, max_list, mul_list, sum_list, size_list, sum_with, mul_with, div_with,
  sum_lists, mul_lists, div_lists, dot, sum_scalars, mul_scalars, div_scalars, min_scalars,
  max_scalars,
}
use distributed_task_dispatc.Messages.{
  from_message, TaskId, Task, Operand, static_operand, dyn_operand, operand_not_set, WorkerTask,
  WorkerTaskId, WorkerMessage, core_count, task_id, uint32,
}
use distributed_task_dispatc.Database.{
  Store, RecordId, dyn_id, static_id, read_data, write_dynamic_data, dyn_record_id,
}

-- `std::get<domain::List>` and `std::get<domain::Scalar>`.
unfoldable pub get_list : ExprResult → Result Vector
get_list (of_list l) = ok l
get_list (of_scalar x) = err bad_variant_access

unfoldable pub get_scalar : ExprResult → Result Scalar
get_scalar (of_list l) = err bad_variant_access
get_scalar (of_scalar x) = ok x

abbrev pub scalar_result : Result Scalar → Result ExprResult
scalar_result r = r >>= λ x. ok (of_scalar x)

abbrev pub list_result : Result Vector → Result ExprResult
list_result r = r >>= λ l. ok (of_list l)

-- The calls of one shape: on a list, on a list and a scalar, on two lists, on two scalars.
abbrev pub on_list : ExprResult → (Vector → Result ExprResult) → Result ExprResult
on_list lhs f = do l ← get_list lhs; f l

abbrev pub on_list_scalar :
    ExprResult → ExprResult → (Vector → Scalar → Result ExprResult) → Result ExprResult
on_list_scalar lhs rhs f = do l ← get_list lhs; x ← get_scalar rhs; f l x

abbrev pub on_lists :
    ExprResult → ExprResult → (Vector → Vector → Result ExprResult) → Result ExprResult
on_lists lhs rhs f = do l ← get_list lhs; m ← get_list rhs; f l m

abbrev pub on_scalars :
    ExprResult → ExprResult → (Scalar → Scalar → Result ExprResult) → Result ExprResult
on_scalars lhs rhs f = do x ← get_scalar lhs; y ← get_scalar rhs; f x y

-- The `switch` of `CalculateTaskImpl`.
unfoldable pub calculate : Reducer → ExprType → ExprResult → ExprResult → Result ExprResult
unfolding get_list get_scalar
calculate r ExprType.re_min lhs rhs = on_list lhs λ l. scalar_result (min_list l)
calculate r ExprType.re_max lhs rhs = on_list lhs λ l. scalar_result (max_list l)
calculate r ExprType.re_mul lhs rhs = on_list lhs λ l. scalar_result (mul_list r l)
calculate r ExprType.re_sum lhs rhs = on_list lhs λ l. scalar_result (sum_list r l)
calculate r ExprType.re_size lhs rhs = on_list lhs λ l. ok (of_scalar (size_list l))
calculate r ExprType.me_add lhs rhs = on_list_scalar lhs rhs λ l x. list_result (sum_with l x)
calculate r ExprType.me_mul lhs rhs = on_list_scalar lhs rhs λ l x. list_result (mul_with l x)
calculate r ExprType.me_div lhs rhs = on_list_scalar lhs rhs λ l x. list_result (div_with l x)
calculate r ExprType.lo_add lhs rhs = on_lists lhs rhs λ l m. list_result (sum_lists l m)
calculate r ExprType.lo_mul lhs rhs = on_lists lhs rhs λ l m. list_result (mul_lists l m)
calculate r ExprType.lo_div lhs rhs = on_lists lhs rhs λ l m. list_result (div_lists l m)
calculate r ExprType.lo_dot lhs rhs = on_lists lhs rhs λ l m. scalar_result (dot l m)
calculate r ExprType.so_add lhs rhs = on_scalars lhs rhs λ x y. scalar_result (sum_scalars x y)
calculate r ExprType.so_mul lhs rhs = on_scalars lhs rhs λ x y. scalar_result (mul_scalars x y)
calculate r ExprType.so_div lhs rhs = on_scalars lhs rhs λ x y. scalar_result (div_scalars x y)
calculate r ExprType.so_max lhs rhs = on_scalars lhs rhs λ x y. ok (of_scalar (max_scalars x y))
calculate r ExprType.so_min lhs rhs = on_scalars lhs rhs λ x y. ok (of_scalar (min_scalars x y))
calculate r _ lhs rhs = err logic_error

-- `CalculateTaskImpl`; `front` and `back` of no operands are undefined. A number that names no
-- enumerator goes to the default of the `switch`.
unfoldable pub calculate_task_impl : Reducer → Option ExprType → List ExprResult → Result ExprResult
unfolding calculate
calculate_task_impl r type operands = do
  lhs ← or_fault (get_elem? operands 0) bad_deref
  rhs ← or_fault (get_last? operands) bad_deref
  elim type [ some t ↦ calculate r t lhs rhs | none ↦ err logic_error ]

-- `ExtractOperands`.
unfoldable pub extract_operands : Store → List Operand → Result (List ExprResult)
extract_operands s [] = ok []
extract_operands s (static_operand id ∷ os) = do
  value ← read_data s (static_id id)
  rest ← extract_operands s os
  ok (value ∷ rest)
extract_operands s (dyn_operand id ∷ os) = do
  value ← read_data s (dyn_id (dyn_record_id id.problem_id id.task_id))
  rest ← extract_operands s os
  ok (value ∷ rest)
extract_operands s (operand_not_set ∷ os) = err logic_error

-- `CalculateTask`: the store after it, and the response for the output queue.
unfoldable pub calculate_task : Reducer → Store → WorkerTask → Result (Store × WorkerTaskId)
unfolding calculate_task_impl extract_operands
calculate_task r s t = do
  operands ← extract_operands s t.task.operands
  result ← calculate_task_impl r (expr_type_of t.task.operation_type) operands
  let s' = write_dynamic_data s t.task.id.problem_id t.task.id.task_id result
  ok (s', record { identity = t.identity; id = t.task.id })

-- The pool's queue, the tasks that its threads calculate, and the queue of finished tasks; the
-- front of a queue is the head.
pub record Worker : Type 0 where
  pub identity : String
  pub cores : ℕ
  pub tasks : List WorkerTask
  pub running : List WorkerTask
  pub finished_tasks : List WorkerTaskId

-- `SendAckMessage`: `core_count_ - 1` on a `size_t`, sent as a `uint32`.
unfoldable pub send_ack_message : Worker → WorkerMessage
send_ack_message w = core_count (uint32 ((w.cores + 2 ^ 64 - 1) % 2 ^ 64))

-- `ReadRequest`, of a request that parses: `PushTask` if it is for this worker.
unfoldable pub read_request : Worker → WorkerTask → Worker
read_request w t =
    if str_eq t.identity w.identity then record w { tasks = w.tasks ++ t ∷ [] } else w

-- The part of `Poll` under the mutex, by one of the pool's `core_count_` threads that calculates
-- nothing; a thread waits while there is no task.
unfoldable pub take_task : Worker → Worker
take_task w = elim w.tasks [
  | [] ↦ w
  | t ∷ ts ↦
      if ltb (length w.running) w.cores
      then record w { tasks = ts; running = w.running ++ t ∷ [] }
      else w
]

unfoldable pub erase_at {ℓ} : {A : Type ℓ} → List A → ℕ → List A
erase_at [] i = []
erase_at (x ∷ xs) zero = xs
erase_at (x ∷ xs) (suc i) = x ∷ erase_at xs i

-- A thread calculates the `i`-th running task to its end, and queues the response.
unfoldable pub finish_task : Reducer → Store → Worker → ℕ → Result (Store × Worker)
unfolding calculate_task erase_at
finish_task r s w i = elim (get_elem? w.running i) [
  | none ↦ ok (s, w)
  | some t ↦ (do
    (s', response) ← calculate_task r s t
    ok (
      s',
      record w {
        running = erase_at w.running i;
        finished_tasks = w.finished_tasks ++ response ∷ [];
      },
    ))
]

-- `CheckOutputQueue`.
unfoldable pub check_output_queue : Worker → Worker × Option WorkerMessage
check_output_queue w = elim w.finished_tasks [
  | [] ↦ (w, none)
  | t ∷ ts ↦ (record w { finished_tasks = ts }, some (task_id t))
]

-- One round of `Run`, with what is waiting on the subscriber: a message, and what it parses to.
unfoldable pub run_worker :
    Worker → Option (Option WorkerTask) → Result (Worker × Option WorkerMessage)
unfolding read_request check_output_queue
run_worker w waiting = do
  w₁ ← elim waiting [
    | none ↦ ok w
    | some message ↦ (do t ← from_message message; ok (read_request w t))
  ]
  ok (check_output_queue w₁)
