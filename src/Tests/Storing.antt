-- ===== src/Tests/Storing.antt =====
-- A store with the list `L`, and the task of `Sum(L)` on a worker.
use distributed_task_dispatc.Prelude.{
  ℕ, ◌≡◌, ◌≢◌, refl, none, [], ◌∷◌, ok, err, logic_error, sql_exception, lookup, Eq_string,
}
use distributed_task_dispatc.Prelude.Int.{pos, ◌+ℤ◌}
use distributed_task_dispatc.Domain.{ExprType, of_list, of_scalar, expr_type_of}
use distributed_task_dispatc.Domain.Arith.{sum_list, run_plan, sum_scalars, checked, max_scalars}
use distributed_task_dispatc.Messages.{TaskId, WorkerTask, static_operand, uint32}
use distributed_task_dispatc.Database.{
  Store, Field, dyn_id, find_row, to_field, of_field, dyn_record_id, call, write_dynamic_data,
  write_dynamic_data_impl, read_data, read_data_impl, clear_intermediate_calculations,
}
use distributed_task_dispatc.Database.Rows.{
  read_data-write_dynamic_data, write_dynamic_data-twice, read_data-clear,
}
use distributed_task_dispatc.Worker.{
  get_list, get_scalar, calculate, calculate_task_impl, extract_operands, calculate_task,
}
use distributed_task_dispatc.Worker.Compute.{
  HasKinds, signature, calculate-HasKinds, calculate_task-stores,
}
use distributed_task_dispatc.Tests.Values.{from_right, sample}

-- One static list, and one result of problem 0.
abbrev pub store : Store
store = record {
  dynamic_data = (dyn_record_id 0 1, Field.scalar (pos 5)) ∷ [];
  static_data = ("L", Field.list sample) ∷ [];
}

fresh : find_row (dyn_record_id 3 1) store.dynamic_data ≡ none
unfolding find_row
fresh = refl

read_data-write_dynamic_data_example :
    (read_data (write_dynamic_data store 3 1 (of_scalar (pos 7))) (dyn_id (dyn_record_id 3 1))
      ≡ ok (of_scalar (pos 7)))
    × ((k : TaskId)
        → k ≢ dyn_record_id 3 1
        → read_data (write_dynamic_data store 3 1 (of_scalar (pos 7))) (dyn_id k)
          ≡ read_data store (dyn_id k))
read_data-write_dynamic_data_example =
    read_data-write_dynamic_data store 3 1 (of_scalar (pos 7)) fresh

-- The store after that.
abbrev written : Store
written = record {
  dynamic_data =
      (dyn_record_id 0 1, Field.scalar (pos 5)) ∷ (dyn_record_id 3 1, Field.scalar (pos 7)) ∷ [];
  static_data = ("L", Field.list sample) ∷ [];
}

written_run : write_dynamic_data store 3 1 (of_scalar (pos 7)) ≡ written
unfolding write_dynamic_data write_dynamic_data_impl find_row to_field call
written_run = refl

write_dynamic_data-twice_example :
    (write_dynamic_data_impl
        (write_dynamic_data store 3 1 (of_scalar (pos 7)))
        (dyn_record_id 3 1)
        (to_field (of_scalar (pos 8)))
      ≡ err sql_exception)
    × (write_dynamic_data (write_dynamic_data store 3 1 (of_scalar (pos 7))) 3 1 (of_scalar (pos 8))
        ≡ write_dynamic_data store 3 1 (of_scalar (pos 7)))
write_dynamic_data-twice_example =
    write_dynamic_data-twice store 3 1 (of_scalar (pos 7)) (of_scalar (pos 8))

read_data-clear_example :
    ((t : ℕ)
      → read_data (clear_intermediate_calculations written 3) (dyn_id (dyn_record_id 3 t))
        ≡ err logic_error)
    × ((k : TaskId)
        → k.problem_id ≢ uint32 3
        → read_data (clear_intermediate_calculations written 3) (dyn_id k)
          ≡ read_data written (dyn_id k))
    × ((clear_intermediate_calculations written 3).static_data ≡ written.static_data)
read_data-clear_example = read_data-clear written 3

maximum_run :
    calculate from_right ExprType.so_max (of_scalar (pos 3)) (of_scalar (pos 9))
    ≡ ok (of_scalar (pos 9))
unfolding calculate get_scalar max_scalars
maximum_run = refl

calculate-HasKinds_example :
    HasKinds (signature ExprType.so_max) (of_scalar (pos 3)) (of_scalar (pos 9)) (of_scalar (pos 9))
calculate-HasKinds_example =
    calculate-HasKinds from_right ExprType.so_max (of_scalar (pos 3)) (of_scalar (pos 9))
      (of_scalar (pos 9)) maximum_run

-- The task 1 of problem 3: `Sum(L)`.
abbrev pub task : WorkerTask
task = record {
  identity = "worker";
  task = record {
    id = record { problem_id = 3; task_id = 1 };
    operation_type = 4;
    operands = static_operand "L" ∷ [];
  };
}

task_operands : extract_operands store task.task.operands ≡ ok (of_list sample ∷ [])
unfolding extract_operands read_data read_data_impl of_field call lookup
task_operands = refl

task_result :
    calculate_task_impl from_right (expr_type_of task.task.operation_type) (of_list sample ∷ [])
    ≡ ok (of_scalar (pos 5))
unfolding calculate_task_impl calculate expr_type_of get_list sum_list run_plan sum_scalars checked
    ◌+ℤ◌
task_result = refl

calculate_task-stores_example :
    (s' : Store) × (calculate_task from_right store task
      ≡ ok (s', record { identity = "worker"; id = record { problem_id = 3; task_id = 1 } }))
    × (read_data s' (dyn_id (dyn_record_id 3 1)) ≡ ok (of_scalar (pos 5)))
    × ((k : TaskId) → k ≢ dyn_record_id 3 1 → read_data s' (dyn_id k) ≡ read_data store (dyn_id k))
calculate_task-stores_example =
    calculate_task-stores from_right store task (of_list sample ∷ []) (of_scalar (pos 5))
      task_operands task_result fresh
