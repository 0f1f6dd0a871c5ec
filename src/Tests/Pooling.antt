-- ===== src/Tests/Pooling.antt =====
-- A worker that takes a task, calculates it and answers.
use distributed_task_dispatc.Prelude.{◌≡◌, refl, lookup, Bool, true, List, [], ◌∷◌, ok}
use distributed_task_dispatc.Prelude.Int.{pos, ◌+ℤ◌}
use distributed_task_dispatc.Domain.Arith.{sum_list, run_plan, sum_scalars, checked}
use distributed_task_dispatc.Domain.{expr_type_of}
use distributed_task_dispatc.Messages.{WorkerTaskId}
use distributed_task_dispatc.Database.{
  Store, Field, dyn_record_id, call, find_row, to_field, of_field, write_dynamic_data,
  write_dynamic_data_impl, read_data, read_data_impl,
}
use distributed_task_dispatc.Worker.{
  Worker, get_list, calculate, calculate_task_impl, extract_operands, calculate_task, read_request,
  take_task, finish_task, check_output_queue, erase_at,
}
use distributed_task_dispatc.Worker.Queues.{Balanced, answer_of}
use distributed_task_dispatc.Worker.Pool.{Event, handle_all, accepted_all, handle_all-Balanced}
use distributed_task_dispatc.Tests.Values.{from_right, sample}
use distributed_task_dispatc.Tests.Storing.{store, task}

abbrev idle : Worker
idle = record { identity = "worker"; cores = 4; tasks = []; running = []; finished_tasks = [] }

abbrev events : List Event
events = Event.request task ∷ Event.take ∷ Event.finish 0 ∷ Event.reply ∷ []

-- The store with the result.
abbrev after : Store
after = record {
  dynamic_data =
      (dyn_record_id 0 1, Field.scalar (pos 5)) ∷ (dyn_record_id 3 1, Field.scalar (pos 5)) ∷ [];
  static_data = ("L", Field.list sample) ∷ [];
}

events_run : handle_all from_right store idle events ≡ ok (after, idle, answer_of task ∷ [])
unfolding handle_all read_request take_task finish_task check_output_queue erase_at calculate_task
    extract_operands read_data read_data_impl of_field lookup calculate_task_impl calculate
    expr_type_of get_list sum_list run_plan sum_scalars checked ◌+ℤ◌ write_dynamic_data
    write_dynamic_data_impl find_row to_field call
events_run = refl

abbrev any_response : WorkerTaskId → Bool
any_response t = true

handle_all-Balanced_example :
    Balanced any_response idle (accepted_all "worker" events) idle (answer_of task ∷ [])
handle_all-Balanced_example =
    handle_all-Balanced any_response from_right events store after idle idle (answer_of task ∷ [])
      events_run
