-- ===== src/Tests/Calculating/Routed.antt =====
-- The calculation of `Sum(L)` through the broker, with two workers.
use distributed_task_dispatc.Prelude.{
  emplace, Eq_nat, false, Distinct, str_eq_iff, inl, inr, ◌^◌, ◌<◌, ℕ, ◌+◌, ◌*◌, ◌≤◌, ◌≡◌, refl,
  ◌⊎◌, List, [], ◌∷◌, String, some, ok, arith, length, lookup, assign, In, Eq_string,
}
use distributed_task_dispatc.Prelude.Int.{pos}
use distributed_task_dispatc.Domain.{ExprResult, of_scalar}
use distributed_task_dispatc.Messages.{
  TaskId, Task, WorkerTask, WorkerTaskId, task_id, from_message,
}
use distributed_task_dispatc.Database.{
  dyn_id, dyn_record_id, read_data, clear_intermediate_calculations,
}
use distributed_task_dispatc.Dispatch.{push_problem, Dispatcher}
use distributed_task_dispatc.Worker.{
  Worker, read_request, take_task, finish_task, check_output_queue, erase_at, calculate_task,
}
use distributed_task_dispatc.Broker.{
  Broker, publish, to_manager, find_free, send_task_to_worker, send_task_to_worker_impl,
  process_worker_task_reply, receive_manager_request, receive_worker_message,
}
use distributed_task_dispatc.System.{evaluate, static_value}
use distributed_task_dispatc.Manager.{accept_request, begin_problem, answer_request, to_reply}
use distributed_task_dispatc.Cluster.{Cluster, Node, Step, Run, Alone, IsOther}
use distributed_task_dispatc.Cluster.Holds.{Holds}
use distributed_task_dispatc.Cluster.Idle.{IsIdle}
use distributed_task_dispatc.Cluster.Correct.{routed_value}
use distributed_task_dispatc.Cluster.Complete.{routed_ends, routed_progress}
use distributed_task_dispatc.Tests.{list_graph, range_sort, range-Sorts, total_of_list}
use distributed_task_dispatc.Tests.Values.{from_right}
use distributed_task_dispatc.Tests.Requests.{variables_only, parse_as}
use distributed_task_dispatc.Cluster.Served.{served_value}
use distributed_task_dispatc.Expr.Ast.{ast_from_json}
use distributed_task_dispatc.Expr.Json.RoundTrip.{from_json-to_json}
use distributed_task_dispatc.Dispatch.Serving.{IsServing}
use distributed_task_dispatc.Tests.Calculating.{
  first, after_send, request, store, result_store, last_entry, sends, calculates, answers,
  something_left, finish_done, vertex_count, last_is, no_rows, made, has_value,
}

abbrev idle_worker : String → Worker
idle_worker name = record {
  identity = name;
  cores = 2;
  tasks = [];
  running = [];
  finished_tasks = [];
}

abbrev node : String → List WorkerTask → Node
node name inbox = record { inbox = inbox; worker = idle_worker name }

abbrev published : WorkerTask
published = record { identity = "w"; task = request }

abbrev response : WorkerTaskId
response = record { identity = "w"; id = request.id }

abbrev broker : ℕ → Broker
broker n = record { available = ("w", n) ∷ ("u", 1) ∷ []; task_queue = [] }

abbrev start_cluster : Cluster list_graph range_sort
start_cluster = record {
  entry = first;
  requests = [];
  broker = broker 1;
  nodes = node "w" [] ∷ node "u" [] ∷ [];
  responses = [];
  replies = [];
  store = store;
}

-- The other worker has not read the task of the first one.
abbrev end_cluster : Cluster list_graph range_sort
end_cluster = record {
  entry = last_entry;
  requests = [];
  broker = broker 1;
  nodes = node "w" [] ∷ node "u" (published ∷ []) ∷ [];
  responses = [];
  replies = [];
  store = result_store;
}

abbrev with_tasks : List WorkerTask → List WorkerTask → List WorkerTaskId → Node
with_tasks tasks running finished = record {
  inbox = [];
  worker = record (idle_worker "w") { tasks = tasks; running = running; finished_tasks = finished };
}

abbrev other : Node
other = node "u" (published ∷ [])

abbrev working : Node → Cluster list_graph range_sort
working n = record {
  entry = after_send.1;
  requests = [];
  broker = broker 0;
  nodes = n ∷ other ∷ [];
  responses = [];
  replies = [];
  store = store;
}

routes : receive_manager_request (broker 1) (some request) ≡ ok (broker 0, publish published ∷ [])
unfolding receive_manager_request from_message send_task_to_worker find_free
    send_task_to_worker_impl lookup assign
routes = refl

calculates_published : calculate_task from_right store published ≡ ok (result_store, response)
calculates_published = calculates

settles :
    receive_worker_message (broker 0) "w" (some (task_id response))
    ≡ ok (broker 1, to_manager request.id ∷ [])
unfolding receive_worker_message from_message process_worker_task_reply lookup assign
settles = refl

finishes :
    finish_task from_right store (with_tasks [] (published ∷ []) []).worker 0
    ≡ ok (result_store, (with_tasks [] [] (response ∷ [])).worker)
unfolding finish_task erase_at
finishes = rw (calculates_published, finish_task) refl

abbrev Here : ℕ → Cluster list_graph range_sort → Cluster list_graph range_sort → Type 0
Here n κ μ = Alone list_graph range_sort from_right 0 1 n κ μ

last_steps :
    Here 3
      (record (working (with_tasks [] [] (response ∷ []))) { store = result_store })
      end_cluster
unfolding check_output_queue
last_steps =
    Alone.step (Step.respond [] (other ∷ []) (with_tasks [] [] (response ∷ [])) refl refl)
      (omega arith)
      (Alone.step (Step.settle [] [] "w" response refl settles) (omega arith)
        (Alone.step (Step.reply refl refl answers) (omega arith) Alone.stop))

middle_steps : Here 6 (working (node "w" (published ∷ []))) end_cluster
unfolding read_request take_task
middle_steps =
    Alone.step (Step.hear [] (other ∷ []) (node "w" (published ∷ [])) refl refl) (omega arith) (
      Alone.step
        (Step.take [] (other ∷ []) (with_tasks (published ∷ []) [] []) refl (λ q. cc q)
          (omega arith))
        (omega arith)
        (Alone.step
          (Step.finish [] (other ∷ []) (with_tasks [] (published ∷ []) []) 0 refl (omega arith)
            finishes)
          (omega arith) last_steps))

all_steps : Here 8 start_cluster end_cluster
all_steps =
    Alone.step (Step.send something_left sends) (omega arith)
      (Alone.step (Step.route refl routes) (omega arith) middle_steps)

Alone-Run :
    {n : ℕ} {κ μ : Cluster list_graph range_sort}
    → Here n κ μ
    → Run list_graph range_sort from_right 0 κ μ
Alone-Run Alone.stop = Run.stop
Alone-Run (Alone.step first few rest) = Run.step first (Alone-Run rest)

idle : IsIdle list_graph range_sort start_cluster
idle = record {
  requests = tt;
  queue = tt;
  nodes = (
    record { inbox = tt; tasks = tt; running = tt; finished = tt },
    (record { inbox = tt; tasks = tt; running = tt; finished = tt }, tt),
  );
  responses = tt;
  replies = tt;
}

foreign :
    Holds list_graph range_sort
      (λ (t : Task). IsOther 0 t.id)
      (λ (id : TaskId). IsOther 0 id)
      start_cluster
foreign = record {
  requests = tt;
  queue = tt;
  nodes = (
    record { inbox = tt; tasks = tt; running = tt; finished = tt },
    (record { inbox = tt; tasks = tt; running = tt; finished = tt }, tt),
  );
  responses = tt;
  replies = tt;
}

routed_value_example :
    (v : ExprResult) × (evaluate from_right (static_value store) total_of_list ≡ ok v)
    × (read_data result_store (dyn_id (dyn_record_id 0 1)) ≡ ok v)
    × ((m : Dispatcher list_graph range_sort)
        → (answer_request list_graph range_sort m result_store 0 1).1
          ≡ ok (clear_intermediate_calculations result_store 0, to_reply v))
routed_value_example =
    routed_value list_graph range_sort range-Sorts total_of_list refl variables_only refl from_right
      0 start_cluster no_rows foreign made vertex_count 1 last_is end_cluster (Alone-Run all_steps)
      finish_done

routed_ends_example : 8 ≤ (12 * 2 + 6) * length first.decompositor.tasks
routed_ends_example =
    routed_ends list_graph range_sort range-Sorts total_of_list refl variables_only refl from_right
      0 start_cluster no_rows idle made vertex_count 1 last_is 1 8 end_cluster all_steps

known_here : (w : String) → In w ("w" ∷ "u" ∷ []) → In w ("w" ∷ "u" ∷ [])
known_here w i = i

abbrev names : List String
names = "w" ∷ "u" ∷ []

two_names : Distinct names
two_names = (λ i. elim i [ inl q ↦ cc ((str_eq_iff "w" "u").1 q) | inr z ↦ z ], (λ i. i, tt))

small_counts : (w : String) (n : ℕ) → lookup w start_cluster.broker.available ≡ some n → n < 2 ^ 64
unfolding lookup
small_counts w n at = ground arith

core_left : lookup "w" start_cluster.broker.available ≡ some 1
unfolding lookup
core_left = refl

routed_progress_example :
    (read_data result_store (dyn_id (dyn_record_id 0 1)) ≡ ok (of_scalar (pos 5)))
    ⊎ ((ν : Cluster list_graph range_sort) × Step list_graph range_sort from_right 0 end_cluster ν)
routed_progress_example =
    routed_progress list_graph range_sort range-Sorts total_of_list refl variables_only refl
      from_right 0 start_cluster no_rows idle made vertex_count 1 last_is (omega arith)
      (omega arith, (omega arith, tt)) known_here two_names two_names small_counts "w" 1 core_left
      (omega arith) (of_scalar (pos 5)) has_value 8 end_cluster all_steps

-- The server before its first request.
abbrev before_request : Dispatcher list_graph range_sort
before_request = record { calculations = []; sync = []; next_problem_id = 0 }

abbrev after_request : Dispatcher list_graph range_sort
after_request = record {
  calculations = (0, first) ∷ [];
  sync = (0, false) ∷ [];
  next_problem_id = 1;
}

none-IsServing : IsServing list_graph range_sort before_request
none-IsServing = record { each = λ k f i. absurd i; synced = λ k i. absurd i }

accepted :
    accept_request list_graph range_sort (parse_as total_of_list) before_request "{}"
    ≡ ok (after_request, 0, 1)
unfolding accept_request begin_problem ast_from_json push_problem emplace
accepted =
    rw (from_json-to_json (parse_as total_of_list) "{}" total_of_list tt refl, made, last_is) refl

entry_there : lookup 0 after_request.calculations ≡ some first
unfolding lookup
entry_there = refl

served_value_example :
    (v : ExprResult) × (evaluate from_right (static_value store) total_of_list ≡ ok v)
    × ((later : Dispatcher list_graph range_sort)
        → (answer_request list_graph range_sort later result_store 0 1).1
          ≡ ok (clear_intermediate_calculations result_store 0, to_reply v))
served_value_example =
    served_value list_graph range_sort range-Sorts (parse_as total_of_list) "{}" total_of_list tt
      refl refl variables_only refl from_right before_request none-IsServing (λ i. i) (λ i. i)
      after_request 1 start_cluster end_cluster accepted entry_there no_rows foreign vertex_count
      (Alone-Run all_steps) finish_done
