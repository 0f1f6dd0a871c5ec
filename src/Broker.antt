-- ===== src/Broker.antt =====
-- broker/src/broker-impl/broker_impl.h and broker_impl.cpp: the broker. A handler takes the message
-- that it receives and returns the new state with the messages that it sends, in order.
-- common/communiation/read_message.h: a message that does not parse is `none`.
pub mod Cores
pub mod Queue
pub mod Workers
use distributed_task_dispatc.Prelude.{
  ℕ, zero, suc, ◌+◌, ◌-◌, ◌%◌, ◌^◌, Bool, true, false, not, ◌==◌, List, [], ◌∷◌, ◌++◌, Option, none,
  some, String, Result, ok, err, ◌>>=◌, or_fault, out_of_range, logic_error, domain_error,
  bad_deref, get_last?, if◌then◌else◌, lookup, assign, Eq_string,
}
use distributed_task_dispatc.Messages.{
  from_message, TaskId, Task, WorkerTask, WorkerTaskId, WorkerMessage, core_count, task_id,
  data_not_set,
}

pub data Output : Type 0 where
  publish : WorkerTask → Output
  to_manager : TaskId → Output

-- `available` is `worker_routing_id_to_available_core_count_`; the front of the queue is the head.
pub record Broker : Type 0 where
  pub available : List (String × ℕ)
  pub task_queue : List Task

-- `++` and `--` on a `size_t`.
abbrev pub increment : ℕ → ℕ
increment n = (n + 1) % 2 ^ 64

abbrev pub decrement : ℕ → ℕ
decrement n = (n + 2 ^ 64 - 1) % 2 ^ 64

-- `std::queue::pop`.
abbrev pub pop : List Task → List Task
pop [] = []
pop (t ∷ ts) = ts

-- `std::find_if` over the workers, in the order of the map.
unfoldable pub find_free : List (String × ℕ) → Option String
find_free [] = none
find_free ((identity, count) ∷ m) = if not (count == 0) then some identity else find_free m

-- `RegisterWorker`.
unfoldable pub register_worker : Broker → String → ℕ → Result Broker
register_worker b identity count = elim (lookup identity b.available) [
  | none ↦ ok (record b { available = assign identity count b.available })
  | some _ ↦ err logic_error
]

-- `SendTaskToWorkerImpl`.
unfoldable pub send_task_to_worker_impl : Broker → WorkerTask → Result (Broker × List Output)
send_task_to_worker_impl b worker_task = do
  count ← or_fault (lookup worker_task.identity b.available) out_of_range
  ok (
    record b { available = assign worker_task.identity (decrement count) b.available },
    publish worker_task ∷ [],
  )

-- `SendTaskToWorkerFromQueue`: `back` of the queue, and `pop`, which takes its front.
unfoldable pub send_task_to_worker_from_queue : Broker → String → Result (Broker × List Output)
send_task_to_worker_from_queue b identity = do
  manager_task ← or_fault (get_last? b.task_queue) bad_deref
  send_task_to_worker_impl (record b { task_queue = pop b.task_queue })
      (record { identity = identity; task = manager_task })

-- `SendTaskToWorker`.
unfoldable pub send_task_to_worker : Broker → Task → Result (Broker × List Output)
send_task_to_worker b manager_task = elim (find_free b.available) [
  | none ↦ ok (record b { task_queue = b.task_queue ++ manager_task ∷ [] }, [])
  | some identity ↦ send_task_to_worker_impl b (record { identity = identity; task = manager_task })
]

abbrev pub is_empty {ℓ} : {A : Type ℓ} → List A → Bool
is_empty [] = true
is_empty (x ∷ xs) = false

-- `ProcessWorkerTaskReply`.
unfoldable pub process_worker_task_reply : Broker → WorkerTaskId → Result (Broker × List Output)
process_worker_task_reply b message = do
  count ← or_fault (lookup message.identity b.available) out_of_range
  let b₁ = record b { available = assign message.identity (increment count) b.available }
  (b₂, sent) ←
      (if not (is_empty b₁.task_queue)
        then send_task_to_worker_from_queue b₁ message.identity
        else ok (b₁, []))
  ok (b₂, sent ++ to_manager message.id ∷ [])

-- `ReceiveWorkerMessage`, of the frames that the router delivers.
unfoldable pub receive_worker_message :
    Broker → String → Option WorkerMessage → Result (Broker × List Output)
receive_worker_message b identity worker_message = do
  message ← from_message worker_message
  elim message [
    | core_count n ↦ (do b' ← register_worker b identity n; ok (b', []))
    | task_id id ↦ process_worker_task_reply b id
    | data_not_set ↦ err logic_error
  ]

-- `ReceiveManagerRequest`.
unfoldable pub receive_manager_request : Broker → Option Task → Result (Broker × List Output)
receive_manager_request b manager_message = do
  manager_task ← from_message manager_message
  send_task_to_worker b manager_task

-- One round of `Run`, with what is waiting on the two sockets: a message of a worker with its
-- identity, and a message of the manager. Without workers the manager is not polled.
unfoldable pub run_round :
    Broker
    → Option (String × Option WorkerMessage)
    → Option (Option Task)
    → Result (Broker × List Output)
run_round b from_worker from_manager = do
  (b₁, sent₁) ← elim from_worker [
    | none ↦ ok (b, [])
    | some (identity, message) ↦ receive_worker_message b identity message
  ]
  (b₂, sent₂) ←
      (if is_empty b.available then ok (b₁, []) else elim from_manager [
        | none ↦ ok (b₁, [])
        | some message ↦ receive_manager_request b₁ message
      ])
  ok (b₂, sent₁ ++ sent₂)
