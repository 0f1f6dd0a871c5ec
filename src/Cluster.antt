-- ===== src/Cluster.antt =====
-- The calculation of one problem through the broker: dispatcher (manager/src/dispatch/dispatch.cpp),
-- broker (broker/src/broker-impl/), workers (worker/src/worker-impl/) and store (database/) with the
-- connections between them. The pipes of the manager and the subscription of a worker keep their
-- order; a subscription may lose a message; replies of workers reach the broker in any order. Tasks
-- of other problems pass through the same broker and workers.
pub mod Flight
pub mod Nodes
pub mod Holds
pub mod Again
pub mod Explained
pub mod Steps
pub mod Weights
pub mod Moves
pub mod Falling
pub mod Ends
pub mod Carried
pub mod Live
pub mod Known
pub mod Threads
pub mod Moving
pub mod Loads
pub mod Tracked
pub mod Idle
pub mod Complete
pub mod Routing
pub mod Correct
pub mod Served
use distributed_task_dispatc.Prelude.{
  ℕ, suc, ◌≤◌, ◌<◌, ◌≡◌, length, ◌≢◌, Bool, List, [], ◌∷◌, ◌++◌, map, some, String, Result, ok,
}
use distributed_task_dispatc.Domain.Arith.{Reducer}
use distributed_task_dispatc.Dag.Library.{GraphLibrary}
use distributed_task_dispatc.Messages.{
  uint32, WorkerTask, TaskId, Task, WorkerTaskId, WorkerMessage, task_id,
}
use distributed_task_dispatc.Database.{clear_intermediate_calculations, Store}
use distributed_task_dispatc.Dispatch.{CalculationData, send_problem}
use distributed_task_dispatc.Dispatch.Completion.{answer}
use distributed_task_dispatc.Manager.Connection.{send_requests}
use distributed_task_dispatc.Worker.{
  Worker, read_request, take_task, finish_task, check_output_queue, send_ack_message,
}
use distributed_task_dispatc.Broker.{
  Broker, Output, publish, to_manager, receive_manager_request, receive_worker_message,
}

-- A worker with what its subscription has not delivered yet.
pub record Node : Type 0 where
  pub inbox : List WorkerTask
  pub worker : Worker

-- Every worker is subscribed to every task that the broker publishes.
abbrev pub notify : WorkerTask → Node → Node
notify t n = record n { inbox = n.inbox ++ t ∷ [] }

abbrev pub deliver : List Output → List Node → List Node
deliver [] nodes = nodes
deliver (publish t ∷ os) nodes = deliver os (map (notify t) nodes)
deliver (to_manager id ∷ os) nodes = deliver os nodes

abbrev pub forwarded : List Output → List TaskId
forwarded [] = []
forwarded (publish t ∷ os) = forwarded os
forwarded (to_manager id ∷ os) = id ∷ forwarded os

-- The message belongs to another problem; its field holds the problem's number modulo 2 ^ 32.
abbrev pub IsOther : ℕ → TaskId → Type 0
IsOther problem_id id = uint32 id.problem_id ≢ uint32 problem_id

module _ (lib : GraphLibrary) (sort : lib.Graph → Result (List ℕ)) where
  -- `requests` and `replies` are the pipes between manager and broker, `responses` the messages of
  -- workers with their routing identity.
  pub record Cluster : Type 0 where
    pub entry : CalculationData lib sort
    pub requests : List Task
    pub broker : Broker
    pub nodes : List Node
    pub responses : List (String × WorkerTaskId)
    pub replies : List TaskId
    pub store : Store

  -- What the broker's messages do to the rest.
  abbrev pub broadcast : Cluster → Broker → List Output → Cluster
  broadcast κ b sent = record κ {
    broker = b;
    nodes = deliver sent κ.nodes;
    replies = κ.replies ++ forwarded sent;
  }

  module _ (r : Reducer) (problem_id : ℕ) where
    pub data Step : Cluster → Cluster → Type 0 where
      -- The dispatcher sends what can be computed.
      send :
          {κ : Cluster} {requests : List Task} {c : CalculationData lib sort}
          → κ.entry.computable_task_to_dependencies ≢ []
          → send_problem lib sort problem_id κ.entry ≡ ok (requests, c)
          → Step κ (record κ { entry = c; requests = κ.requests ++ requests })
      -- The broker receives the next request.
      route :
          {κ : Cluster} {b : Broker} {sent : List Output} {t : Task} {rest : List Task}
          → κ.requests ≡ t ∷ rest
          → receive_manager_request κ.broker (some t) ≡ ok (b, sent)
          → Step κ (broadcast (record κ { requests = rest }) b sent)
      -- A worker reads the next message of its subscription.
      hear :
          {κ : Cluster} (pre post : List Node) (n : Node) {t : WorkerTask} {rest : List WorkerTask}
          → κ.nodes ≡ pre ++ n ∷ post
          → n.inbox ≡ t ∷ rest
          → Step κ (record κ {
            nodes = pre ++ record { inbox = rest; worker = read_request n.worker t } ∷ post;
          })
      -- A thread of a worker that is free takes a task, or calculates one that it took to its end.
      take :
          {κ : Cluster} (pre post : List Node) (n : Node)
          → κ.nodes ≡ pre ++ n ∷ post
          → n.worker.tasks ≢ []
          → length n.worker.running < n.worker.cores
          → Step κ (record κ { nodes = pre ++ record n { worker = take_task n.worker } ∷ post })
      finish :
          {κ : Cluster} (pre post : List Node) (n : Node) (i : ℕ) {s : Store} {w : Worker}
          → κ.nodes ≡ pre ++ n ∷ post
          → i < length n.worker.running
          → finish_task r κ.store n.worker i ≡ ok (s, w)
          → Step κ (record κ { nodes = pre ++ record n { worker = w } ∷ post; store = s })
      -- A worker sends a response.
      respond :
          {κ : Cluster} (pre post : List Node) (n : Node) {w : Worker} {response : WorkerTaskId}
          → κ.nodes ≡ pre ++ n ∷ post
          → check_output_queue n.worker ≡ (w, some (task_id response))
          → Step κ (record κ {
            nodes = pre ++ record n { worker = w } ∷ post;
            responses = (n.worker.identity, response) ∷ κ.responses;
          })
      -- The broker receives a response.
      settle :
          {κ : Cluster} (pre post : List (String × WorkerTaskId)) {b : Broker} {sent : List Output}
          (identity : String) (response : WorkerTaskId)
          → κ.responses ≡ pre ++ (identity, response) ∷ post
          → receive_worker_message κ.broker identity (some (task_id response)) ≡ ok (b, sent)
          → Step κ (broadcast (record κ { responses = pre ++ post }) b sent)
      -- The dispatcher takes the next reply, and finds the problem under the number that it carries.
      reply :
          {κ : Cluster} {id : TaskId} {rest : List TaskId} {c : CalculationData lib sort}
          → κ.replies ≡ id ∷ rest
          → id.problem_id ≡ problem_id
          → answer lib sort κ.entry id.task_id ≡ ok c
          → Step κ (record κ { entry = c; replies = rest })

    -- What happens besides.
    pub data Elsewhere : Cluster → Cluster → Type 0 where
      -- A new worker makes itself known.
      join :
          {κ : Cluster} {b : Broker} {sent : List Output} (w : Worker)
          → w.tasks ≡ []
          → w.running ≡ []
          → w.finished_tasks ≡ []
          → receive_worker_message κ.broker w.identity (some (send_ack_message w)) ≡ ok (b, sent)
          → Elsewhere κ (
              broadcast
                (record κ { nodes = κ.nodes ++ record { inbox = []; worker = w } ∷ [] })
                b
                sent)
      -- The dispatcher sends what can be computed, and its socket does not take every request.
      refuse :
          {κ : Cluster} {requests : List Task} {c : CalculationData lib sort} (takes : Task → Bool)
          → κ.entry.computable_task_to_dependencies ≢ []
          → send_problem lib sort problem_id κ.entry ≡ ok (requests, c)
          → Elsewhere κ (record κ { entry = c; requests = send_requests takes κ.requests requests })
      -- The subscription loses a message.
      lose :
          {κ : Cluster} (pre post : List Node) (n : Node) {t : WorkerTask} {rest : List WorkerTask}
          → κ.nodes ≡ pre ++ n ∷ post
          → n.inbox ≡ t ∷ rest
          → Elsewhere κ (record κ { nodes = pre ++ record n { inbox = rest } ∷ post })
      -- The dispatcher sends a task of another problem, takes a reply under another number, or clears
      -- the values of another problem.
      other_send :
          {κ : Cluster} (t : Task)
          → IsOther problem_id t.id
          → Elsewhere κ (record κ { requests = κ.requests ++ t ∷ [] })
      other_reply :
          {κ : Cluster} {id : TaskId} {rest : List TaskId}
          → κ.replies ≡ id ∷ rest
          → id.problem_id ≢ problem_id
          → Elsewhere κ (record κ { replies = rest })
      other_clear :
          {κ : Cluster} (other : ℕ)
          → uint32 other ≢ uint32 problem_id
          → Elsewhere κ (record κ { store = clear_intermediate_calculations κ.store other })

    pub data Run : Cluster → Cluster → Type 0 where
      stop : {κ : Cluster} → Run κ κ
      step : {κ μ ν : Cluster} → Step κ μ → Run μ ν → Run κ ν
      elsewhere : {κ μ ν : Cluster} → Elsewhere κ μ → Run μ ν → Run κ ν

    -- `Alone m n κ μ`: n steps of the problem and nothing else lead from κ to μ; at most m tasks wait
    -- at the broker after each of them.
    pub data Alone (m : ℕ) : ℕ → Cluster → Cluster → Type 0 where
      stop : {κ : Cluster} → Alone m 0 κ κ
      step :
          {n : ℕ} {κ μ ν : Cluster}
          → Step κ μ
          → length μ.broker.task_queue ≤ m
          → Alone m n μ ν
          → Alone m (suc n) κ ν
