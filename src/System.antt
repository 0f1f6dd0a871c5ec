-- ===== src/System.antt =====
-- The calculation of one problem: the dispatcher of manager/src/dispatch/dispatch.cpp, the workers of
-- worker/src/worker-impl/thread_pool.cpp and the store of database/ together. Between them stand the
-- requests and replies that are under way: each arrives once, in any order.
pub mod Values
pub mod Requests
pub mod Coherent
pub mod Grows
pub mod Sending
pub mod Working
pub mod Answering
pub mod Others
pub mod Measure
pub mod Termination
pub mod Progress
pub mod Correct
use distributed_task_dispatc.Prelude.{
  ℕ, suc, ◌+◌, ◌≡◌, ◌≢◌, List, [], ◌∷◌, ◌++◌, String, Result, ok, err, bad_deref, ◌>>=◌,
}
use distributed_task_dispatc.Domain.{ExprResult, of_scalar, VariableId}
use distributed_task_dispatc.Domain.Arith.{Reducer}
use distributed_task_dispatc.Expr.{
  Expr, Pointer, nullptr, ptr, reduce, map_op, list_op, scalar_op, list, scalar_const, scalar_var,
  get_type,
}
use distributed_task_dispatc.Dag.Library.{GraphLibrary}
use distributed_task_dispatc.Messages.{uint32, WorkerTask, TaskId, Task, WorkerTaskId}
use distributed_task_dispatc.Database.{clear_intermediate_calculations, Store, static_id, read_data}
use distributed_task_dispatc.Dispatch.{CalculationData, send_problem}
use distributed_task_dispatc.Dispatch.Completion.{answer}
use distributed_task_dispatc.Worker.{calculate, calculate_task}

-- The value of a tree, by recursion on the tree alone; a variable is read with `read`.
unfoldable mutual
  pub evaluate : Reducer → (VariableId → Result ExprResult) → Expr → Result ExprResult
  evaluate r read (reduce t p) = do
    v ← evaluate_operand r read p
    calculate r (get_type (reduce t p)) v v
  evaluate r read (map_op t p q) = do
    v ← evaluate_operand r read p
    w ← evaluate_operand r read q
    calculate r (get_type (map_op t p q)) v w
  evaluate r read (list_op t p q) = do
    v ← evaluate_operand r read p
    w ← evaluate_operand r read q
    calculate r (get_type (list_op t p q)) v w
  evaluate r read (scalar_op t p q) = do
    v ← evaluate_operand r read p
    w ← evaluate_operand r read q
    calculate r (get_type (scalar_op t p q)) v w
  evaluate r read (list l) = read l
  evaluate r read (scalar_const x) = ok (of_scalar x)
  evaluate r read (scalar_var x) = read x

  pub evaluate_operand : Reducer → (VariableId → Result ExprResult) → Pointer → Result ExprResult
  evaluate_operand r read nullptr = err bad_deref
  evaluate_operand r read (ptr e) = evaluate r read e

-- What a task reads of the static data.
abbrev pub static_value : Store → VariableId → Result ExprResult
static_value s id = read_data s (static_id id)

module _ (lib : GraphLibrary) (sort : lib.Graph → Result (List ℕ)) where
  -- The entry of the problem, the requests and replies under way, and the store.
  pub record System : Type 0 where
    pub entry : CalculationData lib sort
    pub sent : List Task
    pub answered : List TaskId
    pub store : Store

  abbrev pub initially : CalculationData lib sort → Store → System
  initially c s = record { entry = c; sent = []; answered = []; store = s }

  module _ (r : Reducer) (problem_id : ℕ) where
    -- The dispatcher sends what can be computed; a worker calculates a request to its end; the
    -- dispatcher takes a reply, and finds the problem under the number that it carries.
    pub data Step : System → System → Type 0 where
      send :
          {σ : System} {requests : List Task} {c : CalculationData lib sort}
          → σ.entry.computable_task_to_dependencies ≢ []
          → send_problem lib sort problem_id σ.entry ≡ ok (requests, c)
          → Step σ (record σ { entry = c; sent = σ.sent ++ requests })
      work :
          {σ : System} {s : Store} {response : WorkerTaskId} (identity : String)
          (pre post : List Task) (t : Task)
          → σ.sent ≡ pre ++ t ∷ post
          → calculate_task r σ.store (record { identity = identity; task = t }) ≡ ok (s, response)
          → Step σ (record σ { sent = pre ++ post; answered = response.id ∷ σ.answered; store = s })
      reply :
          {σ : System} {c : CalculationData lib sort} (pre post : List TaskId) (id : TaskId)
          → σ.answered ≡ pre ++ id ∷ post
          → id.problem_id ≡ problem_id
          → answer lib sort σ.entry id.task_id ≡ ok c
          → Step σ (record σ { entry = c; answered = pre ++ post })

    -- What other problems do to the same store: a worker calculates a task of theirs, or their
    -- values are cleared. The fields of the messages hold problem numbers modulo 2 ^ 32.
    pub data Elsewhere : System → System → Type 0 where
      other_work :
          {σ : System} {s : Store} {response : WorkerTaskId} (t : WorkerTask)
          → uint32 t.task.id.problem_id ≢ uint32 problem_id
          → calculate_task r σ.store t ≡ ok (s, response)
          → Elsewhere σ (record σ { store = s })
      other_clear :
          {σ : System} (other : ℕ)
          → uint32 other ≢ uint32 problem_id
          → Elsewhere σ (record σ { store = clear_intermediate_calculations σ.store other })

    -- `Run n σ τ`: n steps of the problem, and any number elsewhere between them, lead from σ to τ.
    pub data Run : ℕ → System → System → Type 0 where
      stop : {σ : System} → Run 0 σ σ
      step : {n : ℕ} {σ τ υ : System} → Step σ τ → Run n τ υ → Run (suc n) σ υ
      elsewhere : {n : ℕ} {σ τ υ : System} → Elsewhere σ τ → Run n τ υ → Run n σ υ
