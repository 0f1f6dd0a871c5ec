-- ===== src/Dispatch.antt =====
-- manager/src/dispatch/dispatch.h and dispatch.cpp: the dispatcher. Each function that holds the
-- mutex is one step on the state; waiting for a problem is a step that its flag enables.
pub mod Statuses
pub mod Invariant
pub mod Send
pub mod Start
pub mod Progress
pub mod Serving
pub mod Truncated
pub mod Leaf
pub mod Work
pub mod Completion
pub mod Problems
use distributed_task_dispatc.Prelude.{
  ℕ, suc, ◌+◌, ◌%◌, ◌^◌, Bool, true, false, ◌==◌, List, [], ◌∷◌, map, Option, none, some, Result,
  ok, err, ◌>>=◌, or_fault, out_of_range, bad_deref, get_last?, if◌then◌else◌, lookup, assign,
  emplace, erase, keys, Eq_nat, ◌++◌,
}
use distributed_task_dispatc.Domain.{VariableId}
use distributed_task_dispatc.Expr.{Expr}
use distributed_task_dispatc.Dag.Library.{GraphLibrary}
use distributed_task_dispatc.Decomposition
use distributed_task_dispatc.Decomposition.{
  TaskDecompositor, get_independent_tasks, get_computable_tasks, get_operation_type,
}
use distributed_task_dispatc.Messages.{uint32, TaskId, Operand, static_operand, dyn_operand, Task}

pub data TaskStatus : Type 0 where
  processing completed : TaskStatus

-- The keys with a status: the loop that fills `computed_tasks` and `excluded_tasks`.
unfoldable pub completed_tasks : List (ℕ × TaskStatus) → List ℕ
completed_tasks [] = []
completed_tasks ((t, completed) ∷ m) = t ∷ completed_tasks m
completed_tasks ((t, processing) ∷ m) = completed_tasks m

unfoldable pub processing_tasks : List (ℕ × TaskStatus) → List ℕ
processing_tasks [] = []
processing_tasks ((t, completed) ∷ m) = processing_tasks m
processing_tasks ((t, processing) ∷ m) = t ∷ processing_tasks m

-- The loop of `CalculationData::New` over the independent tasks.
unfoldable pub complete_independent :
    List (ℕ × VariableId) → List (ℕ × TaskStatus) → List (ℕ × TaskStatus)
complete_independent [] m = m
complete_independent ((t, id) ∷ vars) m = complete_independent vars (emplace t completed m)

module _ (lib : GraphLibrary) (topological_sort : lib.Graph → Result (List ℕ)) where
  pub record CalculationData : Type 0 where
    pub decompositor : TaskDecompositor lib topological_sort
    pub processed_tasks_to_status : List (ℕ × TaskStatus)
    pub task_to_variable_id : List (ℕ × VariableId)
    pub computable_task_to_dependencies : List (ℕ × List ℕ)

  -- `CalculationData::New`.
  unfoldable pub new_calculation : Expr → Result CalculationData
  new_calculation ast = do
    d ← Decomposition.new lib topological_sort ast
    vars ← get_independent_tasks lib topological_sort d
    ok (record {
      decompositor = d;
      processed_tasks_to_status = complete_independent vars [];
      task_to_variable_id = vars;
      computable_task_to_dependencies = get_computable_tasks lib topological_sort d (keys vars) [];
    })

  -- `FormOperand`, on the entry of the problem.
  unfoldable pub form_operand : CalculationData → ℕ → ℕ → Operand
  form_operand c problem_id operand_id = elim (lookup operand_id c.task_to_variable_id) [
    | some id ↦ static_operand id
    | none ↦ dyn_operand (record { problem_id = uint32 problem_id; task_id = uint32 operand_id })
  ]

  -- `FormTaskRequest`, on the entry of the problem.
  unfoldable pub form_task_request : CalculationData → ℕ → ℕ → List ℕ → Result Task
  form_task_request c problem_id task_id dependencies = do
    operation ← get_operation_type lib topological_sort c.decompositor task_id
    ok (record {
      id = record { problem_id = uint32 problem_id; task_id = uint32 task_id };
      operation_type = uint32 operation;
      operands = map (form_operand c problem_id) dependencies;
    })

  -- The inner loop of `SendComputableTasks`, with the requests that it sends.
  unfoldable pub send_loop :
      ℕ → List (ℕ × List ℕ) → CalculationData → Result (List Task × CalculationData)
  send_loop problem_id [] c = ok ([], c)
  send_loop problem_id ((task_id, dependencies) ∷ entries) c = do
    request ← form_task_request c problem_id task_id dependencies
    (requests, c') ← send_loop problem_id entries (record c {
      processed_tasks_to_status = assign task_id processing c.processed_tasks_to_status;
    })
    ok (request ∷ requests, c')

  -- The body of its outer loop.
  unfoldable pub send_problem : ℕ → CalculationData → Result (List Task × CalculationData)
  send_problem problem_id c = do
    (requests, c') ← send_loop problem_id c.computable_task_to_dependencies c
    ok (requests, record c' { computable_task_to_dependencies = [] })

  -- `UpdateComputableTasksImpl`, on the entry of the problem.
  unfoldable pub update_computable_tasks_impl : CalculationData → ℕ → Result CalculationData
  update_computable_tasks_impl c task_id = do
    _ ← or_fault (lookup task_id c.processed_tasks_to_status) out_of_range
    let statuses = assign task_id completed c.processed_tasks_to_status
    ok (record c {
      processed_tasks_to_status = statuses;
      computable_task_to_dependencies =
          get_computable_tasks lib topological_sort c.decompositor (completed_tasks statuses)
            (processing_tasks statuses);
    })

  -- The part of `NotifyComputedProblem` on the entry of the problem.
  unfoldable pub complete_last : CalculationData → ℕ → Result CalculationData
  complete_last c task_id = do
    _ ← or_fault (lookup task_id c.processed_tasks_to_status) out_of_range
    ok (record c {
      processed_tasks_to_status = assign task_id completed c.processed_tasks_to_status;
    })

  -- `sync` holds `is_computed` of the `SyncData` that each entry refers to.
  pub record Dispatcher : Type 0 where
    pub calculations : List (ℕ × CalculationData)
    pub sync : List (ℕ × Bool)
    pub next_problem_id : ℕ

  -- The loop of `SendComputableTasks` over the problems.
  unfoldable pub send_problems :
      List (ℕ × CalculationData) → Result (List Task × List (ℕ × CalculationData))
  send_problems [] = ok ([], [])
  send_problems ((problem_id, c) ∷ problems) = do
    (requests, c') ← send_problem problem_id c
    (later, problems') ← send_problems problems
    ok (requests ++ later, (problem_id, c') ∷ problems')

  unfoldable pub send_computable_tasks : Dispatcher → Result (List Task × Dispatcher)
  send_computable_tasks s = do
    (requests, calculations) ← send_problems s.calculations
    ok (requests, record s { calculations = calculations })

  -- `UpdateComputableTasks`; the argument is what `ReadReply` returns.
  unfoldable pub update_computable_tasks : Dispatcher → Option TaskId → Result Dispatcher
  update_computable_tasks s none = ok s
  update_computable_tasks s (some id) = do
    c ← or_fault (lookup id.problem_id s.calculations) out_of_range
    last ← or_fault (get_last? c.decompositor.tasks) bad_deref
    if id.task_id == last
        then (do
          c' ← complete_last c id.task_id
          _ ← or_fault (lookup id.problem_id s.sync) out_of_range
          ok (record s {
            calculations = assign id.problem_id c' s.calculations;
            sync = assign id.problem_id true s.sync;
          }))
        else (do
          c' ← update_computable_tasks_impl c id.task_id
          ok (record s { calculations = assign id.problem_id c' s.calculations }))

  -- `PushProblem`, with a `SyncData` whose flag is not set.
  unfoldable pub push_problem : Dispatcher → CalculationData → Dispatcher × ℕ
  push_problem s c = (
    record {
      calculations = emplace s.next_problem_id c s.calculations;
      sync = emplace s.next_problem_id false s.sync;
      next_problem_id = (s.next_problem_id + 1) % 2 ^ 64;
    },
    s.next_problem_id,
  )

  -- `ClearProblem`.
  unfoldable pub clear_problem : Dispatcher → ℕ → Dispatcher
  clear_problem s problem_id = record s {
    calculations = erase problem_id s.calculations;
    sync = erase problem_id s.sync;
  }
