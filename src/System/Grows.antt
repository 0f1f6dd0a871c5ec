-- ===== src/System/Grows.antt =====
-- What stays of requests and replies while tasks get their statuses.
use distributed_task_dispatc.Prelude.{
  ℕ, ◌≡◌, ◌∙◌, inl, inr, List, some, Result, arith, keys, lookup, assign, lookup-assign, Eq_nat,
  Bool-cases, ◌==◌,
}
use distributed_task_dispatc.Domain.{VariableId}
use distributed_task_dispatc.Domain.{ExprResult}
use distributed_task_dispatc.Domain.Arith.{Reducer}
use distributed_task_dispatc.Expr.{Expr}
use distributed_task_dispatc.Dag.Library.{GraphLibrary}
use distributed_task_dispatc.Messages.{TaskId, Task}
use distributed_task_dispatc.Decomposition.{TaskDecompositor}
use distributed_task_dispatc.Decomposition.Order.{IsDecomposition}
use distributed_task_dispatc.Decomposition.Queries.{In-cases}
use distributed_task_dispatc.Database.{Store}
use distributed_task_dispatc.Dispatch.{TaskStatus, processing, completed, CalculationData}
use distributed_task_dispatc.Dispatch.Send.{mark_processing, mark_other, mark_sent}
use distributed_task_dispatc.System.Coherent.{IsOpen, IsAnswer}

-- A task that has a status keeps one.
abbrev pub Grows : List (ℕ × TaskStatus) → List (ℕ × TaskStatus) → Type 0
Grows m m' =
    (t : ℕ) (s : TaskStatus) → lookup t m ≡ some s → (s' : TaskStatus) × (lookup t m' ≡ some s')

pub mark-Grows :
    (entries : List (ℕ × List ℕ)) (m : List (ℕ × TaskStatus)) → Grows m (mark_processing entries m)
mark-Grows entries m t s q = elim (In-cases t (keys entries)) [
  | inl i ↦ (processing, mark_sent entries m t i)
  | inr n ↦ (s, mark_other entries m t n ∙ q)
]

pub assign-Grows : (k : ℕ) (m : List (ℕ × TaskStatus)) → Grows m (assign k completed m)
assign-Grows k m t s q = elim (Bool-cases (k == t)) [
  | inl b ↦ (completed, ground (arith, lookup-assign k t completed m))
  | inr b ↦ (s, ground (arith, lookup-assign k t completed m))
]

module _ (lib : GraphLibrary) (sort : lib.Graph → Result (List ℕ)) (root : Expr)
    (d : TaskDecompositor lib sort) (h : IsDecomposition lib sort root d) (r : Reducer)
    (read : VariableId → Result ExprResult) (problem_id : ℕ) where
  pub IsOpen-Grows :
      (c c' : CalculationData lib sort) (request : Task)
      → Grows c.processed_tasks_to_status c'.processed_tasks_to_status
      → IsOpen lib sort root d h r read problem_id c request
      → IsOpen lib sort root d h r read problem_id c' request
  IsOpen-Grows c c' request grows o =
      let (s, known) = grows o.task o.status o.known in
      record {
        task = o.task;
        expr = o.expr;
        status = s;
        at = o.at;
        operation = o.operation;
        known = known;
        id_of = o.id_of;
        type_of = o.type_of;
        stand = o.stand;
      }

  pub IsAnswer-Grows :
      (c c' : CalculationData lib sort) (s : Store) (id : TaskId)
      → Grows c.processed_tasks_to_status c'.processed_tasks_to_status
      → IsAnswer lib sort root d h r read problem_id c s id
      → IsAnswer lib sort root d h r read problem_id c' s id
  IsAnswer-Grows c c' s id grows a =
      let (t, known) = grows a.task a.status a.known in
      record {
        task = a.task;
        expr = a.expr;
        status = t;
        at = a.at;
        known = known;
        id_of = a.id_of;
        row = a.row;
        found = a.found;
      }
