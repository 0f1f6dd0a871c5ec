-- ===== src/Format.antt =====
-- common/log_format/log_format.h: the formatters of the messages. `format_to` puts its arguments in
-- the place of `{}`; `decimal` is how the library prints an integer. A formatter that throws is a
-- function into `Result`.
pub mod Lists
use Prim.Native.String.{◌++◌}
use distributed_task_dispatc.Prelude.{
  ℕ, List, [], ◌∷◌, Option, none, some, String, Result, ok, err, ◌>>=◌, logic_error,
}
use distributed_task_dispatc.Prelude.Int.{ℤ, pos}
use distributed_task_dispatc.Domain.{
  ExprType, ExprResult, of_list, of_scalar, Scalar, Vector, expr_type_of, enum_name,
}
use distributed_task_dispatc.Messages.{
  TaskId, Task, Operand, static_operand, dyn_operand, operand_not_set, WorkerTask, WorkerTaskId,
  WorkerMessage, core_count, task_id, data_not_set,
}
use distributed_task_dispatc.Manager.{CalculationReply, scalar, list, value_not_set}
use distributed_task_dispatc.Database
use distributed_task_dispatc.Database.{
  Field, field_not_set, RecordId, dyn_id, static_id, id_not_set,
}

-- `magic_enum::enum_name` of a number: empty if it names no enumerator.
abbrev pub type_name : ℕ → String
type_name n = elim (expr_type_of n) [ some t ↦ enum_name t | none ↦ "" ]

-- The loop of a formatter over its elements: `open` goes before the first one, and a comma
-- before each of the others.
unfoldable pub format_elements {ℓ} : {A : Type ℓ} → (A → String) → String → List A → String
format_elements format before [] = ""
format_elements format before (x ∷ xs) = before ++ format x ++ format_elements format ", " xs

module _ (decimal : ℤ → String) where
  abbrev pub unsigned : ℕ → String
  unsigned n = decimal (pos n)

  pub format_static_operand : String → String
  format_static_operand identifier = "[StaticOperand] identifier: " ++ identifier

  pub format_dyn_operand : TaskId → String
  format_dyn_operand id =
      "[DynOperand] problem_id: " ++ unsigned id.problem_id ++ ", task_id: " ++ unsigned id.task_id

  unfoldable pub format_operand : Operand → String
  unfolding format_static_operand format_dyn_operand
  format_operand (static_operand id) = "[Operand] StaticOperand: " ++ format_static_operand id
  format_operand (dyn_operand id) = "[Operand] DynOperand: " ++ format_dyn_operand id
  format_operand operand_not_set = "[Operand] Operand: Invalid"

  unfoldable pub format_task_id : TaskId → String
  format_task_id id =
      "[TaskId] problem_id: " ++ unsigned id.problem_id ++ ", task_id: " ++ unsigned id.task_id

  unfoldable pub format_task : Task → String
  unfolding format_task_id format_operand format_elements
  format_task t =
      "[Task] id: "
      ++ format_task_id t.id
      ++ ", operation_type: "
      ++ type_name t.operation_type
      ++ ", operands: "
      ++ format_elements format_operand "" t.operands

  unfoldable pub format_worker_task_id : WorkerTaskId → String
  unfolding format_task_id
  format_worker_task_id t =
      "[WorkerTaskId] identity: " ++ t.identity ++ ", id: " ++ format_task_id t.id

  unfoldable pub format_worker_message : WorkerMessage → String
  unfolding format_worker_task_id
  format_worker_message (task_id t) = "[WorkerMessage] task_id: " ++ format_worker_task_id t
  format_worker_message (core_count n) = "[WorkerAck] core_count: " ++ unsigned n
  format_worker_message data_not_set = "[WorkerMessage] Invalid"

  unfoldable pub format_problem_id : ℕ → String
  format_problem_id problem_id = "[db::ProblemID] problem_id: " ++ unsigned problem_id

  unfoldable pub format_static_record_id : String → String
  format_static_record_id identifier = "[StaticRecordId] identifier: " ++ identifier

  unfoldable pub format_dynamic_record_id : TaskId → String
  format_dynamic_record_id id =
      "[DynamicRecordId] problem_id: "
      ++ unsigned id.problem_id
      ++ ", task_id: "
      ++ unsigned id.task_id

  unfoldable pub format_record_id : RecordId → Result String
  unfolding format_dynamic_record_id format_static_record_id
  format_record_id (dyn_id id) = ok ("[RecordId] dyn_id: " ++ format_dynamic_record_id id)
  format_record_id (static_id id) = ok ("[RecordId] static_id: " ++ format_static_record_id id)
  format_record_id id_not_set = err logic_error

  -- `db::Scalar` and `db::List`.
  unfoldable pub format_db_scalar : Scalar → String
  format_db_scalar x = "[Scalar] scalar: " ++ decimal x

  unfoldable pub format_db_list : Vector → String
  unfolding format_elements
  format_db_list l = "[List] list: " ++ format_elements decimal "" l

  unfoldable pub format_field : Field → Result String
  unfolding format_db_scalar format_db_list
  format_field (Database.Field.scalar x) = ok ("[Field] data: " ++ format_db_scalar x)
  format_field (Database.Field.list l) = ok ("[Field] data: " ++ format_db_list l)
  format_field field_not_set = err logic_error

  unfoldable pub format_dynamic_record : TaskId → Field → Result String
  unfolding format_dynamic_record_id format_field
  format_dynamic_record id field = do
    text ← format_field field
    ok ("[DynamicRecord] record_id: " ++ format_dynamic_record_id id ++ ", field: " ++ text)

  unfoldable pub format_worker_task : WorkerTask → String
  unfolding format_task
  format_worker_task t = "[WorkerTask] identity: " ++ t.identity ++ ", task: " ++ format_task t.task

  -- `domain::List`, and `dcmp::List` with the same text.
  unfoldable pub format_list : Vector → String
  unfolding format_elements
  format_list l = "[List] list: " ++ format_elements decimal "(" l ++ ")"

  unfoldable pub format_expr_result : ExprResult → String
  unfolding format_list
  format_expr_result (of_list l) = "[ExprResult] expr_result: " ++ format_list l
  format_expr_result (of_scalar x) = "[ExprResult] expr_result: " ++ decimal x

  unfoldable pub format_calculation_reply : CalculationReply → Result String
  unfolding format_list
  format_calculation_reply (scalar x) = ok ("[CalculationReply] scalar: " ++ decimal x)
  format_calculation_reply (list l) = ok ("[CalculationReply] list: " ++ format_list l)
  format_calculation_reply value_not_set = err logic_error
