-- ===== src/Messages.antt =====
-- proto/task.proto and proto/worker.proto, and common/communiation/read_message.h: the messages between
-- manager, broker and workers. A
-- field of type `uint32` keeps the low 32 bits of the `size_t` that it is set to.
use distributed_task_dispatc.Prelude.{
  Option, Result, or_fault, domain_error, ℕ, ◌%◌, ◌^◌, List, String,
}
use distributed_task_dispatc.Domain.{VariableId}

abbrev pub uint32 : ℕ → ℕ
uint32 n = n % 2 ^ 32

pub record TaskId : Type 0 where
  pub problem_id : ℕ
  pub task_id : ℕ

-- A `oneof`, which may be unset.
pub data Operand : Type 0 where
  static_operand : VariableId → Operand
  dyn_operand : TaskId → Operand
  operand_not_set : Operand

pub record Task : Type 0 where
  pub id : TaskId
  pub operation_type : ℕ
  pub operands : List Operand

pub record WorkerTaskId : Type 0 where
  pub identity : String
  pub id : TaskId

pub record WorkerTask : Type 0 where
  pub identity : String
  pub task : Task

pub data WorkerMessage : Type 0 where
  core_count : ℕ → WorkerMessage
  task_id : WorkerTaskId → WorkerMessage
  data_not_set : WorkerMessage

-- `FromMessage`.
unfoldable pub from_message {ℓ} : {A : Type ℓ} → Option A → Result A
from_message m = or_fault m domain_error
