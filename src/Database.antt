-- ===== src/Database.antt =====
-- database/database-client/database_client.cpp and database-server/database-server-impl/
-- database_server.cpp: the store of static and intermediate values. The two tables are the lists of
-- their rows; setup_database.py makes (problem_id, task_id) the primary key of `dynamic_data`.
pub mod Rows
pub mod Growth
use distributed_task_dispatc.Prelude.{
  ℕ, ◌%◌, ◌^◌, ◌≡◌, Bool, true, false, not, ◌&&◌, ◌==◌, List, [], ◌∷◌, ◌++◌, Option, none, some,
  String, Result, ok, err, Fault, logic_error, sql_exception, ◌>>=◌, or_fault, if◌then◌else◌,
  lookup, Eq_string,
}
use distributed_task_dispatc.Domain.{ExprResult, of_list, of_scalar, Scalar, Vector, VariableId}
use distributed_task_dispatc.Messages.{uint32, TaskId}

-- `db::Field`, a `oneof`.
pub data Field : Type 0 where
  scalar : Scalar → Field
  list : Vector → Field
  field_not_set : Field

-- `db::RecordId`, a `oneof`.
pub data RecordId : Type 0 where
  dyn_id : TaskId → RecordId
  static_id : VariableId → RecordId
  id_not_set : RecordId

-- Rows of `dynamic_data`, oldest first, and of `static_data`.
pub record Store : Type 0 where
  pub dynamic_data : List (TaskId × Field)
  pub static_data : List (VariableId × Field)

abbrev pub key_eq : TaskId → TaskId → Bool
key_eq a b = a.problem_id == b.problem_id && a.task_id == b.task_id

unfoldable pub find_row : TaskId → List (TaskId × Field) → Option Field
find_row k [] = none
find_row k ((j, f) ∷ rows) = if key_eq j k then some f else find_row k rows

unfoldable pub delete_problem : ℕ → List (TaskId × Field) → List (TaskId × Field)
delete_problem p [] = []
delete_problem p ((j, f) ∷ rows) =
    if j.problem_id == p then delete_problem p rows else (j, f) ∷ delete_problem p rows

-- `ExprResultVisitor` and the end of `DatabaseClient::ReadData`.
unfoldable pub to_field : ExprResult → Field
to_field (of_scalar v) = scalar v
to_field (of_list l) = list l

unfoldable pub of_field : Field → Result ExprResult
of_field (scalar v) = ok (of_scalar v)
of_field (list l) = ok (of_list l)
of_field field_not_set = err logic_error

-- `RecordIdVisitor` on a `DynRecordId`: the fields of the message are `uint32`.
abbrev pub dyn_record_id : ℕ → ℕ → TaskId
dyn_record_id problem_id task_id = record {
  problem_id = uint32 problem_id;
  task_id = uint32 task_id;
}

-- `WriteDynamicDataImpl`: the primary key refuses a second row.
unfoldable pub write_dynamic_data_impl : Store → TaskId → Field → Result Store
write_dynamic_data_impl s k f = elim (find_row k s.dynamic_data) [
  | none ↦ ok (record s { dynamic_data = s.dynamic_data ++ (k, f) ∷ [] })
  | some _ ↦ err sql_exception
]

-- `ReadDataImpl`. To read a column of a statement without a row is an exception.
unfoldable pub read_data_impl : Store → RecordId → Result Field
read_data_impl s (dyn_id k) = or_fault (find_row k s.dynamic_data) sql_exception
read_data_impl s (static_id id) = or_fault (lookup id s.static_data) sql_exception
read_data_impl s id_not_set = err logic_error

-- `ClearIntermediateCalculationsImpl`.
unfoldable pub clear_intermediate_calculations_impl : Store → ℕ → Store
clear_intermediate_calculations_impl s p = record s {
  dynamic_data = delete_problem p s.dynamic_data;
}

-- A call of the client. An exception in the handler of the server ends the call with a status that
-- is not OK. The client stores the status and never reads it, so it goes on with what it had.
unfoldable pub call {ℓ} : {A : Type ℓ} → Result A → A → A
call (ok a) initial = a
call (err e) initial = initial

-- The client's functions.
unfoldable pub write_dynamic_data : Store → ℕ → ℕ → ExprResult → Store
unfolding write_dynamic_data_impl to_field call
write_dynamic_data s problem_id task_id result =
    call (write_dynamic_data_impl s (dyn_record_id problem_id task_id) (to_field result)) s

unfoldable pub read_data : Store → RecordId → Result ExprResult
unfolding read_data_impl of_field call
read_data s id = of_field (call (read_data_impl s id) field_not_set)

unfoldable pub clear_intermediate_calculations : Store → ℕ → Store
unfolding clear_intermediate_calculations_impl
clear_intermediate_calculations s problem_id =
    clear_intermediate_calculations_impl s (uint32 problem_id)
