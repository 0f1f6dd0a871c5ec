-- ===== src/Worker/Compute.antt =====
-- `CalculateTask`: the kinds of its operands and of its result, and what a task leaves in the store.
use distributed_task_dispatc.Prelude.{
  ◌≡◌, ◌≢◌, refl, sym, ap, List, Option, none, some, Result, ok, err,
}
use distributed_task_dispatc.Domain.{
  ExprType, ExprResult, of_list, of_scalar, Scalar, Vector, expr_type_of,
}
use distributed_task_dispatc.Domain.Arith.{Reducer, size_list, max_scalars, min_scalars}
use distributed_task_dispatc.Messages.{TaskId, WorkerTask}
use distributed_task_dispatc.Database.{
  Store, write_dynamic_data, dyn_id, find_row, dyn_record_id, read_data,
}
use distributed_task_dispatc.Database.Rows.{read_data-write_dynamic_data}
use distributed_task_dispatc.Worker.{
  get_list, get_scalar, scalar_result, list_result, on_list, on_list_scalar, on_lists, on_scalars,
  calculate, calculate_task_impl, extract_operands, calculate_task,
}

pub data Kind : Type 0 where
  a_list a_scalar : Kind

abbrev pub kind_of : ExprResult → Kind
kind_of (of_list l) = a_list
kind_of (of_scalar x) = a_scalar

-- The kinds of the two operands and of the result; a reduction reads its left operand only.
abbrev pub Signature : Type 0
Signature = Kind × Option Kind × Kind

abbrev pub signature : ExprType → Option Signature
signature ExprType.re_min = some (a_list, none, a_scalar)
signature ExprType.re_max = some (a_list, none, a_scalar)
signature ExprType.re_mul = some (a_list, none, a_scalar)
signature ExprType.re_sum = some (a_list, none, a_scalar)
signature ExprType.re_size = some (a_list, none, a_scalar)
signature ExprType.me_add = some (a_list, some a_scalar, a_list)
signature ExprType.me_mul = some (a_list, some a_scalar, a_list)
signature ExprType.me_div = some (a_list, some a_scalar, a_list)
signature ExprType.lo_add = some (a_list, some a_list, a_list)
signature ExprType.lo_mul = some (a_list, some a_list, a_list)
signature ExprType.lo_div = some (a_list, some a_list, a_list)
signature ExprType.lo_dot = some (a_list, some a_list, a_scalar)
signature ExprType.so_add = some (a_scalar, some a_scalar, a_scalar)
signature ExprType.so_mul = some (a_scalar, some a_scalar, a_scalar)
signature ExprType.so_div = some (a_scalar, some a_scalar, a_scalar)
signature ExprType.so_max = some (a_scalar, some a_scalar, a_scalar)
signature ExprType.so_min = some (a_scalar, some a_scalar, a_scalar)
signature _ = none

abbrev pub Reads : Option Kind → ExprResult → Type 0
Reads none rhs = Unit
Reads (some k) rhs = kind_of rhs ≡ k

-- The operands and the result have the kinds of a signature.
abbrev pub HasKinds : Option Signature → ExprResult → ExprResult → ExprResult → Type 0
HasKinds none lhs rhs v = ⊥
HasKinds (some (k, k', result)) lhs rhs v = (kind_of lhs ≡ k) × Reads k' rhs × (kind_of v ≡ result)

scalar_result-kind :
    (m : Result Scalar) (v : ExprResult) → scalar_result m ≡ ok v → kind_of v ≡ a_scalar
scalar_result-kind (ok x) v h = let q : of_scalar x ≡ v = cc h in ap kind_of (sym q)
scalar_result-kind (err e) v h = cc

list_result-kind : (m : Result Vector) (v : ExprResult) → list_result m ≡ ok v → kind_of v ≡ a_list
list_result-kind (ok l) v h = let q : of_list l ≡ v = cc h in ap kind_of (sym q)
list_result-kind (err e) v h = cc

reduce_lem :
    (f : Vector → Result Scalar) (lhs rhs v : ExprResult)
    → on_list lhs (λ l. scalar_result (f l)) ≡ ok v
    → HasKinds (some (a_list, none, a_scalar)) lhs rhs v
unfolding get_list
reduce_lem f (of_list l) rhs v h = (refl, tt, scalar_result-kind (f l) v h)
reduce_lem f (of_scalar x) rhs v h = cc

map_lem :
    (f : Vector → Scalar → Result Vector) (lhs rhs v : ExprResult)
    → on_list_scalar lhs rhs (λ l x. list_result (f l x)) ≡ ok v
    → HasKinds (some (a_list, some a_scalar, a_list)) lhs rhs v
unfolding get_list get_scalar
map_lem f (of_list l) (of_scalar x) v h = (refl, refl, list_result-kind (f l x) v h)
map_lem f (of_list l) (of_list m) v h = cc
map_lem f (of_scalar x) rhs v h = cc

lists_lem :
    (f : Vector → Vector → Result Vector) (lhs rhs v : ExprResult)
    → on_lists lhs rhs (λ l m. list_result (f l m)) ≡ ok v
    → HasKinds (some (a_list, some a_list, a_list)) lhs rhs v
unfolding get_list
lists_lem f (of_list l) (of_list m) v h = (refl, refl, list_result-kind (f l m) v h)
lists_lem f (of_list l) (of_scalar x) v h = cc
lists_lem f (of_scalar x) rhs v h = cc

dot_lem :
    (f : Vector → Vector → Result Scalar) (lhs rhs v : ExprResult)
    → on_lists lhs rhs (λ l m. scalar_result (f l m)) ≡ ok v
    → HasKinds (some (a_list, some a_list, a_scalar)) lhs rhs v
unfolding get_list
dot_lem f (of_list l) (of_list m) v h = (refl, refl, scalar_result-kind (f l m) v h)
dot_lem f (of_list l) (of_scalar x) v h = cc
dot_lem f (of_scalar x) rhs v h = cc

scalars_lem :
    (f : Scalar → Scalar → Result Scalar) (lhs rhs v : ExprResult)
    → on_scalars lhs rhs (λ x y. scalar_result (f x y)) ≡ ok v
    → HasKinds (some (a_scalar, some a_scalar, a_scalar)) lhs rhs v
unfolding get_scalar
scalars_lem f (of_scalar x) (of_scalar y) v h = (refl, refl, scalar_result-kind (f x y) v h)
scalars_lem f (of_scalar x) (of_list m) v h = cc
scalars_lem f (of_list l) rhs v h = cc

-- A calculation that returns was given operands of the kinds that its operation has, and returns a
-- value of the operation's kind; a type that is no operation never returns.
pub calculate-HasKinds :
    (r : Reducer) (t : ExprType) (lhs rhs v : ExprResult)
    → calculate r t lhs rhs ≡ ok v
    → HasKinds (signature t) lhs rhs v
unfolding calculate
calculate-HasKinds r ExprType.re_min lhs rhs v h = reduce_lem _ lhs rhs v h
calculate-HasKinds r ExprType.re_max lhs rhs v h = reduce_lem _ lhs rhs v h
calculate-HasKinds r ExprType.re_mul lhs rhs v h = reduce_lem _ lhs rhs v h
calculate-HasKinds r ExprType.re_sum lhs rhs v h = reduce_lem _ lhs rhs v h
calculate-HasKinds r ExprType.re_size lhs rhs v h = reduce_lem (λ l. ok (size_list l)) lhs rhs v h
calculate-HasKinds r ExprType.me_add lhs rhs v h = map_lem _ lhs rhs v h
calculate-HasKinds r ExprType.me_mul lhs rhs v h = map_lem _ lhs rhs v h
calculate-HasKinds r ExprType.me_div lhs rhs v h = map_lem _ lhs rhs v h
calculate-HasKinds r ExprType.lo_add lhs rhs v h = lists_lem _ lhs rhs v h
calculate-HasKinds r ExprType.lo_mul lhs rhs v h = lists_lem _ lhs rhs v h
calculate-HasKinds r ExprType.lo_div lhs rhs v h = lists_lem _ lhs rhs v h
calculate-HasKinds r ExprType.lo_dot lhs rhs v h = dot_lem _ lhs rhs v h
calculate-HasKinds r ExprType.so_add lhs rhs v h = scalars_lem _ lhs rhs v h
calculate-HasKinds r ExprType.so_mul lhs rhs v h = scalars_lem _ lhs rhs v h
calculate-HasKinds r ExprType.so_div lhs rhs v h = scalars_lem _ lhs rhs v h
calculate-HasKinds r ExprType.so_max lhs rhs v h =
    scalars_lem (λ x y. ok (max_scalars x y)) lhs rhs v h
calculate-HasKinds r ExprType.so_min lhs rhs v h =
    scalars_lem (λ x y. ok (min_scalars x y)) lhs rhs v h
calculate-HasKinds r _ lhs rhs v h = cc

-- A task whose operands can be read, whose operation returns and under whose id nothing is stored
-- leaves its result under its own id, changes what no other id reads, and is answered with its
-- identity and id.
pub calculate_task-stores :
    (r : Reducer) (s : Store) (t : WorkerTask) (values : List ExprResult) (v : ExprResult)
    → extract_operands s t.task.operands ≡ ok values
    → calculate_task_impl r (expr_type_of t.task.operation_type) values ≡ ok v
    → find_row (dyn_record_id t.task.id.problem_id t.task.id.task_id) s.dynamic_data ≡ none
    → (s' : Store) × (calculate_task r s t
        ≡ ok (s', record { identity = t.identity; id = t.task.id }))
      × (read_data s' (dyn_id (dyn_record_id t.task.id.problem_id t.task.id.task_id)) ≡ ok v)
      × ((k : TaskId)
          → k ≢ dyn_record_id t.task.id.problem_id t.task.id.task_id
          → read_data s' (dyn_id k) ≡ read_data s (dyn_id k))
unfolding calculate_task
calculate_task-stores r s t values v operands result fresh =
    let (reads, others) =
      read_data-write_dynamic_data s t.task.id.problem_id t.task.id.task_id v fresh in
    (
      write_dynamic_data s t.task.id.problem_id t.task.id.task_id v,
      rw (operands, result) refl,
      reads,
      others,
    )
