-- ===== src/Expr.antt =====
-- manager/src/decomposition/expression.h and expression.cpp: the class hierarchy of expressions,
-- the factory `Expr::New` and the operations that each class overrides.
pub mod Equality
pub mod Traversal
pub mod Subexpressions
pub mod Json
pub mod Printing
pub mod Ast
use distributed_task_dispatc.Prelude.{
  ℕ, ◌≡◌, refl, Bool, true, false, ◌&&◌, Option, none, some, String, ◌==◌, str_eq, Result, ok, err,
  Fault, invalid_argument, bad_optional_access, bad_deref, ◌>>=◌, or_fault,
}
use distributed_task_dispatc.Prelude.Int.{eqb_ℤ}
use distributed_task_dispatc.Domain
use distributed_task_dispatc.Domain.{ExprType, Scalar, VariableId}

-- The `Type` of each class.
pub data ReduceType : Type 0 where
  min max mul sum size : ReduceType

pub data MapType : Type 0 where
  add mul div : MapType

pub data ListOpType : Type 0 where
  add mul div dot : ListOpType

pub data ScalarOpType : Type 0 where
  add mul div max min : ScalarOpType

mutual
  -- A node of each class. Operands are `std::unique_ptr<Expr>`.
  pub data Expr : Type 0 where
    reduce : ReduceType → Pointer → Expr
    map_op : MapType → Pointer → Pointer → Expr
    list_op : ListOpType → Pointer → Pointer → Expr
    scalar_op : ScalarOpType → Pointer → Pointer → Expr
    list : VariableId → Expr
    scalar_const : Scalar → Expr
    scalar_var : VariableId → Expr

  pub data Pointer : Type 0 where
    nullptr : Pointer
    ptr : Expr → Pointer

-- `std::variant<std::monostate, domain::VariableId, domain::Scalar>`.
pub data ExprData : Type 0 where
  monostate : ExprData
  variable : VariableId → ExprData
  constant : Scalar → ExprData

unfoldable pub get_type : Expr → ExprType
get_type (reduce ReduceType.min p) = ExprType.re_min
get_type (reduce ReduceType.max p) = ExprType.re_max
get_type (reduce ReduceType.mul p) = ExprType.re_mul
get_type (reduce ReduceType.sum p) = ExprType.re_sum
get_type (reduce ReduceType.size p) = ExprType.re_size
get_type (map_op MapType.mul p q) = ExprType.me_mul
get_type (map_op MapType.add p q) = ExprType.me_add
get_type (map_op MapType.div p q) = ExprType.me_div
get_type (list_op ListOpType.mul p q) = ExprType.lo_mul
get_type (list_op ListOpType.add p q) = ExprType.lo_add
get_type (list_op ListOpType.div p q) = ExprType.lo_div
get_type (list_op ListOpType.dot p q) = ExprType.lo_dot
get_type (scalar_op ScalarOpType.mul p q) = ExprType.so_mul
get_type (scalar_op ScalarOpType.add p q) = ExprType.so_add
get_type (scalar_op ScalarOpType.div p q) = ExprType.so_div
get_type (scalar_op ScalarOpType.max p q) = ExprType.so_max
get_type (scalar_op ScalarOpType.min p q) = ExprType.so_min
get_type (list l) = ExprType.list
get_type (scalar_const x) = ExprType.scalar_const
get_type (scalar_var x) = ExprType.scalar_var

unfoldable pub get_lhs : Expr → Pointer
get_lhs (reduce t p) = p
get_lhs (map_op t p q) = p
get_lhs (list_op t p q) = p
get_lhs (scalar_op t p q) = p
get_lhs (list l) = nullptr
get_lhs (scalar_const x) = nullptr
get_lhs (scalar_var x) = nullptr

unfoldable pub get_rhs : Expr → Pointer
get_rhs (reduce t p) = nullptr
get_rhs (map_op t p q) = q
get_rhs (list_op t p q) = q
get_rhs (scalar_op t p q) = q
get_rhs (list l) = nullptr
get_rhs (scalar_const x) = nullptr
get_rhs (scalar_var x) = nullptr

unfoldable pub get_data : Expr → ExprData
get_data (reduce t p) = monostate
get_data (map_op t p q) = monostate
get_data (list_op t p q) = monostate
get_data (scalar_op t p q) = monostate
get_data (list l) = variable l
get_data (scalar_const x) = constant x
get_data (scalar_var x) = variable x

reduce_type_eq : ReduceType → ReduceType → Bool
reduce_type_eq ReduceType.min ReduceType.min = true
reduce_type_eq ReduceType.max ReduceType.max = true
reduce_type_eq ReduceType.mul ReduceType.mul = true
reduce_type_eq ReduceType.sum ReduceType.sum = true
reduce_type_eq ReduceType.size ReduceType.size = true
reduce_type_eq _ _ = false

map_type_eq : MapType → MapType → Bool
map_type_eq MapType.add MapType.add = true
map_type_eq MapType.mul MapType.mul = true
map_type_eq MapType.div MapType.div = true
map_type_eq _ _ = false

list_op_type_eq : ListOpType → ListOpType → Bool
list_op_type_eq ListOpType.add ListOpType.add = true
list_op_type_eq ListOpType.mul ListOpType.mul = true
list_op_type_eq ListOpType.div ListOpType.div = true
list_op_type_eq ListOpType.dot ListOpType.dot = true
list_op_type_eq _ _ = false

scalar_op_type_eq : ScalarOpType → ScalarOpType → Bool
scalar_op_type_eq ScalarOpType.add ScalarOpType.add = true
scalar_op_type_eq ScalarOpType.mul ScalarOpType.mul = true
scalar_op_type_eq ScalarOpType.div ScalarOpType.div = true
scalar_op_type_eq ScalarOpType.max ScalarOpType.max = true
scalar_op_type_eq ScalarOpType.min ScalarOpType.min = true
scalar_op_type_eq _ _ = false

-- The value of `operator==` on expressions without null operands, the only ones that a traversal
-- gives to a visitor: it faults at a null operand before it visits the node. `Equality.equals` is
-- the operator on all expressions.
unfoldable mutual
  unfolding reduce_type_eq map_type_eq list_op_type_eq scalar_op_type_eq

  pub expr_eq : Expr → Expr → Bool
  expr_eq (reduce s p) (reduce t q) = reduce_type_eq s t && pointer_eq p q
  expr_eq (map_op s p p') (map_op t q q') = map_type_eq s t && pointer_eq p q && pointer_eq p' q'
  expr_eq (list_op s p p') (list_op t q q') =
      list_op_type_eq s t && pointer_eq p q && pointer_eq p' q'
  expr_eq (scalar_op s p p') (scalar_op t q q') =
      scalar_op_type_eq s t && pointer_eq p q && pointer_eq p' q'
  expr_eq (list l) (list m) = str_eq l m
  expr_eq (scalar_const x) (scalar_const y) = eqb_ℤ x y
  expr_eq (scalar_var x) (scalar_var y) = str_eq x y
  expr_eq _ _ = false

  pub pointer_eq : Pointer → Pointer → Bool
  pointer_eq (ptr d) (ptr e) = expr_eq d e
  pointer_eq nullptr nullptr = true
  pointer_eq _ _ = false

-- `PostorderTraverse` with a visitor whose state is `S`.
unfoldable mutual
  pub postorder_traverse {ℓ} : {S : Type ℓ} → (S → Expr → S) → Expr → S → Result S
  postorder_traverse visit (reduce t p) s = do
    s₁ ← traverse_operand visit p s
    ok (visit s₁ (reduce t p))
  postorder_traverse visit (map_op t p q) s = do
    s₁ ← traverse_operand visit p s
    s₂ ← traverse_operand visit q s₁
    ok (visit s₂ (map_op t p q))
  postorder_traverse visit (list_op t p q) s = do
    s₁ ← traverse_operand visit p s
    s₂ ← traverse_operand visit q s₁
    ok (visit s₂ (list_op t p q))
  postorder_traverse visit (scalar_op t p q) s = do
    s₁ ← traverse_operand visit p s
    s₂ ← traverse_operand visit q s₁
    ok (visit s₂ (scalar_op t p q))
  postorder_traverse visit (list l) s = ok (visit s (list l))
  postorder_traverse visit (scalar_const x) s = ok (visit s (scalar_const x))
  postorder_traverse visit (scalar_var x) s = ok (visit s (scalar_var x))

  pub traverse_operand {ℓ} : {S : Type ℓ} → (S → Expr → S) → Pointer → S → Result S
  traverse_operand visit nullptr s = err bad_deref
  traverse_operand visit (ptr e) s = postorder_traverse visit e s

-- `Expr::New`. The two optionals are read with `value()`, which throws on an empty one.
unfoldable pub new : ExprType → Pointer → Pointer → Option VariableId → Option Scalar → Result Expr
new ExprType.re_min p q v x = ok (reduce ReduceType.min p)
new ExprType.re_max p q v x = ok (reduce ReduceType.max p)
new ExprType.re_mul p q v x = ok (reduce ReduceType.mul p)
new ExprType.re_sum p q v x = ok (reduce ReduceType.sum p)
new ExprType.re_size p q v x = ok (reduce ReduceType.size p)
new ExprType.me_add p q v x = ok (map_op MapType.add p q)
new ExprType.me_mul p q v x = ok (map_op MapType.mul p q)
new ExprType.me_div p q v x = ok (map_op MapType.div p q)
new ExprType.lo_add p q v x = ok (list_op ListOpType.add p q)
new ExprType.lo_mul p q v x = ok (list_op ListOpType.mul p q)
new ExprType.lo_div p q v x = ok (list_op ListOpType.div p q)
new ExprType.lo_dot p q v x = ok (list_op ListOpType.dot p q)
new ExprType.list p q v x = do id ← or_fault v bad_optional_access; ok (list id)
new ExprType.scalar_const p q v x = do c ← or_fault x bad_optional_access; ok (scalar_const c)
new ExprType.scalar_var p q v x = do id ← or_fault v bad_optional_access; ok (scalar_var id)
new ExprType.so_add p q v x = ok (scalar_op ScalarOpType.add p q)
new ExprType.so_mul p q v x = ok (scalar_op ScalarOpType.mul p q)
new ExprType.so_div p q v x = ok (scalar_op ScalarOpType.div p q)
new ExprType.so_max p q v x = ok (scalar_op ScalarOpType.max p q)
new ExprType.so_min p q v x = ok (scalar_op ScalarOpType.min p q)
new ExprType.invalid p q v x = err invalid_argument
