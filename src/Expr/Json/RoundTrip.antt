-- ===== src/Expr/Json/RoundTrip.antt =====
-- `FromJsonImpl` against the documents that stand for trees.
use distributed_task_dispatc.Prelude.{
  ◌≡◌, refl, Option, none, some, String, Result, ok, arith, ◌≤◌, ◌^◌, ◌<◌,
}
use distributed_task_dispatc.Prelude.Int.{pos, negsuc, pos_part, neg_part}
use distributed_task_dispatc.Domain.{ExprType, Scalar, enum_name}
use distributed_task_dispatc.Expr.{
  Expr, Pointer, nullptr, ptr, reduce, map_op, list_op, scalar_op, list, scalar_const, scalar_var,
  get_type, new, ReduceType, MapType, ListOpType, ScalarOpType,
}
use distributed_task_dispatc.Expr.Json.{
  Json, Members, no_members, member, string, integer, object, from_json, at, from_json_impl,
  to_int32,
}

abbrev pub one : String → Json → Json
one key value = object (member key value no_members)

abbrev pub add_member : String → Option Json → Members → Members
add_member key none rest = rest
add_member key (some value) rest = member key value rest

abbrev pub unary : ExprType → Option Json → Json
unary type lhs = one (enum_name type) (object (add_member "lhs" lhs no_members))

abbrev pub binary : ExprType → Option Json → Option Json → Json
binary type lhs rhs =
    one (enum_name type) (object (add_member "lhs" lhs (add_member "rhs" rhs no_members)))

-- The document of a tree: a missing operand has no member.
unfoldable mutual
  pub to_json : Expr → Json
  to_json (reduce t p) = unary (get_type (reduce t p)) (to_member p)
  to_json (map_op t p q) = binary (get_type (map_op t p q)) (to_member p) (to_member q)
  to_json (list_op t p q) = binary (get_type (list_op t p q)) (to_member p) (to_member q)
  to_json (scalar_op t p q) = binary (get_type (scalar_op t p q)) (to_member p) (to_member q)
  to_json (list l) = one "list" (string l)
  to_json (scalar_const x) = one "scalar_const" (integer x)
  to_json (scalar_var x) = one "scalar_var" (string x)

  pub to_member : Pointer → Option Json
  to_member nullptr = none
  to_member (ptr e) = some (to_json e)

abbrev pub IsInt32 : Scalar → Type 0
IsInt32 x = (pos_part x < 2 ^ 31) × (neg_part x ≤ 2 ^ 31)

to_int32-IsInt32 : (x : Scalar) → IsInt32 x → to_int32 x ≡ x
unfolding to_int32
to_int32-IsInt32 (pos n) h = ground arith
to_int32-IsInt32 (negsuc n) h = ground arith

abbrev mutual
  -- Every constant of the tree is a 32-bit integer.
  pub Fits : Expr → Type 0
  Fits (reduce t p) = FitsOperand p
  Fits (map_op t p q) = FitsOperand p × FitsOperand q
  Fits (list_op t p q) = FitsOperand p × FitsOperand q
  Fits (scalar_op t p q) = FitsOperand p × FitsOperand q
  Fits (list l) = Unit {0}
  Fits (scalar_const x) = IsInt32 x
  Fits (scalar_var x) = Unit {0}

  pub FitsOperand : Pointer → Type 0
  FitsOperand nullptr = Unit {0}
  FitsOperand (ptr e) = Fits e

mutual
  unfolding from_json_impl to_json new get_type

  read_node : (e : Expr) → Fits e → from_json_impl (to_json e) ≡ ok e
  read_node (reduce ReduceType.min nullptr) h = refl
  read_node (reduce _ nullptr) h = refl
  read_node (reduce ReduceType.min (ptr e)) h = rw (read_node e h) refl
  read_node (reduce _ (ptr e)) h = rw (read_node e h) refl
  read_node (map_op MapType.add nullptr nullptr) h = refl
  read_node (map_op _ nullptr nullptr) h = refl
  read_node (map_op MapType.add (ptr d) nullptr) h = rw (read_node d h.0) refl
  read_node (map_op _ (ptr d) nullptr) h = rw (read_node d h.0) refl
  read_node (map_op MapType.add nullptr (ptr e)) h = rw (read_node e h.1) refl
  read_node (map_op _ nullptr (ptr e)) h = rw (read_node e h.1) refl
  read_node (map_op MapType.add (ptr d) (ptr e)) h = rw (read_node d h.0, read_node e h.1) refl
  read_node (map_op _ (ptr d) (ptr e)) h = rw (read_node d h.0, read_node e h.1) refl
  read_node (list_op ListOpType.add nullptr nullptr) h = refl
  read_node (list_op _ nullptr nullptr) h = refl
  read_node (list_op ListOpType.add (ptr d) nullptr) h = rw (read_node d h.0) refl
  read_node (list_op _ (ptr d) nullptr) h = rw (read_node d h.0) refl
  read_node (list_op ListOpType.add nullptr (ptr e)) h = rw (read_node e h.1) refl
  read_node (list_op _ nullptr (ptr e)) h = rw (read_node e h.1) refl
  read_node (list_op ListOpType.add (ptr d) (ptr e)) h = rw (read_node d h.0, read_node e h.1) refl
  read_node (list_op _ (ptr d) (ptr e)) h = rw (read_node d h.0, read_node e h.1) refl
  read_node (scalar_op ScalarOpType.add nullptr nullptr) h = refl
  read_node (scalar_op _ nullptr nullptr) h = refl
  read_node (scalar_op ScalarOpType.add (ptr d) nullptr) h = rw (read_node d h.0) refl
  read_node (scalar_op _ (ptr d) nullptr) h = rw (read_node d h.0) refl
  read_node (scalar_op ScalarOpType.add nullptr (ptr e)) h = rw (read_node e h.1) refl
  read_node (scalar_op _ nullptr (ptr e)) h = rw (read_node e h.1) refl
  read_node (scalar_op ScalarOpType.add (ptr d) (ptr e)) h =
      rw (read_node d h.0, read_node e h.1) refl
  read_node (scalar_op _ (ptr d) (ptr e)) h = rw (read_node d h.0, read_node e h.1) refl
  read_node (list l) h = refl
  read_node (scalar_const x) h = rw (to_int32-IsInt32 x h) refl
  read_node (scalar_var x) h = refl

-- Every tree whose constants are 32-bit integers is what the program reads from its document, null
-- operands included; the document has the tree under "ast".
pub from_json-to_json :
    (parse : String → Result Json) (input : String) (e : Expr)
    → Fits e
    → parse input ≡ ok (one "ast" (to_json e))
    → from_json parse input ≡ ok e
unfolding from_json at
from_json-to_json parse input e fits parsed = rw (parsed, read_node e fits) refl
