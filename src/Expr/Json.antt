-- ===== src/Expr/Json.antt =====
-- manager/src/decomposition/expression.h: `STRING_TO_EXPR_TYPE`, and expression.cpp:
-- `FromJsonImpl` and `Expr::FromJson`. The values of nlohmann::json are the data type `Json`;
-- its parser is a parameter. A number with a fraction is not among the values.
pub mod RoundTrip
use text.Mathlib.Text.{starts_with}
use distributed_task_dispatc.Prelude.{
  ℕ, suc, ◌+◌, ◌-◌, ◌%◌, ◌^◌, Bool, true, false, List, [], ◌∷◌, Option, none, some, String, str_eq,
  Result, ok, err, ◌>>=◌, or_fault, out_of_range, bad_deref, json_exception, if◌then◌else◌, ltb,
  lookup, Eq_string,
}
use distributed_task_dispatc.Prelude.Int.{ℤ, pos, negsuc}
use distributed_task_dispatc.Domain.{ExprType, Scalar, VariableId}
use distributed_task_dispatc.Expr.{Expr, Pointer, nullptr, ptr, new}

mutual
  -- The members of an object are in the order in which the library iterates over them.
  pub data Json : Type 0 where
    null : Json
    boolean : Bool → Json
    integer : ℤ → Json
    string : String → Json
    array : Items → Json
    object : Members → Json

  pub data Items : Type 0 where
    no_items : Items
    item : Json → Items → Items

  pub data Members : Type 0 where
    no_members : Members
    member : String → Json → Members → Members

-- `STRING_TO_EXPR_TYPE`.
unfoldable pub string_to_expr_type : List (String × ExprType)
string_to_expr_type =
    ("invalid", ExprType.invalid)
    ∷ ("re_min", ExprType.re_min)
    ∷ ("re_max", ExprType.re_max)
    ∷ ("re_mul", ExprType.re_mul)
    ∷ ("re_sum", ExprType.re_sum)
    ∷ ("re_size", ExprType.re_size)
    ∷ ("me_add", ExprType.me_add)
    ∷ ("me_mul", ExprType.me_mul)
    ∷ ("me_div", ExprType.me_div)
    ∷ ("lo_add", ExprType.lo_add)
    ∷ ("lo_mul", ExprType.lo_mul)
    ∷ ("lo_div", ExprType.lo_div)
    ∷ ("lo_dot", ExprType.lo_dot)
    ∷ ("so_add", ExprType.so_add)
    ∷ ("so_mul", ExprType.so_mul)
    ∷ ("so_div", ExprType.so_div)
    ∷ ("so_max", ExprType.so_max)
    ∷ ("so_min", ExprType.so_min)
    ∷ ("list", ExprType.list)
    ∷ ("scalar_const", ExprType.scalar_const)
    ∷ ("scalar_var", ExprType.scalar_var)
    ∷ []

-- A conversion to a 32-bit integer keeps the low 32 bits, read as two's complement.
abbrev pub signed : ℕ → ℤ
signed low = if ltb low (2 ^ 31) then pos low else negsuc (2 ^ 32 - 1 - low)

unfoldable pub to_int32 : ℤ → Scalar
to_int32 (pos n) = signed (n % 2 ^ 32)
to_int32 (negsuc n) = signed (2 ^ 32 - 1 - n % 2 ^ 32)

-- `get<std::string>` and `get<int>`.
unfoldable pub get_string : Json → Result String
get_string (string s) = ok s
get_string _ = err json_exception

unfoldable pub get_int : Json → Result Scalar
unfolding to_int32
get_int (integer x) = ok (to_int32 x)
get_int (boolean true) = ok (pos 1)
get_int (boolean false) = ok (pos 0)
get_int _ = err json_exception

-- `FromJsonImpl`, on the key and the value of the first member. `key` of what is no object throws;
-- the first member of an empty object does not exist. `read_member` is the operand under a name:
-- `contains` is false of what is no object.
-- The left operand is read first; C++ leaves the order of the two open.
unfoldable mutual
  unfolding get_string get_int string_to_expr_type lookup

  pub from_json_impl : Json → Result Expr
  from_json_impl (object no_members) = err bad_deref
  from_json_impl (object (member key node rest)) =
      let operation = (do
        type ← or_fault (lookup key string_to_expr_type) out_of_range
        lhs ← read_operand "lhs" node
        rhs ← read_operand "rhs" node
        new type lhs rhs none none) in
      let constant = (do
        x ← get_int node
        new ExprType.scalar_const nullptr nullptr none (some x)) in
      let scalar = (do
        id ← get_string node
        new ExprType.scalar_var nullptr nullptr (some id) none) in
      let variable = (do id ← get_string node; new ExprType.list nullptr nullptr (some id) none) in
      if str_eq key "list"
      then variable
      else if starts_with key "scalar"
      then if str_eq key "scalar_var" then scalar else constant
      else operation
  from_json_impl _ = err json_exception

  pub read_operand : String → Json → Result Pointer
  read_operand name (object members) = read_member name members
  read_operand name _ = ok nullptr

  pub read_member : String → Members → Result Pointer
  read_member name no_members = ok nullptr
  read_member name (member key node rest) =
      let here = (do e ← from_json_impl node; ok (ptr e)) in
      let there = read_member name rest in if str_eq key name then here else there

-- `at`.
unfoldable pub at : String → Json → Result Json
at name (object no_members) = err json_exception
at name (object (member key node rest)) = if str_eq key name then ok node else at name (object rest)
at name _ = err json_exception

-- `Expr::FromJson`, of the text that the stream holds.
unfoldable pub from_json : (String → Result Json) → String → Result Expr
unfolding at from_json_impl
from_json parse input = do json_ast ← parse input; root ← at "ast" json_ast; from_json_impl root
