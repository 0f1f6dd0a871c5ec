-- ===== src/Domain/Types.antt =====
-- common/domain/domain.h: the types that the processes share. A `Scalar` is a C++ `int`, kept as
-- an integer; the operations of `Domain.Arith` check its 32-bit range.
use distributed_task_dispatc.Prelude.{ℕ, ◌≡◌, refl, List, [], ◌∷◌, Option, some, String, get_elem?}
use distributed_task_dispatc.Prelude.Int.{ℤ}

pub data ExprType : Type 0 where
  invalid re_min re_max re_mul re_sum re_size me_add me_mul me_div : ExprType
  lo_add lo_mul lo_div lo_dot so_add so_mul so_div so_max so_min : ExprType
  list scalar_const scalar_var : ExprType

abbrev pub Scalar : Type 0
Scalar = ℤ

abbrev pub Vector : Type 0
Vector = List Scalar

abbrev pub VariableId : Type 0
VariableId = String

-- `std::variant<List, Scalar>`.
pub data ExprResult : Type 0 where
  of_list : Vector → ExprResult
  of_scalar : Scalar → ExprResult

-- The enumerators in their order.
abbrev pub expr_types : List ExprType
expr_types =
    invalid ∷ re_min ∷ re_max ∷ re_mul ∷ re_sum ∷ re_size ∷ me_add ∷ me_mul ∷ me_div ∷ lo_add
    ∷ lo_mul ∷ lo_div ∷ lo_dot ∷ so_add ∷ so_mul ∷ so_div ∷ so_max ∷ so_min ∷ list ∷ scalar_const
    ∷ scalar_var ∷ []

-- `static_cast<size_t>(type)`.
unfoldable pub type_index : ExprType → ℕ
type_index invalid = 0
type_index re_min = 1
type_index re_max = 2
type_index re_mul = 3
type_index re_sum = 4
type_index re_size = 5
type_index me_add = 6
type_index me_mul = 7
type_index me_div = 8
type_index lo_add = 9
type_index lo_mul = 10
type_index lo_div = 11
type_index lo_dot = 12
type_index so_add = 13
type_index so_mul = 14
type_index so_div = 15
type_index so_max = 16
type_index so_min = 17
type_index list = 18
type_index scalar_const = 19
type_index scalar_var = 20

-- `static_cast<domain::ExprType>(n)`; `none` for a number that names no enumerator.
unfoldable pub expr_type_of : ℕ → Option ExprType
expr_type_of n = get_elem? expr_types n

-- `magic_enum::enum_name`: the enumerator as it is spelled.
abbrev pub enum_name : ExprType → String
enum_name invalid = "invalid"
enum_name re_min = "re_min"
enum_name re_max = "re_max"
enum_name re_mul = "re_mul"
enum_name re_sum = "re_sum"
enum_name re_size = "re_size"
enum_name me_add = "me_add"
enum_name me_mul = "me_mul"
enum_name me_div = "me_div"
enum_name lo_add = "lo_add"
enum_name lo_mul = "lo_mul"
enum_name lo_div = "lo_div"
enum_name lo_dot = "lo_dot"
enum_name so_add = "so_add"
enum_name so_mul = "so_mul"
enum_name so_div = "so_div"
enum_name so_max = "so_max"
enum_name so_min = "so_min"
enum_name list = "list"
enum_name scalar_const = "scalar_const"
enum_name scalar_var = "scalar_var"

-- The cast of an enumerator to a number and back gives the enumerator.
pub expr_type_of-type_index : (t : ExprType) → expr_type_of (type_index t) ≡ some t
unfolding expr_type_of type_index
expr_type_of-type_index invalid = refl
expr_type_of-type_index _ = refl
