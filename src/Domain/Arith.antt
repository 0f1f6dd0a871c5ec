-- ===== src/Domain/Arith.antt =====
-- common/domain/domain.cpp: the operations on scalars and lists. An `int` operation whose exact
-- result is outside of 32 bits is undefined, as is a division by zero: both are the fault
-- `overflow`. A false `assert` is the fault `failed_assert`.
pub mod Exact
pub mod Loops
use mathlib.Core.List.{Permᴰ}
use distributed_task_dispatc.Prelude.{
  ℕ, zero, suc, ◌+◌, ◌-◌, ◌/◌, ◌%◌, ◌^◌, ◌≡◌, Bool, true, false, not, ◌&&◌, ◌==◌, List, [], ◌∷◌,
  ◌++◌, Result, ok, err, ◌>>=◌, ◌>>◌, or_fault, overflow, failed_assert, bad_deref, get_elem?, set,
  length, replicate, ltb, leb, if◌then◌else◌,
}
use distributed_task_dispatc.Prelude.Int.{
  ℤ, pos, negsuc, pos_part, neg_part, ◌+ℤ◌, ◌*ℤ◌, ltb_ℤ, eqb_ℤ,
}
use distributed_task_dispatc.Domain.Types.{Scalar, Vector}

abbrev pub in_int : ℤ → Bool
in_int z = leb (neg_part z) (2 ^ 31) && ltb (pos_part z) (2 ^ 31)

unfoldable pub checked : ℤ → Result Scalar
checked z = if in_int z then ok z else err overflow

-- The integer -n.
abbrev pub negated : ℕ → ℤ
negated zero = pos 0
negated (suc n) = negsuc n

-- Division towards zero.
unfoldable pub quotient : ℤ → ℤ → ℤ
quotient (pos a) (pos b) = pos (a / b)
quotient (pos a) (negsuc b) = negated (a / suc b)
quotient (negsuc a) (pos b) = negated (suc a / b)
quotient (negsuc a) (negsuc b) = pos (suc a / suc b)

-- `Mul`, `Div`, `Sum`, `Min` and `Max` of two scalars.
unfoldable pub mul_scalars : Scalar → Scalar → Result Scalar
mul_scalars x₁ x₂ = checked (x₁ *ℤ x₂)

unfoldable pub div_scalars : Scalar → Scalar → Result Scalar
div_scalars x₁ x₂ = if eqb_ℤ x₂ (pos 0) then err overflow else checked (quotient x₁ x₂)

unfoldable pub sum_scalars : Scalar → Scalar → Result Scalar
sum_scalars x₁ x₂ = checked (x₁ +ℤ x₂)

-- `std::min(a, b)` is `(b < a) ? b : a`, and `std::max(a, b)` is `(a < b) ? b : a`.
unfoldable pub min_scalars : Scalar → Scalar → Scalar
min_scalars x₁ x₂ = if ltb_ℤ x₂ x₁ then x₂ else x₁

unfoldable pub max_scalars : Scalar → Scalar → Scalar
max_scalars x₁ x₂ = if ltb_ℤ x₁ x₂ then x₂ else x₁

-- `std::min` of two iterators, as positions in the list, and `*` of an iterator.
abbrev pub min_iterator : ℕ → ℕ → ℕ
min_iterator a b = if ltb b a then b else a

unfoldable pub dereference : Vector → ℕ → Result Scalar
dereference l i = or_fault (get_elem? l i) bad_deref

-- `Min(l)` and `Max(l)`: both are `*std::min(l.begin(), l.end())`.
unfoldable pub min_list : Vector → Result Scalar
unfolding dereference
min_list l = dereference l (min_iterator 0 (length l))

unfoldable pub max_list : Vector → Result Scalar
unfolding dereference
max_list l = dereference l (min_iterator 0 (length l))

-- `Size(l)`: the conversion of a `size_t` to an `int`.
unfoldable pub size_list : Vector → Scalar
size_list l = let m = length l % 2 ^ 32 in if ltb m (2 ^ 31) then pos m else negated (2 ^ 32 - m)

-- An order and a grouping in which `std::reduce` may combine its values: C++ leaves both open.
pub data Plan : Type 0 where
  leaf : Scalar → Plan
  node : Plan → Plan → Plan

abbrev pub leaves : Plan → Vector
leaves (leaf x) = x ∷ []
leaves (node p q) = leaves p ++ leaves q

unfoldable pub run_plan : (Scalar → Scalar → Result Scalar) → Plan → Result Scalar
run_plan op (leaf x) = ok x
run_plan op (node p q) = do a ← run_plan op p; b ← run_plan op q; op a b

-- What a standard library may choose: a plan for the initial value and the elements, each once.
pub record Reducer : Type 0 where
  pub plan : Scalar → Vector → Plan
  pub uses_all : (init : Scalar) (l : Vector) → Permᴰ (leaves (plan init l)) (init ∷ l)

-- `Mul(l)` and `Sum(l)`.
unfoldable pub mul_list : Reducer → Vector → Result Scalar
unfolding run_plan
mul_list r l = run_plan mul_scalars (r.plan (pos 1) l)

unfoldable pub sum_list : Reducer → Vector → Result Scalar
unfolding run_plan
sum_list r l = run_plan sum_scalars (r.plan (pos 0) l)

-- `std::transform` over a list.
unfoldable pub transform : (Scalar → Result Scalar) → Vector → Result Vector
transform f [] = ok []
transform f (y ∷ l) = do z ← f y; rest ← transform f l; ok (z ∷ rest)

-- `Mul`, `Div` and `Sum` of a list and a scalar.
unfoldable pub mul_with : Vector → Scalar → Result Vector
unfolding transform
mul_with l x = transform (λ y. mul_scalars y x) l

unfoldable pub div_with : Vector → Scalar → Result Vector
unfolding transform
div_with l x = transform (λ y. div_scalars y x) l

unfoldable pub sum_with : Vector → Scalar → Result Vector
unfolding transform
sum_with l x = transform (λ y. sum_scalars y x) l

unfoldable pub assert : Bool → Result (Unit {0})
assert true = ok tt
assert false = err failed_assert

-- `for (size_t i = 0; i < l1.size(); ++i) { new_l[i] = op(l1[i], l2[i]); }`, on the rounds left.
unfoldable pub fill :
    (Scalar → Scalar → Result Scalar) → Vector → Vector → ℕ → ℕ → Vector → Result Vector
fill op l₁ l₂ zero i new_l = ok new_l
fill op l₁ l₂ (suc rounds) i new_l = do
  a ← or_fault (get_elem? l₁ i) bad_deref
  b ← or_fault (get_elem? l₂ i) bad_deref
  c ← op a b
  fill op l₁ l₂ rounds (suc i) (set new_l i c)

abbrev pub pointwise : (Scalar → Scalar → Result Scalar) → Vector → Vector → Result Vector
pointwise op l₁ l₂ = do
  assert (length l₁ == length l₂)
  fill op l₁ l₂ (length l₁) 0 (replicate (length l₁) (pos 0))

-- `Sum`, `Mul` and `Div` of two lists.
unfoldable pub sum_lists : Vector → Vector → Result Vector
unfolding fill assert
sum_lists l₁ l₂ = pointwise sum_scalars l₁ l₂

unfoldable pub mul_lists : Vector → Vector → Result Vector
unfolding fill assert
mul_lists l₁ l₂ = pointwise mul_scalars l₁ l₂

unfoldable pub div_lists : Vector → Vector → Result Vector
unfolding fill assert
div_lists l₁ l₂ = pointwise div_scalars l₁ l₂

-- `std::inner_product`; the second range is read at the pace of the first.
unfoldable pub inner_product : Vector → Vector → Scalar → Result Scalar
inner_product [] l₂ acc = ok acc
inner_product (a ∷ l₁) [] acc = err bad_deref
inner_product (a ∷ l₁) (b ∷ l₂) acc = do
  p ← mul_scalars a b
  s ← sum_scalars acc p
  inner_product l₁ l₂ s

unfoldable pub dot : Vector → Vector → Result Scalar
unfolding inner_product assert
dot l₁ l₂ = do assert (length l₁ == length l₂); inner_product l₁ l₂ (pos 0)
