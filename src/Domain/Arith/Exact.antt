-- ===== src/Domain/Arith/Exact.antt =====
-- `Sum` of a list, a `std::reduce` over `+`, against the exact sum.
use mathlib.Core.List.{Permᴰ}
use distributed_task_dispatc.Prelude.{
  ℕ, ◌+◌, ◌≤◌, ◌<◌, ◌^◌, ◌≡◌, refl, sym, ap, ◌∙◌, [], ◌∷◌, ◌++◌, ok, arith, >>=-eq-ok,
}
use distributed_task_dispatc.Prelude.Int.{ℤ, pos, pos_part, neg_part, ◌+ℤ◌, int_laws, eq_of_parts}
use distributed_task_dispatc.Domain.Types.{Scalar, Vector}
use distributed_task_dispatc.Domain.Arith.{
  checked, sum_scalars, Plan, leaf, node, leaves, run_plan, Reducer, sum_list,
}

-- The exact sum of a list, and the sum of the magnitudes of its elements.
unfoldable pub total : Vector → ℤ
total [] = pos 0
total (x ∷ l) = x +ℤ total l

unfoldable pub weight : Vector → ℕ
weight [] = 0
weight (x ∷ l) = pos_part x + neg_part x + weight l

pub checked-ok : (z v : ℤ) → checked z ≡ ok v → v ≡ z
unfolding checked
checked-ok z v h = ground arith

pub checked_small : (z : ℤ) → pos_part z + neg_part z < 2 ^ 31 → checked z ≡ ok z
unfolding checked
checked_small z h = ground arith

total-append : (xs ys : Vector) → total (xs ++ ys) ≡ total xs +ℤ total ys
unfolding total
total-append [] ys = omega int_laws
total-append (x ∷ xs) ys = rw (total-append xs ys) (omega int_laws)

weight-append : (xs ys : Vector) → weight (xs ++ ys) ≡ weight xs + weight ys
unfolding weight
weight-append [] ys = omega arith
weight-append (x ∷ xs) ys = omega (arith, weight-append xs ys)

total-perm : {xs ys : Vector} → Permᴰ xs ys → total xs ≡ total ys
unfolding total
total-perm Permᴰ.nil = refl
total-perm (Permᴰ.cons {a} {b} {l₁} {l₂} e p) = rw (e, total-perm p) refl
total-perm (Permᴰ.swap {a} {b} {a'} {b'} {l} e f) = rw (e, f) (omega int_laws)
total-perm (Permᴰ.trans p q) = total-perm p ∙ total-perm q

weight-perm : {xs ys : Vector} → Permᴰ xs ys → weight xs ≡ weight ys
unfolding weight
weight-perm Permᴰ.nil = refl
weight-perm (Permᴰ.cons {a} {b} {l₁} {l₂} e p) = rw (e, weight-perm p) refl
weight-perm (Permᴰ.swap {a} {b} {a'} {b'} {l} e f) = rw (e, f) (omega arith)
weight-perm (Permᴰ.trans p q) = weight-perm p ∙ weight-perm q

magnitude_add :
    (a b : ℤ)
    → pos_part (a +ℤ b) + neg_part (a +ℤ b) ≤ pos_part a + neg_part a + (pos_part b + neg_part b)
unfolding ◌+ℤ◌
magnitude_add a b = ground arith

total-le-weight : (l : Vector) → pos_part (total l) + neg_part (total l) ≤ weight l
unfolding total weight
total-le-weight [] = omega arith
total-le-weight (x ∷ l) = omega (arith, total-le-weight l, magnitude_add x (total l))

run_plan-ok : (p : Plan) (v : ℤ) → run_plan sum_scalars p ≡ ok v → v ≡ total (leaves p)
unfolding run_plan total sum_scalars
run_plan-ok (leaf x) v h =
    let same : v ≡ x = cc h in same ∙ eq_of_parts x (x +ℤ pos 0) (omega int_laws)
run_plan-ok (node p q) v h =
    let (a, ha, h') = >>=-eq-ok (run_plan sum_scalars p) _ h in
    let (b, hb, h'') = >>=-eq-ok (run_plan sum_scalars q) _ h' in
    checked-ok (a +ℤ b) v h''
    ∙ rw (run_plan-ok p a ha, run_plan-ok q b hb) (sym (total-append (leaves p) (leaves q)))

run_plan-total :
    (p : Plan) → weight (leaves p) < 2 ^ 31 → run_plan sum_scalars p ≡ ok (total (leaves p))
unfolding run_plan total sum_scalars
run_plan-total (leaf x) h = ap ok (eq_of_parts x (x +ℤ pos 0) (omega int_laws))
run_plan-total (node p q) h =
    let split = weight-append (leaves p) (leaves q) in
    let both = total-append (leaves p) (leaves q) in
    let small = total-le-weight (leaves p ++ leaves q) in
    rw (run_plan-total p (omega arith), run_plan-total q (omega arith), ← both)
      (checked_small (total (leaves p ++ leaves q)) (omega arith))

-- Whatever order and grouping the standard library chooses, a sum that is returned is the exact sum
-- of the list.
pub sum_list-exact : (r : Reducer) (l : Vector) (v : Scalar) → sum_list r l ≡ ok v → v ≡ total l
unfolding sum_list total
sum_list-exact r l v h =
    run_plan-ok (r.plan (pos 0) l) v h
    ∙ total-perm (r.uses_all (pos 0) l)
    ∙ eq_of_parts (pos 0 +ℤ total l) (total l) (omega int_laws)

-- If the magnitudes of the elements add up to less than 2 ^ 31, no order or grouping that the
-- standard library chooses overflows: the exact sum is returned.
pub sum_list-total : (r : Reducer) (l : Vector) → weight l < 2 ^ 31 → sum_list r l ≡ ok (total l)
unfolding sum_list weight total
sum_list-total r l h =
    let same = weight-perm (r.uses_all (pos 0) l) in
    run_plan-total (r.plan (pos 0) l) (omega arith)
    ∙ ap ok (
        total-perm (r.uses_all (pos 0) l)
        ∙ eq_of_parts (pos 0 +ℤ total l) (total l) (omega int_laws))
