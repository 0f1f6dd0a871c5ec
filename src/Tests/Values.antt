-- ===== src/Tests/Values.antt =====
-- Sums, maxima and enumerators at concrete values.
use distributed_task_dispatc.Prelude.{◌^◌, ◌<◌, ◌≡◌, refl, [], ◌∷◌, ok, arith}
use mathlib.Core.List.{Permᴰ}
use distributed_task_dispatc.Prelude.Int.{pos, negsuc, ◌+ℤ◌}
use distributed_task_dispatc.Domain.{Scalar, Vector}
use distributed_task_dispatc.Domain.Arith.{
  Plan, leaf, node, leaves, Reducer, sum_list, run_plan, sum_scalars, checked,
}
use distributed_task_dispatc.Domain.Arith.Exact.{total, weight, sum_list-exact, sum_list-total}

-- From left to right, with the initial value last.
abbrev pub right_plan : Scalar → Vector → Plan
right_plan init [] = leaf init
right_plan init (x ∷ l) = node (leaf x) (right_plan init l)

pub right_plan-perm : (init : Scalar) (l : Vector) → Permᴰ (leaves (right_plan init l)) (init ∷ l)
right_plan-perm init [] = Permᴰ.cons refl Permᴰ.nil
right_plan-perm init (x ∷ l) =
    Permᴰ.trans (Permᴰ.cons refl (right_plan-perm init l)) (Permᴰ.swap refl refl)

abbrev pub from_right : Reducer
from_right = record { plan = right_plan; uses_all = right_plan-perm }

abbrev pub sample : Vector
sample = pos 3 ∷ negsuc 1 ∷ pos 4 ∷ []

sample_run : sum_list from_right sample ≡ ok (pos 5)
unfolding sum_list run_plan sum_scalars checked ◌+ℤ◌
sample_run = refl

sum_list-exact_example : pos 5 ≡ total sample
sum_list-exact_example = sum_list-exact from_right sample (pos 5) sample_run

sample-weight : weight sample < 2 ^ 31
unfolding weight
sample-weight = omega arith

sum_list-total_example : sum_list from_right sample ≡ ok (total sample)
sum_list-total_example = sum_list-total from_right sample sample-weight
