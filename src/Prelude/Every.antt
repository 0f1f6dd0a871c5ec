-- ===== src/Prelude/Every.antt =====
-- Predicates that hold of each element of a list.
use mathlib.Core.Path.{refl, sym, subst}
use mathlib.Core.Logic.{inl, inr}
use mathlib.Core.List.{List, [], ◌∷◌, ◌++◌}
use distributed_task_dispatc.Prelude.Lists.{All, In}

module _ {ℓ} {A : Type ℓ} where
  pub All-append : (P : A → Type 0) (xs ys : List A) → All P xs → All P ys → All P (xs ++ ys)
  All-append P [] ys h k = k
  All-append P (x ∷ xs) ys h k = (h.0, All-append P xs ys h.1 k)

  pub All-replace :
      (P : A → Type 0) (pre post : List A) (x : A)
      → All P (pre ++ x ∷ post)
      → P x × All P (pre ++ post) × ((y : A) → P y → All P (pre ++ y ∷ post))
  All-replace P [] post x h = (h.0, h.1, λ y k. (k, h.1))
  All-replace P (p ∷ pre) post x h =
      let (at, rest, put) = All-replace P pre post x h.1 in (at, (h.0, rest), λ y k. (h.0, put y k))

  pub All-imply : (P Q : A → Type 0) (xs : List A) → ((x : A) → P x → Q x) → All P xs → All Q xs
  All-imply P Q [] f h = tt
  All-imply P Q (x ∷ xs) f h = (f x h.0, All-imply P Q xs f h.1)

pub All-at : {A : Type 0} (P : A → Type 0) (xs : List A) (x : A) → All P xs → In x xs → P x
All-at P [] x h i = absurd i
All-at P (y ∷ ys) x h (inl q) = subst P (sym q) h.0
All-at P (y ∷ ys) x h (inr i) = All-at P ys x h.1 i

pub All-each : {A : Type 0} (P : A → Type 0) (xs : List A) → ((x : A) → In x xs → P x) → All P xs
All-each P [] f = tt
All-each P (x ∷ xs) f = (f x (inl refl), All-each P xs (λ y i. f y (inr i)))
