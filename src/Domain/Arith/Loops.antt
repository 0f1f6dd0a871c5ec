-- ===== src/Domain/Arith/Loops.antt =====
-- The index loops over two lists against a recursion on both, and the minimum and maximum of a list.
use mathlib.Core.List.{append_assoc}
use distributed_task_dispatc.Prelude.{
  ℕ, zero, suc, ◌≡◌, refl, sym, ap, ◌∙◌, [], ◌∷◌, ◌++◌, some, Result, ok, err, ◌>>=◌, bad_deref,
  failed_assert, arith, if◌then◌else◌, length, get_elem?, set, replicate, length-append, ◌==◌,
  ==_iff, Result-cases, inl, inr, Bool-cases,
}
use distributed_task_dispatc.Prelude.Int.{pos}
use distributed_task_dispatc.Domain.Types.{Scalar, Vector}
use distributed_task_dispatc.Domain.Arith.{
  fill, pointwise, assert, sum_scalars, mul_scalars, div_scalars, sum_lists, mul_lists, div_lists,
  min_list, max_list,
}

-- The operation on the elements in turn; the lists are read together.
unfoldable pub zip_with : (Scalar → Scalar → Result Scalar) → Vector → Vector → Result Vector
zip_with op [] l₂ = ok []
zip_with op (a ∷ l₁) [] = ok []
zip_with op (a ∷ l₁) (b ∷ l₂) = do c ← op a b; rest ← zip_with op l₁ l₂; ok (c ∷ rest)

get_elem?-split :
    (p : Vector) (a : Scalar) (r : Vector) → get_elem? (p ++ a ∷ r) (length p) ≡ some a
get_elem?-split [] a r = refl
get_elem?-split (x ∷ p) a r = get_elem?-split p a r

set-split :
    (p : Vector) (z v : Scalar) (r : Vector) → set (p ++ z ∷ r) (length p) v ≡ (p ++ v ∷ []) ++ r
set-split [] z v r = refl
set-split (x ∷ p) z v r = ap (◌∷◌ x) (set-split p z v r)

regroup :
    (op : Scalar → Scalar → Result Scalar) (r₁ r₂ done : Vector) (c : Scalar)
    → (zip_with op r₁ r₂ >>= λ rest. ok ((done ++ c ∷ []) ++ rest))
      ≡ ((zip_with op r₁ r₂ >>= λ rest. ok (c ∷ rest)) >>= λ rest. ok (done ++ rest))
regroup op r₁ r₂ done c = elim (Result-cases (zip_with op r₁ r₂)) [
  | inl (rest, e) ↦ rw (e, append_assoc done (c ∷ []) rest) refl
  | inr (x, e) ↦ rw e refl
]

-- The loop from an index on, when `done` is written and `left` is still to be written.
fill-zip :
    (op : Scalar → Scalar → Result Scalar) (r₁ r₂ left p₁ p₂ done : Vector)
    → length r₂ ≡ length r₁
    → length left ≡ length r₁
    → length p₂ ≡ length p₁
    → length done ≡ length p₁
    → fill op (p₁ ++ r₁) (p₂ ++ r₂) (length r₁) (length p₁) (done ++ left)
      ≡ (zip_with op r₁ r₂ >>= λ rest. ok (done ++ rest))
unfolding fill zip_with
fill-zip op [] [] [] p₁ p₂ done h₂ hl hp hd = refl
fill-zip op (a ∷ r₁) (b ∷ r₂) (z ∷ left) p₁ p₂ done h₂ hl hp hd =
    let at₁ = get_elem?-split p₁ a r₁ in
    let at₂ : get_elem? (p₂ ++ b ∷ r₂) (length p₁) ≡ some b = rw (← hp) (get_elem?-split p₂ b r₂) in
    rw (at₁, at₂)
      (elim (Result-cases (op a b)) [
        | inr (e, fails) ↦ rw fails refl
        | inl (c, works) ↦
            let next₁ = append_assoc p₁ (a ∷ []) r₁ in
            let next₂ = append_assoc p₂ (b ∷ []) r₂ in
            let write : set (done ++ z ∷ left) (length p₁) c ≡ (done ++ c ∷ []) ++ left =
              rw (← hd) (set-split done z c left) in
            let index : length (p₁ ++ a ∷ []) ≡ suc (length p₁) =
              omega (arith, length-append p₁ (a ∷ [])) in
            let ih =
              fill-zip op r₁ r₂ left (p₁ ++ a ∷ []) (p₂ ++ b ∷ []) (done ++ c ∷ []) (omega arith)
                (omega arith) (omega (arith, length-append p₂ (b ∷ []), length-append p₁ (a ∷ [])))
                (omega (arith, length-append done (c ∷ []), length-append p₁ (a ∷ []))) in
            rw (works, write) ((rw (next₁, next₂, index) at ih) ∙ regroup op r₁ r₂ done c)
      ])
fill-zip op [] (b ∷ r₂) left p₁ p₂ done h₂ hl hp hd = absurd (omega arith)
fill-zip op (a ∷ r₁) [] left p₁ p₂ done h₂ hl hp hd = absurd (omega arith)
fill-zip op [] [] (z ∷ left) p₁ p₂ done h₂ hl hp hd = absurd (omega arith)
fill-zip op (a ∷ r₁) (b ∷ r₂) [] p₁ p₂ done h₂ hl hp hd = absurd (omega arith)

length-replicate : (n : ℕ) (z : Scalar) → length (replicate n z) ≡ n
length-replicate zero z = refl
length-replicate (suc n) z = ap suc (length-replicate n z)

-- What the three functions promise: equal lengths, and then the operation on each pair in turn.
abbrev pub ZipOf : (Scalar → Scalar → Result Scalar) → (Vector → Vector → Result Vector) → Type 0
ZipOf op f =
    (l₁ l₂ : Vector)
    → f l₁ l₂ ≡ (if length l₁ == length l₂ then zip_with op l₁ l₂ else err failed_assert)

pointwise-ZipOf : (op : Scalar → Scalar → Result Scalar) → ZipOf op (pointwise op)
unfolding assert
pointwise-ZipOf op l₁ l₂ = elim (Bool-cases (length l₁ == length l₂)) [
  | inr b ↦ rw b refl
  | inl b ↦
      let same = (==_iff (length l₁) (length l₂)).0 b in
      rw b (
        fill-zip op l₁ l₂ (replicate (length l₁) (pos 0)) [] [] [] (sym same)
          (length-replicate (length l₁) (pos 0)) refl refl
        ∙ elim (Result-cases (zip_with op l₁ l₂)) [
          | inl (r, e) ↦ rw e refl
          | inr (x, e) ↦ rw e refl
        ])
]

-- `Sum`, `Mul` and `Div` of two lists: for lists of one length every index of the loop is in range,
-- and the result has the sum, product or quotient of each pair in order, or the fault of the first
-- pair that has one; for lists of different lengths the assertion fails.
pub lists_pointwise :
    ZipOf sum_scalars sum_lists × ZipOf mul_scalars mul_lists × ZipOf div_scalars div_lists
unfolding sum_lists mul_lists div_lists
lists_pointwise =
    (pointwise-ZipOf sum_scalars, pointwise-ZipOf mul_scalars, pointwise-ZipOf div_scalars)

-- `Min(l)` and `Max(l)` return the first element of every list that has one, whatever the others are,
-- and fault on the empty list: both compare two iterators, not the elements.
pub min_max_first :
    ((x : Scalar) (l : Vector) → (min_list (x ∷ l) ≡ ok x) × (max_list (x ∷ l) ≡ ok x))
    × (min_list [] ≡ err bad_deref)
    × (max_list [] ≡ err bad_deref)
unfolding min_list max_list
min_max_first = (λ x l. (ground arith, ground arith), refl, refl)
