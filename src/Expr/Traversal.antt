-- ===== src/Expr/Traversal.antt =====
-- `PostorderTraverse` of expression.cpp against the list of subexpressions in postorder.
use mathlib.Core.List.{foldl}
use distributed_task_dispatc.Prelude.{
  ℕ, suc, ◌+◌, ◌≡◌, refl, inl, inr, Bool, true, false, ◌&&◌, List, [], ◌∷◌, ◌++◌, ok, err,
  bad_deref, ◌>>=◌, if◌then◌else◌, Bool-cases,
}
use distributed_task_dispatc.Expr.{
  Expr, Pointer, reduce, map_op, list_op, scalar_op, list, scalar_const, scalar_var, nullptr, ptr,
  postorder_traverse, traverse_operand, get_lhs, get_rhs,
}

abbrev pub pointee : Pointer → List Expr
pointee nullptr = []
pointee (ptr e) = e ∷ []

-- The operands that are there, the left one first.
abbrev pub operands : Expr → List Expr
operands e = pointee (get_lhs e) ++ pointee (get_rhs e)

abbrev mutual
  -- No node lacks an operand of its class.
  pub is_complete : Expr → Bool
  is_complete (reduce t p) = is_complete_operand p
  is_complete (map_op t p q) = is_complete_operand p && is_complete_operand q
  is_complete (list_op t p q) = is_complete_operand p && is_complete_operand q
  is_complete (scalar_op t p q) = is_complete_operand p && is_complete_operand q
  is_complete (list l) = true
  is_complete (scalar_const x) = true
  is_complete (scalar_var x) = true

  pub is_complete_operand : Pointer → Bool
  is_complete_operand nullptr = false
  is_complete_operand (ptr e) = is_complete e

abbrev mutual
  -- The subexpressions, operands before the node, the node itself last.
  pub postorder : Expr → List Expr
  postorder (reduce t p) = postorder_operand p ++ reduce t p ∷ []
  postorder (map_op t p q) = postorder_operand p ++ (postorder_operand q ++ map_op t p q ∷ [])
  postorder (list_op t p q) = postorder_operand p ++ (postorder_operand q ++ list_op t p q ∷ [])
  postorder (scalar_op t p q) = postorder_operand p ++ (postorder_operand q ++ scalar_op t p q ∷ [])
  postorder (list l) = list l ∷ []
  postorder (scalar_const x) = scalar_const x ∷ []
  postorder (scalar_var x) = scalar_var x ∷ []

  pub postorder_operand : Pointer → List Expr
  postorder_operand nullptr = []
  postorder_operand (ptr e) = postorder e

abbrev mutual
  pub size : Expr → ℕ
  size (reduce t p) = suc (size_operand p)
  size (map_op t p q) = suc (size_operand p + size_operand q)
  size (list_op t p q) = suc (size_operand p + size_operand q)
  size (scalar_op t p q) = suc (size_operand p + size_operand q)
  size (list l) = 1
  size (scalar_const x) = 1
  size (scalar_var x) = 1

  pub size_operand : Pointer → ℕ
  size_operand nullptr = 0
  size_operand (ptr e) = size e

pub foldl-append {ℓ κ} :
    {A : Type ℓ} {S : Type κ} (f : S → A → S) (s : S) (xs ys : List A)
    → foldl f s (xs ++ ys) ≡ foldl f (foldl f s xs) ys
foldl-append f s [] ys = refl
foldl-append f s (x ∷ xs) ys = foldl-append f (f s x) xs ys

module _ {ℓ} {S : Type ℓ} (visit : S → Expr → S) where
  -- What a traversal of one operand gives.
  abbrev Visits : Pointer → S → Type ℓ
  Visits p s =
      traverse_operand visit p s
      ≡ (if is_complete_operand p then ok (foldl visit s (postorder_operand p)) else err bad_deref)

  visit_binary :
      (node : Expr) (p q : Pointer) (s : S)
      → Visits p s
      → ((s' : S) → Visits q s')
      → (traverse_operand visit p s >>= λ s₁.
          traverse_operand visit q s₁ >>= λ s₂. ok (visit s₂ node))
        ≡ (if is_complete_operand p && is_complete_operand q
            then ok (foldl visit s (postorder_operand p ++ (postorder_operand q ++ node ∷ [])))
            else err bad_deref)
  visit_binary node p q s hp hq = elim (Bool-cases (is_complete_operand p)) [
    | inr e ↦ rw (hp, e) refl
    | inl e ↦
        rw (hp, e, hq (foldl visit s (postorder_operand p)))
          (elim (Bool-cases (is_complete_operand q)) [
            | inr e' ↦ rw e' refl
            | inl e' ↦
                rw
                  (
                    e',
                    foldl-append visit s (postorder_operand p) (postorder_operand q ++ node ∷ []),
                    foldl-append visit (foldl visit s (postorder_operand p)) (postorder_operand q)
                        (node ∷ []),
                  )
                  refl
          ])
  ]

  mutual
    unfolding postorder_traverse traverse_operand

    traverse_node :
        (e : Expr) (s : S)
        → postorder_traverse visit e s
          ≡ (if is_complete e then ok (foldl visit s (postorder e)) else err bad_deref)
    traverse_node (reduce t p) s = elim (Bool-cases (is_complete_operand p)) [
      | inl e ↦
          rw (traverse_pointer p s, e, foldl-append visit s (postorder_operand p) (reduce t p ∷ []))
            refl
      | inr e ↦ rw (traverse_pointer p s, e) refl
    ]
    traverse_node (map_op t p q) s =
        visit_binary (map_op t p q) p q s (traverse_pointer p s) (traverse_pointer q)
    traverse_node (list_op t p q) s =
        visit_binary (list_op t p q) p q s (traverse_pointer p s) (traverse_pointer q)
    traverse_node (scalar_op t p q) s =
        visit_binary (scalar_op t p q) p q s (traverse_pointer p s) (traverse_pointer q)
    traverse_node (list l) s = refl
    traverse_node (scalar_const x) s = refl
    traverse_node (scalar_var x) s = refl

    traverse_pointer : (p : Pointer) (s : S) → Visits p s
    traverse_pointer nullptr s = refl
    traverse_pointer (ptr e) s = traverse_node e s

  -- For every visitor: a traversal visits exactly the subexpressions in postorder, operands from
  -- left to right before their node, when no node of the tree lacks an operand; and it faults on
  -- the null operand otherwise.
  pub traverse-postorder :
      (e : Expr) (s : S)
      → postorder_traverse visit e s
        ≡ (if is_complete e then ok (foldl visit s (postorder e)) else err bad_deref)
  traverse-postorder e s = traverse_node e s
