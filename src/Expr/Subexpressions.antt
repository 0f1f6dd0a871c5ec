-- ===== src/Expr/Subexpressions.antt =====
-- Subexpressions: an induction principle over operands, sizes, and which node is whose operand.
use mathlib.Core.List.{append-nil, append_assoc}
use distributed_task_dispatc.Prelude.{
  ◌+◌, ◌≤◌, ◌<◌, ◌≡◌, refl, ◌⊎◌, inl, inr, List, [], ◌∷◌, ◌++◌, arith, In, In-append, concat_map,
  In-concat_map, ◌↔◌, subst, sym, true, ◌&&◌,
}
use distributed_task_dispatc.Expr.{
  Expr, Pointer, reduce, map_op, list_op, scalar_op, list, scalar_const, scalar_var, nullptr, ptr,
  get_lhs, get_rhs,
}
use distributed_task_dispatc.Expr.Traversal.{
  pointee, operands, postorder, postorder_operand, size, size_operand, is_complete,
  is_complete_operand,
}

module _ {ℓ} (P : Expr → Type ℓ)
    (step : (e : Expr) → ((o : Expr) → In o (operands e) → P o) → P e) where
  both :
      (p q : Pointer)
      → ((o : Expr) → In o (pointee p) → P o)
      → ((o : Expr) → In o (pointee q) → P o)
      → (o : Expr) → In o (pointee p ++ pointee q)
      → P o
  both p q hp hq o m = elim ((In-append o (pointee p) (pointee q)).0 m) [
    | inl here ↦ hp o here
    | inr there ↦ hq o there
  ]

  mutual
    unfolding get_lhs get_rhs

    node_ind : (e : Expr) → P e
    node_ind (reduce t p) = step (reduce t p) (both p nullptr (pointer_ind p) (λ o m. absurd m))
    node_ind (map_op t p q) = step (map_op t p q) (both p q (pointer_ind p) (pointer_ind q))
    node_ind (list_op t p q) = step (list_op t p q) (both p q (pointer_ind p) (pointer_ind q))
    node_ind (scalar_op t p q) = step (scalar_op t p q) (both p q (pointer_ind p) (pointer_ind q))
    node_ind (list l) = step (list l) (λ o m. absurd m)
    node_ind (scalar_const x) = step (scalar_const x) (λ o m. absurd m)
    node_ind (scalar_var x) = step (scalar_var x) (λ o m. absurd m)

    pointer_ind : (p : Pointer) (o : Expr) → In o (pointee p) → P o
    pointer_ind nullptr o m = absurd m
    pointer_ind (ptr e) o (inl q) = subst P (sym q) (node_ind e)
    pointer_ind (ptr e) o (inr m) = absurd m

  -- A property that passes from the operands of a node to the node holds of every expression.
  pub Expr-induction : (e : Expr) → P e
  Expr-induction e = node_ind e

postorder_operands :
    (p q : Pointer) (l : List Expr)
    → postorder_operand p ++ (postorder_operand q ++ l)
      ≡ concat_map postorder (pointee p ++ pointee q) ++ l
postorder_operands nullptr nullptr l = refl
postorder_operands nullptr (ptr e) l = simp append-nil
postorder_operands (ptr d) nullptr l = simp append-nil
postorder_operands (ptr d) (ptr e) l = simp (append-nil, append_assoc)

-- The clauses of `postorder` in one equation.
pub postorder_lem : (e : Expr) → postorder e ≡ concat_map postorder (operands e) ++ e ∷ []
unfolding get_lhs get_rhs
postorder_lem (reduce t p) = postorder_operands p nullptr (reduce t p ∷ [])
postorder_lem (map_op t p q) = postorder_operands p q (map_op t p q ∷ [])
postorder_lem (list_op t p q) = postorder_operands p q (list_op t p q ∷ [])
postorder_lem (scalar_op t p q) = postorder_operands p q (scalar_op t p q ∷ [])
postorder_lem (list l) = refl
postorder_lem (scalar_const x) = refl
postorder_lem (scalar_var x) = refl

In-pointees :
    (p q : Pointer) (o : Expr)
    → In o (pointee p ++ pointee q)
    → size o ≤ size_operand p + size_operand q
In-pointees nullptr nullptr o m = absurd m
In-pointees nullptr (ptr e) o (inl h) = rw h (omega arith)
In-pointees (ptr d) nullptr o (inl h) = rw h (omega arith)
In-pointees (ptr d) (ptr e) o (inl h) = rw h (omega arith)
In-pointees (ptr d) (ptr e) o (inr (inl h)) = rw h (omega arith)
In-pointees nullptr (ptr e) o (inr m) = absurd m
In-pointees (ptr d) nullptr o (inr m) = absurd m
In-pointees (ptr d) (ptr e) o (inr (inr m)) = absurd m

pub size-operands : (e o : Expr) → In o (operands e) → size o < size e
unfolding get_lhs get_rhs
size-operands (reduce t p) o m = omega (arith, In-pointees p nullptr o m)
size-operands (map_op t p q) o m = omega (arith, In-pointees p q o m)
size-operands (list_op t p q) o m = omega (arith, In-pointees p q o m)
size-operands (scalar_op t p q) o m = omega (arith, In-pointees p q o m)
size-operands (list l) o m = absurd m
size-operands (scalar_const x) o m = absurd m
size-operands (scalar_var x) o m = absurd m

-- The subexpressions are the node and the subexpressions of its operands.
pub In-postorder :
    (x e : Expr)
    → In x (postorder e) ↔ (((o : Expr) × In o (operands e) × In x (postorder o)) ⊎ (x ≡ e))
In-postorder x e =
    let split = In-append x (concat_map postorder (operands e)) (e ∷ []) in
    let below = In-concat_map postorder x (operands e) in
    (
      λ m. elim (split.0 (subst (In x) (postorder_lem e) m)) [
        | inl there ↦ inl (below.0 there)
        | inr here ↦ inr (elim here [ inl q ↦ q | inr z ↦ absurd z ])
      ],
      λ h.
          subst (In x) (sym (postorder_lem e))
            (split.1 (elim h [ inl there ↦ inl (below.1 there) | inr q ↦ inr (inl q) ])),
    )

pub In-postorder_self : (e : Expr) → In e (postorder e)
In-postorder_self e = (In-postorder e e).1 (inr refl)

pub size-postorder : (e x : Expr) → In x (postorder e) → size x ≤ size e
size-postorder =
    Expr-induction (λ e. (x : Expr) → In x (postorder e) → size x ≤ size e)
      λ e ih x m. elim ((In-postorder x e).0 m) [
        | inl (o, i, j) ↦ omega (arith, ih o i x j, size-operands e o i)
        | inr q ↦ rw q (omega arith)
      ]

-- No proper subexpression of a node is the node.
pub not-In-postorder_operands : (e : Expr) → ¬ In e (concat_map postorder (operands e))
not-In-postorder_operands e m =
    let (o, i, j) = (In-concat_map postorder e (operands e)).0 m in
    omega (arith, size-postorder o e j, size-operands e o i)

-- Every subexpression but the root is an operand of a subexpression.
pub postorder-parent :
    (e x : Expr)
    → In x (postorder e)
    → (x ≡ e) ⊎ ((p : Expr) × In p (postorder e) × In x (operands p))
postorder-parent =
    Expr-induction
      (λ e.
        (x : Expr)
        → In x (postorder e)
        → (x ≡ e) ⊎ ((p : Expr) × In p (postorder e) × In x (operands p)))
      λ e ih x m. elim ((In-postorder x e).0 m) [
        | inr q ↦ inl q
        | inl (o, i, j) ↦ inr (elim (ih o i x j) [
          | inl q ↦ (e, In-postorder_self e, subst (λ y. In y (operands e)) (sym q) i)
          | inr (p, k, l) ↦ (p, (In-postorder p e).1 (inl (o, i, k)), l)
        ])
      ]

complete_pointees :
    (p q : Pointer) (o : Expr)
    → is_complete_operand p && is_complete_operand q ≡ true
    → In o (pointee p ++ pointee q)
    → is_complete o ≡ true
complete_pointees nullptr q o c m = cc
complete_pointees (ptr d) nullptr o c m = ground arith
complete_pointees (ptr d) (ptr e) o c (inl h) = rw h (ground arith)
complete_pointees (ptr d) (ptr e) o c (inr (inl h)) = rw h (ground arith)
complete_pointees (ptr d) (ptr e) o c (inr (inr m)) = absurd m

pub complete_operands :
    (e o : Expr) → is_complete e ≡ true → In o (operands e) → is_complete o ≡ true
unfolding get_lhs get_rhs
complete_operands (reduce t (ptr p)) o c (inl h) = rw h c
complete_operands (reduce t (ptr p)) o c (inr m) = absurd m
complete_operands (reduce t nullptr) o c m = absurd m
complete_operands (map_op t p q) o c m = complete_pointees p q o c m
complete_operands (list_op t p q) o c m = complete_pointees p q o c m
complete_operands (scalar_op t p q) o c m = complete_pointees p q o c m
complete_operands (list l) o c m = absurd m
complete_operands (scalar_const x) o c m = absurd m
complete_operands (scalar_var x) o c m = absurd m

-- Every subexpression of a tree without null operands is such a tree.
pub complete-postorder :
    (e x : Expr) → is_complete e ≡ true → In x (postorder e) → is_complete x ≡ true
complete-postorder =
    Expr-induction
      (λ e. (x : Expr) → is_complete e ≡ true → In x (postorder e) → is_complete x ≡ true)
      λ e ih x c m. elim ((In-postorder x e).0 m) [
        | inl (o, i, j) ↦ ih o i x (complete_operands e o c i) j
        | inr q ↦ rw q c
      ]
