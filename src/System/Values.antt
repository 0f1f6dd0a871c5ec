-- ===== src/System/Values.antt =====
-- The value of a tree from the values of its operands, as `CalculateTaskImpl` of thread_pool.cpp makes
-- it.
use distributed_task_dispatc.Prelude.{
  ◌≡◌, refl, inl, inr, true, false, List, [], ◌∷◌, some, Result, ok, err, ◌>>=◌, Result-cases,
  arith, In,
}
use distributed_task_dispatc.Domain.{ExprResult, VariableId}
use distributed_task_dispatc.Domain.Arith.{Reducer}
use distributed_task_dispatc.Expr.{
  Expr, nullptr, ptr, reduce, map_op, list_op, scalar_op, list, scalar_const, scalar_var, get_type,
  get_lhs, get_rhs,
}
use distributed_task_dispatc.Expr.Traversal.{operands, is_complete}
use distributed_task_dispatc.Decomposition.Independent.{variable_of, is_constant}
use distributed_task_dispatc.Worker.{calculate_task_impl}
use distributed_task_dispatc.System.{evaluate}

-- A node that is calculated: neither a variable nor a constant.
abbrev pub IsOperation : Expr → Type 0
IsOperation e = (variable_of e ≡ []) × (is_constant e ≡ false)

module _ (r : Reducer) (read : VariableId → Result ExprResult) where
  abbrev pub evaluate_all : List Expr → Result (List ExprResult)
  evaluate_all [] = ok []
  evaluate_all (e ∷ es) = do v ← evaluate r read e; vs ← evaluate_all es; ok (v ∷ vs)

  pub evaluate_all-ok :
      (es : List Expr) (vs : List ExprResult) (o : Expr)
      → evaluate_all es ≡ ok vs
      → In o es
      → (v : ExprResult) × (evaluate r read o ≡ ok v)
  evaluate_all-ok [] vs o h m = absurd m
  evaluate_all-ok (e ∷ es) vs o h m = elim (Result-cases (evaluate r read e)) [
    | inr (f, q) ↦ absurd (let z : err f ≡ ok vs = rw q at h in cc)
    | inl (v, q) ↦ elim (Result-cases (evaluate_all es)) [
      | inr (f, q') ↦ absurd (let z : err f ≡ ok vs = rw (q, q') at h in cc)
      | inl (ws, q') ↦ elim m [ inl z ↦ (v, rw z q) | inr i ↦ evaluate_all-ok es ws o q' i ]
    ]
  ]

  abbrev calculated : Expr → Result ExprResult
  calculated e = evaluate_all (operands e) >>= λ vs. calculate_task_impl r (some (get_type e)) vs

  -- A complete operation is calculated from the values of its operands in order.
  pub evaluate-operation :
      (e : Expr) → is_complete e ≡ true → IsOperation e → evaluate r read e ≡ calculated e
  unfolding evaluate get_lhs get_rhs calculate_task_impl
  evaluate-operation (reduce t nullptr) c o = cc
  evaluate-operation (reduce t (ptr d)) c o = elim (Result-cases (evaluate r read d)) [
    | inl (v, q) ↦ rw q refl
    | inr (f, q) ↦ rw q refl
  ]
  evaluate-operation (map_op t nullptr q) c o = cc
  evaluate-operation (list_op t nullptr q) c o = cc
  evaluate-operation (scalar_op t nullptr q) c o = cc
  evaluate-operation (map_op t (ptr d) nullptr) c o = absurd (ground arith)
  evaluate-operation (list_op t (ptr d) nullptr) c o = absurd (ground arith)
  evaluate-operation (scalar_op t (ptr d) nullptr) c o = absurd (ground arith)
  evaluate-operation (map_op t (ptr d) (ptr e)) c o = elim (Result-cases (evaluate r read d)) [
    | inr (f, q) ↦ rw q refl
    | inl (v, q) ↦ elim (Result-cases (evaluate r read e)) [
      | inl (w, q') ↦ rw (q, q') refl
      | inr (f, q') ↦ rw (q, q') refl
    ]
  ]
  evaluate-operation (list_op t (ptr d) (ptr e)) c o = elim (Result-cases (evaluate r read d)) [
    | inr (f, q) ↦ rw q refl
    | inl (v, q) ↦ elim (Result-cases (evaluate r read e)) [
      | inl (w, q') ↦ rw (q, q') refl
      | inr (f, q') ↦ rw (q, q') refl
    ]
  ]
  evaluate-operation (scalar_op t (ptr d) (ptr e)) c o = elim (Result-cases (evaluate r read d)) [
    | inr (f, q) ↦ rw q refl
    | inl (v, q) ↦ elim (Result-cases (evaluate r read e)) [
      | inl (w, q') ↦ rw (q, q') refl
      | inr (f, q') ↦ rw (q, q') refl
    ]
  ]
  evaluate-operation (list l) c o = cc
  evaluate-operation (scalar_const x) c o = cc
  evaluate-operation (scalar_var x) c o = cc
