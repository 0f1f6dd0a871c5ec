-- ===== src/Expr/Equality.antt =====
-- `operator==` of expression.cpp against equality of trees.
use distributed_task_dispatc.Prelude.{
  ◌≡◌, ◌↔◌, true, arith, str_eq_iff, and₂_iff, and₃_iff, Bool, false, Result, ok, err, bad_deref,
  ◌>>=◌, ◌&&◌, if◌then◌else◌, str_eq, refl, inl, inr, Bool-cases,
}
use distributed_task_dispatc.Prelude.Int.{eqb_ℤ, eqb_ℤ_iff}
use distributed_task_dispatc.Expr.{
  Expr, Pointer, ReduceType, MapType, ListOpType, ScalarOpType, reduce, map_op, list_op, scalar_op,
  list, scalar_const, scalar_var, nullptr, ptr, expr_eq, pointer_eq, reduce_type_eq, map_type_eq,
  list_op_type_eq, scalar_op_type_eq,
}
use distributed_task_dispatc.Expr.Traversal.{is_complete, is_complete_operand}

reduce_type_eq_iff : (s t : ReduceType) → (reduce_type_eq s t ≡ true) ↔ (s ≡ t)
unfolding reduce_type_eq
reduce_type_eq_iff s t = ground arith

map_type_eq_iff : (s t : MapType) → (map_type_eq s t ≡ true) ↔ (s ≡ t)
unfolding map_type_eq
map_type_eq_iff s t = ground arith

list_op_type_eq_iff : (s t : ListOpType) → (list_op_type_eq s t ≡ true) ↔ (s ≡ t)
unfolding list_op_type_eq
list_op_type_eq_iff s t = ground arith

scalar_op_type_eq_iff : (s t : ScalarOpType) → (scalar_op_type_eq s t ≡ true) ↔ (s ≡ t)
unfolding scalar_op_type_eq
scalar_op_type_eq_iff s t = ground arith

mutual
  unfolding expr_eq pointer_eq

  eq_iff : (d e : Expr) → (expr_eq d e ≡ true) ↔ (d ≡ e)
  eq_iff (reduce s p) (reduce t q) =
      let parts = and₂_iff _ _ (reduce_type_eq_iff s t) (operands_iff p q) in
      (λ h. let both = parts.0 h in cc (both.0, both.1), λ e. parts.1 (cc, cc))
  eq_iff (map_op s p p') (map_op t q q') =
      let parts = and₃_iff _ _ _ (map_type_eq_iff s t) (operands_iff p q) (operands_iff p' q') in
      (λ h. let all = parts.0 h in cc (all.0, all.1, all.2), λ e. parts.1 (cc, cc, cc))
  eq_iff (list_op s p p') (list_op t q q') =
      let parts =
        and₃_iff _ _ _ (list_op_type_eq_iff s t) (operands_iff p q) (operands_iff p' q') in
      (λ h. let all = parts.0 h in cc (all.0, all.1, all.2), λ e. parts.1 (cc, cc, cc))
  eq_iff (scalar_op s p p') (scalar_op t q q') =
      let parts =
        and₃_iff _ _ _ (scalar_op_type_eq_iff s t) (operands_iff p q) (operands_iff p' q') in
      (λ h. let all = parts.0 h in cc (all.0, all.1, all.2), λ e. parts.1 (cc, cc, cc))
  eq_iff (list l) (list m) = ground (arith, str_eq_iff l m)
  eq_iff (scalar_const x) (scalar_const y) = ground (arith, eqb_ℤ_iff x y)
  eq_iff (scalar_var x) (scalar_var y) = ground (arith, str_eq_iff x y)
  eq_iff _ _ = ground arith

  operands_iff : (p q : Pointer) → (pointer_eq p q ≡ true) ↔ (p ≡ q)
  operands_iff (ptr d) (ptr e) = ground (arith, eq_iff d e)
  operands_iff nullptr nullptr = ground arith
  operands_iff _ _ = ground arith

-- The value of `operator==` holds of the same trees only.
pub expr_eq_iff : (d e : Expr) → (expr_eq d e ≡ true) ↔ (d ≡ e)
expr_eq_iff d e = eq_iff d e

-- `operator==` of each class: the `typeid` test, the `Type`, and each operand behind the pointers,
-- up to the first difference.
unfoldable mutual
  unfolding reduce_type_eq map_type_eq list_op_type_eq scalar_op_type_eq

  pub equals : Expr → Expr → Result Bool
  equals (reduce s p) (reduce t q) = if reduce_type_eq s t then equal_pointees p q else ok false
  equals (map_op s p p') (map_op t q q') = do
    let rest = equal_pointees p' q'
    lhs ← if map_type_eq s t then equal_pointees p q else ok false
    if lhs then rest else ok false
  equals (list_op s p p') (list_op t q q') = do
    let rest = equal_pointees p' q'
    lhs ← if list_op_type_eq s t then equal_pointees p q else ok false
    if lhs then rest else ok false
  equals (scalar_op s p p') (scalar_op t q q') = do
    let rest = equal_pointees p' q'
    lhs ← if scalar_op_type_eq s t then equal_pointees p q else ok false
    if lhs then rest else ok false
  equals (list l) (list m) = ok (str_eq l m)
  equals (scalar_const x) (scalar_const y) = ok (eqb_ℤ x y)
  equals (scalar_var x) (scalar_var y) = ok (str_eq x y)
  equals _ _ = ok false

  -- `*lhs == *rhs`.
  pub equal_pointees : Pointer → Pointer → Result Bool
  equal_pointees (ptr d) (ptr e) = equals d e
  equal_pointees _ _ = err bad_deref

abbrev Agree : Pointer → Pointer → Type 0
Agree p q =
    is_complete_operand p ≡ true
    → is_complete_operand q ≡ true
    → equal_pointees p q ≡ ok (pointer_eq p q)

-- The comparison of a node with two operands.
equals_binary :
    (same : Bool) (p p' q q' : Pointer)
    → Agree p q
    → Agree p' q'
    → is_complete_operand p && is_complete_operand p' ≡ true
    → is_complete_operand q && is_complete_operand q' ≡ true
    → ((if same then equal_pointees p q else ok false) >>= λ lhs.
        if lhs then equal_pointees p' q' else ok false)
      ≡ ok (same && pointer_eq p q && pointer_eq p' q')
equals_binary same p p' q q' f g c c' =
    let h = f (ground arith) (ground arith) in
    let h' = g (ground arith) (ground arith) in
    elim (Bool-cases same) [
      | inr b ↦ rw b refl
      | inl b ↦ elim (Bool-cases (pointer_eq p q)) [
        | inr e ↦ rw (b, h, e) refl
        | inl e ↦ rw (b, h, e, h') refl
      ]
    ]

mutual
  unfolding equals equal_pointees expr_eq pointer_eq

  pub equals_lem :
      (d e : Expr) → is_complete d ≡ true → is_complete e ≡ true → equals d e ≡ ok (expr_eq d e)
  equals_lem (reduce s p) (reduce t q) c c' =
      let h = equal_pointees_lem p q c c' in
      elim (Bool-cases (reduce_type_eq s t)) [ inl b ↦ rw (b, h) refl | inr b ↦ rw b refl ]
  equals_lem (map_op s p p') (map_op t q q') c c' =
      equals_binary (map_type_eq s t) p p' q q' (equal_pointees_lem p q) (equal_pointees_lem p' q')
        c c'
  equals_lem (list_op s p p') (list_op t q q') c c' =
      equals_binary (list_op_type_eq s t) p p' q q' (equal_pointees_lem p q)
        (equal_pointees_lem p' q') c c'
  equals_lem (scalar_op s p p') (scalar_op t q q') c c' =
      equals_binary (scalar_op_type_eq s t) p p' q q' (equal_pointees_lem p q)
        (equal_pointees_lem p' q') c c'
  equals_lem (list l) (list m) c c' = refl
  equals_lem (scalar_const x) (scalar_const y) c c' = refl
  equals_lem (scalar_var x) (scalar_var y) c c' = refl
  equals_lem _ _ c c' = ground arith

  equal_pointees_lem : (p q : Pointer) → Agree p q
  equal_pointees_lem (ptr d) (ptr e) c c' = equals_lem d e c c'
  equal_pointees_lem _ _ c c' = ground arith

-- `operator==` on two expressions without null operands dereferences no null pointer and has the
-- value that `expr_eq` gives, which is true exactly when they are the same tree: the same classes,
-- operation types, identifiers and constants throughout.
pub equals_iff :
    (d e : Expr)
    → is_complete d ≡ true
    → is_complete e ≡ true
    → (equals d e ≡ ok (expr_eq d e)) × ((expr_eq d e ≡ true) ↔ (d ≡ e))
equals_iff d e c c' = (equals_lem d e c c', expr_eq_iff d e)
