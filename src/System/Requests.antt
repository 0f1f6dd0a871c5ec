-- ===== src/System/Requests.antt =====
-- `ExtractOperands` and `CalculateTask` of thread_pool.cpp on a request that stands for an expression.
use distributed_task_dispatc.Prelude.{
  ℕ, ◌≡◌, refl, ap, ◌∙◌, inl, inr, true, List, [], ◌∷◌, some, String, Result, ok, ◌>>=◌,
  Result-cases, arith, In,
}
use distributed_task_dispatc.Domain.{
  ExprType, ExprResult, VariableId, type_index, expr_type_of, expr_type_of-type_index,
}
use distributed_task_dispatc.Domain.Arith.{Reducer}
use distributed_task_dispatc.Expr.{
  Expr, reduce, map_op, list_op, scalar_op, list, scalar_const, scalar_var, get_type,
}
use distributed_task_dispatc.Expr.Traversal.{operands, is_complete}
use distributed_task_dispatc.Dag.{index_of}
use distributed_task_dispatc.Decomposition.Independent.{variable_of}
use distributed_task_dispatc.Messages.{
  uint32, TaskId, Operand, static_operand, dyn_operand, operand_not_set, Task,
}
use distributed_task_dispatc.Database.{
  Store, dyn_id, static_id, read_data, dyn_record_id, write_dynamic_data,
}
use distributed_task_dispatc.Worker.{extract_operands, calculate_task}
use distributed_task_dispatc.System.{evaluate}
use distributed_task_dispatc.System.Values.{IsOperation, evaluate_all, evaluate-operation}

pub dyn_record_id_twice : (p t : ℕ) → dyn_record_id (uint32 p) (uint32 t) ≡ dyn_record_id p t
dyn_record_id_twice p t =
    let q : uint32 (uint32 p) ≡ uint32 p = omega arith in
    let q' : uint32 (uint32 t) ≡ uint32 t = omega arith in rw (q, q') refl

module _ (r : Reducer) (read : VariableId → Result ExprResult) (problem_id : ℕ)
    (records : List Expr) where
  -- An operand of a request stands for an expression: the name of a variable, or the task of
  -- another node.
  abbrev pub Stands : Operand → Expr → Type 0
  Stands (static_operand id) o = In id (variable_of o)
  Stands (dyn_operand k) o =
      (variable_of o ≡ []) × (k ≡ dyn_record_id problem_id (index_of records o))
  Stands operand_not_set o = ⊥

  abbrev pub AllStand : List Operand → List Expr → Type 0
  AllStand [] [] = Unit {0}
  AllStand [] (e ∷ es) = ⊥
  AllStand (o ∷ os) [] = ⊥
  AllStand (o ∷ os) (e ∷ es) = Stands o e × AllStand os es

  -- The value of an operation is in the store, under its task.
  abbrev pub IsStored : Store → Expr → Type 0
  IsStored s o =
      (v : ExprResult) × (evaluate r read o ≡ ok v)
      × (read_data s (dyn_id (dyn_record_id problem_id (index_of records o))) ≡ ok v)

  evaluate-variable :
      (o : Expr) (id : VariableId) → In id (variable_of o) → evaluate r read o ≡ read id
  unfolding evaluate
  evaluate-variable (list l) id (inl q) = rw q refl
  evaluate-variable (list l) id (inr i) = absurd i
  evaluate-variable (scalar_var x) id (inl q) = rw q refl
  evaluate-variable (scalar_var x) id (inr i) = absurd i
  evaluate-variable (reduce t p) id i = absurd i
  evaluate-variable (map_op t p q) id i = absurd i
  evaluate-variable (list_op t p q) id i = absurd i
  evaluate-variable (scalar_op t p q) id i = absurd i
  evaluate-variable (scalar_const x) id i = absurd i

  extract_lem :
      (s : Store) (os : List Operand) (es : List Expr)
      → ((id : VariableId) → read_data s (static_id id) ≡ read id)
      → AllStand os es
      → ((o : Expr) → In o es → variable_of o ≡ [] → IsStored s o)
      → extract_operands s os ≡ evaluate_all r read es
  unfolding extract_operands
  extract_lem s [] [] same all stored = refl
  extract_lem s [] (e ∷ es) same all stored = absurd all
  extract_lem s (o ∷ os) [] same all stored = absurd all
  extract_lem s (static_operand id ∷ os) (e ∷ es) same all stored =
      let ih = extract_lem s os es same all.1 (λ o i. stored o (inr i)) in
      rw (same id, evaluate-variable e id all.0, ih) refl
  extract_lem s (dyn_operand k ∷ os) (e ∷ es) same all stored =
      let ih = extract_lem s os es same all.1 (λ o i. stored o (inr i)) in
      let (v, value, row) = stored e (inl refl) all.0.0 in
      let twice : dyn_record_id k.problem_id k.task_id
          ≡ dyn_record_id problem_id (index_of records e) =
        ap (λ (j : TaskId). dyn_record_id j.problem_id j.task_id) all.0.1
        ∙ dyn_record_id_twice problem_id (index_of records e) in
      rw (twice, row, value, ih) refl
  extract_lem s (operand_not_set ∷ os) (e ∷ es) same all stored = absurd all.0

  type_lem : (t : ExprType) → expr_type_of (uint32 (type_index t)) ≡ some t
  unfolding type_index
  type_lem ExprType.invalid = expr_type_of-type_index ExprType.invalid
  type_lem _ = expr_type_of-type_index _

  -- A worker that takes the request for an operation whose operands are in the store calculates
  -- the value of the operation, writes it under the task and answers with the task; it fails
  -- exactly if the value is a fault.
  pub calculate_task-evaluate :
      (s : Store) (identity : String) (t : Task) (e : Expr)
      → is_complete e ≡ true
      → IsOperation e
      → ((id : VariableId) → read_data s (static_id id) ≡ read id)
      → t.operation_type ≡ uint32 (type_index (get_type e))
      → AllStand t.operands (operands e)
      → ((o : Expr) → In o (operands e) → variable_of o ≡ [] → IsStored s o)
      → calculate_task r s (record { identity = identity; task = t }) ≡ (
          evaluate r read e >>= λ v. ok (
            write_dynamic_data s t.id.problem_id t.id.task_id v,
            record { identity = identity; id = t.id },
          ))
  unfolding calculate_task
  calculate_task-evaluate s identity t e complete operation same type all stored =
      let values = extract_lem s t.operands (operands e) same all stored in
      let known = ap expr_type_of type ∙ type_lem (get_type e) in
      rw (values, known, evaluate-operation r read e complete operation)
        (elim (Result-cases (evaluate_all r read (operands e))) [
          | inl (vs, q) ↦ rw q refl
          | inr (f, q) ↦ rw q refl
        ])
