-- ===== src/System/Others.antt =====
-- Steps of other problems on the same store change nothing that a problem reads.
use distributed_task_dispatc.Prelude.{
  ℕ, ◌≡◌, ◌≢◌, refl, sym, ap, ◌∙◌, subst, inl, inr, List, Result, ok, >>=-eq-ok, Bool-cases,
  Option-cases, ◌==◌, ==_iff,
}
use distributed_task_dispatc.Domain.{ExprResult, VariableId, expr_type_of}
use distributed_task_dispatc.Domain.Arith.{Reducer}
use distributed_task_dispatc.Expr.{Expr}
use distributed_task_dispatc.Dag.Library.{GraphLibrary}
use distributed_task_dispatc.Messages.{uint32, TaskId, WorkerTask, WorkerTaskId}
use distributed_task_dispatc.Decomposition.{TaskDecompositor}
use distributed_task_dispatc.Decomposition.Order.{IsDecomposition}
use distributed_task_dispatc.Database.{
  Store, key_eq, find_row, dyn_record_id, read_data, static_id, write_dynamic_data,
  clear_intermediate_calculations, clear_intermediate_calculations_impl, read_data_impl,
}
use distributed_task_dispatc.Database.Rows.{key_eq_iff, find_row-delete, write_dynamic_data-row}
use distributed_task_dispatc.Database.Growth.{read_data-static}
use distributed_task_dispatc.Worker.{calculate_task, calculate_task_impl, extract_operands}
use distributed_task_dispatc.System.{System, Elsewhere}
use distributed_task_dispatc.System.Coherent.{IsCoherent}

-- Nothing that a problem reads differs.
abbrev pub SameFor : ℕ → Store → Store → Type 0
SameFor problem_id s s' =
    ((t : ℕ)
      → find_row (dyn_record_id problem_id t) s'.dynamic_data
        ≡ find_row (dyn_record_id problem_id t) s.dynamic_data)
    × ((id : VariableId) → read_data s' (static_id id) ≡ read_data s (static_id id))

write-SameFor :
    (problem_id : ℕ) (s : Store) (p k : ℕ) (v : ExprResult)
    → uint32 p ≢ uint32 problem_id
    → SameFor problem_id s (write_dynamic_data s p k v)
write-SameFor problem_id s p k v apart = (
  λ t.
      let j = dyn_record_id problem_id t in
      write_dynamic_data-row s p k v j ∙ elim (Option-cases (find_row j s.dynamic_data)) [
        | inr (f, q) ↦ rw q refl
        | inl q ↦ elim (Bool-cases (key_eq (dyn_record_id p k) j)) [
          | inr b ↦ rw (q, b) refl
          | inl b ↦
              absurd
                (apart (ap (λ (x : TaskId). x.problem_id) ((key_eq_iff (dyn_record_id p k) j).0 b)))
        ]
      ],
  λ id. read_data-static s p k v id,
)

clear-SameFor :
    (problem_id other : ℕ) (s : Store)
    → uint32 other ≢ uint32 problem_id
    → SameFor problem_id s (clear_intermediate_calculations s other)
unfolding clear_intermediate_calculations clear_intermediate_calculations_impl read_data
    read_data_impl
clear-SameFor problem_id other s apart = (
  λ t.
      find_row-delete (uint32 other) (dyn_record_id problem_id t) s.dynamic_data
      ∙ elim (Bool-cases (uint32 problem_id == uint32 other)) [
        | inl b ↦ absurd (apart (sym ((==_iff (uint32 problem_id) (uint32 other)).0 b)))
        | inr b ↦ rw b refl
      ],
  λ id. refl,
)

-- A calculation changes the store by one write.
calculate_task-writes :
    (r : Reducer) (s s' : Store) (t : WorkerTask) (response : WorkerTaskId)
    → calculate_task r s t ≡ ok (s', response)
    → (v : ExprResult) × (s' ≡ write_dynamic_data s t.task.id.problem_id t.task.id.task_id v)
unfolding calculate_task
calculate_task-writes r s s' t response run =
    let (operands, _, rest) = >>=-eq-ok (extract_operands s t.task.operands) _ run in
    let (v, _, last) =
      >>=-eq-ok (calculate_task_impl r (expr_type_of t.task.operation_type) operands) _ rest in
    (v, cc last)

module _ (lib : GraphLibrary) (sort : lib.Graph → Result (List ℕ)) (root : Expr)
    (d : TaskDecompositor lib sort) (h : IsDecomposition lib sort root d) (r : Reducer)
    (read : VariableId → Result ExprResult) (problem_id : ℕ) where
  same-IsCoherent :
      (σ : System lib sort) (s : Store)
      → IsCoherent lib sort root d h r read problem_id σ
      → SameFor problem_id σ.store s
      → IsCoherent lib sort root d h r read problem_id (record σ { store = s })
  same-IsCoherent σ s good same = record {
    inv = good.inv;
    variables = good.variables;
    static_data = λ id. same.1 id ∙ good.static_data id;
    requests = good.requests;
    answers = λ id i.
        let a = good.answers id i in
        record {
          task = a.task;
          expr = a.expr;
          status = a.status;
          at = a.at;
          known = a.known;
          id_of = a.id_of;
          row = a.row;
          found = same.0 a.task ∙ a.found;
        };
    values = λ t e f at row. good.values t e f at (sym (same.0 t) ∙ row);
    stored = λ t e at done. elim (good.stored t e at done) [
      | inl z ↦ inl z
      | inr (f, row) ↦ inr (f, same.0 t ∙ row)
    ];
    under_way = good.under_way;
  }

  pub Elsewhere-SameFor :
      (σ τ : System lib sort)
      → Elsewhere lib sort r problem_id σ τ
      → (s : Store) × (τ ≡ record σ { store = s }) × SameFor problem_id σ.store s
  Elsewhere-SameFor σ τ (Elsewhere.other_work {s = s} {response = response} t apart run) =
      let (v, q) = calculate_task-writes r σ.store s t response run in
      (
        s,
        refl,
        subst (SameFor problem_id σ.store) (sym q)
            (write-SameFor problem_id σ.store t.task.id.problem_id t.task.id.task_id v apart),
      )
  Elsewhere-SameFor σ τ (Elsewhere.other_clear other apart) = (
    clear_intermediate_calculations σ.store other,
    refl,
    clear-SameFor problem_id other σ.store apart,
  )

  pub Elsewhere-IsCoherent :
      (σ τ : System lib sort)
      → Elsewhere lib sort r problem_id σ τ
      → IsCoherent lib sort root d h r read problem_id σ
      → IsCoherent lib sort root d h r read problem_id τ
  Elsewhere-IsCoherent σ τ other good =
      let (s, q, same) = Elsewhere-SameFor σ τ other in
      subst (IsCoherent lib sort root d h r read problem_id) (sym q) (same-IsCoherent σ s good same)
