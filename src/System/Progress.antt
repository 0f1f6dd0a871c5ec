-- ===== src/System/Progress.antt =====
-- The start of a problem with its messages, the step that follows while a task is left, and what the
-- store holds of a computed task.
use distributed_task_dispatc.Prelude.{
  ℕ, arith, ◌≤◌, ◌<◌, ◌^◌, ◌≡◌, refl, sym, ap, ◌∙◌, subst, ◌⊎◌, inl, inr, true, false, List, [],
  ◌∷◌, ◌++◌, none, some, Result, ok, err, length, get_elem?, In, In-append, In-get_elem?, lookup,
  Eq_nat, Result-cases,
}
use distributed_task_dispatc.Domain.{ExprResult, VariableId}
use distributed_task_dispatc.Domain.Arith.{Reducer}
use distributed_task_dispatc.Expr.{
  Expr, reduce, map_op, list_op, scalar_op, list, scalar_const, scalar_var, get_lhs, get_rhs,
}
use distributed_task_dispatc.Expr.Traversal.{operands, postorder, is_complete}
use distributed_task_dispatc.Expr.Subexpressions.{
  complete-postorder, Expr-induction, In-postorder, In-postorder_self,
}
use distributed_task_dispatc.Dag.Library.{GraphLibrary}
use distributed_task_dispatc.Decomposition.{TaskDecompositor}
use distributed_task_dispatc.Decomposition.Order.{IsDecomposition}
use distributed_task_dispatc.Decomposition.Independent.{variable_of, is_constant}
use distributed_task_dispatc.Database.{
  Field, Store, dyn_id, dyn_record_id, find_row, read_data, write_dynamic_data,
}
use distributed_task_dispatc.Database.Rows.{read_data-row, of_field-to_field}
use distributed_task_dispatc.Dispatch.{processing, completed, CalculationData}
use distributed_task_dispatc.Dispatch.Invariant.{IsConsistent}
use distributed_task_dispatc.Dispatch.Start.{LeavesOnly}
use distributed_task_dispatc.Dispatch.Send.{send_problem-IsConsistent}
use distributed_task_dispatc.Dispatch.Progress.{first_remaining, IsConsistent-progress}
use distributed_task_dispatc.Dispatch.Completion.{answer, answer-IsConsistent}
use distributed_task_dispatc.Worker.{calculate_task}
use distributed_task_dispatc.System.{System, Step, initially, evaluate, static_value}
use distributed_task_dispatc.System.Values.{
  IsOperation, evaluate-operation, evaluate_all, evaluate_all-ok,
}
use distributed_task_dispatc.System.Measure.{Coherent}
use distributed_task_dispatc.System.Termination.{reply_task}
use distributed_task_dispatc.System.Working.{open_value}

pub In-split :
    {A : Type 0} (x : A) (xs : List A)
    → In x xs
    → (pre : List A) × (post : List A) × (xs ≡ pre ++ x ∷ post)
In-split x [] i = absurd i
In-split x (y ∷ ys) (inl q) = ([], ys, ap (λ z. z ∷ ys) (sym q))
In-split x (y ∷ ys) (inr i) = let (pre, post, q) = In-split x ys i in (y ∷ pre, post, ap (◌∷◌ y) q)

operands-IsOperation : (e o : Expr) → In o (operands e) → IsOperation e
unfolding get_lhs get_rhs
operands-IsOperation (reduce t p) o i = (refl, refl)
operands-IsOperation (map_op t p q) o i = (refl, refl)
operands-IsOperation (list_op t p q) o i = (refl, refl)
operands-IsOperation (scalar_op t p q) o i = (refl, refl)
operands-IsOperation (list l) o i = absurd i
operands-IsOperation (scalar_const x) o i = absurd i
operands-IsOperation (scalar_var x) o i = absurd i

-- A tree that has a value has a value at each node.
abbrev pub HasValues : Reducer → (VariableId → Result ExprResult) → Expr → Type 0
HasValues r read e =
    is_complete e ≡ true
    → (v : ExprResult) → evaluate r read e ≡ ok v
    → (x : Expr) → In x (postorder e)
    → (w : ExprResult) × (evaluate r read x ≡ ok w)

pub evaluate-postorder :
    (r : Reducer) (read : VariableId → Result ExprResult) (e : Expr) → HasValues r read e
evaluate-postorder r read = Expr-induction (HasValues r read) λ e ih c v q x i.
    elim ((In-postorder x e).0 i) [
      | inr z ↦ (v, ap (evaluate r read) z ∙ q)
      | inl (o, j, k) ↦
          let all = sym (evaluate-operation r read e c (operands-IsOperation e o j)) ∙ q in
          let c' =
            complete-postorder e o c ((In-postorder o e).1 (inl (o, j, In-postorder_self o))) in
          elim (Result-cases (evaluate_all r read (operands e))) [
            | inr (f, z) ↦ absurd (let w : err f ≡ ok v = rw z at all in cc)
            | inl (vs, z) ↦
                let (w, at) = evaluate_all-ok r read (operands e) vs o z j in ih o j c' w at x k
          ]
    ]

module _ (lib : GraphLibrary) (sort : lib.Graph → Result (List ℕ)) (root : Expr)
    (d : TaskDecompositor lib sort) (h : IsDecomposition lib sort root d) (r : Reducer)
    (read : VariableId → Result ExprResult) (problem_id : ℕ) (complete : is_complete root ≡ true)
    (plain : (e : Expr) → In e (postorder root) → is_constant e ≡ false)
    (small : length h.records ≤ 2 ^ 32) where
  pub start-IsCoherent :
      (c : CalculationData lib sort) (s : Store)
      → IsConsistent lib sort root d h c
      → LeavesOnly lib sort root d h c.processed_tasks_to_status
      → ((id : VariableId) → static_value s id ≡ read id)
      → ((t : ℕ) → find_row (dyn_record_id problem_id t) s.dynamic_data ≡ none)
      → Coherent lib sort root d h r read problem_id complete plain small (initially lib sort c s)
  start-IsCoherent c s inv leaves same fresh = record {
    inv = inv;
    variables = λ t e id at i. (leaves t completed).1 (refl, (e, id, at, i));
    static_data = same;
    requests = λ request i. absurd i;
    answers = λ id i. absurd i;
    values = λ t e f at row. cc (fresh t, row);
    stored = λ t e at done.
        let (_, (e', id, at', i)) = (leaves t completed).0 done in
        let both : some e' ≡ some e = sym at' ∙ at in
        let q : e' ≡ e = cc both in inl (id, subst (λ x. In id (variable_of x)) q i);
    under_way = λ t q. let (z, _) = (leaves t processing).0 q in cc;
  }

  -- A problem whose tree has a value can always go on until every task is computed.
  pub next_step :
      (bounded : problem_id < 2 ^ 32) (σ : System lib sort) (v : ExprResult)
      → Coherent lib sort root d h r read problem_id complete plain small σ
      → evaluate r read root ≡ ok v
      → ((t : ℕ) → In t d.tasks → lookup t σ.entry.processed_tasks_to_status ≡ some completed)
        ⊎ ((τ : System lib sort) × Step lib sort r problem_id σ τ)
  next_step bounded σ v good value =
      elim (first_remaining σ.entry.processed_tasks_to_status d.tasks) [
        | inl all ↦ inl all
        | inr (pre, t, post, split, done, left) ↦
            let listed : In t d.tasks =
              subst (In t) (sym split) ((In-append t pre (t ∷ post)).1 (inr (inl refl))) in
            elim (IsConsistent-progress lib sort root d h σ.entry t good.inv listed left) [
              | inl (u, deps, i) ↦
                  let (requests, c, run, _, _, _) =
                    send_problem-IsConsistent lib sort root d h problem_id σ.entry good.inv in
                  inr (_, Step.send (λ z. subst (In (u, deps)) z i) run)
              | inr (u, busy) ↦ elim (good.under_way u busy) [
                | inl (request, i, _) ↦
                    let o = good.requests request i in
                    let node = (h.numbering.exact o.expr).0 (In-get_elem? h.records o.task o.at) in
                    let (w, at) = evaluate-postorder r read root complete v value o.expr node in
                    let (before, after, cut) = In-split request σ.sent i in
                    let run : calculate_task r σ.store (record { identity = ""; task = request })
                        ≡ ok (
                          write_dynamic_data σ.store request.id.problem_id request.id.task_id w,
                          record { identity = ""; id = request.id },
                        ) =
                      open_value lib sort root d h r read problem_id complete σ "" request good o
                      ∙ rw at refl in
                    inr (_, Step.work "" before after request cut run)
                | inr i ↦
                    let a = good.answers (dyn_record_id problem_id u) i in
                    let number =
                      reply_task lib sort root d h r read problem_id complete plain small σ
                        (dyn_record_id problem_id u) good a in
                    let (c, run, _, _) =
                      answer-IsConsistent lib sort root d h σ.entry a.task a.status good.inv
                        a.known in
                    let (before, after, cut) = In-split (dyn_record_id problem_id u) σ.answered i in
                    inr (
                      _,
                      Step.reply before after (dyn_record_id problem_id u) cut (omega arith)
                          (ap (answer lib sort σ.entry) number ∙ run),
                    )
              ]
            ]
      ]

  -- The value of a computed operation is read from the store.
  pub computed_value :
      (σ : System lib sort) (t : ℕ) (e : Expr)
      → Coherent lib sort root d h r read problem_id complete plain small σ
      → get_elem? h.records t ≡ some e
      → variable_of e ≡ []
      → lookup t σ.entry.processed_tasks_to_status ≡ some completed
      → (v : ExprResult) × (evaluate r read e ≡ ok v)
        × (read_data σ.store (dyn_id (dyn_record_id problem_id t)) ≡ ok v)
  computed_value σ t e good at operation done =
      let (f, row) : (f : Field) × (find_row (dyn_record_id problem_id t) σ.store.dynamic_data
            ≡ some f) =
        elim (good.stored t e at done) [
          | inl (id, k) ↦ absurd (subst (In id) operation k)
          | inr q ↦ q
        ] in
      let (v, same, value) = good.values t e f at row in
      (
        v,
        value,
        read_data-row σ.store (dyn_record_id problem_id t) ∙ rw (row, same) (of_field-to_field v),
      )
