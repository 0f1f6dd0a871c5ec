-- ===== src/System/Termination.antt =====
-- Every step brings a problem nearer to its end.
use distributed_task_dispatc.Prelude.{
  ℕ, ◌+◌, ◌≤◌, ◌^◌, ◌≡◌, refl, sym, ap, ◌∙◌, subst, inl, inr, true, false, List, ◌∷◌, ◌++◌, Result,
  ok, err, arith, length, get_elem?-lt, In, In-append, Eq_nat, Result-cases,
}
use distributed_task_dispatc.Domain.{ExprResult, VariableId}
use distributed_task_dispatc.Domain.Arith.{Reducer}
use distributed_task_dispatc.Expr.{Expr}
use distributed_task_dispatc.Expr.Traversal.{postorder, is_complete}
use distributed_task_dispatc.Dag.Library.{GraphLibrary}
use distributed_task_dispatc.Messages.{uint32, TaskId, WorkerTaskId}
use distributed_task_dispatc.Decomposition.{TaskDecompositor}
use distributed_task_dispatc.Decomposition.Order.{IsDecomposition}
use distributed_task_dispatc.Decomposition.Independent.{is_constant}
use distributed_task_dispatc.Database.{write_dynamic_data}
use distributed_task_dispatc.Dispatch.Send.{send_problem-IsConsistent}
use distributed_task_dispatc.Dispatch.Completion.{answer, answer-IsConsistent}
use distributed_task_dispatc.System.{System, Step, Run, evaluate}
use distributed_task_dispatc.System.Coherent.{IsAnswer}
use distributed_task_dispatc.System.Working.{open_value}
use distributed_task_dispatc.System.Others.{Elsewhere-SameFor, Elsewhere-IsCoherent}
use distributed_task_dispatc.System.Measure.{
  Coherent, measure, Falls, send-Falls, work-Falls, reply-Falls,
}

module _ (lib : GraphLibrary) (sort : lib.Graph → Result (List ℕ)) (root : Expr)
    (d : TaskDecompositor lib sort) (h : IsDecomposition lib sort root d) (r : Reducer)
    (read : VariableId → Result ExprResult) (problem_id : ℕ) (complete : is_complete root ≡ true)
    (plain : (e : Expr) → In e (postorder root) → is_constant e ≡ false)
    (small : length h.records ≤ 2 ^ 32) where
  -- The number of the task in a reply is the task's.
  pub reply_task :
      (σ : System lib sort) (id : TaskId)
      → Coherent lib sort root d h r read problem_id complete plain small σ
      → (a : IsAnswer lib sort root d h r read problem_id σ.entry σ.store id) → id.task_id ≡ a.task
  reply_task σ id good a =
      let q : id.task_id ≡ uint32 a.task = ap (λ (x : TaskId). x.task_id) a.id_of in
      let less = get_elem?-lt h.records a.task a.at in omega arith

  step-Falls :
      (σ τ : System lib sort)
      → Step lib sort r problem_id σ τ
      → Coherent lib sort root d h r read problem_id complete plain small σ
      → Falls lib sort root d h r read problem_id complete plain small σ τ
  step-Falls σ τ (Step.send {requests = rs} {c = c} left run) good =
      let (rs', c', run', are, inv, marked) =
        send_problem-IsConsistent lib sort root d h problem_id σ.entry good.inv in
      let q : ok (rs, c) ≡ ok (rs', c') = sym run ∙ run' in
      let same : rs ≡ rs' = cc q in
      let same' : c ≡ c' = cc q in
      subst
        (λ x.
          Falls lib sort root d h r read problem_id complete plain small σ
            (record σ { entry = x; sent = σ.sent ++ rs }))
        (sym same')
        (subst
          (λ x.
            Falls lib sort root d h r read problem_id complete plain small σ
              (record σ { entry = c'; sent = σ.sent ++ x }))
          (sym same)
          (send-Falls lib sort root d h r read problem_id complete plain small σ rs' c' good left
            inv are marked))
  step-Falls σ τ (Step.work {s = s} {response = response} identity pre post t split run) good =
      let o =
        good.requests t
          (subst (In t) (sym split) ((In-append t pre (t ∷ post)).1 (inr (inl refl)))) in
      let value =
        sym (open_value lib sort root d h r read problem_id complete σ identity t good o) ∙ run in
      elim (Result-cases (evaluate r read o.expr)) [
        | inr (f, z) ↦ absurd (let w : err f ≡ ok (s, response) = rw z at value in cc)
        | inl (v, z) ↦
            let w : ok (
              write_dynamic_data σ.store t.id.problem_id t.id.task_id v,
              record { identity = identity; id = t.id },
            )
                ≡ ok (s, response) =
              rw z at value in
            let stored : write_dynamic_data σ.store t.id.problem_id t.id.task_id v ≡ s = cc w in
            let said : record { identity = identity; id = t.id } ≡ response = cc w in
            let id : t.id ≡ response.id = ap (λ (x : WorkerTaskId). x.id) said in
            subst
              (λ x.
                Falls lib sort root d h r read problem_id complete plain small σ
                  (record σ { sent = pre ++ post; answered = response.id ∷ σ.answered; store = x }))
              stored
              (subst
                (λ x. Falls lib sort root d h r read problem_id complete plain small σ (record σ {
                  sent = pre ++ post;
                  answered = x ∷ σ.answered;
                  store = write_dynamic_data σ.store t.id.problem_id t.id.task_id v;
                }))
                id
                (work-Falls lib sort root d h r read problem_id complete plain small σ pre post t v
                  good split o z))
      ]
  step-Falls σ τ (Step.reply {c = c} pre post id split own run) good =
      let a =
        good.answers id
          (subst (In id) (sym split) ((In-append id pre (id ∷ post)).1 (inr (inl refl)))) in
      let (c', run', inv, marked) =
        answer-IsConsistent lib sort root d h σ.entry a.task a.status good.inv a.known in
      let q : ok c ≡ ok c' =
        sym run ∙ ap (answer lib sort σ.entry) (reply_task σ id good a) ∙ run' in
      let same : c ≡ c' = cc q in
      subst
        (λ x.
          Falls lib sort root d h r read problem_id complete plain small σ
            (record σ { entry = x; answered = pre ++ post }))
        (sym same)
        (reply-Falls lib sort root d h r read problem_id complete plain small σ c' pre post id good
          split a inv marked)

  pub Run-Falls :
      (n : ℕ) (σ τ : System lib sort)
      → Run lib sort r problem_id n σ τ
      → Coherent lib sort root d h r read problem_id complete plain small σ
      → Coherent lib sort root d h r read problem_id complete plain small τ
        × (n + measure lib sort root d h r read problem_id complete plain small τ
            ≤ measure lib sort root d h r read problem_id complete plain small σ)
  Run-Falls _ σ τ Run.stop good = (good, omega arith)
  Run-Falls _ σ τ (Run.step {n = n} {τ = υ} first rest) good =
      let (good', less) = step-Falls σ υ first good in
      let (good'', bound) = Run-Falls n υ τ rest good' in (good'', omega arith)
  Run-Falls _ σ τ (Run.elsewhere {n = n} {τ = υ} other rest) good =
      let (s, q, same) = Elsewhere-SameFor lib sort root d h r read problem_id σ υ other in
      let good' = Elsewhere-IsCoherent lib sort root d h r read problem_id σ υ other good in
      let (good'', bound) = Run-Falls n υ τ rest good' in
      let unchanged = ap (measure lib sort root d h r read problem_id complete plain small) q in
      (good'', omega arith)
