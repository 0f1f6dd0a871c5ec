-- ===== src/System/Measure.antt =====
-- What a problem with its messages still has to do, and how each kind of step lowers it.
use distributed_task_dispatc.Prelude.{
  ℕ, suc, ◌+◌, ◌*◌, ◌≤◌, ◌<◌, ◌^◌, ◌≡◌, ◌≢◌, refl, ap, inl, inr, true, false, List, [], ◌∷◌, ◌++◌,
  Result, ok, arith, length, length-append, In, In-entry, assign, Eq_nat, List-cases,
}
use distributed_task_dispatc.Domain.{ExprResult, VariableId}
use distributed_task_dispatc.Domain.Arith.{Reducer}
use distributed_task_dispatc.Expr.{Expr}
use distributed_task_dispatc.Expr.Traversal.{postorder, is_complete}
use distributed_task_dispatc.Dag.Library.{GraphLibrary}
use distributed_task_dispatc.Messages.{TaskId, Task}
use distributed_task_dispatc.Decomposition.{TaskDecompositor}
use distributed_task_dispatc.Decomposition.Order.{IsDecomposition}
use distributed_task_dispatc.Decomposition.Independent.{is_constant}
use distributed_task_dispatc.Database.{write_dynamic_data}
use distributed_task_dispatc.Dispatch.{completed, CalculationData}
use distributed_task_dispatc.Dispatch.Invariant.{IsConsistent}
use distributed_task_dispatc.Dispatch.Send.{AreRequests, mark_processing}
use distributed_task_dispatc.Dispatch.Work.{work, work-assign, work-mark_processing}
use distributed_task_dispatc.System.{System, evaluate}
use distributed_task_dispatc.System.Coherent.{IsCoherent, IsAnswer, IsOpen}
use distributed_task_dispatc.System.Sending.{send-IsCoherent}
use distributed_task_dispatc.System.Answering.{reply-IsCoherent}
use distributed_task_dispatc.System.Working.{worked-IsCoherent}

module _ (lib : GraphLibrary) (sort : lib.Graph → Result (List ℕ)) (root : Expr)
    (d : TaskDecompositor lib sort) (h : IsDecomposition lib sort root d) (r : Reducer)
    (read : VariableId → Result ExprResult) (problem_id : ℕ) (complete : is_complete root ≡ true)
    (plain : (e : Expr) → In e (postorder root) → is_constant e ≡ false)
    (small : length h.records ≤ 2 ^ 32) where
  abbrev pub Coherent : System lib sort → Type 0
  Coherent σ = IsCoherent lib sort root d h r read problem_id σ

  -- What a system still has to do: it falls with every step.
  abbrev pub measure : System lib sort → ℕ
  measure σ =
      3 * work σ.entry.processed_tasks_to_status d.tasks + 2 * length σ.sent + length σ.answered

  length-requests :
      (c : CalculationData lib sort) (entries : List (ℕ × List ℕ)) (requests : List Task)
      → AreRequests lib sort root d h problem_id c entries requests
      → length requests ≡ length entries
  length-requests c [] [] are = refl
  length-requests c [] (q ∷ qs) are = absurd are
  length-requests c (e ∷ es) [] are = absurd are
  length-requests c (e ∷ es) (q ∷ qs) are = ap suc (length-requests c es qs are.1)

  length-taken :
      {A : Type 0} (pre post : List A) (x : A) (xs : List A)
      → xs ≡ pre ++ x ∷ post
      → length xs ≡ suc (length (pre ++ post))
  length-taken pre post x xs split =
      let whole = ap length split in
      omega (arith, length-append pre (x ∷ post), length-append pre post)

  abbrev pub Falls : System lib sort → System lib sort → Type 0
  Falls σ τ = Coherent τ × (suc (measure τ) ≤ measure σ)

  -- What is sent is work that is done.
  pub sent-work :
      (c c' : CalculationData lib sort) (requests : List Task)
      → IsConsistent lib sort root d h c
      → c.computable_task_to_dependencies ≢ []
      → AreRequests lib sort root d h problem_id c c.computable_task_to_dependencies requests
      → c'.processed_tasks_to_status
        ≡ mark_processing c.computable_task_to_dependencies c.processed_tasks_to_status
      → (work c'.processed_tasks_to_status d.tasks + length requests
          ≡ work c.processed_tasks_to_status d.tasks)
        × (0 < length requests)
  sent-work c c' requests inv left are marked =
      let entries = c.computable_task_to_dependencies in
      let less =
        work-mark_processing entries c.processed_tasks_to_status d.tasks h.order.distinct inv.once
          λ t i.
            let (deps, j) = In-entry t entries i in
            let (listed, unseen, _, _) = (inv.exact t deps).0 j in (listed, unseen) in
      let count = length-requests c entries requests are in
      let now = ap (λ x. work x d.tasks) marked in
      (
        omega arith,
        elim (List-cases entries) [
          | inl z ↦ absurd (left z)
          | inr (x, xs, z) ↦ let some_left = ap length z in omega arith
        ],
      )

  pub send-Falls :
      (σ : System lib sort) (requests : List Task) (c : CalculationData lib sort)
      → Coherent σ
      → σ.entry.computable_task_to_dependencies ≢ []
      → IsConsistent lib sort root d h c
      → AreRequests lib sort root d h problem_id σ.entry σ.entry.computable_task_to_dependencies
          requests
      → c.processed_tasks_to_status
        ≡ mark_processing σ.entry.computable_task_to_dependencies σ.entry.processed_tasks_to_status
      → Falls σ (record σ { entry = c; sent = σ.sent ++ requests })
  send-Falls σ requests c good left inv are marked =
      let (done, some_left) = sent-work σ.entry c requests good.inv left are marked in
      let sum = length-append σ.sent requests in
      (
        send-IsCoherent lib sort root d h r read problem_id plain σ c requests good inv are marked,
        omega arith,
      )

  pub work-Falls :
      (σ : System lib sort) (pre post : List Task) (t : Task) (v : ExprResult)
      → Coherent σ
      → σ.sent ≡ pre ++ t ∷ post
      → (o : IsOpen lib sort root d h r read problem_id σ.entry t) → evaluate r read o.expr ≡ ok v
      → Falls σ (record σ {
        sent = pre ++ post;
        answered = t.id ∷ σ.answered;
        store = write_dynamic_data σ.store t.id.problem_id t.id.task_id v;
      })
  work-Falls σ pre post t v good split o value =
      let taken = length-taken pre post t σ.sent split in
      (
        worked-IsCoherent lib sort root d h r read problem_id complete small σ pre post t v good
            split o value,
        omega arith,
      )

  pub reply-Falls :
      (σ : System lib sort) (c : CalculationData lib sort) (pre post : List TaskId) (id : TaskId)
      → Coherent σ
      → σ.answered ≡ pre ++ id ∷ post
      → (a : IsAnswer lib sort root d h r read problem_id σ.entry σ.store id)
      → IsConsistent lib sort root d h c
      → c.processed_tasks_to_status ≡ assign a.task completed σ.entry.processed_tasks_to_status
      → Falls σ (record σ { entry = c; answered = pre ++ post })
  reply-Falls σ c pre post id good split a inv marked =
      let taken = length-taken pre post id σ.answered split in
      let listed = (good.inv.started a.task a.status a.known).0 in
      let moved =
        work-assign σ.entry.processed_tasks_to_status a.task completed d.tasks h.order.distinct
          listed in
      let now = ap (λ x. work x d.tasks) marked in
      (
        reply-IsCoherent lib sort root d h r read problem_id complete small σ c pre post id good
            split a inv marked,
        omega arith,
      )
