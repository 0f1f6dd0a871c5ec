-- ===== src/System/Answering.antt =====
-- `UpdateComputableTasks` keeps the invariant of a problem with its messages.
use distributed_task_dispatc.Prelude.{
  ℕ, ◌≤◌, ◌^◌, ◌≡◌, ◌≢◌, sym, ap, ◌∙◌, subst, inl, inr, true, List, ◌∷◌, ◌++◌, some, Result, length,
  lookup, assign, lookup-assign_self, lookup-assign_ne, Eq_nat, ℕ_discrete,
}
use distributed_task_dispatc.Domain.{ExprResult, VariableId}
use distributed_task_dispatc.Domain.Arith.{Reducer}
use distributed_task_dispatc.Expr.{Expr}
use distributed_task_dispatc.Expr.Traversal.{is_complete}
use distributed_task_dispatc.Dag.Library.{GraphLibrary}
use distributed_task_dispatc.Messages.{TaskId}
use distributed_task_dispatc.Decomposition.{TaskDecompositor}
use distributed_task_dispatc.Decomposition.Order.{IsDecomposition}
use distributed_task_dispatc.Database.{dyn_record_id, find_row}
use distributed_task_dispatc.Dispatch.{processing, completed, CalculationData}
use distributed_task_dispatc.Dispatch.Invariant.{IsConsistent}
use distributed_task_dispatc.System.{System}
use distributed_task_dispatc.System.Coherent.{IsCoherent, IsAnswer}
use distributed_task_dispatc.System.Grows.{Grows, assign-Grows, IsOpen-Grows, IsAnswer-Grows}
use distributed_task_dispatc.System.Working.{In-rest, In-taken, known_task, same_task}

module _ (lib : GraphLibrary) (sort : lib.Graph → Result (List ℕ)) (root : Expr)
    (d : TaskDecompositor lib sort) (h : IsDecomposition lib sort root d) (r : Reducer)
    (read : VariableId → Result ExprResult) (problem_id : ℕ) (complete : is_complete root ≡ true)
    (small : length h.records ≤ 2 ^ 32) where
  -- The state after a reply.
  abbrev replied :
      System lib sort → CalculationData lib sort → List TaskId → List TaskId → System lib sort
  replied σ c pre post = record σ { entry = c; answered = pre ++ post }

  pub reply-IsCoherent :
      (σ : System lib sort) (c : CalculationData lib sort) (pre post : List TaskId) (id : TaskId)
      → IsCoherent lib sort root d h r read problem_id σ
      → σ.answered ≡ pre ++ id ∷ post
      → (a : IsAnswer lib sort root d h r read problem_id σ.entry σ.store id)
      → IsConsistent lib sort root d h c
      → c.processed_tasks_to_status ≡ assign a.task completed σ.entry.processed_tasks_to_status
      → IsCoherent lib sort root d h r read problem_id (replied σ c pre post)
  reply-IsCoherent σ c pre post id good split a inv marked =
      let m = σ.entry.processed_tasks_to_status in
      let t = a.task in
      let grows = subst (Grows m) (sym marked) (assign-Grows t m) in
      let here : lookup t c.processed_tasks_to_status ≡ some completed =
        ap (lookup t) marked ∙ lookup-assign_self t completed m in
      let other : (u : ℕ) → t ≢ u → lookup u c.processed_tasks_to_status ≡ lookup u m =
        λ u n. ap (lookup u) marked ∙ lookup-assign_ne t u completed m n in
      record {
        inv = inv;
        variables = λ u e id' at i. elim (ℕ_discrete t u) [
          | yes q ↦ subst (λ x. lookup x c.processed_tasks_to_status ≡ some completed) q here
          | no n ↦ other u n ∙ good.variables u e id' at i
        ];
        static_data = good.static_data;
        requests = λ request i.
            IsOpen-Grows lib sort root d h r read problem_id σ.entry c request grows
              (good.requests request i);
        answers = λ id' i.
            IsAnswer-Grows lib sort root d h r read problem_id σ.entry c σ.store id' grows
              (good.answers id' (In-rest pre post id id' σ.answered split i));
        values = good.values;
        stored = λ u e at done. elim (ℕ_discrete t u) [
          | yes q ↦ inr (
            a.row,
            subst (λ x. find_row (dyn_record_id problem_id x) σ.store.dynamic_data ≡ some a.row) q
                a.found,
          )
          | no n ↦ good.stored u e at (sym (other u n) ∙ done)
        ];
        under_way = λ u q. elim (ℕ_discrete t u) [
          | yes e ↦ absurd (
              let z = subst (λ x. lookup x c.processed_tasks_to_status ≡ some completed) e here in
              cc)
          | no n ↦ elim (good.under_way u (sym (other u n) ∙ q)) [
            | inl z ↦ inl z
            | inr i ↦ elim (In-taken pre post id (dyn_record_id problem_id u) σ.answered split i) [
              | inr j ↦ inr j
              | inl z ↦
                  let (e, at) =
                    known_task lib sort root d h r read problem_id complete σ.entry good.inv u
                      processing (sym (other u n) ∙ q) in
                  absurd (
                    n (
                      sym (
                        same_task lib sort root d h r read problem_id complete small u t e a.expr at
                          a.at (z ∙ a.id_of))))
            ]
          ]
        ];
      }
