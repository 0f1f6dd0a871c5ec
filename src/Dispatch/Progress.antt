-- ===== src/Dispatch/Progress.antt =====
-- The tasks of a problem that are not computed, and the reply for the last task.
use distributed_task_dispatc.Prelude.{
  ℕ, ◌≡◌, ◌≢◌, refl, sym, ap, ◌∙◌, subst, ◌⊎◌, inl, inr, List, [], ◌∷◌, ◌++◌, some, Result, ok,
  get_last?, In, In-append, Distinct, Before, Before-last, Before-In, lookup, lookup-assign_self,
  lookup-assign_ne, Distinct-assign, assign, Eq_nat, Option-cases,
}
use distributed_task_dispatc.Expr.{Expr}
use distributed_task_dispatc.Dag.Library.{GraphLibrary}
use distributed_task_dispatc.Decomposition.{TaskDecompositor}
use distributed_task_dispatc.Decomposition.Order.{IsDecomposition}
use distributed_task_dispatc.Dispatch.{
  TaskStatus, processing, completed, CalculationData, complete_last,
}
use distributed_task_dispatc.Dispatch.Invariant.{
  IsReady, IsConsistent, assign-IsStarted, assign-IsReady,
}

completed_or_not :
    (m : List (ℕ × TaskStatus)) (t : ℕ)
    → (lookup t m ≡ some completed) ⊎ (lookup t m ≢ some completed)
completed_or_not m t = elim (Option-cases (lookup t m)) [
  | inl e ↦ inr (λ q. cc)
  | inr (completed, e) ↦ inl e
  | inr (processing, e) ↦ inr (λ q. cc)
]

-- The first task that is not computed.
pub first_remaining :
    (m : List (ℕ × TaskStatus)) (ts : List ℕ)
    → ((t : ℕ) → In t ts → lookup t m ≡ some completed)
      ⊎ ((pre : List ℕ) × (t : ℕ) × (post : List ℕ) × (ts ≡ pre ++ t ∷ post)
          × ((u : ℕ) → In u pre → lookup u m ≡ some completed)
          × (lookup t m ≢ some completed))
first_remaining m [] = inl (λ t i. absurd i)
first_remaining m (x ∷ ts) = elim (completed_or_not m x) [
  | inr n ↦ inr ([], x, ts, refl, λ u i. absurd i, n)
  | inl e ↦ elim (first_remaining m ts) [
    | inl all ↦ inl (λ t i. elim i [ inl q ↦ rw q e | inr j ↦ all t j ])
    | inr (pre, t, post, split, done, n) ↦
        inr (
          x ∷ pre,
          t,
          post,
          ap (◌∷◌ x) split,
          λ u i. elim i [ inl q ↦ rw q e | inr j ↦ done u j ],
          n,
        )
  ]
]

-- What stands before the element of a split stands in the front part.
Before-split :
    (pre post : List ℕ) (v t : ℕ)
    → Distinct (pre ++ t ∷ post)
    → Before v t (pre ++ t ∷ post)
    → In v pre
Before-split [] post v t d (inl b) = absurd (d.0 b.1)
Before-split [] post v t d (inr b) = absurd (d.0 (Before-In post v t b))
Before-split (x ∷ pre) post v t d (inl b) = inl b.0
Before-split (x ∷ pre) post v t d (inr b) = inr (Before-split pre post v t d.1 b)

module _ (lib : GraphLibrary) (sort : lib.Graph → Result (List ℕ)) (root : Expr)
    (d : TaskDecompositor lib sort) (h : IsDecomposition lib sort root d) where
  -- While a task of a consistent problem is not computed, some task can be sent, or some task was
  -- sent and its reply is outstanding.
  pub IsConsistent-progress :
      (c : CalculationData lib sort) (u : ℕ)
      → IsConsistent lib sort root d h c
      → In u d.tasks
      → lookup u c.processed_tasks_to_status ≢ some completed
      → ((t : ℕ) × (deps : List ℕ) × In (t, deps) c.computable_task_to_dependencies)
        ⊎ ((t : ℕ) × (lookup t c.processed_tasks_to_status ≡ some processing))
  IsConsistent-progress c u inv listed undone =
      let m = c.processed_tasks_to_status in
      elim (first_remaining m d.tasks) [
        | inl all ↦ absurd (undone (all u listed))
        | inr (pre, t, post, split, done, left) ↦
            let here : In t d.tasks =
              subst (In t) (sym split) ((In-append t pre (t ∷ post)).1 (inr (inl refl))) in
            let ready : IsReady lib sort root d h m t = λ v i.
              let b = h.order.before t v ((h.order.exact t).0 here) i in
              done v (
                Before-split pre post v t (subst Distinct split h.order.distinct)
                  (subst (Before v t) split b)) in
            elim (Option-cases (lookup t m)) [
              | inl e ↦ inl (
                t,
                lib.adjacent_vertices t d.graph,
                (inv.exact t (lib.adjacent_vertices t d.graph)).1 (here, e, ready, refl),
              )
              | inr (completed, e) ↦ absurd (left e)
              | inr (processing, e) ↦ inr (t, e)
            ]
      ]

  -- On a consistent problem whose last task has a status, the reply for that task succeeds: the
  -- task is computed, no other status changes, and the invariant holds again.
  pub complete_last-IsConsistent :
      (c : CalculationData lib sort) (t : ℕ) (s : TaskStatus)
      → IsConsistent lib sort root d h c
      → get_last? d.tasks ≡ some t
      → lookup t c.processed_tasks_to_status ≡ some s
      → (c' : CalculationData lib sort) × (complete_last lib sort c t ≡ ok c')
        × IsConsistent lib sort root d h c'
        × (c'.processed_tasks_to_status ≡ assign t completed c.processed_tasks_to_status)
  unfolding complete_last
  complete_last-IsConsistent c t s inv last known =
      let m = c.processed_tasks_to_status in
      let entries = c.computable_task_to_dependencies in
      (
        record c { processed_tasks_to_status = assign t completed m },
        rw known refl,
        record {
          same = inv.same;
          distinct = Distinct-assign t completed m inv.distinct;
          started = assign-IsStarted lib sort root d h m t s known inv.started;
          exact = λ t' deps. (
            λ i.
                let (listed, unseen, ready, e) = (inv.exact t' deps).0 i in
                (
                  listed,
                  lookup-assign_ne t t' completed m (λ q. cc) ∙ unseen,
                  assign-IsReady lib sort root d h m t t' ready,
                  e,
                ),
            λ (listed, unseen, ready, e).
                let apart : t ≢ t' = λ q. cc (
                  subst (λ u. lookup u (assign t completed m) ≡ some completed) q
                      (lookup-assign_self t completed m),
                  unseen,
                ) in
                (inv.exact t' deps).1 (
                  listed,
                  sym (lookup-assign_ne t t' completed m apart) ∙ unseen,
                  λ v i.
                      let b = h.order.before t' v ((h.order.exact t').0 listed) i in
                      let early : t ≢ v =
                        λ q. Before-last d.tasks v t' h.order.distinct b (last ∙ ap some q) in
                      sym (lookup-assign_ne t v completed m early) ∙ ready v i,
                  e,
                ),
          );
          once = inv.once;
          named = inv.named;
        },
        refl,
      )
