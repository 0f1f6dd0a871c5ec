-- ===== src/Dispatch/Completion.antt =====
-- Whole runs of one problem, whatever the order of its sends and replies.
use distributed_task_dispatc.Prelude.{
  ℕ, suc, ◌+◌, ◌*◌, ◌≤◌, ◌≡◌, ◌≢◌, refl, sym, ap, ◌∙◌, subst, ◌⊎◌, inl, inr, List, [], ◌∷◌, some,
  Result, ok, arith, ◌==◌, ==_iff, Bool-cases, List-cases, length, get_last?, In, In-append,
  In-entry, lookup, assign, Eq_nat, if◌then◌else◌, ◌>>=◌, or_fault, bad_deref,
}
use distributed_task_dispatc.Expr.{Expr}
use distributed_task_dispatc.Dag.Library.{GraphLibrary}
use distributed_task_dispatc.Messages.{Task}
use distributed_task_dispatc.Decomposition.{TaskDecompositor}
use distributed_task_dispatc.Decomposition.Order.{IsDecomposition}
use distributed_task_dispatc.Dispatch.{
  TaskStatus, processing, completed, CalculationData, send_problem, update_computable_tasks_impl,
  complete_last,
}
use distributed_task_dispatc.Dispatch.Invariant.{
  IsConsistent, update_computable_tasks_impl-IsConsistent,
}
use distributed_task_dispatc.Dispatch.Send.{send_problem-IsConsistent}
use distributed_task_dispatc.Dispatch.Progress.{
  first_remaining, IsConsistent-progress, complete_last-IsConsistent,
}
use distributed_task_dispatc.Dispatch.Work.{
  cost, work, work-bound, work-assign, work-mark_processing,
}

module _ (lib : GraphLibrary) (sort : lib.Graph → Result (List ℕ)) where
  -- What `UpdateComputableTasks` does to the entry of a problem.
  abbrev pub answer : CalculationData lib sort → ℕ → Result (CalculationData lib sort)
  answer c t = do
    last ← or_fault (get_last? c.decompositor.tasks) bad_deref
    if t == last then complete_last lib sort c t else update_computable_tasks_impl lib sort c t

  -- A step that does something: a send with requests, or a reply for a task under way.
  pub data Step (problem_id : ℕ)
      : CalculationData lib sort → CalculationData lib sort → Type 0 where
    send :
        {c c' : CalculationData lib sort} {requests : List Task}
        → c.computable_task_to_dependencies ≢ []
        → send_problem lib sort problem_id c ≡ ok (requests, c')
        → Step problem_id c c'
    reply :
        {c c' : CalculationData lib sort} (t : ℕ)
        → lookup t c.processed_tasks_to_status ≡ some processing
        → answer c t ≡ ok c'
        → Step problem_id c c'

  -- `Run n c c'`: n steps lead from `c` to `c'`.
  pub data Run (problem_id : ℕ)
      : ℕ → CalculationData lib sort → CalculationData lib sort → Type 0 where
    stop : {c : CalculationData lib sort} → Run problem_id 0 c c
    step :
        {n : ℕ} {c c' c'' : CalculationData lib sort}
        → Step problem_id c c'
        → Run problem_id n c' c''
        → Run problem_id (suc n) c c''

  module _ (root : Expr) (d : TaskDecompositor lib sort) (h : IsDecomposition lib sort root d) where
    pub answer-IsConsistent :
        (c : CalculationData lib sort) (t : ℕ) (s : TaskStatus)
        → IsConsistent lib sort root d h c
        → lookup t c.processed_tasks_to_status ≡ some s
        → (c' : CalculationData lib sort) × (answer c t ≡ ok c')
          × IsConsistent lib sort root d h c'
          × (c'.processed_tasks_to_status ≡ assign t completed c.processed_tasks_to_status)
    answer-IsConsistent c t s inv known =
        let (last, at_end, _) = h.last_task in
        let end : get_last? c.decompositor.tasks ≡ some last = rw inv.same at_end in
        elim (Bool-cases (t == last)) [
          | inl b ↦
              let here = at_end ∙ ap some (sym ((==_iff t last).0 b)) in
              let (c', run, inv', marked) =
                complete_last-IsConsistent lib sort root d h c t s inv here known in
              (c', rw (end, b) run, inv', marked)
          | inr b ↦
              let (c', run, inv', marked) =
                update_computable_tasks_impl-IsConsistent lib sort root d h c t s inv known in
              (c', rw (end, b) run, inv', marked)
        ]

    abbrev Decreases : CalculationData lib sort → CalculationData lib sort → Type 0
    Decreases c c' =
        IsConsistent lib sort root d h c'
        × (suc (work c'.processed_tasks_to_status d.tasks)
            ≤ work c.processed_tasks_to_status d.tasks)

    step-Decreases :
        (problem_id : ℕ) (c c' : CalculationData lib sort)
        → Step problem_id c c'
        → IsConsistent lib sort root d h c
        → Decreases c c'
    step-Decreases problem_id c c' (send {requests = rs} some_left run) inv =
        let (_, e, run', _, inv', marked) =
          send_problem-IsConsistent lib sort root d h problem_id c inv in
        let entries = c.computable_task_to_dependencies in
        let q : ok (rs, c') ≡ ok (_, e) = sym run ∙ run' in
        let same : c' ≡ e = cc q in
        let less =
          work-mark_processing entries c.processed_tasks_to_status d.tasks h.order.distinct inv.once
            λ t i.
              let (deps, j) = In-entry t entries i in
              let (listed, unseen, _, _) = (inv.exact t deps).0 j in (listed, unseen) in
        subst (Decreases c) (sym same) (
          inv',
          rw marked (elim (List-cases entries) [
            | inl z ↦ absurd (some_left z)
            | inr (x, xs, z) ↦ let size = ap length z in omega arith
          ]),
        )
    step-Decreases problem_id c c' (reply t under_way run) inv =
        let (e, run', inv', marked) = answer-IsConsistent c t processing inv under_way in
        let q : ok c' ≡ ok e = sym run ∙ run' in
        let same : c' ≡ e = cc q in
        let listed = (inv.started t processing under_way).0 in
        let less =
          work-assign c.processed_tasks_to_status t completed d.tasks h.order.distinct listed in
        let before = ap cost under_way in
        subst (Decreases c) (sym same) (inv', rw marked (omega arith))

    Run-work :
        (problem_id n : ℕ) (c c' : CalculationData lib sort)
        → Run problem_id n c c'
        → IsConsistent lib sort root d h c
        → IsConsistent lib sort root d h c'
          × (n + work c'.processed_tasks_to_status d.tasks
              ≤ work c.processed_tasks_to_status d.tasks)
    Run-work problem_id _ c c' stop inv = (inv, omega arith)
    Run-work problem_id _ c c' (step {n = n} {c' = e} first rest) inv =
        let (inv', less) = step-Decreases problem_id c e first inv in
        let (inv'', bound) = Run-work problem_id n e c' rest inv' in (inv'', omega arith)

    next_step :
        (problem_id : ℕ) (c : CalculationData lib sort)
        → IsConsistent lib sort root d h c
        → ((t : ℕ) → In t d.tasks → lookup t c.processed_tasks_to_status ≡ some completed)
          ⊎ ((c' : CalculationData lib sort) × Step problem_id c c')
    next_step problem_id c inv = elim (first_remaining c.processed_tasks_to_status d.tasks) [
      | inl all ↦ inl all
      | inr (pre, t, post, split, done, left) ↦
          let listed : In t d.tasks =
            subst (In t) (sym split) ((In-append t pre (t ∷ post)).1 (inr (inl refl))) in
          elim (IsConsistent-progress lib sort root d h c t inv listed left) [
            | inl (u, deps, i) ↦
                let (requests, c', run, _, _, _) =
                  send_problem-IsConsistent lib sort root d h problem_id c inv in
                inr (c', send (λ z. subst (In (u, deps)) z i) run)
            | inr (u, under_way) ↦
                let (c', run, _, _) = answer-IsConsistent c u processing inv under_way in
                inr (c', reply u under_way run)
          ]
    ]

    -- Whatever the order of sends and replies, a run of a consistent problem has at most two steps for
    -- each task; and where it stands, either every task is computed or some step is possible, so a run
    -- that goes on as long as it can computes every task.
    pub Run-completes :
        (problem_id n : ℕ) (c c' : CalculationData lib sort)
        → Run problem_id n c c'
        → IsConsistent lib sort root d h c
        → (n ≤ 2 * length d.tasks)
          × IsConsistent lib sort root d h c'
          × (((t : ℕ) → In t d.tasks → lookup t c'.processed_tasks_to_status ≡ some completed)
              ⊎ ((c'' : CalculationData lib sort) × Step problem_id c' c''))
    Run-completes problem_id n c c' run inv =
        let (inv', bound) = Run-work problem_id n c c' run inv in
        let most = work-bound c.processed_tasks_to_status d.tasks in
        (omega arith, inv', next_step problem_id c' inv')
