-- ===== src/Dispatch/Serving.antt =====
-- `SendComputableTasks` and `UpdateComputableTasks` on the whole dispatcher, with any number of
-- problems.
use distributed_task_dispatc.Prelude.{
  ℕ, ◌≡◌, refl, sym, ap, ◌∙◌, subst, inl, inr, Bool, true, List, [], ◌∷◌, ◌++◌, some, Result, ok,
  ◌==◌, ==_iff, get_last?, In, keys, lookup, lookup-In, lookup-entry, assign-entry, keys-assign,
  keys-assign_mono, keys-lookup, assign, Eq_nat, Bool-cases, if◌then◌else◌,
}
use distributed_task_dispatc.Expr.{Expr}
use distributed_task_dispatc.Dag.Library.{GraphLibrary}
use distributed_task_dispatc.Messages.{TaskId, Task}
use distributed_task_dispatc.Decomposition.{TaskDecompositor}
use distributed_task_dispatc.Decomposition.Order.{IsDecomposition}
use distributed_task_dispatc.Dispatch.{
  processing, completed, CalculationData, Dispatcher, send_problems, send_computable_tasks,
  update_computable_tasks,
}
use distributed_task_dispatc.Dispatch.Invariant.{
  IsConsistent, update_computable_tasks_impl-IsConsistent,
}
use distributed_task_dispatc.Dispatch.Send.{send_problem-IsConsistent}
use distributed_task_dispatc.Dispatch.Progress.{complete_last-IsConsistent}

module _ (lib : GraphLibrary) (sort : lib.Graph → Result (List ℕ)) where
  -- The calculation of some tree.
  pub record IsCalculation (c : CalculationData lib sort) : Type 0 where
    pub root : Expr
    pub d : TaskDecompositor lib sort
    pub made : IsDecomposition lib sort root d
    pub inv : IsConsistent lib sort root d made c

  abbrev pub AllCalculations : List (ℕ × CalculationData lib sort) → Type 0
  AllCalculations problems =
      (problem_id : ℕ) (c : CalculationData lib sort)
      → In (problem_id, c) problems
      → IsCalculation c

  pub record IsServing (s : Dispatcher lib sort) : Type 0 where
    pub each : AllCalculations s.calculations
    pub synced :
        (problem_id : ℕ) → In problem_id (keys s.calculations) → In problem_id (keys s.sync)

  send_problems_lem :
      (problems : List (ℕ × CalculationData lib sort))
      → AllCalculations problems
      → (requests : List Task) × (problems' : List (ℕ × CalculationData lib sort)) × (send_problems
            lib sort problems
          ≡ ok (requests, problems'))
        × AllCalculations problems'
        × (keys problems' ≡ keys problems)
  unfolding send_problems
  send_problems_lem [] all = ([], [], refl, λ k c i. absurd i, refl)
  send_problems_lem ((problem_id, c) ∷ problems) all =
      let good = all problem_id c (inl refl) in
      let (rs, c', run, _, inv, _) =
        send_problem-IsConsistent lib sort good.root good.d good.made problem_id c good.inv in
      let (later, problems', runs, all', same) =
        send_problems_lem problems (λ k e i. all k e (inr i)) in
      (
        rs ++ later,
        (problem_id, c') ∷ problems',
        rw (run, runs) refl,
        λ k e i. elim i [
          | inl q ↦
              subst IsCalculation (sym (ap (λ (p : ℕ × CalculationData lib sort). p.1) q))
                (record { root = good.root; d = good.d; made = good.made; inv = inv })
          | inr j ↦ all' k e j
        ],
        ap (◌∷◌ problem_id) same,
      )

  -- On a dispatcher whose problems are all consistent, `SendComputableTasks` never throws, keeps
  -- every problem consistent, and changes neither the set of problems nor their flags.
  pub send_computable_tasks-IsServing :
      (s : Dispatcher lib sort)
      → IsServing s
      → (requests : List Task) × (s' : Dispatcher lib sort) × (send_computable_tasks lib sort s
          ≡ ok (requests, s'))
        × IsServing s'
        × (keys s'.calculations ≡ keys s.calculations)
        × (s'.sync ≡ s.sync)
  unfolding send_computable_tasks
  send_computable_tasks-IsServing s serving =
      let (requests, problems, run, all, same) = send_problems_lem s.calculations serving.each in
      (
        requests,
        record s { calculations = problems },
        rw run refl,
        record { each = all; synced = λ k i. serving.synced k (subst (In k) same i) },
        same,
        refl,
      )

  -- A reply that the broker may send: for a task that was sent and not yet answered.
  pub record IsOutstanding (s : Dispatcher lib sort) (id : TaskId) : Type 0 where
    pub c : CalculationData lib sort
    pub found : lookup id.problem_id s.calculations ≡ some c
    pub sent : lookup id.task_id c.processed_tasks_to_status ≡ some processing

  assign-AllCalculations :
      (problems : List (ℕ × CalculationData lib sort)) (k : ℕ) (c : CalculationData lib sort)
      → AllCalculations problems
      → IsCalculation c
      → AllCalculations (assign k c problems)
  assign-AllCalculations problems k c all good j e i = elim (assign-entry k j c e problems i) [
    | inl q ↦ subst IsCalculation (sym q) good
    | inr old ↦ all j e old
  ]

  synced_after :
      (s : Dispatcher lib sort) (k j : ℕ) (c : CalculationData lib sort)
      → IsServing s
      → In j (keys s.sync)
      → In k (keys (assign j c s.calculations))
      → In k (keys s.sync)
  synced_after s k j c serving known i = elim (keys-assign j k c s.calculations i) [
    | inl q ↦ rw q known
    | inr i' ↦ serving.synced k i'
  ]

  -- The flag of a problem is set by the reply for its last task, and by no other reply.
  abbrev pub flags_after : Dispatcher lib sort → TaskId → ℕ → List (ℕ × Bool)
  flags_after s id last = if id.task_id == last then assign id.problem_id true s.sync else s.sync

  -- On a dispatcher whose problems are all consistent, `UpdateComputableTasks` never throws on a
  -- reply for a task that is being processed. The task is computed, every problem stays
  -- consistent, and the problem is flagged as computed exactly if the task is the last one in the
  -- sorted order.
  pub update_computable_tasks-IsServing :
      (s : Dispatcher lib sort) (id : TaskId)
      → IsServing s
      → (out : IsOutstanding s id)
      → (s' : Dispatcher lib sort) × (c' : CalculationData lib sort) × (last : ℕ)
        × (update_computable_tasks lib sort s (some id) ≡ ok s')
        × IsServing s'
        × (get_last? out.c.decompositor.tasks ≡ some last)
        × (s'.calculations ≡ assign id.problem_id c' s.calculations)
        × (c'.processed_tasks_to_status
            ≡ assign id.task_id completed out.c.processed_tasks_to_status)
        × (s'.sync ≡ flags_after s id last)
  unfolding update_computable_tasks
  update_computable_tasks-IsServing s id serving out =
      let c = out.c in
      let good =
        serving.each id.problem_id c (lookup-entry id.problem_id s.calculations out.found) in
      let (last, is_last, _) = good.made.last_task in
      let at_end : get_last? c.decompositor.tasks ≡ some last = rw good.inv.same is_last in
      let known = serving.synced id.problem_id (lookup-In id.problem_id s.calculations out.found) in
      elim (Bool-cases (id.task_id == last)) [
        | inl b ↦
            let hit = (==_iff id.task_id last).0 b in
            let (c', run, inv, stat) =
              complete_last-IsConsistent lib sort good.root good.d good.made c id.task_id processing
                good.inv (is_last ∙ ap some (sym hit)) out.sent in
            let (flag, there) = keys-lookup id.problem_id s.sync known in
            (
              record s {
                calculations = assign id.problem_id c' s.calculations;
                sync = assign id.problem_id true s.sync;
              },
              c',
              last,
              rw (out.found, at_end, b, run, there) refl,
              record {
                each =
                    assign-AllCalculations s.calculations id.problem_id c' serving.each
                      (record { root = good.root; d = good.d; made = good.made; inv = inv });
                synced = λ k i.
                    keys-assign_mono id.problem_id k true s.sync
                      (synced_after s k id.problem_id c' serving known i);
              },
              at_end,
              refl,
              stat,
              rw b refl,
            )
        | inr b ↦
            let (c', run, inv, stat) =
              update_computable_tasks_impl-IsConsistent lib sort good.root good.d good.made c
                id.task_id processing good.inv out.sent in
            (
              record s { calculations = assign id.problem_id c' s.calculations },
              c',
              last,
              rw (out.found, at_end, b, run) refl,
              record {
                each =
                    assign-AllCalculations s.calculations id.problem_id c' serving.each
                      (record { root = good.root; d = good.d; made = good.made; inv = inv });
                synced = λ k i. synced_after s k id.problem_id c' serving known i;
              },
              at_end,
              refl,
              stat,
              rw b refl,
            )
      ]
