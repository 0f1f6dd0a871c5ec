-- ===== src/Manager/Rounds.antt =====
-- A round of `RunDispatcher` in manager/src/dispatch/dispatch.cpp: it sends what can be computed and
-- takes at most one reply.
use distributed_task_dispatc.Prelude.{
  ℕ, ◌≡◌, refl, sym, ap, ◌∙◌, subst, inl, inr, true, false, List, [], ◌∷◌, ◌++◌, none, some, Result,
  ok, err, domain_error, In-entry, lookup, lookup-assign_self, Eq_nat, Bool-cases, ◌==◌,
}
use distributed_task_dispatc.Dag.Library.{GraphLibrary}
use distributed_task_dispatc.Messages.{from_message, TaskId, Task}
use distributed_task_dispatc.Dispatch.{
  processing, completed, CalculationData, Dispatcher, send_problem, send_problems,
  send_computable_tasks, update_computable_tasks,
}
use distributed_task_dispatc.Dispatch.Send.{mark_other, send_problem-IsConsistent}
use distributed_task_dispatc.Dispatch.Serving.{
  AllCalculations, IsCalculation, IsServing, IsOutstanding, send_computable_tasks-IsServing,
  update_computable_tasks-IsServing,
}
use distributed_task_dispatc.Manager.{read_reply, run_dispatcher}

module _ (lib : GraphLibrary) (sort : lib.Graph → Result (List ℕ)) where
  -- A task under way stays so.
  abbrev StaysProcessing :
      List (ℕ × CalculationData lib sort) → List (ℕ × CalculationData lib sort) → Type 0
  StaysProcessing problems problems' =
      (k t : ℕ) (c : CalculationData lib sort)
      → lookup k problems ≡ some c
      → lookup t c.processed_tasks_to_status ≡ some processing
      → (c' : CalculationData lib sort) × (lookup k problems' ≡ some c')
        × (lookup t c'.processed_tasks_to_status ≡ some processing)

  send_problem-processing :
      (problem_id : ℕ) (c : CalculationData lib sort)
      → IsCalculation lib sort c
      → (requests : List Task) × (c' : CalculationData lib sort) × (send_problem lib sort problem_id
            c
          ≡ ok (requests, c'))
        × ((t : ℕ)
            → lookup t c.processed_tasks_to_status ≡ some processing
            → lookup t c'.processed_tasks_to_status ≡ some processing)
  send_problem-processing problem_id c good =
      let m = c.processed_tasks_to_status in
      let entries = c.computable_task_to_dependencies in
      let (requests, c', run, _, _, marked) =
        send_problem-IsConsistent lib sort good.root good.d good.made problem_id c good.inv in
      (
        requests,
        c',
        run,
        λ t q.
            ap (lookup t) marked
            ∙ mark_other entries m t (λ i.
              let (deps, j) = In-entry t entries i in cc (((good.inv.exact t deps).0 j).1, q))
            ∙ q,
      )

  send_problems-processing :
      (problems : List (ℕ × CalculationData lib sort))
      → AllCalculations lib sort problems
      → (requests : List Task) × (problems' : List (ℕ × CalculationData lib sort)) × (send_problems
            lib sort problems
          ≡ ok (requests, problems'))
        × StaysProcessing problems problems'
  unfolding send_problems lookup
  send_problems-processing [] all = ([], [], refl, λ k t c found q. cc)
  send_problems-processing ((j, e) ∷ problems) all =
      let (rs, e', run, stays) = send_problem-processing j e (all j e (inl refl)) in
      let (later, problems', runs, stay) =
        send_problems-processing problems (λ k c i. all k c (inr i)) in
      (
        rs ++ later,
        (j, e') ∷ problems',
        rw (run, runs) refl,
        λ k t c found q. elim (Bool-cases (j == k)) [
          | inl b ↦
              let same : some e ≡ some c = rw b at found in
              let e≡ : e ≡ c = cc same in
              (
                e',
                rw b refl,
                stays t (
                    subst
                      (λ (x : CalculationData lib sort).
                        lookup t x.processed_tasks_to_status ≡ some processing)
                      (sym e≡) q),
              )
          | inr b ↦ rw b (stay k t c (rw b at found) q)
        ],
      )

  -- A reply that is outstanding before the sends is so after them.
  send-IsOutstanding :
      (s s' : Dispatcher lib sort) (requests : List Task) (id : TaskId)
      → IsServing lib sort s
      → IsOutstanding lib sort s id
      → send_computable_tasks lib sort s ≡ ok (requests, s')
      → IsOutstanding lib sort s' id
  unfolding send_computable_tasks
  send-IsOutstanding s s' requests id serving out run =
      let (rs, problems, runs, stay) = send_problems-processing s.calculations serving.each in
      let q : ok (rs, record s { calculations = problems }) ≡ ok (requests, s') = rw runs at run in
      let same : record s { calculations = problems } ≡ s' = cc q in
      let (c', found, sent) = stay id.problem_id id.task_id out.c out.found out.sent in
      subst (λ x. IsOutstanding lib sort x id) same (record { c = c'; found = found; sent = sent })

  pub run_dispatcher-IsServing :
      (s : Dispatcher lib sort) (id : TaskId)
      → IsServing lib sort s
      → IsOutstanding lib sort s id
      → ((requests : List Task) × (s' : Dispatcher lib sort) × (run_dispatcher lib sort s false none
            ≡ ok (requests, s'))
          × IsServing lib sort s'
          × (s'.sync ≡ s.sync))
        × ((requests : List Task) × (s' : Dispatcher lib sort) × (c : CalculationData lib sort)
            × (run_dispatcher lib sort s true (some id) ≡ ok (requests, s'))
            × IsServing lib sort s'
            × (lookup id.problem_id s'.calculations ≡ some c)
            × (lookup id.task_id c.processed_tasks_to_status ≡ some completed))
        × (run_dispatcher lib sort s true none ≡ err domain_error)
  unfolding run_dispatcher read_reply from_message update_computable_tasks
  run_dispatcher-IsServing s id serving out =
      let (requests, s₁, run, serving₁, _, flags) =
        send_computable_tasks-IsServing lib sort s serving in
      let out₁ = send-IsOutstanding s s₁ requests id serving out run in
      let (s₂, c, last, run', serving₂, _, calculations, statuses, _) =
        update_computable_tasks-IsServing lib sort s₁ id serving₁ out₁ in
      (
        (requests, s₁, rw run refl, serving₁, flags),
        (
          requests,
          s₂,
          c,
          rw (run, run') refl,
          serving₂,
          ap (lookup id.problem_id) calculations
              ∙ lookup-assign_self id.problem_id c s₁.calculations,
          ap (lookup id.task_id) statuses
              ∙ lookup-assign_self id.task_id completed out₁.c.processed_tasks_to_status,
        ),
        rw run refl,
      )
