-- ===== src/Dispatch/Truncated.antt =====
-- manager/src/dispatch/dispatch.cpp: `FormTaskRequest` sets a 32-bit field to the number of the
-- problem, and `UpdateComputableTasks` looks the reply up under that field.
use distributed_task_dispatc.Prelude.{
  ℕ, ◌%◌, ◌^◌, ◌≤◌, ◌≡◌, ◌≢◌, refl, sym, ap, ◌∙◌, subst, ◌⊎◌, inl, inr, true, ◌==◌, List, [], ◌∷◌,
  Option-cases, Bool-cases, none, some, Result, ok, err, Fault, out_of_range, bad_deref, or_fault,
  Result-cases, >>=-eq-ok, arith, In, lookup, assign, lookup-assign_ne, get_last?, Eq_nat,
}
use distributed_task_dispatc.Dag.Library.{GraphLibrary}
use distributed_task_dispatc.Messages.{uint32, Task, TaskId}
use distributed_task_dispatc.Decomposition.{get_operation_type}
use distributed_task_dispatc.Dispatch.{
  CalculationData, Dispatcher, processing, form_task_request, send_loop, send_problem,
  complete_last, update_computable_tasks_impl, update_computable_tasks,
}

module _ (lib : GraphLibrary) (sort : lib.Graph → Result (List ℕ)) where
  form_task_request-number :
      (c : CalculationData lib sort) (problem_id t : ℕ) (deps : List ℕ) (request : Task)
      → form_task_request lib sort c problem_id t deps ≡ ok request
      → request.id.problem_id ≡ uint32 problem_id
  unfolding form_task_request
  form_task_request-number c problem_id t deps request run =
      let (operation, _, made) = >>=-eq-ok (get_operation_type lib sort c.decompositor t) _ run in
      let back = ap (λ (r : Result Task). number_of r) made in sym back
    where
      number_of : Result Task → ℕ
      number_of (ok request) = request.id.problem_id
      number_of (err f) = uint32 problem_id

  send_loop-number :
      (problem_id : ℕ) (entries : List (ℕ × List ℕ)) (c c' : CalculationData lib sort)
      (requests : List Task)
      → send_loop lib sort problem_id entries c ≡ ok (requests, c')
      → (t : Task) → In t requests
      → t.id.problem_id ≡ uint32 problem_id
  unfolding send_loop
  send_loop-number problem_id [] c c' requests run t i =
      let none_sent : [] ≡ requests = cc run in absurd (subst (In t) (sym none_sent) i)
  send_loop-number problem_id ((u, deps) ∷ entries) c c' requests run t i =
      let (request, formed, run₁) =
        >>=-eq-ok (form_task_request lib sort c problem_id u deps) _ run in
      let ((rest, c₁), later, run₂) =
        >>=-eq-ok
          (send_loop lib sort problem_id entries (record c {
            processed_tasks_to_status = assign u processing c.processed_tasks_to_status;
          }))
          _ run₁ in
      let sent : request ∷ rest ≡ requests = cc run₂ in
      elim (subst (In t) (sym sent) i) [
        | inl q ↦
            ap (λ (x : Task). x.id.problem_id) q
            ∙ form_task_request-number c problem_id u deps request formed
        | inr j ↦ send_loop-number problem_id entries _ c₁ rest later t j
      ]

  -- A reply under one number leaves the entry and the flag of every other number.
  abbrev pub LeavesAlone : ℕ → Dispatcher lib sort → Dispatcher lib sort → Type 0
  LeavesAlone k m m' =
      (lookup k m'.calculations ≡ lookup k m.calculations) × (lookup k m'.sync ≡ lookup k m.sync)

  reply-LeavesAlone :
      (m m' : Dispatcher lib sort) (id : TaskId) (k : ℕ)
      → id.problem_id ≢ k
      → update_computable_tasks lib sort m (some id) ≡ ok m'
      → LeavesAlone k m m'
  unfolding update_computable_tasks
  reply-LeavesAlone m m' id k apart run =
      let (c, _, run₁) =
        >>=-eq-ok (or_fault (lookup id.problem_id m.calculations) out_of_range) _ run in
      let (last, _, run₂) =
        >>=-eq-ok (or_fault (get_last? c.decompositor.tasks) bad_deref) _ run₁ in
      elim (Bool-cases (id.task_id == last)) [
        | inl b ↦
            let run₃ = rw b at run₂ in
            let (c', _, run₄) = >>=-eq-ok (complete_last lib sort c id.task_id) _ run₃ in
            let (_, _, run₅) =
              >>=-eq-ok (or_fault (lookup id.problem_id m.sync) out_of_range) _ run₄ in
            let end : record m {
              calculations = assign id.problem_id c' m.calculations;
              sync = assign id.problem_id true m.sync;
            }
                ≡ m' =
              cc run₅ in
            subst (LeavesAlone k m) end (
              lookup-assign_ne id.problem_id k c' m.calculations apart,
              lookup-assign_ne id.problem_id k true m.sync apart,
            )
        | inr b ↦
            let run₃ = rw b at run₂ in
            let (c', _, run₄) =
              >>=-eq-ok (update_computable_tasks_impl lib sort c id.task_id) _ run₃ in
            let end : record m { calculations = assign id.problem_id c' m.calculations } ≡ m' =
              cc run₄ in
            subst (LeavesAlone k m) end
              (lookup-assign_ne id.problem_id k c' m.calculations apart, refl)
      ]

  -- For a problem whose number is 2 ^ 32 or more, every reply to a request of it carries the number
  -- modulo 2 ^ 32. If no problem has that number, the reply makes `UpdateComputableTasks` throw;
  -- otherwise it throws or leaves the entry and the flag of the problem itself as they are.
  pub truncated_reply-lost :
      (problem_id : ℕ) (c c' : CalculationData lib sort) (requests : List Task) (request : Task)
      (m : Dispatcher lib sort)
      → 2 ^ 32 ≤ problem_id
      → send_problem lib sort problem_id c ≡ ok (requests, c')
      → In request requests
      → (request.id.problem_id ≡ problem_id % 2 ^ 32)
        × (((lookup (problem_id % 2 ^ 32) m.calculations ≡ none)
              × (update_computable_tasks lib sort m (some request.id) ≡ err out_of_range))
            ⊎ ((other : CalculationData lib sort) × (lookup (problem_id % 2 ^ 32) m.calculations
                  ≡ some other)
                × (((f : Fault) × (update_computable_tasks lib sort m (some request.id) ≡ err f))
                    ⊎ ((m' : Dispatcher lib sort) × (update_computable_tasks lib sort m
                            (some request.id)
                          ≡ ok m')
                        × LeavesAlone problem_id m m'))))
  unfolding send_problem update_computable_tasks
  truncated_reply-lost problem_id c c' requests request m large run i =
      let ((sent, c₁), loop, run') =
        >>=-eq-ok (send_loop lib sort problem_id c.computable_task_to_dependencies c) _ run in
      let all : sent ≡ requests = cc run' in
      let number =
        send_loop-number problem_id c.computable_task_to_dependencies c c₁ sent loop request
          (subst (In request) (sym all) i) in
      (
        number,
        elim (Option-cases (lookup (problem_id % 2 ^ 32) m.calculations)) [
          | inl e ↦ inl (e, rw (number, e) refl)
          | inr (c₂, e) ↦ inr (
            c₂,
            e,
            elim (Result-cases (update_computable_tasks lib sort m (some request.id))) [
              | inr (f, z) ↦ inl (f, z)
              | inl (m', z) ↦
                  inr (m', z, reply-LeavesAlone m m' request.id problem_id (omega arith) z)
            ],
          )
        ],
      )
