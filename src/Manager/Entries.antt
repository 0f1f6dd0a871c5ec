-- ===== src/Manager/Entries.antt =====
-- A round of `RunDispatcher` in manager/src/dispatch/dispatch.cpp, seen from one problem: the steps on
-- its entry alone.
use distributed_task_dispatc.Prelude.{
  ℕ, ◌≡◌, refl, sym, ap, ◌∙◌, subst, inl, inr, true, ◌&&◌, List, [], ◌∷◌, ◌++◌, some, Result, ok,
  In, In-append, lookup, Eq_nat, Bool-cases, ◌==◌, ==_iff, >>=-eq-ok, if◌then◌else◌,
}
use distributed_task_dispatc.Dag.Library.{GraphLibrary}
use distributed_task_dispatc.Messages.{from_message, TaskId, Task}
use distributed_task_dispatc.Dispatch.{
  CalculationData, Dispatcher, send_problem, send_problems, send_computable_tasks,
  update_computable_tasks,
}
use distributed_task_dispatc.Dispatch.Completion.{answer}
use distributed_task_dispatc.Manager.{read_reply, run_dispatcher}
use distributed_task_dispatc.Manager.Replies.{is_last, updated_entry}

module _ (lib : GraphLibrary) (sort : lib.Graph → Result (List ℕ)) where
  send_problems-entry :
      (problems problems' : List (ℕ × CalculationData lib sort)) (requests : List Task) (k : ℕ)
      (c : CalculationData lib sort)
      → send_problems lib sort problems ≡ ok (requests, problems')
      → lookup k problems ≡ some c
      → (sent : List Task) × (c' : CalculationData lib sort) × (send_problem lib sort k c
          ≡ ok (sent, c'))
        × ((t : Task) → In t sent → In t requests)
        × (lookup k problems' ≡ some c')
  unfolding send_problems lookup
  send_problems-entry [] problems' requests k c run found = cc
  send_problems-entry ((j, e) ∷ problems) problems' requests k c run found =
      let ((rs, e'), here, rest) = >>=-eq-ok (send_problem lib sort j e) _ run in
      let ((later, others), there, last) = >>=-eq-ok (send_problems lib sort problems) _ rest in
      let all : rs ++ later ≡ requests = cc last in
      let after : (j, e') ∷ others ≡ problems' = cc last in
      let back : (x : List (ℕ × CalculationData lib sort))
          → x ≡ problems'
          → (c' : CalculationData lib sort) → lookup k x ≡ some c'
          → lookup k problems' ≡ some c' =
        λ x q c' r. subst (λ y. lookup k y ≡ some c') q r in
      elim (Bool-cases (j == k)) [
        | inl b ↦
            let j≡ : j ≡ k = (==_iff j k).0 b in
            let same : some e ≡ some c = rw b at found in
            let e≡ : e ≡ c = cc same in
            (
              rs,
              e',
              subst (λ x. send_problem lib sort x c ≡ ok (rs, e')) j≡
                  (subst (λ x. send_problem lib sort j x ≡ ok (rs, e')) e≡ here),
              λ t i. subst (In t) all ((In-append t rs later).1 (inl i)),
              back ((j, e') ∷ others) after e' (rw b refl),
            )
        | inr b ↦
            let (sent, c', run', incl, found') =
              send_problems-entry problems others later k c there (rw b at found) in
            (
              sent,
              c',
              run',
              λ t i. subst (In t) all ((In-append t rs later).1 (inr (incl t i))),
              back ((j, e') ∷ others) after c' (rw b found'),
            )
      ]

  sent_entry :
      (s s' : Dispatcher lib sort) (requests : List Task) (k : ℕ) (c : CalculationData lib sort)
      → send_computable_tasks lib sort s ≡ ok (requests, s')
      → lookup k s.calculations ≡ some c
      → (sent : List Task) × (c' : CalculationData lib sort) × (send_problem lib sort k c
          ≡ ok (sent, c'))
        × ((t : Task) → In t sent → In t requests)
        × (lookup k s'.calculations ≡ some c')
        × (s'.sync ≡ s.sync)
  unfolding send_computable_tasks
  sent_entry s s' requests k c run found =
      let ((rs, problems), sends, made) = >>=-eq-ok (send_problems lib sort s.calculations) _ run in
      let rs≡ : rs ≡ requests = cc made in
      let s≡ : record s { calculations = problems } ≡ s' = cc made in
      let (sent, c', step, incl, there) =
        send_problems-entry s.calculations problems rs k c sends found in
      (
        sent,
        c',
        step,
        λ t i. subst (In t) rs≡ (incl t i),
        subst (λ (x : Dispatcher lib sort). lookup k x.calculations ≡ some c') s≡ there,
        sym (ap (λ (x : Dispatcher lib sort). x.sync) s≡),
      )

  -- A round with a reply that returns, seen from any problem: a send step of its entry alone, whose
  -- requests are among those of the round, and then, if the reply is for the problem, the answer of
  -- its entry alone. Its flag is set if the reply is for its last task, and is as before otherwise.
  pub run_dispatcher-entry :
      (s s' : Dispatcher lib sort) (requests : List Task) (id : TaskId) (k : ℕ)
      (c : CalculationData lib sort)
      → run_dispatcher lib sort s true (some id) ≡ ok (requests, s')
      → lookup k s.calculations ≡ some c
      → (sent : List Task) × (c₁ : CalculationData lib sort) × (c₂ : CalculationData lib sort)
        × (send_problem lib sort k c ≡ ok (sent, c₁))
        × ((t : Task) → In t sent → In t requests)
        × ((if id.problem_id == k then answer lib sort c₁ id.task_id else ok c₁) ≡ ok c₂)
        × (lookup k s'.calculations ≡ some c₂)
        × (lookup k s'.sync ≡ (
            if id.problem_id == k && is_last lib sort c₁ id.task_id
            then some true
            else lookup k s.sync))
  unfolding run_dispatcher read_reply from_message
  run_dispatcher-entry s s' requests id k c run found =
      let ((rs, s₁), first, rest) = >>=-eq-ok (send_computable_tasks lib sort s) _ run in
      let (s₂, second, last) = >>=-eq-ok (update_computable_tasks lib sort s₁ (some id)) _ rest in
      let rs≡ : rs ≡ requests = cc last in
      let s₂≡ : s₂ ≡ s' = cc last in
      let (sent, c₁, step, incl, there, sync) = sent_entry s s₁ rs k c first found in
      let (c₂, replied, found', flag) =
        updated_entry lib sort s₁ s' id k c₁ (second ∙ ap ok s₂≡) there in
      (
        sent,
        c₁,
        c₂,
        step,
        λ t i. subst (In t) rs≡ (incl t i),
        replied,
        found',
        subst
            (λ x. lookup k s'.sync ≡ (
              if id.problem_id == k && is_last lib sort c₁ id.task_id
              then some true
              else lookup k x))
            sync flag,
      )
