-- ===== src/Manager/Replies.antt =====
-- `UpdateComputableTasks` in manager/src/dispatch/dispatch.cpp, seen from one problem.
use distributed_task_dispatc.Prelude.{
  ℕ, ◌≡◌, refl, sym, ap, ◌∙◌, subst, inl, inr, true, false, ◌&&◌, List, none, some, Result, ok, err,
  Bool, lookup, lookup-assign, assign, Eq_nat, Bool-cases, ◌==◌, ==_iff, >>=-eq-ok, or_fault,
  get_last?, if◌then◌else◌, Option-cases, out_of_range, bad_deref,
}
use distributed_task_dispatc.Dag.Library.{GraphLibrary}
use distributed_task_dispatc.Messages.{TaskId}
use distributed_task_dispatc.Dispatch.{
  CalculationData, Dispatcher, update_computable_tasks, complete_last, update_computable_tasks_impl,
}
use distributed_task_dispatc.Dispatch.Completion.{answer}

module _ (lib : GraphLibrary) (sort : lib.Graph → Result (List ℕ)) where
  abbrev pub is_last : CalculationData lib sort → ℕ → Bool
  is_last c t = elim (get_last? c.decompositor.tasks) [ some last ↦ t == last | none ↦ false ]

  is_last_lem :
      (c : CalculationData lib sort) (t last : ℕ)
      → get_last? c.decompositor.tasks ≡ some last
      → is_last c t ≡ (t == last)
  is_last_lem c t last e = rw (e, is_last) refl

  flag_lem :
      (p k : ℕ) (b : Bool) (m : List (ℕ × Bool))
      → lookup k (if b then assign p true m else m)
        ≡ (if p == k && b then some true else lookup k m)
  flag_lem p k true m = elim (Bool-cases (p == k)) [
    | inl b ↦ lookup-assign p k true m ∙ rw b refl
    | inr b ↦ lookup-assign p k true m ∙ rw b refl
  ]
  flag_lem p k false m = elim (Bool-cases (p == k)) [ inl b ↦ rw b refl | inr b ↦ rw b refl ]

  -- What a reply changes: the entry and, if the task is the last one, the flag of its problem.
  abbrev Updates : Dispatcher lib sort → TaskId → Dispatcher lib sort → Type 0
  Updates s id s' =
      (c : CalculationData lib sort) × (c' : CalculationData lib sort) × (lookup id.problem_id
          s.calculations
        ≡ some c)
      × (answer lib sort c id.task_id ≡ ok c')
      × (s'.calculations ≡ assign id.problem_id c' s.calculations)
      × (s'.sync ≡ (if is_last c id.task_id then assign id.problem_id true s.sync else s.sync))

  update-Updates :
      (s s' : Dispatcher lib sort) (id : TaskId)
      → update_computable_tasks lib sort s (some id) ≡ ok s'
      → Updates s id s'
  unfolding update_computable_tasks
  update-Updates s s' id run = elim (Option-cases (lookup id.problem_id s.calculations)) [
    | inl q ↦ absurd (let z : err out_of_range ≡ ok s' = rw q at run in cc)
    | inr (c, q) ↦ elim (Option-cases (get_last? c.decompositor.tasks)) [
      | inl e ↦ absurd (let z : err bad_deref ≡ ok s' = rw (q, e) at run in cc)
      | inr (last, e) ↦ elim (Bool-cases (id.task_id == last)) [
        | inr b ↦
            let (c', here, rest) =
              >>=-eq-ok (update_computable_tasks_impl lib sort c id.task_id) _
                (rw (q, e, b) at run) in
            let z : record s { calculations = assign id.problem_id c' s.calculations } ≡ s' =
              cc rest in
            (
              c,
              c',
              q,
              rw (e, b) here,
              sym (ap (λ (x : Dispatcher lib sort). x.calculations) z),
              rw (is_last_lem c id.task_id last e, b)
                  (sym (ap (λ (x : Dispatcher lib sort). x.sync) z)),
            )
        | inl b ↦
            let (c', here, rest) =
              >>=-eq-ok (complete_last lib sort c id.task_id) _ (rw (q, e, b) at run) in
            let (flag, _, done) =
              >>=-eq-ok (or_fault (lookup id.problem_id s.sync) out_of_range) _ rest in
            let z : record s {
              calculations = assign id.problem_id c' s.calculations;
              sync = assign id.problem_id true s.sync;
            }
                ≡ s' =
              cc done in
            (
              c,
              c',
              q,
              rw (e, b) here,
              sym (ap (λ (x : Dispatcher lib sort). x.calculations) z),
              rw (is_last_lem c id.task_id last e, b)
                  (sym (ap (λ (x : Dispatcher lib sort). x.sync) z)),
            )
      ]
    ]
  ]

  pub updated_entry :
      (s s' : Dispatcher lib sort) (id : TaskId) (k : ℕ) (c : CalculationData lib sort)
      → update_computable_tasks lib sort s (some id) ≡ ok s'
      → lookup k s.calculations ≡ some c
      → (c' : CalculationData lib sort) × ((if id.problem_id == k
            then answer lib sort c id.task_id
            else ok c)
          ≡ ok c')
        × (lookup k s'.calculations ≡ some c')
        × (lookup k s'.sync
            ≡ (if id.problem_id == k && is_last c id.task_id then some true else lookup k s.sync))
  updated_entry s s' id k c run found =
      let (e, e', known, answered, calculations, flags) = update-Updates s s' id run in
      let flag = ap (lookup k) flags ∙ flag_lem id.problem_id k (is_last e id.task_id) s.sync in
      let after = ap (lookup k) calculations ∙ lookup-assign id.problem_id k e' s.calculations in
      elim (Bool-cases (id.problem_id == k)) [
        | inr b ↦ (c, rw b refl, after ∙ rw b found, rw b (rw b at flag))
        | inl b ↦
            let both : some e ≡ some c =
              sym known
              ∙ ap (λ x. lookup x s.calculations) ((==_iff id.problem_id k).0 b)
              ∙ found in
            let e≡ : e ≡ c = cc both in
            (
              e',
              rw b (subst (λ x. answer lib sort x id.task_id ≡ ok e') e≡ answered),
              after ∙ rw b refl,
              subst
                  (λ x. lookup k s'.sync ≡ (
                    if id.problem_id == k && is_last x id.task_id
                    then some true
                    else lookup k s.sync))
                  e≡ flag,
            )
      ]
