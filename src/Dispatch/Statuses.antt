-- ===== src/Dispatch/Statuses.antt =====
-- The statuses of the tasks of one problem: what the dispatcher's loops over them collect.
use distributed_task_dispatc.Prelude.{
  ℕ, ◌≡◌, sym, ap, ◌⊎◌, ◌↔◌, inl, inr, List, [], ◌∷◌, some, arith, ◌==◌, ==_iff, In, Distinct, keys,
  lookup, lookup-emplace, emplace, Distinct-emplace, Eq_nat, Option-cases, ◌∙◌, Bool-cases,
}
use distributed_task_dispatc.Domain.{VariableId}
use distributed_task_dispatc.Dispatch.{
  TaskStatus, processing, completed, completed_tasks, processing_tasks, complete_independent,
}

-- With distinct keys the collected sets are the preimages of the two statuses.
In-completed : (t : ℕ) (m : List (ℕ × TaskStatus)) → In t (completed_tasks m) → In t (keys m)
unfolding completed_tasks
In-completed t [] i = i
In-completed t ((k, completed) ∷ m) (inl e) = inl e
In-completed t ((k, completed) ∷ m) (inr i) = inr (In-completed t m i)
In-completed t ((k, processing) ∷ m) i = inr (In-completed t m i)

In-processing : (t : ℕ) (m : List (ℕ × TaskStatus)) → In t (processing_tasks m) → In t (keys m)
unfolding processing_tasks
In-processing t [] i = i
In-processing t ((k, completed) ∷ m) i = inr (In-processing t m i)
In-processing t ((k, processing) ∷ m) (inl e) = inl e
In-processing t ((k, processing) ∷ m) (inr i) = inr (In-processing t m i)

pub completed_tasks_iff :
    (t : ℕ) (m : List (ℕ × TaskStatus))
    → Distinct (keys m)
    → In t (completed_tasks m) ↔ (lookup t m ≡ some completed)
unfolding completed_tasks lookup
completed_tasks_iff t [] d = (λ i. absurd i, λ e. cc)
completed_tasks_iff t ((k, completed) ∷ m) d =
    ground (arith, completed_tasks_iff t m d.1, In-completed t m)
completed_tasks_iff t ((k, processing) ∷ m) d =
    ground (arith, completed_tasks_iff t m d.1, In-completed t m)

pub processing_tasks_iff :
    (t : ℕ) (m : List (ℕ × TaskStatus))
    → Distinct (keys m)
    → In t (processing_tasks m) ↔ (lookup t m ≡ some processing)
unfolding processing_tasks lookup
processing_tasks_iff t [] d = (λ i. absurd i, λ e. cc)
processing_tasks_iff t ((k, completed) ∷ m) d =
    ground (arith, processing_tasks_iff t m d.1, In-processing t m)
processing_tasks_iff t ((k, processing) ∷ m) d =
    ground (arith, processing_tasks_iff t m d.1, In-processing t m)

-- The statuses that `CalculationData::New` starts with.
abbrev pub AllCompleted : List (ℕ × TaskStatus) → Type 0
AllCompleted m = (t : ℕ) (s : TaskStatus) → lookup t m ≡ some s → s ≡ completed

emplace-AllCompleted :
    (k : ℕ) (m : List (ℕ × TaskStatus)) → AllCompleted m → AllCompleted (emplace k completed m)
emplace-AllCompleted k m all t s h =
    ground (arith, lookup-emplace k t completed m, all t s, all k s)

emplace_completed :
    (k : ℕ) (m : List (ℕ × TaskStatus))
    → AllCompleted m
    → lookup k (emplace k completed m) ≡ some completed
emplace_completed k m all = elim (Option-cases (lookup k m)) [
  | inl h ↦ ground (arith, lookup-emplace k k completed m)
  | inr (s, h) ↦ ground (arith, lookup-emplace k k completed m, all k s h)
]

pub complete_independent-Distinct :
    (vars : List (ℕ × VariableId)) (m : List (ℕ × TaskStatus))
    → Distinct (keys m)
    → Distinct (keys (complete_independent vars m))
unfolding complete_independent
complete_independent-Distinct [] m d = d
complete_independent-Distinct ((k, id) ∷ vars) m d =
    complete_independent-Distinct vars (emplace k completed m) (Distinct-emplace k completed m d)

pub lookup-complete_independent :
    (vars : List (ℕ × VariableId)) (m : List (ℕ × TaskStatus)) (t : ℕ)
    → AllCompleted m
    → In t (keys vars) ⊎ (lookup t m ≡ some completed)
    → lookup t (complete_independent vars m) ≡ some completed
unfolding complete_independent
lookup-complete_independent [] m t all (inl i) = absurd i
lookup-complete_independent [] m t all (inr h) = h
lookup-complete_independent ((k, id) ∷ vars) m t all h =
    lookup-complete_independent vars (emplace k completed m) t (emplace-AllCompleted k m all)
      (elim h [
        | inl (inr i) ↦ inl i
        | inl (inl q) ↦ inr (rw q (emplace_completed k m all))
        | inr g ↦ inr (ground (arith, lookup-emplace k t completed m))
      ])

pub complete_independent-lookup :
    (vars : List (ℕ × VariableId)) (m : List (ℕ × TaskStatus)) (t : ℕ) (s : TaskStatus)
    → AllCompleted m
    → lookup t (complete_independent vars m) ≡ some s
    → (s ≡ completed) × (In t (keys vars) ⊎ (lookup t m ≡ some completed))
unfolding complete_independent
complete_independent-lookup [] m t s all h = let same = all t s h in (same, inr (h ∙ ap some same))
complete_independent-lookup ((k, id) ∷ vars) m t s all h =
    let (same, found) =
      complete_independent-lookup vars (emplace k completed m) t s (emplace-AllCompleted k m all)
        h in
    (
      same,
      elim found [
        | inl i ↦ inl (inr i)
        | inr g ↦ elim (Bool-cases (k == t)) [
          | inl b ↦ inl (inl (sym ((==_iff k t).0 b)))
          | inr b ↦ inr (ground (arith, lookup-emplace k t completed m))
        ]
      ],
    )
