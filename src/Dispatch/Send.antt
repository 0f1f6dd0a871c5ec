-- ===== src/Dispatch/Send.antt =====
-- `SendComputableTasks` on one problem: what is sent, and what is left.
use distributed_task_dispatc.Prelude.{
  ℕ, ◌≡◌, refl, sym, ◌∙◌, inl, inr, List, [], ◌∷◌, map, some, Result, ok, arith, get_elem?, In,
  Distinct, keys, lookup, lookup-assign_self, lookup-assign_ne, Distinct-assign, In-entry, entry-In,
  assign, Eq_nat, get_elem?-some, get_elem?-map,
}
use distributed_task_dispatc.Domain.{type_index}
use distributed_task_dispatc.Expr.{Expr, get_type}
use distributed_task_dispatc.Dag.{vertex_properties}
use distributed_task_dispatc.Dag.Library.{GraphLibrary}
use distributed_task_dispatc.Messages.{uint32, Task}
use distributed_task_dispatc.Decomposition.{TaskDecompositor, get_operation_type}
use distributed_task_dispatc.Decomposition.Order.{IsDecomposition, length-vertices}
use distributed_task_dispatc.Dispatch.{
  TaskStatus, processing, completed, CalculationData, form_operand, form_task_request, send_loop,
  send_problem,
}
use distributed_task_dispatc.Decomposition.Queries.{In-cases}
use distributed_task_dispatc.Dispatch.Invariant.{IsReady, IsExact, IsStarted, IsConsistent}

-- The statuses after the entries were sent.
abbrev pub mark_processing : List (ℕ × List ℕ) → List (ℕ × TaskStatus) → List (ℕ × TaskStatus)
mark_processing [] m = m
mark_processing ((t, deps) ∷ entries) m = mark_processing entries (assign t processing m)

mark-Distinct :
    (entries : List (ℕ × List ℕ)) (m : List (ℕ × TaskStatus))
    → Distinct (keys m)
    → Distinct (keys (mark_processing entries m))
mark-Distinct [] m d = d
mark-Distinct ((t, deps) ∷ entries) m d =
    mark-Distinct entries (assign t processing m) (Distinct-assign t processing m d)

pub mark_other :
    (entries : List (ℕ × List ℕ)) (m : List (ℕ × TaskStatus)) (t : ℕ)
    → ¬ In t (keys entries)
    → lookup t (mark_processing entries m) ≡ lookup t m
mark_other [] m t n = refl
mark_other ((k, deps) ∷ entries) m t n =
    mark_other entries (assign k processing m) t (λ i. n (inr i))
    ∙ lookup-assign_ne k t processing m (λ e. n (inl (sym e)))

pub mark_sent :
    (entries : List (ℕ × List ℕ)) (m : List (ℕ × TaskStatus)) (t : ℕ)
    → In t (keys entries)
    → lookup t (mark_processing entries m) ≡ some processing
mark_sent [] m t i = absurd i
mark_sent ((k, deps) ∷ entries) m t i = elim (In-cases t (keys entries)) [
  | inl j ↦ mark_sent entries (assign k processing m) t j
  | inr n ↦ elim i [
    | inr j ↦ absurd (n j)
    | inl e ↦
        mark_other entries (assign k processing m) t n ∙ rw e (lookup-assign_self k processing m)
  ]
]

module _ (lib : GraphLibrary) (sort : lib.Graph → Result (List ℕ)) (root : Expr)
    (d : TaskDecompositor lib sort) (h : IsDecomposition lib sort root d) (problem_id : ℕ) where
  -- The request for an entry: its ids, the type of its expression, its operands in order.
  abbrev pub IsRequest : CalculationData lib sort → ℕ × List ℕ → Task → Type 0
  IsRequest c (t, deps) request =
      (p : Expr) × (get_elem? h.records t ≡ some p)
      × (request ≡ record {
        id = record { problem_id = uint32 problem_id; task_id = uint32 t };
        operation_type = uint32 (type_index (get_type p));
        operands = map (form_operand lib sort c problem_id) deps;
      })

  abbrev pub AreRequests : CalculationData lib sort → List (ℕ × List ℕ) → List Task → Type 0
  AreRequests c [] [] = Unit
  AreRequests c [] (r ∷ rs) = ⊥
  AreRequests c (e ∷ es) [] = ⊥
  AreRequests c (e ∷ es) (r ∷ rs) = IsRequest c e r × AreRequests c es rs

  form_task_request_lem :
      (c : CalculationData lib sort) (t : ℕ) (deps : List ℕ)
      → c.decompositor ≡ d
      → In t d.tasks
      → (r : Task) × (form_task_request lib sort c problem_id t deps ≡ ok r)
        × IsRequest c (t, deps) r
  unfolding form_task_request get_operation_type
  form_task_request_lem c t deps same listed =
      let (p, at) = get_elem?-some h.records t (
        omega
          (arith, (h.order.exact t).0 listed, length-vertices lib h.records d.graph h.graph_of)) in
      (
        record {
          id = record { problem_id = uint32 problem_id; task_id = uint32 t };
          operation_type = uint32 (type_index (get_type p));
          operands = map (form_operand lib sort c problem_id) deps;
        },
        rw (same, h.graph_of.vertices, get_elem?-map vertex_properties h.records t at) refl,
        (p, at, refl),
      )

  abbrev with_statuses : CalculationData lib sort → List (ℕ × TaskStatus) → CalculationData lib sort
  with_statuses c m = record c { processed_tasks_to_status = m }

  AreRequests-statuses :
      (c : CalculationData lib sort) (m : List (ℕ × TaskStatus)) (es : List (ℕ × List ℕ))
      (rs : List Task)
      → AreRequests (with_statuses c m) es rs
      → AreRequests c es rs
  unfolding form_operand
  AreRequests-statuses c m [] [] a = a
  AreRequests-statuses c m [] (r ∷ rs) a = a
  AreRequests-statuses c m (e ∷ es) [] a = a
  AreRequests-statuses c m (e ∷ es) (r ∷ rs) a = (a.0, AreRequests-statuses c m es rs a.1)

  send_loop_lem :
      (entries : List (ℕ × List ℕ)) (c : CalculationData lib sort)
      → c.decompositor ≡ d
      → ((t : ℕ) → In t (keys entries) → In t d.tasks)
      → (requests : List Task) × (send_loop lib sort problem_id entries c
          ≡ ok (requests, with_statuses c (mark_processing entries c.processed_tasks_to_status)))
        × AreRequests c entries requests
  unfolding send_loop
  send_loop_lem [] c same listed = ([], refl, tt)
  send_loop_lem ((t, deps) ∷ entries) c same listed =
      let m = assign t processing c.processed_tasks_to_status in
      let (r, formed, is) = form_task_request_lem c t deps same (listed t (inl refl)) in
      let (rs, run, are) =
        send_loop_lem entries (with_statuses c m) same (λ u i. listed u (inr i)) in
      (r ∷ rs, rw (formed, run) refl, (is, AreRequests-statuses c m entries rs are))

  -- An entry has no status yet, so a computed task has no entry.
  no_entry :
      (m : List (ℕ × TaskStatus)) (entries : List (ℕ × List ℕ)) (t : ℕ)
      → IsExact lib sort root d h m entries
      → lookup t m ≡ some completed
      → ¬ In t (keys entries)
  no_entry m entries t exact done i =
      let (deps, j) = In-entry t entries i in cc (done, ((exact t deps).0 j).1)

  mark-IsReady :
      (m : List (ℕ × TaskStatus)) (entries : List (ℕ × List ℕ)) (t : ℕ)
      → IsExact lib sort root d h m entries
      → IsReady lib sort root d h m t
      → IsReady lib sort root d h (mark_processing entries m) t
  mark-IsReady m entries t exact ready v i =
      mark_other entries m v (no_entry m entries v exact (ready v i)) ∙ ready v i

  mark-IsStarted :
      (m : List (ℕ × TaskStatus)) (entries : List (ℕ × List ℕ))
      → IsExact lib sort root d h m entries
      → IsStarted lib sort root d h m
      → IsStarted lib sort root d h (mark_processing entries m)
  mark-IsStarted m entries exact started t s e = elim (In-cases t (keys entries)) [
    | inl i ↦
        let (deps, j) = In-entry t entries i in
        let (listed, _, ready, _) = (exact t deps).0 j in
        (listed, mark-IsReady m entries t exact ready)
    | inr n ↦
        let (listed, ready) = started t s (sym (mark_other entries m t n) ∙ e) in
        (listed, mark-IsReady m entries t exact ready)
  ]

  -- A task that is computed after the entries were marked was computed before.
  unmark :
      (m : List (ℕ × TaskStatus)) (entries : List (ℕ × List ℕ)) (t : ℕ)
      → lookup t (mark_processing entries m) ≡ some completed
      → lookup t m ≡ some completed
  unmark m entries t e = elim (In-cases t (keys entries)) [
    | inl i ↦ cc (mark_sent entries m t i, e)
    | inr n ↦ sym (mark_other entries m t n) ∙ e
  ]

  mark-IsExact :
      (m : List (ℕ × TaskStatus)) (entries : List (ℕ × List ℕ))
      → IsExact lib sort root d h m entries
      → IsExact lib sort root d h (mark_processing entries m) []
  mark-IsExact m entries exact t deps = (
    λ i. absurd i,
    λ (listed, unseen, ready, e). elim (In-cases t (keys entries)) [
      | inl i ↦ cc (mark_sent entries m t i, unseen)
      | inr n ↦ n (
          entry-In t deps entries (
            (exact t deps).1 (
              listed,
              sym (mark_other entries m t n) ∙ unseen,
              λ v i. unmark m entries v (ready v i),
              e,
            )))
    ],
  )

  -- A send step on a consistent problem never throws. It sends one request for each computable
  -- task, with the type of its expression and its operands in order, and marks exactly these tasks
  -- as processing; nothing else changes, and the invariant holds again.
  pub send_problem-IsConsistent :
      (c : CalculationData lib sort)
      → IsConsistent lib sort root d h c
      → (requests : List Task) × (c' : CalculationData lib sort) × (send_problem lib sort problem_id
            c
          ≡ ok (requests, c'))
        × AreRequests c c.computable_task_to_dependencies requests
        × IsConsistent lib sort root d h c'
        × (c'.processed_tasks_to_status
            ≡ mark_processing c.computable_task_to_dependencies c.processed_tasks_to_status)
  unfolding send_problem
  send_problem-IsConsistent c inv =
      let m = c.processed_tasks_to_status in
      let entries = c.computable_task_to_dependencies in
      let (requests, run, are) =
        send_loop_lem entries c inv.same
          λ t i. let (deps, j) = In-entry t entries i in ((inv.exact t deps).0 j).0 in
      (
        requests,
        record c {
          processed_tasks_to_status = mark_processing entries m;
          computable_task_to_dependencies = [];
        },
        rw run refl,
        are,
        record {
          same = inv.same;
          distinct = mark-Distinct entries m inv.distinct;
          started = mark-IsStarted m entries inv.exact inv.started;
          exact = mark-IsExact m entries inv.exact;
          once = tt;
          named = inv.named;
        },
        refl,
      )
