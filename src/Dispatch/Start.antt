-- ===== src/Dispatch/Start.antt =====
-- `CalculationData::New`: what a problem starts with.
use distributed_task_dispatc.Prelude.{
  ℕ, ◌≡◌, refl, sym, ap, ◌∙◌, subst, ◌↔◌, inl, inr, true, false, List, [], some, Result, ok, err,
  arith, get_elem?, In, keys, lookup, In-entry, entry-In, Eq_nat, bad_variant_access, Option-cases,
  get_elem?-lt,
}
use distributed_task_dispatc.Domain.{VariableId, Scalar}
use distributed_task_dispatc.Expr.{
  Expr, get_lhs, get_rhs, reduce, map_op, list_op, scalar_op, list, scalar_const, scalar_var,
}
use distributed_task_dispatc.Expr.Traversal.{operands, postorder, is_complete}
use distributed_task_dispatc.Dag.Library.{GraphLibrary}
use distributed_task_dispatc.Dag.Edges.{targets}
use distributed_task_dispatc.Decomposition.{TaskDecompositor, get_computable_tasks}
use distributed_task_dispatc.Decomposition.Order.{
  IsDecomposition, Sorts, new-IsDecomposition, length-vertices,
}
use distributed_task_dispatc.Decomposition.Queries.{
  get_computable_tasks_iff, get_computable_tasks-Distinct,
}
use distributed_task_dispatc.Decomposition.Independent.{
  variable_of, is_constant, independent_tasks_exact, independent_tasks-constant,
}
use distributed_task_dispatc.Dispatch.{
  TaskStatus, completed, CalculationData, new_calculation, complete_independent,
}
use distributed_task_dispatc.Dispatch.Statuses.{
  complete_independent-Distinct, lookup-complete_independent, complete_independent-lookup,
}
use distributed_task_dispatc.Dispatch.Invariant.{IsExact, IsStarted, IsConsistent}

-- A leaf that names a variable has no operands.
operands-leaf : (e : Expr) (id : VariableId) → In id (variable_of e) → operands e ≡ []
unfolding get_lhs get_rhs
operands-leaf (list l) id i = refl
operands-leaf (scalar_var x) id i = refl
operands-leaf (reduce t p) id i = absurd i
operands-leaf (map_op t p q) id i = absurd i
operands-leaf (list_op t p q) id i = absurd i
operands-leaf (scalar_op t p q) id i = absurd i
operands-leaf (scalar_const x) id i = absurd i

module _ (lib : GraphLibrary) (sort : lib.Graph → Result (List ℕ)) where
  -- The tasks with a status are the leaves that name a variable, and they are computed.
  abbrev pub LeavesOnly :
      (root : Expr) (d : TaskDecompositor lib sort)
      → IsDecomposition lib sort root d
      → List (ℕ × TaskStatus)
      → Type 0
  LeavesOnly root d h m =
      (t : ℕ) (s : TaskStatus)
      → (lookup t m ≡ some s) ↔ (
          (s ≡ completed)
          × ((e : Expr) × (id : VariableId) × (get_elem? h.records t ≡ some e)
              × In id (variable_of e)))

  module _ (root : Expr) (d : TaskDecompositor lib sort) (h : IsDecomposition lib sort root d)
      (vars : List (ℕ × VariableId))
      (leaves : (t : ℕ) (id : VariableId)
        → In (t, id) vars
          ↔ ((e : Expr) × (get_elem? h.records t ≡ some e) × In id (variable_of e))) where
    abbrev statuses : List (ℕ × TaskStatus)
    statuses = complete_independent vars []

    start_iff : (t : ℕ) → (lookup t statuses ≡ some completed) ↔ In t (keys vars)
    unfolding lookup
    start_iff t = (
      λ e. elim (complete_independent-lookup vars [] t completed (λ u s q. cc) e).1 [
        | inl i ↦ i
        | inr q ↦ cc
      ],
      λ i. lookup-complete_independent vars [] t (λ u s q. cc) (inl i),
    )

    start-completed :
        (t : ℕ) (s : TaskStatus) → lookup t statuses ≡ some s → lookup t statuses ≡ some completed
    unfolding lookup
    start-completed t s e = e ∙ ap some (complete_independent-lookup vars [] t s (λ u s' q. cc) e).0

    start-LeavesOnly : LeavesOnly root d h statuses
    unfolding lookup
    start-LeavesOnly t s = (
      λ q.
          let (id, i) = In-entry t vars ((start_iff t).0 (start-completed t s q)) in
          let (e, at, j) = (leaves t id).0 i in
          ((complete_independent-lookup vars [] t s (λ u s' r. cc) q).0, (e, id, at, j)),
      λ (q, (e, id, at, j)).
          (start_iff t).1 (entry-In t id vars ((leaves t id).1 (e, at, j))) ∙ ap some (sym q),
    )

    start-IsStarted : IsStarted lib sort root d h statuses
    start-IsStarted t s e =
        let (id, i) = In-entry t vars ((start_iff t).0 (start-completed t s e)) in
        let (p, at, j) = (leaves t id).0 i in
        let none_below : lib.adjacent_vertices t d.graph ≡ [] =
          h.graph_of.edges t p at ∙ ap (targets lib h.records) (operands-leaf p id j) in
        (
          (h.order.exact t).1 (
              omega (
                arith,
                get_elem?-lt h.records t at,
                length-vertices lib h.records d.graph h.graph_of,
              )),
          λ v k. absurd (subst (In v) none_below k),
        )

    start-IsExact :
        IsExact lib sort root d h statuses (get_computable_tasks lib sort d (keys vars) [])
    start-IsExact t deps =
        let both = get_computable_tasks_iff lib sort d (keys vars) [] t deps in
        (
          λ i.
              let (listed, c, e) = both.0 i in
              (
                listed,
                elim (Option-cases (lookup t statuses)) [
                  | inl q ↦ q
                  | inr (s, q) ↦ absurd (c.fresh ((start_iff t).0 (start-completed t s q)))
                ],
                λ v j. (start_iff v).1 (c.ready v j),
                e,
              ),
          λ (listed, unseen, ready, e). both.1 (
            listed,
            record {
              fresh = λ i. cc ((start_iff t).1 i, unseen);
              free = λ i. i;
              ready = λ v j. (start_iff v).0 (ready v j);
            },
            e,
          ),
        )

  module _ (sorts : Sorts lib sort) (root : Expr) (complete : is_complete root ≡ true) where
    -- For every sort that meets `Sorts`, a tree without null operands and without constants starts
    -- a problem: nothing is thrown, the variables are computed and nothing else has a status, and
    -- the invariant holds, so exactly the tasks over variables are ready to be sent.
    pub new_calculation-IsConsistent :
        ((e : Expr) → In e (postorder root) → is_constant e ≡ false)
        → (d : TaskDecompositor lib sort) × (h : IsDecomposition lib sort root d)
          × (c : CalculationData lib sort) × (new_calculation lib sort root ≡ ok c)
          × IsConsistent lib sort root d h c
          × LeavesOnly root d h c.processed_tasks_to_status
    unfolding new_calculation
    new_calculation-IsConsistent plain =
        let (d, made, h) = new-IsDecomposition lib sort sorts root complete in
        let (vars, found, leaves) = independent_tasks_exact lib sort root d h plain in
        (
          d,
          h,
          record {
            decompositor = d;
            processed_tasks_to_status = complete_independent vars [];
            task_to_variable_id = vars;
            computable_task_to_dependencies = get_computable_tasks lib sort d (keys vars) [];
          },
          rw (made, found) refl,
          record {
            same = refl;
            distinct = complete_independent-Distinct vars [] tt;
            started = start-IsStarted root d h vars leaves;
            exact = start-IsExact root d h vars leaves;
            once = get_computable_tasks-Distinct lib sort d (keys vars) [] h.order.distinct;
            named = leaves;
          },
          start-LeavesOnly root d h vars leaves,
        )

    -- For every sort that meets `Sorts`, a tree without null operands but with a constant anywhere
    -- never becomes a problem: the exception for the constant's data leaves `New`.
    pub new_calculation-constant :
        (x : Scalar)
        → In (scalar_const x) (postorder root)
        → new_calculation lib sort root ≡ err bad_variant_access
    unfolding new_calculation
    new_calculation-constant x i =
        let (d, made, h) = new-IsDecomposition lib sort sorts root complete in
        let fault = independent_tasks-constant lib sort root d h x i in rw (made, fault) refl
