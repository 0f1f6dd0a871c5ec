-- ===== src/Dispatch/Leaf.antt =====
-- `CalculationData::New` and `SendComputableTasks` on a tree that is a single variable.
use distributed_task_dispatc.Prelude.{
  ℕ, ◌≡◌, ◌≢◌, refl, ap, ◌∙◌, subst, inl, inr, List, [], ◌∷◌, some, Result, ok, In, In-get_elem?,
  lookup, Eq_nat, true, false, get_elem?-some, arith,
}
use distributed_task_dispatc.Domain.{VariableId}
use distributed_task_dispatc.Expr.{
  Expr, reduce, map_op, list_op, scalar_op, list, scalar_const, scalar_var,
}
use distributed_task_dispatc.Expr.Traversal.{postorder, is_complete}
use distributed_task_dispatc.Dag.Library.{GraphLibrary}
use distributed_task_dispatc.Decomposition.Order.{Sorts, length-vertices}
use distributed_task_dispatc.Decomposition.Independent.{variable_of, is_constant}
use distributed_task_dispatc.Dispatch.{
  processing, completed, CalculationData, new_calculation, send_loop, send_problem,
}
use distributed_task_dispatc.Dispatch.Start.{new_calculation-IsConsistent}

leaf_lem :
    (root : Expr) (id : VariableId)
    → In id (variable_of root)
    → (is_complete root ≡ true) × (postorder root ≡ root ∷ []) × (is_constant root ≡ false)
leaf_lem (list l) id i = (refl, refl, refl)
leaf_lem (scalar_var x) id i = (refl, refl, refl)
leaf_lem (reduce t p) id i = absurd i
leaf_lem (map_op t p q) id i = absurd i
leaf_lem (list_op t p q) id i = absurd i
leaf_lem (scalar_op t p q) id i = absurd i
leaf_lem (scalar_const x) id i = absurd i

no_entries :
    (entries : List (ℕ × List ℕ))
    → ((t : ℕ) (deps : List ℕ) → ¬ In (t, deps) entries)
    → entries ≡ []
no_entries [] n = refl
no_entries ((t, deps) ∷ entries) n = absurd (n t deps (inl refl))

module _ (lib : GraphLibrary) (sort : lib.Graph → Result (List ℕ)) where
  send_nothing :
      (problem_id : ℕ) (c : CalculationData lib sort)
      → c.computable_task_to_dependencies ≡ []
      → send_problem lib sort problem_id c ≡ ok ([], c)
  unfolding send_problem send_loop
  send_nothing problem_id c e = rw e refl

  -- For every sort that meets `Sorts`, a problem whose tree is one list or one scalar variable
  -- starts, but no send step sends a request for it or changes it, and no task of it has the
  -- status of a task under way.
  pub leaf_never_sent :
      Sorts lib sort
      → (root : Expr) (id : VariableId) → In id (variable_of root)
      → (c : CalculationData lib sort) × (new_calculation lib sort root ≡ ok c)
        × ((problem_id : ℕ) → send_problem lib sort problem_id c ≡ ok ([], c))
        × ((t : ℕ) → lookup t c.processed_tasks_to_status ≢ some processing)
  leaf_never_sent sorts root id i =
      let (complete, single, plain) = leaf_lem root id i in
      let is_root : (e : Expr) → In e (postorder root) → e ≡ root =
        λ e j. elim (subst (In e) single j) [ inl q ↦ q | inr z ↦ absurd z ] in
      let (d, h, c, made, inv, leaves) =
        new_calculation-IsConsistent lib sort sorts root complete
          (λ e j. ap is_constant (is_root e j) ∙ plain) in
      let empty = no_entries c.computable_task_to_dependencies λ t deps j.
        let (listed, unseen, _, _) = (inv.exact t deps).0 j in
        let (e, at) = get_elem?-some h.records t (
          omega (
            arith,
            (h.order.exact t).0 listed,
            length-vertices lib h.records d.graph h.graph_of,
          )) in
        let same = is_root e ((h.numbering.exact e).0 (In-get_elem? h.records t at)) in
        let done = (leaves t completed).1 (refl, (root, id, at ∙ ap some same, i)) in
        cc (done, unseen) in
      (
        c,
        made,
        λ problem_id. send_nothing problem_id c empty,
        λ t q. cc (((leaves t processing).0 q).0),
      )
