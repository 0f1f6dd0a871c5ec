-- ===== src/System/Correct.antt =====
-- Whole calculations: from the start of a problem to the value that `CalculateProblem` reads.
use distributed_task_dispatc.Prelude.{
  Fault, err, ◌≢◌, ℕ, ◌*◌, ◌≤◌, ◌<◌, ◌^◌, ◌≡◌, refl, sym, ap, ◌∙◌, subst, ◌⊎◌, inl, inr, true,
  false, List, [], none, some, Result, ok, arith, length, get_elem?, get_last?, In, get_last?-In,
  lookup, Eq_nat,
}
use distributed_task_dispatc.Domain.{ExprResult, VariableId}
use distributed_task_dispatc.Domain.Arith.{Reducer}
use distributed_task_dispatc.Expr.{Expr}
use distributed_task_dispatc.Expr.Traversal.{postorder, is_complete}
use distributed_task_dispatc.Dag.Library.{GraphLibrary}
use distributed_task_dispatc.Decomposition.{TaskDecompositor}
use distributed_task_dispatc.Decomposition.Order.{IsDecomposition, Sorts, length-vertices}
use distributed_task_dispatc.Decomposition.Independent.{variable_of, is_constant}
use distributed_task_dispatc.Database.{Store, dyn_id, dyn_record_id, find_row, read_data}
use distributed_task_dispatc.Dispatch.{completed, CalculationData, new_calculation}
use distributed_task_dispatc.Dispatch.Invariant.{IsConsistent}
use distributed_task_dispatc.Dispatch.Start.{LeavesOnly, new_calculation-IsConsistent}
use distributed_task_dispatc.Dispatch.Work.{work-bound}
use distributed_task_dispatc.System.{System, Step, Run, initially, evaluate, static_value}
use distributed_task_dispatc.System.Measure.{Coherent}
use distributed_task_dispatc.System.Termination.{Run-Falls}
use distributed_task_dispatc.System.Progress.{start-IsCoherent, next_step, computed_value}
use distributed_task_dispatc.Dispatch.{Dispatcher}
use distributed_task_dispatc.Database.{clear_intermediate_calculations}
use distributed_task_dispatc.Manager.{answer_request, end_problem, to_reply}

module _ (lib : GraphLibrary) (sort : lib.Graph → Result (List ℕ)) (sorts : Sorts lib sort)
    (root : Expr) (complete : is_complete root ≡ true)
    (plain : (e : Expr) → In e (postorder root) → is_constant e ≡ false)
    (operation : variable_of root ≡ []) (r : Reducer) (problem_id : ℕ) (s : Store)
    (fresh : (t : ℕ) → find_row (dyn_record_id problem_id t) s.dynamic_data ≡ none)
    (c : CalculationData lib sort) (made : new_calculation lib sort root ≡ ok c)
    (small : length (lib.properties c.decompositor.graph) ≤ 2 ^ 32) (last : ℕ)
    (at_end : get_last? c.decompositor.tasks ≡ some last) where
  -- What `CalculationData::New` made.
  pub record IsMade : Type 0 where
    pub d : TaskDecompositor lib sort
    pub h : IsDecomposition lib sort root d
    pub same : c.decompositor ≡ d
    pub inv : IsConsistent lib sort root d h c
    pub leaves : LeavesOnly lib sort root d h c.processed_tasks_to_status
    pub bound : length h.records ≤ 2 ^ 32
    pub listed : In last d.tasks
    pub at_root : get_elem? h.records last ≡ some root

  pub making : IsMade
  making =
      let (d, h, c', made', inv, leaves) =
        new_calculation-IsConsistent lib sort sorts root complete plain in
      let q : ok c' ≡ ok c = sym made' ∙ made in
      let c≡ : c' ≡ c = cc q in
      let inv' : IsConsistent lib sort root d h c = subst (IsConsistent lib sort root d h) c≡ inv in
      let (t, end, at) = h.last_task in
      let ends : some t ≡ some last =
        sym end
        ∙ ap (λ (x : TaskDecompositor lib sort). get_last? x.tasks) (sym inv'.same)
        ∙ at_end in
      let t≡ : t ≡ last = cc ends in
      let vertices =
        ap (λ (x : TaskDecompositor lib sort). length (lib.properties x.graph)) inv'.same
        ∙ length-vertices lib h.records d.graph h.graph_of in
      record {
        d = d;
        h = h;
        same = inv'.same;
        inv = inv';
        leaves =
            subst
              (λ (x : CalculationData lib sort).
                LeavesOnly lib sort root d h x.processed_tasks_to_status)
              c≡ leaves;
        bound = omega arith;
        listed = subst (λ x. In x d.tasks) t≡ (get_last?-In d.tasks end);
        at_root = subst (λ x. get_elem? h.records x ≡ some root) t≡ at;
      }

  abbrev read : VariableId → Result ExprResult
  read id = static_value s id

  pub made-Coherent :
      Coherent lib sort root making.d making.h r read problem_id complete plain making.bound
        (initially lib sort c s)
  made-Coherent =
      start-IsCoherent lib sort root making.d making.h r read problem_id complete plain making.bound
        c s making.inv making.leaves (λ id. refl) fresh

  Run-Coherent :
      (n : ℕ) (τ : System lib sort)
      → Run lib sort r problem_id n (initially lib sort c s) τ
      → Coherent lib sort root making.d making.h r read problem_id complete plain making.bound τ
        × (n ≤ 6 * length c.decompositor.tasks)
  Run-Coherent n τ run =
      let (good, bound) =
        Run-Falls lib sort root making.d making.h r read problem_id complete plain making.bound n
          (initially lib sort c s) τ run made-Coherent in
      let most = work-bound c.processed_tasks_to_status making.d.tasks in
      let size = ap (λ (x : TaskDecompositor lib sort). length x.tasks) making.same in
      (good, omega arith)

  -- The value of the tree is read under the last task once it is computed.
  pub Coherent-correct :
      (τ : System lib sort)
      → Coherent lib sort root making.d making.h r read problem_id complete plain making.bound τ
      → lookup last τ.entry.processed_tasks_to_status ≡ some completed
      → (v : ExprResult) × (evaluate r (static_value s) root ≡ ok v)
        × (read_data τ.store (dyn_id (dyn_record_id problem_id last)) ≡ ok v)
        × ((m : Dispatcher lib sort)
            → (answer_request lib sort m τ.store problem_id last).1
              ≡ ok (clear_intermediate_calculations τ.store problem_id, to_reply v))
  unfolding answer_request end_problem
  Coherent-correct τ good done =
      let (v, value, found) =
        computed_value lib sort root making.d making.h r read problem_id complete plain making.bound
          τ last root good making.at_root operation done in
      (v, value, found, λ m. rw found refl)

  -- For every sort that meets `Sorts`, every order in which the standard library reduces, every tree
  -- without null operands and constants that is not a single variable and has at most 2 ^ 32 distinct
  -- nodes, and every store without values of the problem, the steps of the problem and of other
  -- problems in any order: whenever the last task is computed, the tree has a value, and the manager
  -- replies with it and clears the problem in the store.
  pub Run-correct :
      (n : ℕ) (τ : System lib sort)
      → Run lib sort r problem_id n (initially lib sort c s) τ
      → lookup last τ.entry.processed_tasks_to_status ≡ some completed
      → (v : ExprResult) × (evaluate r (static_value s) root ≡ ok v)
        × (read_data τ.store (dyn_id (dyn_record_id problem_id last)) ≡ ok v)
        × ((m : Dispatcher lib sort)
            → (answer_request lib sort m τ.store problem_id last).1
              ≡ ok (clear_intermediate_calculations τ.store problem_id, to_reply v))
  Run-correct n τ run done = Coherent-correct τ (Run-Coherent n τ run).0 done

  -- For every sort that meets `Sorts`, every order in which the standard library reduces, every tree
  -- without null operands and constants that is not a single variable, has at most 2 ^ 32 distinct
  -- nodes and has a value, every store without values of the problem and every problem number below
  -- 2 ^ 32, where each message arrives once: a run has at most six steps of the problem for each task; and where it stands, either the
  -- value of the tree is what is read of the last task, or some step of the problem is possible. So
  -- a run that goes on as long as it can ends with the value.
  pub Run-terminates :
      problem_id < 2 ^ 32
      → (v : ExprResult) → evaluate r (static_value s) root ≡ ok v
      → (n : ℕ) (τ : System lib sort) → Run lib sort r problem_id n (initially lib sort c s) τ
      → (n ≤ 6 * length c.decompositor.tasks)
        × ((read_data τ.store (dyn_id (dyn_record_id problem_id last)) ≡ ok v)
            ⊎ ((υ : System lib sort) × Step lib sort r problem_id τ υ))
  Run-terminates below v value n τ run =
      let (good, bound) = Run-Coherent n τ run in
      (
        bound,
        elim (next_step lib sort root making.d making.h r read problem_id complete plain
            making.bound below τ v good value) [
              | inr more ↦ inr more
              | inl all ↦
                  let (w, value', found, _) = Run-correct n τ run (all last making.listed) in
                  let both : ok v ≡ ok w = sym value ∙ value' in
                  let same : v ≡ w = cc both in inl (found ∙ ap ok (sym same))
            ],
      )

  -- For a sort, a tree and a store as in `Run-terminates`, but a tree whose calculation faults: no run
  -- computes the last task, whatever the order of its steps is.
  pub Run-fault :
      (f : Fault)
      → evaluate r (static_value s) root ≡ err f
      → (n : ℕ) (τ : System lib sort) → Run lib sort r problem_id n (initially lib sort c s) τ
      → lookup last τ.entry.processed_tasks_to_status ≢ some completed
  Run-fault f fault n τ run done =
      let (v, value, _, _) = Run-correct n τ run done in cc (fault, value)
