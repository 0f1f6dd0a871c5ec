-- ===== src/System/Coherent.antt =====
-- The invariant of a problem with its requests, its replies and the store.
use distributed_task_dispatc.Prelude.{
  ℕ, ◌≡◌, refl, sym, ◌∙◌, subst, ◌⊎◌, inl, inr, List, [], ◌∷◌, map, none, some, Result, ok,
  get_elem?, In, In-map, lookup, Eq_nat, Option-cases, List-cases, In-get_elem?, lookup-entry,
  keys-lookup, entry-In,
}
use distributed_task_dispatc.Domain.{ExprResult, VariableId, type_index}
use distributed_task_dispatc.Domain.Arith.{Reducer}
use distributed_task_dispatc.Expr.{Expr, get_type}
use distributed_task_dispatc.Expr.Traversal.{operands}
use distributed_task_dispatc.Dag.{index_of}
use distributed_task_dispatc.Dag.Edges.{targets}
use distributed_task_dispatc.Dag.Records.{index_of-In}
use distributed_task_dispatc.Dag.Library.{GraphLibrary}
use distributed_task_dispatc.Messages.{uint32, TaskId, Operand, static_operand, dyn_operand, Task}
use distributed_task_dispatc.Decomposition.{TaskDecompositor}
use distributed_task_dispatc.Decomposition.Order.{IsDecomposition}
use distributed_task_dispatc.Decomposition.Independent.{variable_of}
use distributed_task_dispatc.Database.{
  Field, Store, to_field, find_row, dyn_record_id, read_data, static_id,
}
use distributed_task_dispatc.Database.Rows.{read_data-row, of_field-to_field}
use distributed_task_dispatc.Dispatch.{
  TaskStatus, processing, completed, CalculationData, form_operand,
}
use distributed_task_dispatc.Dispatch.Invariant.{IsConsistent}
use distributed_task_dispatc.System.{evaluate, System}
use distributed_task_dispatc.System.Values.{IsOperation}
use distributed_task_dispatc.System.Requests.{Stands, AllStand, IsStored}

module _ (lib : GraphLibrary) (sort : lib.Graph → Result (List ℕ)) (root : Expr)
    (d : TaskDecompositor lib sort) (h : IsDecomposition lib sort root d) (r : Reducer)
    (read : VariableId → Result ExprResult) (problem_id : ℕ) where
  abbrev pub record_of : ℕ → TaskId
  record_of t = dyn_record_id problem_id t

  -- A request for a task with a status: the type of its operation and its operands in order.
  pub record IsOpen (c : CalculationData lib sort) (request : Task) : Type 0 where
    pub task : ℕ
    pub expr : Expr
    pub status : TaskStatus
    pub at : get_elem? h.records task ≡ some expr
    pub operation : IsOperation expr
    pub known : lookup task c.processed_tasks_to_status ≡ some status
    pub id_of : request.id ≡ record_of task
    pub type_of : request.operation_type ≡ uint32 (type_index (get_type expr))
    pub stand : AllStand r read problem_id h.records request.operands (operands expr)

  -- A reply for a task with a status and a stored value.
  pub record IsAnswer (c : CalculationData lib sort) (s : Store) (id : TaskId) : Type 0 where
    pub task : ℕ
    pub expr : Expr
    pub status : TaskStatus
    pub at : get_elem? h.records task ≡ some expr
    pub known : lookup task c.processed_tasks_to_status ≡ some status
    pub id_of : id ≡ record_of task
    pub row : Field
    pub found : find_row (record_of task) s.dynamic_data ≡ some row

  -- What is stored under a task is the value of its expression.
  abbrev pub IsValue : Store → Type 0
  IsValue s =
      (t : ℕ) (e : Expr) (f : Field)
      → get_elem? h.records t ≡ some e
      → find_row (record_of t) s.dynamic_data ≡ some f
      → (v : ExprResult) × (f ≡ to_field v) × (evaluate r read e ≡ ok v)

  -- A computed task is a variable, or its value is stored.
  abbrev pub AreStored : CalculationData lib sort → Store → Type 0
  AreStored c s =
      (t : ℕ) (e : Expr)
      → get_elem? h.records t ≡ some e
      → lookup t c.processed_tasks_to_status ≡ some completed
      → ((id : VariableId) × In id (variable_of e))
        ⊎ ((f : Field) × (find_row (record_of t) s.dynamic_data ≡ some f))

  abbrev pub IsUnderWay : System lib sort → ℕ → Type 0
  IsUnderWay σ t =
      ((request : Task) × In request σ.sent × (request.id ≡ record_of t))
      ⊎ In (record_of t) σ.answered

  pub record IsCoherent (σ : System lib sort) : Type 0 where
    pub inv : IsConsistent lib sort root d h σ.entry
    pub variables :
        (t : ℕ) (e : Expr) (id : VariableId)
        → get_elem? h.records t ≡ some e
        → In id (variable_of e)
        → lookup t σ.entry.processed_tasks_to_status ≡ some completed
    pub static_data : (id : VariableId) → read_data σ.store (static_id id) ≡ read id
    pub requests : (request : Task) → In request σ.sent → IsOpen σ.entry request
    pub answers : (id : TaskId) → In id σ.answered → IsAnswer σ.entry σ.store id
    pub values : IsValue σ.store
    pub stored : AreStored σ.entry σ.store
    pub under_way :
        (t : ℕ) → lookup t σ.entry.processed_tasks_to_status ≡ some processing → IsUnderWay σ t

  -- The operands of a task that has a status are computed, so their values are in the store.
  pub operands-IsStored :
      (σ : System lib sort)
      → IsCoherent σ
      → (t : ℕ) (e o : Expr) (s : TaskStatus) → get_elem? h.records t ≡ some e
      → lookup t σ.entry.processed_tasks_to_status ≡ some s
      → In o (operands e)
      → variable_of o ≡ []
      → IsStored r read problem_id h.records σ.store o
  operands-IsStored σ good t e o s at known i plain =
      let ready = (good.inv.started t s known).1 in
      let edge = h.graph_of.edges t e at in
      let (j, below, at') = h.numbering.operands_first t e o at i in
      let found = index_of-In h.records o (In-get_elem? h.records j at') in
      let there =
        subst (In (index_of h.records o)) (sym edge)
          (In-map (index_of h.records) o (operands e) i) in
      let done = ready (index_of h.records o) there in
      let (f, row) : (f : Field) × (find_row (record_of (index_of h.records o)) σ.store.dynamic_data
            ≡ some f) =
        elim (good.stored (index_of h.records o) o found done) [
          | inl (id, k) ↦ absurd (subst (In id) plain k)
          | inr q ↦ q
        ] in
      let (v, same, value) = good.values (index_of h.records o) o f found row in
      (
        v,
        value,
        read_data-row σ.store (record_of (index_of h.records o))
            ∙ rw (row, same) (of_field-to_field v),
      )

  form_operand_static :
      (c : CalculationData lib sort) (t : ℕ) (id : VariableId)
      → lookup t c.task_to_variable_id ≡ some id
      → form_operand lib sort c problem_id t ≡ static_operand id
  unfolding form_operand
  form_operand_static c t id q = rw (q, form_operand) refl

  form_operand_dynamic :
      (c : CalculationData lib sort) (t : ℕ)
      → lookup t c.task_to_variable_id ≡ none
      → form_operand lib sort c problem_id t ≡ dyn_operand (record_of t)
  unfolding form_operand
  form_operand_dynamic c t q = rw (q, form_operand) refl

  -- The operand that is formed for a node stands for it.
  form_operand-Stands :
      (c : CalculationData lib sort)
      → IsConsistent lib sort root d h c
      → (o : Expr) → get_elem? h.records (index_of h.records o) ≡ some o
      → Stands r read problem_id h.records
          (form_operand lib sort c problem_id (index_of h.records o))
          o
  form_operand-Stands c inv o at =
      let t = index_of h.records o in
      let back : (x : Operand)
          → form_operand lib sort c problem_id t ≡ x
          → Stands r read problem_id h.records x o
          → Stands r read problem_id h.records (form_operand lib sort c problem_id t) o =
        λ x q. subst (λ y. Stands r read problem_id h.records y o) (sym q) in
      elim (Option-cases (lookup t c.task_to_variable_id)) [
        | inr (id, q) ↦
            let (e, at', i) = (inv.named t id).0 (lookup-entry t c.task_to_variable_id q) in
            let same : some e ≡ some o = sym at' ∙ at in
            let e≡o : e ≡ o = cc same in
            back (static_operand id) (form_operand_static c t id q)
              (subst (λ x. In id (variable_of x)) e≡o i)
        | inl q ↦ back (dyn_operand (record_of t)) (form_operand_dynamic c t q) (
          elim (List-cases (variable_of o)) [
            | inl z ↦ z
            | inr (id, ids, z) ↦
                let i : In id (variable_of o) = subst (In id) (sym z) (inl refl) in
                let entry = (inv.named t id).1 (o, at, i) in
                let (w, found) =
                  keys-lookup t c.task_to_variable_id (entry-In t id c.task_to_variable_id entry) in
                cc (found, q)
          ],
          refl,
        )
      ]

  pub form_operand-AllStand :
      (c : CalculationData lib sort)
      → IsConsistent lib sort root d h c
      → (es : List Expr)
      → ((o : Expr) → In o es → get_elem? h.records (index_of h.records o) ≡ some o)
      → AllStand r read problem_id h.records
          (map (form_operand lib sort c problem_id) (targets lib h.records es))
          es
  form_operand-AllStand c inv [] at = tt
  form_operand-AllStand c inv (e ∷ es) at = (
    form_operand-Stands c inv e (at e (inl refl)),
    form_operand-AllStand c inv es (λ o i. at o (inr i)),
  )
