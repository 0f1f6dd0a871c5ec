-- ===== src/Dispatch/Invariant.antt =====
-- The invariant of a `CalculationData`, and `UpdateComputableTasksImpl`.
use distributed_task_dispatc.Prelude.{
  ℕ, get_elem?, ◌≡◌, refl, subst, ◌↔◌, inl, inr, List, none, some, Result, ok, arith, ◌==◌, ==_iff,
  In, Distinct, keys, lookup, lookup-assign, Distinct-assign, assign, Eq_nat, Bool-cases,
  Option-cases,
}
use distributed_task_dispatc.Expr.{Expr}
use distributed_task_dispatc.Dag.Library.{GraphLibrary}
use distributed_task_dispatc.Decomposition.{TaskDecompositor, get_computable_tasks}
use distributed_task_dispatc.Decomposition.Order.{IsDecomposition}
use distributed_task_dispatc.Decomposition.Independent.{variable_of}
use distributed_task_dispatc.Domain.{VariableId}
use distributed_task_dispatc.Decomposition.Queries.{
  get_computable_tasks_iff, get_computable_tasks-Distinct,
}
use distributed_task_dispatc.Dispatch.{
  TaskStatus, processing, completed, completed_tasks, processing_tasks, CalculationData,
  update_computable_tasks_impl,
}
use distributed_task_dispatc.Dispatch.Statuses.{completed_tasks_iff, processing_tasks_iff}

module _ (lib : GraphLibrary) (sort : lib.Graph → Result (List ℕ)) (root : Expr)
    (d : TaskDecompositor lib sort) (h : IsDecomposition lib sort root d) where
  -- All that a task depends on is computed.
  abbrev pub IsReady : List (ℕ × TaskStatus) → ℕ → Type 0
  IsReady m t = (v : ℕ) → In v (lib.adjacent_vertices t d.graph) → lookup v m ≡ some completed

  -- The entries are exactly the tasks that may be sent now, each with its dependencies in order.
  abbrev pub IsExact : List (ℕ × TaskStatus) → List (ℕ × List ℕ) → Type 0
  IsExact m entries =
      (t : ℕ) (deps : List ℕ)
      → In (t, deps) entries ↔ (
          In t d.tasks
          × (lookup t m ≡ none)
          × IsReady m t
          × (deps ≡ lib.adjacent_vertices t d.graph))

  -- A task has a status only after all that it depends on was computed.
  abbrev pub IsStarted : List (ℕ × TaskStatus) → Type 0
  IsStarted m = (t : ℕ) (s : TaskStatus) → lookup t m ≡ some s → In t d.tasks × IsReady m t

  pub record IsConsistent (c : CalculationData lib sort) : Type 0 where
    pub same : c.decompositor ≡ d
    pub distinct : Distinct (keys c.processed_tasks_to_status)
    pub started : IsStarted c.processed_tasks_to_status
    pub exact : IsExact c.processed_tasks_to_status c.computable_task_to_dependencies
    pub once : Distinct (keys c.computable_task_to_dependencies)
    pub named :
        (t : ℕ) (id : VariableId)
        → In (t, id) c.task_to_variable_id
          ↔ ((e : Expr) × (get_elem? h.records t ≡ some e) × In id (variable_of e))

  -- What `GetComputableTasks` returns for the collected sets.
  recomputed-IsExact :
      (m : List (ℕ × TaskStatus))
      → Distinct (keys m)
      → IsExact m (get_computable_tasks lib sort d (completed_tasks m) (processing_tasks m))
  recomputed-IsExact m distinct t deps =
      let both =
        get_computable_tasks_iff lib sort d (completed_tasks m) (processing_tasks m) t deps in
      let comp = completed_tasks_iff t m distinct in
      let proc = processing_tasks_iff t m distinct in
      (
        λ i.
            let (listed, c, e) = both.0 i in
            (
              listed,
              elim (Option-cases (lookup t m)) [
                | inl q ↦ q
                | inr (completed, q) ↦ absurd (c.fresh (comp.1 q))
                | inr (processing, q) ↦ absurd (c.free (proc.1 q))
              ],
              λ v j. (completed_tasks_iff v m distinct).0 (c.ready v j),
              e,
            ),
        λ (listed, unseen, ready, e). both.1 (
          listed,
          record {
            fresh = λ i. cc (comp.0 i, unseen);
            free = λ i. cc (proc.0 i, unseen);
            ready = λ v j. (completed_tasks_iff v m distinct).1 (ready v j);
          },
          e,
        ),
      )

  -- A task that becomes computed leaves what was computed so.
  pub assign-IsReady :
      (m : List (ℕ × TaskStatus)) (k t : ℕ) → IsReady m t → IsReady (assign k completed m) t
  assign-IsReady m k t ready v i = ground (arith, lookup-assign k v completed m, ready v i)

  pub assign-IsStarted :
      (m : List (ℕ × TaskStatus)) (k : ℕ) (s : TaskStatus)
      → lookup k m ≡ some s
      → IsStarted m
      → IsStarted (assign k completed m)
  assign-IsStarted m k s known started t s' e = elim (Bool-cases (k == t)) [
    | inl b ↦
        let (listed, ready) = started k s known in
        let q : k ≡ t = (==_iff k t).0 b in
        subst (λ u. In u d.tasks × IsReady (assign k completed m) u) q
          (listed, assign-IsReady m k k ready)
    | inr b ↦
        let (listed, ready) = started t s' (ground (arith, lookup-assign k t completed m)) in
        (listed, assign-IsReady m k t ready)
  ]

  -- On a consistent problem and a task that has a status, `UpdateComputableTasksImpl` succeeds:
  -- the task is computed, no other status changes, and the invariant holds again.
  pub update_computable_tasks_impl-IsConsistent :
      (c : CalculationData lib sort) (t : ℕ) (s : TaskStatus)
      → IsConsistent c
      → lookup t c.processed_tasks_to_status ≡ some s
      → (c' : CalculationData lib sort) × (update_computable_tasks_impl lib sort c t ≡ ok c')
        × IsConsistent c'
        × (c'.processed_tasks_to_status ≡ assign t completed c.processed_tasks_to_status)
  unfolding update_computable_tasks_impl
  update_computable_tasks_impl-IsConsistent c t s inv known =
      let m = assign t completed c.processed_tasks_to_status in
      let distinct = Distinct-assign t completed c.processed_tasks_to_status inv.distinct in
      let entries =
        get_computable_tasks lib sort c.decompositor (completed_tasks m) (processing_tasks m) in
      (
        record c { processed_tasks_to_status = m; computable_task_to_dependencies = entries },
        rw known refl,
        record {
          same = inv.same;
          distinct = distinct;
          started = assign-IsStarted c.processed_tasks_to_status t s known inv.started;
          exact = rw inv.same (recomputed-IsExact m distinct);
          once = rw inv.same (
              get_computable_tasks-Distinct lib sort d (completed_tasks m) (processing_tasks m)
                h.order.distinct);
          named = inv.named;
        },
        refl,
      )
