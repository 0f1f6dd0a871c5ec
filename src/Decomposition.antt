-- ===== src/Decomposition.antt =====
-- manager/src/decomposition/decomposition.cpp: the task decompositor of a graph in sorted order.
pub mod Order
pub mod Queries
pub mod Independent
use distributed_task_dispatc.Prelude.{
  ℕ, Bool, true, false, not, ◌==◌, ◌&&◌, ◌||◌, List, [], ◌∷◌, ◌++◌, Option, none, some, Result, ok,
  err, ◌>>=◌, or_fault, bad_deref, bad_variant_access, get_elem?, if◌then◌else◌, Fault,
}
use distributed_task_dispatc.Domain.{ExprType, VariableId, type_index}
use distributed_task_dispatc.Expr.{
  Expr, ExprData, monostate, variable, constant, postorder_traverse,
}
use distributed_task_dispatc.Dag.{visit, build_graph}
use distributed_task_dispatc.Dag.Library.{GraphLibrary, VertexProperties}

-- `contains` of a set of tasks.
unfoldable pub contains : List ℕ → ℕ → Bool
contains [] t = false
contains (x ∷ xs) t = x == t || contains xs t

-- `std::all_of`.
unfoldable pub all_of {ℓ} : {A : Type ℓ} → (A → Bool) → List A → Bool
all_of test [] = true
all_of test (x ∷ xs) = test x && all_of test xs

-- `std::get<domain::VariableId>`.
unfoldable pub get_variable_id : ExprData → Result VariableId
get_variable_id monostate = err bad_variant_access
get_variable_id (variable id) = ok id
get_variable_id (constant x) = err bad_variant_access

-- The test of `GetIndependentTasks`.
unfoldable pub is_independent : ExprType → Bool
is_independent ExprType.list = true
is_independent ExprType.scalar_const = true
is_independent ExprType.scalar_var = true
is_independent _ = false

-- `topological_sort` stands for boost::topological_sort with a back inserter, which throws on a
-- cycle.
module _ (lib : GraphLibrary) (topological_sort : lib.Graph → Result (List ℕ)) where
  pub record TaskDecompositor : Type 0 where
    pub graph : lib.Graph
    pub tasks : List ℕ

  -- `TaskDecompositor::New`; the tree is `AST::root_`.
  unfoldable pub new : Expr → Result TaskDecompositor
  new root = do
    records ← postorder_traverse visit root []
    graph ← build_graph lib records
    tasks ← topological_sort graph
    ok (record { graph = graph; tasks = tasks })

  -- `graph_[task]`, an access to the vector of vertices.
  abbrev pub properties_of : TaskDecompositor → ℕ → Result VertexProperties
  properties_of d task = or_fault (get_elem? (lib.properties d.graph) task) bad_deref

  -- The loop of `GetIndependentTasks`: the map is the list of its entries.
  pub independent_tasks_loop : TaskDecompositor → List ℕ → Result (List (ℕ × VariableId))
  independent_tasks_loop d [] = ok []
  independent_tasks_loop d (task ∷ tasks) = do
    properties ← properties_of d task
    entries ←
        if is_independent properties.type
        then (do id ← get_variable_id properties.value; ok ((task, id) ∷ []))
        else ok []
    rest ← independent_tasks_loop d tasks
    ok (entries ++ rest)

  unfoldable pub get_independent_tasks : TaskDecompositor → Result (List (ℕ × VariableId))
  unfolding independent_tasks_loop
  get_independent_tasks d = independent_tasks_loop d d.tasks

  -- The condition of `GetComputableTasks` for a task.
  unfoldable pub is_computable : TaskDecompositor → List ℕ → List ℕ → ℕ → Bool
  is_computable d computed excluded task =
      not (contains computed task)
      && not (contains excluded task)
      && all_of (contains computed) (lib.adjacent_vertices task d.graph)

  pub computable_tasks_loop : TaskDecompositor → List ℕ → List ℕ → List ℕ → List (ℕ × List ℕ)
  computable_tasks_loop d computed excluded [] = []
  computable_tasks_loop d computed excluded (task ∷ tasks) =
      let rest = computable_tasks_loop d computed excluded tasks in
      if is_computable d computed excluded task
      then (task, lib.adjacent_vertices task d.graph) ∷ rest
      else rest

  unfoldable pub get_computable_tasks : TaskDecompositor → List ℕ → List ℕ → List (ℕ × List ℕ)
  unfolding computable_tasks_loop
  get_computable_tasks d computed excluded = computable_tasks_loop d computed excluded d.tasks

  unfoldable pub get_operation_type : TaskDecompositor → ℕ → Result ℕ
  get_operation_type d task = do properties ← properties_of d task; ok (type_index properties.type)
