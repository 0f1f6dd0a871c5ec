-- ===== src/Dag.antt =====
-- manager/src/decomposition/dag_visitor.cpp: the visitor that numbers the values of a tree, and
-- the graph that it builds from its records. dag.h stands in `Dag.Library`.
pub mod Library
pub mod Records
pub mod Edges
use distributed_task_dispatc.Prelude.{
  ℕ, zero, suc, Bool, true, false, not, ◌==◌, List, [], ◌∷◌, ◌++◌, Result, ok, err, ◌>>=◌, or_fault,
  out_of_range, get_elem?, length, if◌then◌else◌,
}
use distributed_task_dispatc.Expr.{
  Expr, Pointer, nullptr, ptr, expr_eq, get_type, get_lhs, get_rhs, get_data,
}
use distributed_task_dispatc.Expr.Equality.{equals}
use Library.{VertexProperties, GraphLibrary}

-- `std::distance(first, std::find_if(first, last, test))`: the length of the list if none passes.
unfoldable pub find_index {ℓ} : {A : Type ℓ} → (A → Bool) → List A → ℕ
find_index test [] = 0
find_index test (x ∷ xs) = if test x then 0 else suc (find_index test xs)

-- The same with a test that may fault; it stops at the first element that passes.
unfoldable pub find_if {ℓ} : {A : Type ℓ} → (A → Result Bool) → List A → Result ℕ
find_if test [] = ok 0
find_if test (x ∷ xs) = do
  let rest = find_if test xs
  passes ← test x
  if passes then ok 0 else (do n ← rest; ok (suc n))

-- The index of the first record that equals an expression, of expressions without null operands.
abbrev pub index_of : List Expr → Expr → ℕ
index_of records expr = find_index (λ el. expr_eq el expr) records

-- `DagVisitor::Visit`, on `records_`; a traversal calls it on nodes without null operands only.
unfoldable pub visit : List Expr → Expr → List Expr
visit records expr =
    if not (index_of records expr == length records) then records else records ++ expr ∷ []

abbrev pub vertex_properties : Expr → VertexProperties
vertex_properties e = record { type = get_type e; value = get_data e }

module _ (lib : GraphLibrary) where
  open lib use {Graph, empty, add_vertex, add_edge}

  -- The first loop of `DagVisitor::BuildGraph`. `id_to_descriptor` has the keys 0, 1, … in turn, so
  -- it is the list of its values.
  pub add_vertices : List Expr → List ℕ → Graph → List ℕ × Graph
  add_vertices [] id_to_descriptor g = (id_to_descriptor, g)
  add_vertices (e ∷ records) id_to_descriptor g =
      let (descriptor, g') = add_vertex (vertex_properties e) g in
      add_vertices records (id_to_descriptor ++ descriptor ∷ []) g'

  -- The lambda `add_edge` behind its test for a null operand; `at` throws on a missing key.
  pub add_operand : List Expr → List ℕ → ℕ → Pointer → Graph → Result Graph
  add_operand records id_to_descriptor root nullptr g = ok g
  add_operand records id_to_descriptor root (ptr operand) g = do
    root_descriptor ← or_fault (get_elem? id_to_descriptor root) out_of_range
    index ← find_if (λ el. equals el operand) records
    operand_descriptor ← or_fault (get_elem? id_to_descriptor index) out_of_range
    ok (add_edge root_descriptor operand_descriptor g)

  -- The second loop; `i` is the distance of its iterator from the first record.
  pub add_edges : List Expr → List ℕ → ℕ → List Expr → Graph → Result Graph
  add_edges records id_to_descriptor i [] g = ok g
  add_edges records id_to_descriptor i (e ∷ rest) g = do
    g₁ ← add_operand records id_to_descriptor i (get_lhs e) g
    g₂ ← add_operand records id_to_descriptor i (get_rhs e) g₁
    add_edges records id_to_descriptor (suc i) rest g₂

  unfoldable pub build_graph : List Expr → Result Graph
  unfolding add_vertices add_operand add_edges
  build_graph records =
      let (id_to_descriptor, g) = add_vertices records [] empty in
      add_edges records id_to_descriptor 0 records g
