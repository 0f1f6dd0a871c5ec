-- ===== src/Dag/Library.antt =====
-- manager/src/decomposition/dag.h: the properties of a vertex, and what the program uses of
-- boost::adjacency_list<vecS, vecS, directedS, VertexProperties>, as an interface.
use distributed_task_dispatc.Prelude.{ℕ, ◌<◌, ◌≡◌, ◌==◌, List, [], ◌∷◌, ◌++◌, length, if◌then◌else◌}
use distributed_task_dispatc.Domain.{ExprType}
use distributed_task_dispatc.Expr.{ExprData}

-- `value` is the field `data`.
pub record VertexProperties : Type 0 where
  pub type : ExprType
  pub value : ExprData

-- With `vecS` the descriptors are the numbers from 0 in the order of insertion; `properties`
-- lists what `graph[v]` gives for each of them. An edge goes to the end of its source's out-edges.
pub record GraphLibrary : Type 1 where
  pub Graph : Type 0
  pub empty : Graph
  pub add_vertex : VertexProperties → Graph → ℕ × Graph
  pub add_edge : ℕ → ℕ → Graph → Graph
  pub properties : Graph → List VertexProperties
  pub adjacent_vertices : ℕ → Graph → List ℕ
  pub properties-empty : properties empty ≡ []
  pub add_vertex_descriptor :
      (p : VertexProperties) (g : Graph) → (add_vertex p g).0 ≡ length (properties g)
  pub properties-add_vertex :
      (p : VertexProperties) (g : Graph) → properties (add_vertex p g).1 ≡ properties g ++ p ∷ []
  pub adjacent_vertices-add_vertex :
      (p : VertexProperties) (g : Graph) (v : ℕ)
      → v < length (properties g)
      → adjacent_vertices v (add_vertex p g).1 ≡ adjacent_vertices v g
  pub adjacent_vertices-new :
      (p : VertexProperties) (g : Graph)
      → adjacent_vertices (length (properties g)) (add_vertex p g).1 ≡ []
  pub properties-add_edge :
      (u v : ℕ) (g : Graph)
      → u < length (properties g)
      → v < length (properties g)
      → properties (add_edge u v g) ≡ properties g
  pub adjacent_vertices-add_edge :
      (u v w : ℕ) (g : Graph)
      → u < length (properties g)
      → v < length (properties g)
      → w < length (properties g)
      → adjacent_vertices w (add_edge u v g)
        ≡ (if w == u then adjacent_vertices w g ++ v ∷ [] else adjacent_vertices w g)
