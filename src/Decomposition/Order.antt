-- ===== src/Decomposition/Order.antt =====
-- `TaskDecompositor::New`: the order of the tasks, and what boost's sort is relied on for.
use distributed_task_dispatc.Prelude.{
  ℕ, ◌<◌, ◌≡◌, refl, sym, ap, ◌∙◌, subst, ◌↔◌, inl, inr, true, false, List, [], some, Result, ok,
  err, bad_deref, arith, length, get_elem?, get_last?, length-map, get_elem?-lt, get_elem?-some,
  get_elem?-In, In-get_elem?, get_last?-In, get_last?-some, In, In-map, In-map_inv, Distinct,
  Distinct-index, Before, Before-last,
}
use distributed_task_dispatc.Expr.{Expr, postorder_traverse}
use distributed_task_dispatc.Expr.Traversal.{operands, is_complete, traverse-postorder}
use distributed_task_dispatc.Expr.Subexpressions.{
  postorder-parent, In-postorder_self, complete-postorder,
}
use distributed_task_dispatc.Dag.{index_of, vertex_properties, visit}
use distributed_task_dispatc.Dag.Library.{GraphLibrary}
use distributed_task_dispatc.Dag.Records.{index_of-In, IsNumbering, traverse-IsNumbering}
use distributed_task_dispatc.Dag.Edges.{IsGraphOf, build_graph-IsGraphOf, targets}
use distributed_task_dispatc.Decomposition.{TaskDecompositor, new}

module _ (lib : GraphLibrary) where
  open lib use {Graph, properties, adjacent_vertices}

  -- Each vertex once, and the target of an edge before its source.
  pub record IsOrder (g : Graph) (tasks : List ℕ) : Type 0 where
    pub distinct : Distinct tasks
    pub exact : (v : ℕ) → In v tasks ↔ (v < length (properties g))
    pub before :
        (u v : ℕ) → u < length (properties g) → In v (adjacent_vertices u g) → Before v u tasks

  abbrev pub EdgesDescend : Graph → Type 0
  EdgesDescend g = (u v : ℕ) → u < length (properties g) → In v (adjacent_vertices u g) → v < u

  -- What boost documents of `topological_sort` for every acyclic graph, for the graphs whose edges
  -- lead to smaller descriptors.
  abbrev pub Sorts : (Graph → Result (List ℕ)) → Type 0
  Sorts sort =
      (g : Graph) → EdgesDescend g → (tasks : List ℕ) × (sort g ≡ ok tasks) × IsOrder g tasks

  pub length-vertices :
      (records : List Expr) (g : Graph)
      → IsGraphOf lib records g
      → length (properties g) ≡ length records
  length-vertices records g h = ap length h.vertices ∙ length-map records vertex_properties

  module _ (root : Expr) (records : List Expr) (g : Graph) (numbering : IsNumbering root records)
      (graph : IsGraphOf lib records g) where
    -- An edge is an operand.
    edge-operand :
        (u v : ℕ)
        → u < length (properties g)
        → In v (adjacent_vertices u g)
        → (p : Expr) × (o : Expr) × (get_elem? records u ≡ some p)
          × In o (operands p)
          × (v ≡ index_of records o)
    edge-operand u v less m =
        let (p, at) = get_elem?-some records u (omega (arith, length-vertices records g graph)) in
        let (o, i, e) =
          In-map_inv (index_of records) v (operands p) (subst (In v) (graph.edges u p at) m) in
        (p, o, at, i, e)

    graph-EdgesDescend : EdgesDescend g
    graph-EdgesDescend u v less m =
        let (p, o, at, i, e) = edge-operand u v less m in
        let (j, below, at') = numbering.operands_first u p o at i in
        let found = index_of-In records o (In-get_elem? records j at') in
        omega (arith, Distinct-index records (index_of records o) j numbering.distinct found at')

    root_last :
        (tasks : List ℕ)
        → IsOrder g tasks
        → (t : ℕ) × (get_last? tasks ≡ some t) × (get_elem? records t ≡ some root)
    root_last tasks order =
        let size = length-vertices records g graph in
        let at = index_of-In records root ((numbering.exact root).1 (In-postorder_self root)) in
        let near = get_elem?-lt records (index_of records root) at in
        let (t, last) =
          get_last?-some tasks (index_of records root)
            ((order.exact (index_of records root)).1 (omega arith)) in
        let less = (order.exact t).0 (get_last?-In tasks last) in
        let (p, here) = get_elem?-some records t (omega arith) in
        (
          t,
          last,
          elim (postorder-parent root p ((numbering.exact p).0 (In-get_elem? records t here))) [
            | inl e ↦ here ∙ ap some e
            | inr (q, i, j) ↦
                let (u, there) = get_elem?-In records ((numbering.exact q).1 i) in
                let up = get_elem?-lt records u there in
                let found = index_of-In records p (In-get_elem? records t here) in
                let same =
                  Distinct-index records (index_of records p) t numbering.distinct found here in
                let edge = subst (In t) (sym (graph.edges u q there)) (
                  subst (λ k. In k (targets lib records (operands q))) same
                    (In-map (index_of records) p (operands q) j)) in
                absurd
                  (Before-last tasks t u order.distinct (order.before u t (omega arith) edge) last)
          ],
        )

  module _ (sort : Graph → Result (List ℕ)) where
    -- What a decompositor holds of the tree that it was made of.
    pub record IsDecomposition (root : Expr) (d : TaskDecompositor lib sort) : Type 0 where
      pub records : List Expr
      pub numbering : IsNumbering root records
      pub graph_of : IsGraphOf lib records d.graph
      pub order : IsOrder d.graph d.tasks
      pub last_task : (t : ℕ) × (get_last? d.tasks ≡ some t) × (get_elem? records t ≡ some root)

    -- For every sort that meets `Sorts`, `New` gives a decompositor of a tree without null
    -- operands: its graph has a vertex for each distinct subexpression with edges to the operands,
    -- its tasks list each vertex once, operands before their node, and the last task is the root
    -- of the tree.
    pub new-IsDecomposition :
        Sorts sort
        → (root : Expr) → is_complete root ≡ true
        → (d : TaskDecompositor lib sort) × (new lib sort root ≡ ok d) × IsDecomposition root d
    unfolding new
    new-IsDecomposition sorts root c =
        let (records, visited, numbering) = traverse-IsNumbering root c in
        let (g, built, graph) =
          build_graph-IsGraphOf lib records
            (λ e i. complete-postorder root e c ((numbering.exact e).0 i))
            numbering.operands_first in
        let (tasks, sorted, order) = sorts g (graph-EdgesDescend root records g numbering graph) in
        (
          record { graph = g; tasks = tasks },
          rw (visited, built, sorted) refl,
          record {
            records = records;
            numbering = numbering;
            graph_of = graph;
            order = order;
            last_task = root_last root records g numbering graph tasks order;
          },
        )

    -- Of a tree with a null operand `New` dereferences that operand, whatever the library does.
    pub new-incomplete :
        (root : Expr) → is_complete root ≡ false → new lib sort root ≡ err bad_deref
    unfolding new
    new-incomplete root c =
        let fault : postorder_traverse visit root [] ≡ err bad_deref =
          traverse-postorder visit root [] ∙ rw c refl in
        rw fault refl
