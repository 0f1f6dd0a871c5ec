-- ===== src/Dag/Edges.antt =====
-- `DagVisitor::BuildGraph`: the vertices and the edges of the graph of a list of records.
use distributed_task_dispatc.Prelude.{
  ℕ, suc, ◌≤◌, ◌<◌, ◌≡◌, refl, sym, ap, ◌∙◌, subst, inl, inr, ◌==◌, List, [], ◌∷◌, ◌++◌, map, some,
  ok, arith, length, get_elem?, get_elem?-append_left, get_elem?-append_last, get_elem?-lt,
  In-get_elem?, get_elem?-In, length-append, length-map, In, In-append, if◌then◌else◌, dec_lt,
  Bool-cases, true,
}
use mathlib.Core.List.{append-nil, append_assoc, map-append}
use distributed_task_dispatc.Expr.{Expr, expr_eq, Pointer, nullptr, ptr, get_lhs, get_rhs}
use distributed_task_dispatc.Expr.Traversal.{pointee, operands, is_complete}
use distributed_task_dispatc.Expr.Equality.{equals, equals_lem}
use distributed_task_dispatc.Dag.{
  find_if, find_index, index_of, vertex_properties, add_vertices, add_operand, add_edges,
  build_graph,
}
use distributed_task_dispatc.Dag.Library.{GraphLibrary}
use distributed_task_dispatc.Dag.Records.{index_of-In, OperandsFirst}

known-In :
    (records : List Expr)
    → OperandsFirst records
    → (e o : Expr) → In e records
    → In o (operands e)
    → In o records
known-In records first e o m n =
    let (i, at) = get_elem?-In records m in
    let (j, _, at') = first i e o at n in In-get_elem? records j at'

-- On records without null operands the search compares trees.
find_if-index_of :
    (records : List Expr) (o : Expr)
    → ((e : Expr) → In e records → is_complete e ≡ true)
    → is_complete o ≡ true
    → find_if (λ el. equals el o) records ≡ ok (index_of records o)
unfolding find_if find_index
find_if-index_of [] o all c = refl
find_if-index_of (e ∷ records) o all c =
    let ih = find_if-index_of records o (λ x i. all x (inr i)) c in
    let test = equals_lem e o (all e (inl refl)) c in
    elim (Bool-cases (expr_eq e o)) [ inl b ↦ rw (test, b) refl | inr b ↦ rw (test, b, ih) refl ]

module _ (lib : GraphLibrary) where
  open lib use {Graph, empty, add_vertex, add_edge, properties, adjacent_vertices}

  -- After the first loop over `done`.
  record IsVertices (done : List Expr) (ids : List ℕ) (g : Graph) : Type 0 where
    sized : length ids ≡ length done
    ids_at : (i : ℕ) → i < length done → get_elem? ids i ≡ some i
    vertices : properties g ≡ map vertex_properties done
    isolated : (v : ℕ) → v < length done → adjacent_vertices v g ≡ []

  length-properties :
      (done : List Expr) (g : Graph)
      → properties g ≡ map vertex_properties done
      → length (properties g) ≡ length done
  length-properties done g h = ap length h ∙ length-map done vertex_properties

  add_vertex-IsVertices :
      (done : List Expr) (ids : List ℕ) (g : Graph) (e : Expr)
      → IsVertices done ids g
      → IsVertices
          (done ++ e ∷ [])
          (ids ++ (add_vertex (vertex_properties e) g).0 ∷ [])
          (add_vertex (vertex_properties e) g).1
  add_vertex-IsVertices done ids g e h =
      let p = vertex_properties e in
      let count = length-properties done g h.vertices in
      let fresh = lib.add_vertex_descriptor p g in
      let more = length-append done (e ∷ []) in
      record {
        sized = omega (arith, h.sized, length-append ids ((add_vertex p g).0 ∷ []), more);
        ids_at = λ i less. elim (dec_lt i (length done)) [
          | yes old ↦
              get_elem?-append_left ids ((add_vertex p g).0 ∷ []) i (omega (arith, h.sized))
              ∙ h.ids_at i old
          | no late ↦
              let here : i ≡ length ids = omega (arith, h.sized, more) in
              rw here (
                get_elem?-append_last ids (add_vertex p g).0
                ∙ ap some (omega (arith, h.sized, count, fresh)))
        ];
        vertices =
            lib.properties-add_vertex p g
            ∙ ap (λ l. l ++ p ∷ []) h.vertices
            ∙ sym (map-append vertex_properties done (e ∷ []));
        isolated = λ v less. elim (dec_lt v (length done)) [
          | yes old ↦
              lib.adjacent_vertices-add_vertex p g v (omega (arith, count)) ∙ h.isolated v old
          | no late ↦
              let here : v ≡ length (properties g) = omega (arith, count, more) in
              rw here (lib.adjacent_vertices-new p g)
        ];
      }

  add_vertices-IsVertices :
      (rest done : List Expr) (ids : List ℕ) (g : Graph)
      → IsVertices done ids g
      → IsVertices (done ++ rest) (add_vertices lib rest ids g).0 (add_vertices lib rest ids g).1
  unfolding add_vertices
  add_vertices-IsVertices [] done ids g h = rw append-nil h
  add_vertices-IsVertices (e ∷ rest) done ids g h =
      let p = vertex_properties e in
      let r = add_vertices lib rest (ids ++ (add_vertex p g).0 ∷ []) (add_vertex p g).1 in
      subst (λ l. IsVertices l r.0 r.1) (append_assoc done (e ∷ []) rest)
        (add_vertices-IsVertices rest (done ++ e ∷ []) (ids ++ (add_vertex p g).0 ∷ [])
          (add_vertex p g).1 (add_vertex-IsVertices done ids g e h))

  -- The edges of a vertex, by the indices of the operands.
  abbrev pub targets : List Expr → List Expr → List ℕ
  targets records es = map (index_of records) es

  module _ (records : List Expr) (all : (e : Expr) → In e records → is_complete e ≡ true)
      (ids : List ℕ) (ids_at : (i : ℕ) → i < length records → get_elem? ids i ≡ some i) where
    -- One call of the lambda adds one edge, to the record of the operand.
    abbrev Adds : ℕ → List Expr → Graph → Graph → Type 0
    Adds i es g g' =
        (properties g' ≡ properties g)
        × ((w : ℕ)
            → w < length records
            → adjacent_vertices w g' ≡ (
                if w == i
                then adjacent_vertices w g ++ targets records es
                else adjacent_vertices w g))

    add_operand-Adds :
        (i : ℕ) (p : Pointer) (g : Graph)
        → i < length records
        → properties g ≡ map vertex_properties records
        → ((o : Expr) → In o (pointee p) → In o records)
        → (g' : Graph) × (add_operand lib records ids i p g ≡ ok g') × Adds i (pointee p) g g'
    unfolding add_operand
    add_operand-Adds i nullptr g less vertices known =
        (g, refl, (refl, λ w h. ground (arith, append-nil (adjacent_vertices w g))))
    add_operand-Adds i (ptr e) g less vertices known =
        let count = length-properties records g vertices in
        let at = index_of-In records e (known e (inl refl)) in
        let near = get_elem?-lt records (index_of records e) at in
        let found = find_if-index_of records e all (all e (known e (inl refl))) in
        (
          add_edge i (index_of records e) g,
          rw (ids_at i less, found, ids_at (index_of records e) near) refl,
          (
            lib.properties-add_edge i (index_of records e) g (omega arith) (omega arith),
            λ w h.
                lib.adjacent_vertices-add_edge i (index_of records e) w g (omega arith)
                  (omega arith) (omega arith),
          ),
        )

    record IsEdges (done : List Expr) (g : Graph) : Type 0 where
      vertices : properties g ≡ map vertex_properties records
      edges :
          (v : ℕ) (p : Expr)
          → get_elem? done v ≡ some p
          → adjacent_vertices v g ≡ targets records (operands p)
      bare : (v : ℕ) → length done ≤ v → v < length records → adjacent_vertices v g ≡ []

    -- Both operands of a record without edges.
    added :
        (i : ℕ) (e : Expr) (g g₁ g₂ : Graph)
        → i < length records
        → adjacent_vertices i g ≡ []
        → Adds i (pointee (get_lhs e)) g g₁
        → Adds i (pointee (get_rhs e)) g₁ g₂
        → adjacent_vertices i g₂ ≡ targets records (operands e)
    added i e g g₁ g₂ less none_yet a₁ a₂ =
        rw (map-append (index_of records) (pointee (get_lhs e)) (pointee (get_rhs e)))
          (ground (arith, a₂.1 i less, a₁.1 i less))

    -- The body of the second loop.
    add_operands-IsEdges :
        (done rest : List Expr) (e : Expr) (g : Graph)
        → records ≡ done ++ e ∷ rest
        → ((o : Expr) → In o (operands e) → In o records)
        → IsEdges done g
        → (g₁ : Graph) × (g₂ : Graph) × (add_operand lib records ids (length done) (get_lhs e) g
            ≡ ok g₁)
          × (add_operand lib records ids (length done) (get_rhs e) g₁ ≡ ok g₂)
          × IsEdges (done ++ e ∷ []) g₂
    add_operands-IsEdges done rest e g split known h =
        let size = length-append done (e ∷ rest) in
        let more = length-append done (e ∷ []) in
        let less : length done < length records = omega (arith, ap length split) in
        let (g₁, run₁, a₁) =
          add_operand-Adds (length done) (get_lhs e) g less h.vertices (λ o m.
            known o ((In-append o (pointee (get_lhs e)) (pointee (get_rhs e))).1 (inl m))) in
        let (g₂, run₂, a₂) =
          add_operand-Adds (length done) (get_rhs e) g₁ less (a₁.0 ∙ h.vertices) (λ o m.
            known o ((In-append o (pointee (get_lhs e)) (pointee (get_rhs e))).1 (inr m))) in
        (
          g₁,
          g₂,
          run₁,
          run₂,
          record {
            vertices = a₂.0 ∙ a₁.0 ∙ h.vertices;
            edges = λ v p at. elim (dec_lt v (length done)) [
              | yes old ↦
                  let at' = sym (get_elem?-append_left done (e ∷ []) v old) ∙ at in
                  ground (arith, a₂.1 v, a₁.1 v, h.edges v p at')
              | no late ↦
                  let here : v ≡ length done =
                    omega (arith, get_elem?-lt (done ++ e ∷ []) v at, more) in
                  let same : p ≡ e = cc (get_elem?-append_last done e, at, here) in
                  rw (here, same)
                    (added (length done) e g g₁ g₂ less (h.bare (length done) (omega arith) less) a₁
                      a₂)
            ];
            bare = λ v far near. ground (arith, a₂.1 v near, a₁.1 v near, h.bare v);
          },
        )

    add_edges-IsEdges :
        (rest done : List Expr) (g : Graph)
        → records ≡ done ++ rest
        → ((e o : Expr) → In e rest → In o (operands e) → In o records)
        → IsEdges done g
        → (g' : Graph) × (add_edges lib records ids (length done) rest g ≡ ok g')
          × IsEdges records g'
    unfolding add_edges
    add_edges-IsEdges [] done g split known h =
        (g, refl, subst (λ l. IsEdges l g) (sym (split ∙ append-nil done)) h)
    add_edges-IsEdges (e ∷ rest) done g split known h =
        let (g₁, g₂, lhs, rhs, h₂) =
          add_operands-IsEdges done rest e g split (λ o m. known e o (inl refl) m) h in
        let (g₃, run, h₃) =
          add_edges-IsEdges rest (done ++ e ∷ []) g₂ (split ∙ sym (append_assoc done (e ∷ []) rest))
            (λ e' o m. known e' o (inr m)) h₂ in
        let next : length (done ++ e ∷ []) ≡ suc (length done) =
          omega (arith, length-append done (e ∷ [])) in
        (g₃, rw (lhs, rhs) (rw next at run), h₃)

  -- The graph of the records: a vertex for each, in their order, with an edge to each operand.
  pub record IsGraphOf (records : List Expr) (g : Graph) : Type 0 where
    pub vertices : properties g ≡ map vertex_properties records
    pub edges :
        (v : ℕ) (p : Expr)
        → get_elem? records v ≡ some p
        → adjacent_vertices v g ≡ targets records (operands p)

  pub build_graph-IsGraphOf :
      (records : List Expr)
      → ((e : Expr) → In e records → is_complete e ≡ true)
      → OperandsFirst records
      → (g : Graph) × (build_graph lib records ≡ ok g) × IsGraphOf records g
  unfolding build_graph
  build_graph-IsGraphOf records all first =
      let r = add_vertices lib records [] empty in
      let v = add_vertices-IsVertices records [] [] empty (record {
        sized = refl;
        ids_at = λ i h. elim h [ ];
        vertices = lib.properties-empty;
        isolated = λ i h. elim h [ ];
      }) in
      let (g, run, h) =
        add_edges-IsEdges records all r.0 v.ids_at records [] r.1 refl (known-In records first)
          (record { vertices = v.vertices; edges = λ i p z. cc; bare = λ i _. v.isolated i }) in
      (g, run, record { vertices = h.vertices; edges = h.edges })
