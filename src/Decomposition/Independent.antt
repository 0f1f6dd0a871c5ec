-- ===== src/Decomposition/Independent.antt =====
-- `GetIndependentTasks`: the leaves that name a variable, and what a constant leaf does.
use distributed_task_dispatc.Prelude.{
  ℕ, ◌≡◌, refl, sym, ap, ◌∙◌, subst, ◌↔◌, inl, inr, Bool, true, false, List, [], ◌∷◌, ◌++◌, map,
  some, Result, ok, err, bad_variant_access, arith, get_elem?, get_elem?-lt, get_elem?-some,
  get_elem?-In, In-get_elem?, In, In-append, In-map, In-map_inv, get_elem?-map, ◌>>=◌,
  if◌then◌else◌, Bool-cases,
}
use distributed_task_dispatc.Domain.{VariableId, Scalar}
use distributed_task_dispatc.Expr.{Expr, list, scalar_const, scalar_var, get_type, get_data}
use distributed_task_dispatc.Expr.Traversal.{postorder}
use distributed_task_dispatc.Dag.{vertex_properties}
use distributed_task_dispatc.Dag.Library.{GraphLibrary}
use distributed_task_dispatc.Decomposition.{
  TaskDecompositor, get_variable_id, is_independent, properties_of, independent_tasks_loop,
  get_independent_tasks,
}
use distributed_task_dispatc.Decomposition.Order.{IsDecomposition, length-vertices}

-- The variable that a leaf reads.
abbrev pub variable_of : Expr → List VariableId
variable_of (list l) = l ∷ []
variable_of (scalar_var x) = x ∷ []
variable_of _ = []

abbrev pub is_constant : Expr → Bool
is_constant (scalar_const x) = true
is_constant _ = false

abbrev keyed : ℕ → List VariableId → List (ℕ × VariableId)
keyed t = map (λ id. (t, id))

entry_lem :
    (t : ℕ) (e : Expr)
    → (if is_independent (get_type e)
        then (get_variable_id (get_data e) >>= λ id. ok ((t, id) ∷ []))
        else ok [])
      ≡ (if is_constant e then err bad_variant_access else ok (keyed t (variable_of e)))
unfolding is_independent get_type get_variable_id get_data
entry_lem t e = ground arith

module _ (lib : GraphLibrary) (sort : lib.Graph → Result (List ℕ)) (root : Expr)
    (d : TaskDecompositor lib sort) (h : IsDecomposition lib sort root d) where
  -- The entries of the expressions at the tasks.
  abbrev Entries : List ℕ → Type 0
  Entries tasks =
      (entries : List (ℕ × VariableId)) × (independent_tasks_loop lib sort d tasks ≡ ok entries)
      × ((t : ℕ) (id : VariableId)
          → In (t, id) entries
            ↔ ((e : Expr) × In t tasks × (get_elem? h.records t ≡ some e) × In id (variable_of e)))

  properties_lem :
      (t : ℕ) (e : Expr)
      → get_elem? h.records t ≡ some e
      → properties_of lib sort d t ≡ ok (vertex_properties e)
  properties_lem t e at =
      rw (h.graph_of.vertices, get_elem?-map vertex_properties h.records t at) refl

  loop_lem :
      (t : ℕ) (tasks : List ℕ) (e : Expr)
      → get_elem? h.records t ≡ some e
      → independent_tasks_loop lib sort d (t ∷ tasks) ≡ (
          (if is_constant e then err bad_variant_access else ok (keyed t (variable_of e)))
          >>= λ entries. independent_tasks_loop lib sort d tasks >>= λ rest. ok (entries ++ rest))
  unfolding independent_tasks_loop
  loop_lem t tasks e at = rw (properties_lem t e at, entry_lem t e) refl

  abbrev HaveRecords : List ℕ → Type 0
  HaveRecords tasks = (t : ℕ) → In t tasks → (e : Expr) × (get_elem? h.records t ≡ some e)

  loop-constant :
      (tasks : List ℕ) (t : ℕ) (e : Expr)
      → HaveRecords tasks
      → In t tasks
      → get_elem? h.records t ≡ some e
      → is_constant e ≡ true
      → independent_tasks_loop lib sort d tasks ≡ err bad_variant_access
  loop-constant [] t e all m at c = absurd m
  loop-constant (x ∷ tasks) t e all (inl q) at c =
      loop_lem x tasks e (subst (λ k. get_elem? h.records k ≡ some e) q at) ∙ rw c refl
  loop-constant (x ∷ tasks) t e all (inr m) at c =
      let (f, there) = all x (inl refl) in
      let ih = loop-constant tasks t e (λ k i. all k (inr i)) m at c in
      loop_lem x tasks f there
      ∙ elim (Bool-cases (is_constant f)) [ inl b ↦ rw b refl | inr b ↦ rw (b, ih) refl ]

  loop-Entries :
      (tasks : List ℕ)
      → HaveRecords tasks
      → ((t : ℕ) (e : Expr) → In t tasks → get_elem? h.records t ≡ some e → is_constant e ≡ false)
      → Entries tasks
  unfolding independent_tasks_loop
  loop-Entries [] all plain = ([], refl, λ t id. (λ m. absurd m, λ w. absurd w.1))
  loop-Entries (x ∷ tasks) all plain =
      let (f, there) = all x (inl refl) in
      let (rest, run, exact) =
        loop-Entries tasks (λ k i. all k (inr i)) (λ t e i. plain t e (inr i)) in
      (
        keyed x (variable_of f) ++ rest,
        loop_lem x tasks f there ∙ rw (plain x f (inl refl) there, run) refl,
        λ t id. (
          λ m. elim ((In-append (t, id) (keyed x (variable_of f)) rest).0 m) [
            | inl i ↦
                let (v, j, q) = In-map_inv (λ (v : VariableId). (x, v)) (t, id) (variable_of f) i in
                let same : t ≡ x = ap (λ (p : ℕ × VariableId). p.0) q in
                let name : id ≡ v = ap (λ (p : ℕ × VariableId). p.1) q in
                (f, inl same, rw same there, rw name j)
            | inr i ↦ let (e, k, at, j) = (exact t id).0 i in (e, inr k, at, j)
          ],
          λ (e, k, at, j). (In-append (t, id) (keyed x (variable_of f)) rest).1 (elim k [
            | inl q ↦
                let same : e ≡ f = cc (at, there, q) in
                inl (
                  subst (λ w. In (w, id) (keyed x (variable_of f))) (sym q)
                    (In-map (λ (v : VariableId). (x, v)) id (variable_of f)
                      (subst (λ z. In id (variable_of z)) same j)))
            | inr k' ↦ inr ((exact t id).1 (e, k', at, j))
          ]),
        ),
      )

  all_records : HaveRecords d.tasks
  all_records t m =
      get_elem?-some h.records t
        (omega (arith, (h.order.exact t).0 m, length-vertices lib h.records d.graph h.graph_of))

  task_of :
      (e : Expr) → In e (postorder root) → (t : ℕ) × In t d.tasks × (get_elem? h.records t ≡ some e)
  task_of e m =
      let (t, at) = get_elem?-In h.records ((h.numbering.exact e).1 m) in
      let near = get_elem?-lt h.records t at in
      (t, (h.order.exact t).1 (omega (arith, length-vertices lib h.records d.graph h.graph_of)), at)

  -- On the decompositor of a tree without constants, `GetIndependentTasks` throws nothing, and its
  -- entries are exactly the tasks of the tree's lists and scalar variables, each with the name of
  -- its variable.
  pub independent_tasks_exact :
      ((e : Expr) → In e (postorder root) → is_constant e ≡ false)
      → (entries : List (ℕ × VariableId)) × (get_independent_tasks lib sort d ≡ ok entries)
        × ((t : ℕ) (id : VariableId)
            → In (t, id) entries
              ↔ ((e : Expr) × (get_elem? h.records t ≡ some e) × In id (variable_of e)))
  unfolding get_independent_tasks
  independent_tasks_exact plain =
      let (entries, run, exact) =
        loop-Entries d.tasks all_records
          λ t e m at. plain e ((h.numbering.exact e).0 (In-get_elem? h.records t at)) in
      (
        entries,
        run,
        λ t id. (
          λ m. let (e, _, at, j) = (exact t id).0 m in (e, at, j),
          λ (e, at, j).
              let near = get_elem?-lt h.records t at in
              let listed =
                (h.order.exact t).1
                  (omega (arith, length-vertices lib h.records d.graph h.graph_of)) in
              (exact t id).1 (e, listed, at, j),
        ),
      )

  -- On the decompositor of a tree with a constant anywhere, `GetIndependentTasks` throws: it takes
  -- the data of a constant for the name of a variable.
  pub independent_tasks-constant :
      (x : Scalar)
      → In (scalar_const x) (postorder root)
      → get_independent_tasks lib sort d ≡ err bad_variant_access
  unfolding get_independent_tasks
  independent_tasks-constant x m =
      let (t, listed, at) = task_of (scalar_const x) m in
      loop-constant d.tasks t (scalar_const x) all_records listed at refl
