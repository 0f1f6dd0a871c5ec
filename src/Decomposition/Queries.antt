-- ===== src/Decomposition/Queries.antt =====
-- `GetComputableTasks` on the decompositor of a tree.
use distributed_task_dispatc.Prelude.{
  ℕ, ◌≡◌, refl, sym, ap, ◌∙◌, subst, ◌⊎◌, ◌↔◌, inl, inr, true, List, [], ◌∷◌, some, Result, arith,
  get_elem?, get_elem?-lt, get_elem?-some, In, In-map, In-map_inv, Distinct, Bool-cases, and₃_iff,
  not_iff, keys, In-entry, Eq_nat,
}
use distributed_task_dispatc.Expr.{Expr}
use distributed_task_dispatc.Expr.Traversal.{operands}
use distributed_task_dispatc.Dag.{index_of}
use distributed_task_dispatc.Dag.Library.{GraphLibrary}
use distributed_task_dispatc.Dag.Edges.{targets}
use distributed_task_dispatc.Decomposition.{
  TaskDecompositor, contains, all_of, is_computable, computable_tasks_loop, get_computable_tasks,
}
use distributed_task_dispatc.Decomposition.Order.{IsDecomposition, length-vertices}

pub contains_iff : (xs : List ℕ) (t : ℕ) → (contains xs t ≡ true) ↔ In t xs
unfolding contains
contains_iff [] t = (λ h. cc, λ m. absurd m)
contains_iff (x ∷ xs) t = ground (arith, contains_iff xs t)

-- Membership is decided.
pub In-cases : (t : ℕ) (xs : List ℕ) → In t xs ⊎ ¬ In t xs
In-cases t xs = elim (Bool-cases (contains xs t)) [
  | inl b ↦ inl ((contains_iff xs t).0 b)
  | inr b ↦ inr (λ i. cc ((contains_iff xs t).1 i))
]

pub all_of-contains_iff :
    (xs ts : List ℕ) → (all_of (contains xs) ts ≡ true) ↔ ((t : ℕ) → In t ts → In t xs)
unfolding all_of
all_of-contains_iff xs [] = (λ h t m. absurd m, λ h. refl)
all_of-contains_iff xs (t ∷ ts) = (
  λ h. λ u m. elim m [
    | inl e ↦ rw e ((contains_iff xs t).0 (ground arith))
    | inr m' ↦ (all_of-contains_iff xs ts).0 (ground arith) u m'
  ],
  λ h.
      rw
        ((contains_iff xs t).1 (h t (inl refl)), (all_of-contains_iff xs ts).1 (λ u m. h u (inr m)))
        refl,
)

module _ (lib : GraphLibrary) (sort : lib.Graph → Result (List ℕ)) where
  -- When a task may be sent: it is neither computed nor excluded, and all it depends on is computed.
  pub record IsComputable (d : TaskDecompositor lib sort) (computed excluded : List ℕ) (t : ℕ)
      : Type 0 where
    pub fresh : ¬ In t computed
    pub free : ¬ In t excluded
    pub ready : (v : ℕ) → In v (lib.adjacent_vertices t d.graph) → In v computed

  is_computable_iff :
      (d : TaskDecompositor lib sort) (computed excluded : List ℕ) (t : ℕ)
      → (is_computable lib sort d computed excluded t ≡ true) ↔ IsComputable d computed excluded t
  unfolding is_computable
  is_computable_iff d computed excluded t =
      let parts =
        and₃_iff _ _ _ (not_iff _ (contains_iff computed t)) (not_iff _ (contains_iff excluded t))
          (all_of-contains_iff computed (lib.adjacent_vertices t d.graph)) in
      (
        λ h.
            let (fresh, free, ready) = parts.0 h in
            record { fresh = fresh; free = free; ready = ready },
        λ c. parts.1 (c.fresh, c.free, c.ready),
      )

  computable_tasks_loop_iff :
      (d : TaskDecompositor lib sort) (computed excluded tasks : List ℕ) (t : ℕ) (deps : List ℕ)
      → In (t, deps) (computable_tasks_loop lib sort d computed excluded tasks) ↔ (
          In t tasks
          × IsComputable d computed excluded t
          × (deps ≡ lib.adjacent_vertices t d.graph))
  unfolding computable_tasks_loop
  computable_tasks_loop_iff d computed excluded [] t deps = (λ m. absurd m, λ h. h.0)
  computable_tasks_loop_iff d computed excluded (x ∷ tasks) t deps =
      let ih = computable_tasks_loop_iff d computed excluded tasks t deps in
      let test = is_computable_iff d computed excluded x in
      elim (Bool-cases (is_computable lib sort d computed excluded x)) [
        | inl h ↦ rw h (
          λ m. elim m [
            | inl e ↦
                let first : t ≡ x = ap (λ (p : ℕ × List ℕ). p.0) e in
                let second : deps ≡ lib.adjacent_vertices x d.graph =
                  ap (λ (p : ℕ × List ℕ). p.1) e in
                (
                  inl first,
                  subst (IsComputable d computed excluded) (sym first) (test.0 h),
                  rw first second,
                )
            | inr m' ↦ let (i, c, e) = ih.0 m' in (inr i, c, e)
          ],
          λ (i, c, e). elim i [
            | inl q ↦ inl (rw (q, e) (rw q refl))
            | inr i' ↦ inr (ih.1 (i', c, e))
          ],
        )
        | inr h ↦ rw h (
          λ m. let (i, c, e) = ih.0 m in (inr i, c, e),
          λ (i, c, e). elim i [
            | inl q ↦ absurd (cc (test.1 (subst (IsComputable d computed excluded) q c)))
            | inr i' ↦ ih.1 (i', c, e)
          ],
        )
      ]

  pub get_computable_tasks_iff :
      (d : TaskDecompositor lib sort) (computed excluded : List ℕ) (t : ℕ) (deps : List ℕ)
      → In (t, deps) (get_computable_tasks lib sort d computed excluded) ↔ (
          In t d.tasks
          × IsComputable d computed excluded t
          × (deps ≡ lib.adjacent_vertices t d.graph))
  unfolding get_computable_tasks
  get_computable_tasks_iff d computed excluded t deps =
      computable_tasks_loop_iff d computed excluded d.tasks t deps

  loop-Distinct :
      (d : TaskDecompositor lib sort) (computed excluded tasks : List ℕ)
      → Distinct tasks
      → Distinct (keys (computable_tasks_loop lib sort d computed excluded tasks))
  unfolding computable_tasks_loop
  loop-Distinct d computed excluded [] h = tt
  loop-Distinct d computed excluded (x ∷ tasks) h =
      elim (Bool-cases (is_computable lib sort d computed excluded x)) [
        | inl b ↦ rw b (
          λ i.
              let (deps, j) =
                In-entry x (computable_tasks_loop lib sort d computed excluded tasks) i in
              h.0 ((computable_tasks_loop_iff d computed excluded tasks x deps).0 j).0,
          loop-Distinct d computed excluded tasks h.1,
        )
        | inr b ↦ rw b (loop-Distinct d computed excluded tasks h.1)
      ]

  pub get_computable_tasks-Distinct :
      (d : TaskDecompositor lib sort) (computed excluded : List ℕ)
      → Distinct d.tasks
      → Distinct (keys (get_computable_tasks lib sort d computed excluded))
  unfolding get_computable_tasks
  get_computable_tasks-Distinct d computed excluded h = loop-Distinct d computed excluded d.tasks h

  -- `GetComputableTasks` on the decompositor of a tree, for all sets: an entry is returned exactly
  -- if its task is an expression of the tree that is neither computed nor excluded, each of its
  -- operands is computed, and the entry lists the operands in order.
  pub computable_tasks_exact :
      (root : Expr) (d : TaskDecompositor lib sort) (h : IsDecomposition lib sort root d)
      (computed excluded : List ℕ) (t : ℕ) (deps : List ℕ)
      → In (t, deps) (get_computable_tasks lib sort d computed excluded) ↔ (
          (p : Expr) × (get_elem? h.records t ≡ some p)
          × (¬ In t computed)
          × (¬ In t excluded)
          × ((o : Expr) → In o (operands p) → In (index_of h.records o) computed)
          × (deps ≡ targets lib h.records (operands p)))
  unfolding get_computable_tasks
  computable_tasks_exact root d h computed excluded t deps =
      let both = computable_tasks_loop_iff d computed excluded d.tasks t deps in
      let size = length-vertices lib h.records d.graph h.graph_of in
      (
        λ m.
            let (i, c, e) = both.0 m in
            let (p, at) = get_elem?-some h.records t (omega (arith, (h.order.exact t).0 i)) in
            let adj = h.graph_of.edges t p at in
            (
              p,
              at,
              c.fresh,
              c.free,
              λ o k. c.ready (index_of h.records o) (
                  subst (In (index_of h.records o)) (sym adj)
                    (In-map (index_of h.records) o (operands p) k)),
              e ∙ adj,
            ),
        λ (p, at, fresh, free, ready, e).
            let adj = h.graph_of.edges t p at in
            both.1 (
              (h.order.exact t).1 (omega (arith, get_elem?-lt h.records t at)),
              record {
                fresh = fresh;
                free = free;
                ready = λ v k.
                    let (o, i, q) =
                      In-map_inv (index_of h.records) v (operands p) (subst (In v) adj k) in
                    subst (λ w. In w computed) (sym q) (ready o i);
              },
              e ∙ sym adj,
            ),
      )
