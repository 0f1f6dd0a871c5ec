-- ===== src/Tests.antt =====
-- The parameters of the development at concrete values: a graph library on lists, a sort, and the
-- expression `Sum(L) + x`.
pub mod Trees
pub mod Dispatching
pub mod Serving
pub mod Brokering
pub mod Values
pub mod Storing
pub mod Pooling
pub mod Requests
pub mod Calculating
use distributed_task_dispatc.Prelude.{
  ℕ, zero, suc, ◌<◌, ◌≡◌, refl, sym, ap, subst, ◌↔◌, inl, inr, true, false, List, [], ◌∷◌, ◌++◌,
  Result, ok, arith, length, ℕ_discrete, In, In-append, Distinct, Distinct-append_last, Before,
  ◌==◌, ==_iff, if◌then◌else◌,
}
use distributed_task_dispatc.Expr.{
  Expr, ptr, reduce, scalar_op, list, scalar_var, scalar_const, ReduceType, ScalarOpType,
}
use distributed_task_dispatc.Dag.Library.{GraphLibrary, VertexProperties}
use distributed_task_dispatc.Decomposition.Order.{IsOrder, EdgesDescend, Sorts}

pub record ListGraph : Type 0 where
  pub vertices : List VertexProperties
  pub out_edges : ℕ → List ℕ

pub if_below : (v n : ℕ) (xs ys : List ℕ) → v < n → (if v == n then xs else ys) ≡ ys
if_below v n xs ys less = ground (arith, ==_iff v n)

pub if_self : (n : ℕ) (xs ys : List ℕ) → (if n == n then xs else ys) ≡ xs
if_self n xs ys = rw ((==_iff n n).1 refl) refl

abbrev pub list_graph : GraphLibrary
list_graph = record {
  Graph = ListGraph;
  empty = record { vertices = []; out_edges = λ v. [] };
  add_vertex = λ p g. (
    length g.vertices,
    record {
      vertices = g.vertices ++ p ∷ [];
      out_edges = λ w. if w == length g.vertices then [] else g.out_edges w;
    },
  );
  add_edge = λ u v g. record g {
    out_edges = λ w. if w == u then g.out_edges w ++ v ∷ [] else g.out_edges w;
  };
  properties = λ g. g.vertices;
  adjacent_vertices = λ v g. g.out_edges v;
  properties-empty = refl;
  add_vertex_descriptor = λ p g. refl;
  properties-add_vertex = λ p g. refl;
  adjacent_vertices-add_vertex = λ p g v less. if_below v (length g.vertices) _ _ less;
  adjacent_vertices-new = λ p g. if_self (length g.vertices) _ _;
  properties-add_edge = λ u v g h k. refl;
  adjacent_vertices-add_edge = λ u v w g h k l. refl;
}

-- 0, …, n - 1.
unfoldable pub up_to : ℕ → List ℕ
up_to zero = []
up_to (suc n) = up_to n ++ n ∷ []

up_to_iff : (n v : ℕ) → In v (up_to n) ↔ (v < n)
unfolding up_to
up_to_iff zero v = (λ i. absurd i, λ less. absurd (omega arith))
up_to_iff (suc n) v = ground (arith, up_to_iff n v, In-append v (up_to n) (n ∷ []))

up_to-Distinct : (n : ℕ) → Distinct (up_to n)
unfolding up_to
up_to-Distinct zero = tt
up_to-Distinct (suc n) =
    Distinct-append_last (up_to n) n (up_to-Distinct n)
      (λ i. absurd (omega (arith, (up_to_iff n n).0 i)))

Before-append_last : (xs : List ℕ) (v u : ℕ) → In v xs → Before v u (xs ++ u ∷ [])
Before-append_last [] v u i = absurd i
Before-append_last (x ∷ xs) v u (inl e) = inl (e, (In-append u xs (u ∷ [])).1 (inr (inl refl)))
Before-append_last (x ∷ xs) v u (inr i) = inr (Before-append_last xs v u i)

Before-append : (xs ys : List ℕ) (v u : ℕ) → Before v u xs → Before v u (xs ++ ys)
Before-append [] ys v u b = absurd b
Before-append (x ∷ xs) ys v u (inl b) = inl (b.0, (In-append u xs ys).1 (inl b.1))
Before-append (x ∷ xs) ys v u (inr b) = inr (Before-append xs ys v u b)

up_to-Before : (n v u : ℕ) → v < u → u < n → Before v u (up_to n)
unfolding up_to
up_to-Before zero v u less below = absurd (omega arith)
up_to-Before (suc n) v u less below = elim (ℕ_discrete u n) [
  | yes e ↦
      subst (λ k. Before v k (up_to n ++ n ∷ [])) (sym e)
        (Before-append_last (up_to n) v n ((up_to_iff n v).1 (omega arith)))
  | no ne ↦ Before-append (up_to n) (n ∷ []) v u (up_to-Before n v u less (ground arith))
]

-- The vertices in the order of insertion.
abbrev pub range_sort : ListGraph → Result (List ℕ)
range_sort g = ok (up_to (length g.vertices))

pub range-Sorts : Sorts list_graph range_sort
range-Sorts g descend = (
  up_to (length g.vertices),
  refl,
  record {
    distinct = up_to-Distinct (length g.vertices);
    exact = λ v. up_to_iff (length g.vertices) v;
    before = λ u v less i. up_to-Before (length g.vertices) v u (descend u v less i) less;
  },
)

abbrev pub total_of_list : Expr
total_of_list = reduce ReduceType.sum (ptr (list "L"))

-- `Sum(L) + x`.
abbrev pub tree : Expr
tree = scalar_op ScalarOpType.add (ptr total_of_list) (ptr (scalar_var "x"))
