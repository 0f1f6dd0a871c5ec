-- ===== src/Tests/Trees.antt =====
-- The expression, its numbering, its graph and its decompositor.
use distributed_task_dispatc.Prelude.{
  ℕ, suc, ◌≡◌, refl, ap, ◌↔◌, inl, inr, true, false, List, [], ◌∷◌, ok, err, some, get_elem?,
  bad_deref, In, if◌then◌else◌,
}
use mathlib.Core.List.{foldl}
use distributed_task_dispatc.Domain.{VariableId}
use distributed_task_dispatc.Expr.{
  Expr, nullptr, reduce, ReduceType, ptr, scalar_op, list, ScalarOpType, expr_eq,
  postorder_traverse,
}
use distributed_task_dispatc.Expr.Equality.{equals, equals_iff}
use distributed_task_dispatc.Expr.Traversal.{traverse-postorder, postorder, operands, is_complete}
use distributed_task_dispatc.Dag.{find_index, visit, index_of}
use distributed_task_dispatc.Dag.Records.{IsNumbering, traverse-IsNumbering}
use distributed_task_dispatc.Dag.Edges.{targets}
use distributed_task_dispatc.Decomposition.{
  TaskDecompositor, new, get_independent_tasks, get_computable_tasks,
}
use distributed_task_dispatc.Decomposition.Order.{IsDecomposition, new-IsDecomposition}
use distributed_task_dispatc.Decomposition.Queries.{computable_tasks_exact}
use distributed_task_dispatc.Decomposition.Independent.{
  variable_of, is_constant, independent_tasks_exact,
}
use distributed_task_dispatc.Tests.{list_graph, range_sort, range-Sorts, tree, total_of_list}

equals_iff_example :
    (equals tree total_of_list ≡ ok (expr_eq tree total_of_list))
    × ((expr_eq tree total_of_list ≡ true) ↔ (tree ≡ total_of_list))
equals_iff_example = equals_iff tree total_of_list refl refl

-- Two sums of nothing: the comparison dereferences a null pointer.
null_test : equals (reduce ReduceType.sum nullptr) (reduce ReduceType.sum nullptr) ≡ err bad_deref
unfolding equals
null_test = refl

-- A sum and a product of nothing differ in their type, and no operand is looked at.
type_test : equals (reduce ReduceType.sum nullptr) (reduce ReduceType.mul nullptr) ≡ ok false
unfolding equals
type_test = refl

abbrev count_nodes : ℕ → Expr → ℕ
count_nodes n e = suc n

traverse-postorder_example :
    postorder_traverse count_nodes tree 0
    ≡ (if is_complete tree then ok (foldl count_nodes 0 (postorder tree)) else err bad_deref)
traverse-postorder_example = traverse-postorder count_nodes tree 0

count_test : postorder_traverse count_nodes tree 0 ≡ ok 4
unfolding postorder_traverse
count_test = refl

-- `Sum(L) * Sum(L)`, in which the operands are one value.
abbrev square : Expr
square = scalar_op ScalarOpType.mul (ptr total_of_list) (ptr total_of_list)

traverse-IsNumbering_example :
    (records : List Expr) × (postorder_traverse visit square [] ≡ ok records)
    × IsNumbering square records
traverse-IsNumbering_example = traverse-IsNumbering square refl

-- Three records, of five nodes.
square_test : postorder_traverse visit square [] ≡ ok (list "L" ∷ total_of_list ∷ square ∷ [])
unfolding postorder_traverse visit expr_eq find_index
square_test = refl

new-IsDecomposition_example :
    (d : TaskDecompositor list_graph range_sort) × (new list_graph range_sort tree ≡ ok d)
    × IsDecomposition list_graph range_sort tree d
new-IsDecomposition_example = new-IsDecomposition list_graph range_sort range-Sorts tree refl

made :
    (d : TaskDecompositor list_graph range_sort) × (new list_graph range_sort tree ≡ ok d)
    × IsDecomposition list_graph range_sort tree d
made = new-IsDecomposition list_graph range_sort range-Sorts tree refl

computable_tasks_exact_example :
    In {A = ℕ × List ℕ}
      (1, 0 ∷ [])
      (get_computable_tasks list_graph range_sort made.0 (0 ∷ 2 ∷ []) [])
    ↔ ((p : Expr) × (get_elem? made.2.records 1 ≡ some p)
        × (¬ In {A = ℕ} 1 (0 ∷ 2 ∷ []))
        × (¬ In {A = ℕ} 1 [])
        × ((o : Expr) → In o (operands p) → In (index_of made.2.records o) (0 ∷ 2 ∷ []))
        × (0 ∷ [] ≡ targets list_graph made.2.records (operands p)))
computable_tasks_exact_example =
    computable_tasks_exact list_graph range_sort tree made.0 made.2 (0 ∷ 2 ∷ []) [] 1 (0 ∷ [])

plain : (e : Expr) → In e (postorder tree) → is_constant e ≡ false
plain e (inl q) = ap is_constant q
plain e (inr (inl q)) = ap is_constant q
plain e (inr (inr (inl q))) = ap is_constant q
plain e (inr (inr (inr (inl q)))) = ap is_constant q
plain e (inr (inr (inr (inr i)))) = absurd i

independent_tasks_exact_example :
    (entries : List (ℕ × VariableId)) × (get_independent_tasks list_graph range_sort made.0
      ≡ ok entries)
    × ((t : ℕ) (id : VariableId)
        → In (t, id) entries
          ↔ ((e : Expr) × (get_elem? made.2.records t ≡ some e) × In id (variable_of e)))
independent_tasks_exact_example =
    independent_tasks_exact list_graph range_sort tree made.0 made.2 plain
