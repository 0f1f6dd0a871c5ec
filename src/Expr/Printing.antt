-- ===== src/Expr/Printing.antt =====
-- manager/src/decomposition/expression_visitors.cpp, dag_visitor.cpp and decomposition.cpp: what they
-- print. A stream is the text written to it so far.
use Prim.Native.String.{◌++◌}
use distributed_task_dispatc.Prelude.{List, [], ◌∷◌, String}
use distributed_task_dispatc.Domain.{enum_name}
use distributed_task_dispatc.Expr.{Expr, Pointer, nullptr, ptr, get_type, get_lhs, get_rhs}

-- `PrintVisitor::Visit`.
unfoldable pub print_visit : String → Expr → String
print_visit output e = output ++ (enum_name (get_type e) ++ "\n")

-- `DagVisitor::PrintRecords`.
unfoldable pub print_operand : Pointer → String
print_operand nullptr = "\tnil"
print_operand (ptr e) = "\t" ++ enum_name (get_type e)

unfoldable pub print_records : String → List Expr → String
unfolding print_operand
print_records output [] = output
print_records output (e ∷ records) =
    print_records
      (output
        ++ (enum_name (get_type e)
            ++ (print_operand (get_lhs e) ++ (print_operand (get_rhs e) ++ "\n"))))
      records
