-- ===== src/Cluster/Again.antt =====
-- A request or a reply that is under way may be so twice.
use distributed_task_dispatc.Prelude.{ℕ, sym, subst, inl, inr, List, ◌∷◌, Result, In}
use distributed_task_dispatc.Domain.{ExprResult, VariableId}
use distributed_task_dispatc.Domain.Arith.{Reducer}
use distributed_task_dispatc.Expr.{Expr}
use distributed_task_dispatc.Dag.Library.{GraphLibrary}
use distributed_task_dispatc.Decomposition.{TaskDecompositor}
use distributed_task_dispatc.Decomposition.Order.{IsDecomposition}
use distributed_task_dispatc.Messages.{TaskId, Task}
use distributed_task_dispatc.System.{System}
use distributed_task_dispatc.System.Coherent.{IsCoherent, IsOpen, IsAnswer}

module _ (lib : GraphLibrary) (sort : lib.Graph → Result (List ℕ)) (root : Expr)
    (d : TaskDecompositor lib sort) (h : IsDecomposition lib sort root d) (r : Reducer)
    (read : VariableId → Result ExprResult) (problem_id : ℕ) where
  -- A request or a reply that is under way may be so twice.
  pub again_request :
      (σ : System lib sort) (t : Task)
      → In t σ.sent
      → IsCoherent lib sort root d h r read problem_id σ
      → IsCoherent lib sort root d h r read problem_id (record σ { sent = t ∷ σ.sent })
  again_request σ t i good = record {
    inv = good.inv;
    variables = good.variables;
    static_data = good.static_data;
    requests = λ request j. elim j [
      | inl e ↦
          subst (IsOpen lib sort root d h r read problem_id σ.entry) (sym e) (good.requests t i)
      | inr k ↦ good.requests request k
    ];
    answers = good.answers;
    values = good.values;
    stored = good.stored;
    under_way = λ u q. elim (good.under_way u q) [
      | inl (request, j, same) ↦ inl (request, inr j, same)
      | inr j ↦ inr j
    ];
  }

  pub again_answer :
      (σ : System lib sort) (id : TaskId)
      → In id σ.answered
      → IsCoherent lib sort root d h r read problem_id σ
      → IsCoherent lib sort root d h r read problem_id (record σ { answered = id ∷ σ.answered })
  again_answer σ id i good = record {
    inv = good.inv;
    variables = good.variables;
    static_data = good.static_data;
    requests = good.requests;
    answers = λ id' j. elim j [
      | inl e ↦
          subst (IsAnswer lib sort root d h r read problem_id σ.entry σ.store) (sym e)
            (good.answers id i)
      | inr k ↦ good.answers id' k
    ];
    values = good.values;
    stored = good.stored;
    under_way = λ u q. elim (good.under_way u q) [ inl z ↦ inl z | inr j ↦ inr (inr j) ];
  }
