-- ===== src/Tests/Serving.antt =====
-- A dispatcher with one problem, and a problem of one variable.
use distributed_task_dispatc.Prelude.{
  ℕ, ◌≡◌, ◌≢◌, refl, sym, ap, subst, inl, inr, false, List, [], ◌∷◌, ok, some, get_last?, lookup,
  assign, keys, Eq_nat,
}
use distributed_task_dispatc.Messages.{Task, TaskId}
use distributed_task_dispatc.Expr.{list}
use distributed_task_dispatc.Dispatch.{
  processing, completed, CalculationData, Dispatcher, new_calculation, send_problem,
  send_computable_tasks, update_computable_tasks,
}
use distributed_task_dispatc.Dispatch.Invariant.{IsConsistent}
use distributed_task_dispatc.Dispatch.Serving.{
  IsServing, IsCalculation, IsOutstanding, flags_after, send_computable_tasks-IsServing,
  update_computable_tasks-IsServing,
}
use distributed_task_dispatc.Dispatch.Leaf.{leaf_never_sent}
use distributed_task_dispatc.Tests.{list_graph, range_sort, range-Sorts, total_of_list}
use distributed_task_dispatc.Tests.Dispatching.{d, h, c, inv, sent, sent_status}

abbrev pub serving_one : CalculationData list_graph range_sort → Dispatcher list_graph range_sort
serving_one e = record { calculations = (0, e) ∷ []; sync = (0, false) ∷ []; next_problem_id = 1 }

pub one-IsServing :
    (e : CalculationData list_graph range_sort)
    → IsConsistent list_graph range_sort total_of_list d h e
    → IsServing list_graph range_sort (serving_one e)
one-IsServing e good = record {
  each = λ k f i. elim i [
    | inl q ↦
        subst (IsCalculation list_graph range_sort)
          (sym (ap (λ (p : ℕ × CalculationData list_graph range_sort). p.1) q))
          (record { root = total_of_list; d = d; made = h; inv = good })
    | inr z ↦ absurd z
  ];
  synced = λ k i. i;
}

send_computable_tasks-IsServing_example :
    (requests : List Task) × (s' : Dispatcher list_graph range_sort) × (send_computable_tasks
        list_graph range_sort
        (serving_one c)
      ≡ ok (requests, s'))
    × IsServing list_graph range_sort s'
    × (keys s'.calculations ≡ 0 ∷ [])
    × (s'.sync ≡ (0, false) ∷ [])
send_computable_tasks-IsServing_example =
    send_computable_tasks-IsServing list_graph range_sort (serving_one c) (one-IsServing c inv)

abbrev pub reply : TaskId
reply = record { problem_id = 0; task_id = 1 }

pub reply-IsOutstanding : IsOutstanding list_graph range_sort (serving_one sent.1) reply
unfolding lookup
reply-IsOutstanding = record { c = sent.1; found = refl; sent = sent_status }

update_computable_tasks-IsServing_example :
    (s' : Dispatcher list_graph range_sort) × (c' : CalculationData list_graph range_sort)
    × (last : ℕ) × (update_computable_tasks list_graph range_sort (serving_one sent.1) (some reply)
        ≡ ok s')
    × IsServing list_graph range_sort s'
    × (get_last? reply-IsOutstanding.c.decompositor.tasks ≡ some last)
    × (s'.calculations ≡ assign 0 c' ((0, sent.1) ∷ []))
    × (c'.processed_tasks_to_status
        ≡ assign 1 completed reply-IsOutstanding.c.processed_tasks_to_status)
    × (s'.sync ≡ flags_after list_graph range_sort (serving_one sent.1) reply last)
update_computable_tasks-IsServing_example =
    update_computable_tasks-IsServing list_graph range_sort (serving_one sent.1) reply
      (one-IsServing sent.1 sent.4) reply-IsOutstanding

leaf_never_sent_example :
    (e : CalculationData list_graph range_sort) × (new_calculation list_graph range_sort (list "L")
      ≡ ok e)
    × ((problem_id : ℕ) → send_problem list_graph range_sort problem_id e ≡ ok ([], e))
    × ((t : ℕ) → lookup t e.processed_tasks_to_status ≢ some processing)
leaf_never_sent_example =
    leaf_never_sent list_graph range_sort range-Sorts (list "L") "L" (inl refl)
