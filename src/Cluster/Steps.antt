-- ===== src/Cluster/Steps.antt =====
-- Every step of the cluster is explained by the problem's own requests and replies.
use distributed_task_dispatc.Prelude.{
  ℕ, ap, ◌≤◌, ◌^◌, ◌≡◌, refl, inl, inr, true, false, List, [], ◌∷◌, ◌++◌, Result, length,
  All-append, In,
}
use distributed_task_dispatc.Domain.{ExprResult, VariableId}
use distributed_task_dispatc.Domain.Arith.{Reducer}
use distributed_task_dispatc.Expr.{Expr}
use distributed_task_dispatc.Expr.Traversal.{postorder, is_complete}
use distributed_task_dispatc.Dag.Library.{GraphLibrary}
use distributed_task_dispatc.Decomposition.{TaskDecompositor}
use distributed_task_dispatc.Decomposition.Order.{IsDecomposition}
use distributed_task_dispatc.Decomposition.Independent.{is_constant}
use distributed_task_dispatc.Messages.{uint32, TaskId}
use distributed_task_dispatc.System.{System}
use distributed_task_dispatc.System as Calculation
use distributed_task_dispatc.Cluster.{Cluster, Step, Elsewhere, Run, IsOther}
use distributed_task_dispatc.Cluster.Flight.{
  receive_manager_request-Passed, receive_response-Passed, receive_ack-Passed,
}
use distributed_task_dispatc.Cluster.Nodes.{
  hear-HoldsNode, lose-HoldsNode, take-HoldsNode, respond-HoldsNode,
}
use distributed_task_dispatc.Cluster.Holds.{
  Holds-broadcast, Holds-node, Holds-join, Holds-route, Holds-settle, Holds-reply,
}
use distributed_task_dispatc.Cluster.Again.{again_answer}
use distributed_task_dispatc.Cluster.Explained.{
  IsExplained, Asked, Replied, view, one_step, one_elsewhere, quiet, sent-Holds, refused-Holds,
  finish-IsExplained,
}

module _ (lib : GraphLibrary) (sort : lib.Graph → Result (List ℕ)) (root : Expr)
    (d : TaskDecompositor lib sort) (h : IsDecomposition lib sort root d) (r : Reducer)
    (read : VariableId → Result ExprResult) (problem_id : ℕ) (complete : is_complete root ≡ true)
    (plain : (e : Expr) → In e (postorder root) → is_constant e ≡ false)
    (small : length h.records ≤ 2 ^ 32) (F : TaskId → Type 0)
    (apart : (id : TaskId) → F id → IsOther problem_id id) where
  pub step-IsExplained :
      (κ μ : Cluster lib sort)
      → Step lib sort r problem_id κ μ
      → IsExplained lib sort root d h r read problem_id complete plain small F apart κ
      → IsExplained lib sort root d h r read problem_id complete plain small F apart μ
  step-IsExplained κ μ (Step.send {requests = requests} {c = c} left run) x = record {
    sent = x.sent ++ requests;
    answered = x.answered;
    coherent =
        one_step lib sort root d h r read problem_id complete plain small F apart
          (view lib sort root d h r read problem_id complete plain small F apart κ x.sent
            x.answered)
          _ (Calculation.Step.send left run) x.coherent;
    holds =
        sent-Holds lib sort root d h r read problem_id complete plain small F apart κ x.sent
          requests x.answered c x.holds;
  }
  step-IsExplained κ μ (Step.route {b = b} {sent = sent} {t = t} {rest = rest} e run) x =
      let P = Asked F x.sent in
      let Q = Replied F x.answered in
      let (p, holds) = Holds-route lib sort P Q κ t rest e x.holds in
      quiet lib sort root d h r read problem_id complete plain small F apart κ μ x refl refl (
        Holds-broadcast lib sort P Q (record κ { requests = rest }) b sent holds
          (receive_manager_request-Passed P Q κ.broker b t sent x.holds.queue p run))
  step-IsExplained κ μ (Step.hear pre post n {t = t} {rest = rest} e e') x =
      let P = Asked F x.sent in
      let Q = Replied F x.answered in
      let (at, put) = Holds-node lib sort P Q κ pre post n e x.holds in
      quiet lib sort root d h r read problem_id complete plain small F apart κ μ x refl refl
        (put _ (hear-HoldsNode P Q n t rest e' at))
  step-IsExplained κ μ (Step.take pre post n e busy free) x =
      let P = Asked F x.sent in
      let Q = Replied F x.answered in
      let (at, put) = Holds-node lib sort P Q κ pre post n e x.holds in
      quiet lib sort root d h r read problem_id complete plain small F apart κ μ x refl refl
        (put _ (take-HoldsNode P Q n at))
  step-IsExplained κ μ (Step.finish pre post n i {s = s} {w = w} e less run) x =
      finish-IsExplained lib sort root d h r read problem_id complete plain small F apart κ pre post
        n i s w e less run x
  step-IsExplained κ μ (Step.respond pre post n {w = w} {response = response} e run) x =
      let P = Asked F x.sent in
      let Q = Replied F x.answered in
      let (at, put) = Holds-node lib sort P Q κ pre post n e x.holds in
      let (q, kept) = respond-HoldsNode P Q n w response run at in
      let holds = put _ kept in
      quiet lib sort root d h r read problem_id complete plain small F apart κ μ x refl refl
        (record {
          requests = holds.requests;
          queue = holds.queue;
          nodes = holds.nodes;
          responses = (q, holds.responses);
          replies = holds.replies;
        })
  step-IsExplained κ μ (Step.settle pre post {b = b} {sent = sent} identity response e run) x =
      let P = Asked F x.sent in
      let Q = Replied F x.answered in
      let (q, holds) = Holds-settle lib sort P Q κ pre post identity response e x.holds in
      quiet lib sort root d h r read problem_id complete plain small F apart κ μ x refl refl (
        Holds-broadcast lib sort P Q (record κ { responses = pre ++ post }) b sent holds
          (receive_response-Passed P Q κ.broker b identity response sent x.holds.queue q run))
  step-IsExplained κ μ (Step.reply {id = id} {rest = rest} {c = c} e own run) x =
      let P = Asked F x.sent in
      let Q = Replied F x.answered in
      let (q, holds) = Holds-reply lib sort P Q κ id rest e x.holds in
      let i : In id x.answered = elim q [
        | inl j ↦ j
        | inr f ↦ absurd (apart id f (ap uint32 own))
      ] in
      let again =
        again_answer lib sort root d h r read problem_id
          (view lib sort root d h r read problem_id complete plain small F apart κ x.sent
            x.answered)
          id i x.coherent in
      record {
        sent = x.sent;
        answered = x.answered;
        coherent =
            one_step lib sort root d h r read problem_id complete plain small F apart
              (view lib sort root d h r read problem_id complete plain small F apart κ x.sent
                (id ∷ x.answered))
              _ (Calculation.Step.reply [] x.answered id refl own run) again;
        holds = record {
          requests = holds.requests;
          queue = holds.queue;
          nodes = holds.nodes;
          responses = holds.responses;
          replies = holds.replies;
        };
      }

  elsewhere-IsExplained :
      (every : (id : TaskId) → IsOther problem_id id → F id) (κ μ : Cluster lib sort)
      → Elsewhere lib sort r problem_id κ μ
      → IsExplained lib sort root d h r read problem_id complete plain small F apart κ
      → IsExplained lib sort root d h r read problem_id complete plain small F apart μ
  elsewhere-IsExplained every κ μ (Elsewhere.other_send t other) x =
      quiet lib sort root d h r read problem_id complete plain small F apart κ μ x refl refl
        (record {
          requests =
              All-append (Asked F x.sent) κ.requests (t ∷ []) x.holds.requests
                (inr (every t.id other), tt);
          queue = x.holds.queue;
          nodes = x.holds.nodes;
          responses = x.holds.responses;
          replies = x.holds.replies;
        })
  elsewhere-IsExplained every κ μ
        (Elsewhere.join {b = b} {sent = sent} w tasks running finished run) x =
      let P = Asked F x.sent in
      let Q = Replied F x.answered in
      quiet lib sort root d h r read problem_id complete plain small F apart κ μ x refl refl (
        Holds-broadcast lib sort P Q
          (record κ { nodes = κ.nodes ++ record { inbox = []; worker = w } ∷ [] }) b sent
          (Holds-join lib sort P Q κ w tasks running finished x.holds)
          (receive_ack-Passed P Q κ.broker b w sent x.holds.queue run))
  elsewhere-IsExplained every κ μ (Elsewhere.refuse {requests = requests} {c = c} takes left run)
        x =
      record {
        sent = x.sent ++ requests;
        answered = x.answered;
        coherent =
            one_step lib sort root d h r read problem_id complete plain small F apart
              (view lib sort root d h r read problem_id complete plain small F apart κ x.sent
                x.answered)
              _ (Calculation.Step.send left run) x.coherent;
        holds =
            refused-Holds lib sort root d h r read problem_id complete plain small F apart κ x.sent
              requests x.answered c takes x.holds;
      }
  elsewhere-IsExplained every κ μ (Elsewhere.lose pre post n {t = t} {rest = rest} e e') x =
      let P = Asked F x.sent in
      let Q = Replied F x.answered in
      let (at, put) = Holds-node lib sort P Q κ pre post n e x.holds in
      quiet lib sort root d h r read problem_id complete plain small F apart κ μ x refl refl
        (put _ (lose-HoldsNode P Q n t rest e' at))
  elsewhere-IsExplained every κ μ (Elsewhere.other_reply {id = id} {rest = rest} e other) x =
      let P = Asked F x.sent in
      let Q = Replied F x.answered in
      let (q, holds) = Holds-reply lib sort P Q κ id rest e x.holds in
      quiet lib sort root d h r read problem_id complete plain small F apart κ μ x refl refl holds
  elsewhere-IsExplained every κ μ (Elsewhere.other_clear other differs) x = record {
    sent = x.sent;
    answered = x.answered;
    coherent =
        one_elsewhere lib sort root d h r read problem_id complete plain small F apart
          (view lib sort root d h r read problem_id complete plain small F apart κ x.sent
            x.answered)
          _ (Calculation.Elsewhere.other_clear other differs) x.coherent;
    holds = record {
      requests = x.holds.requests;
      queue = x.holds.queue;
      nodes = x.holds.nodes;
      responses = x.holds.responses;
      replies = x.holds.replies;
    };
  }

  pub Run-IsExplained :
      (every : (id : TaskId) → IsOther problem_id id → F id) (κ μ : Cluster lib sort)
      → Run lib sort r problem_id κ μ
      → IsExplained lib sort root d h r read problem_id complete plain small F apart κ
      → IsExplained lib sort root d h r read problem_id complete plain small F apart μ
  Run-IsExplained every κ μ Run.stop x = x
  Run-IsExplained every κ μ (Run.step {μ = ν} first rest) x =
      Run-IsExplained every ν μ rest (step-IsExplained κ ν first x)
  Run-IsExplained every κ μ (Run.elsewhere {μ = ν} first rest) x =
      Run-IsExplained every ν μ rest (elsewhere-IsExplained every κ ν first x)
