-- ===== src/Cluster/Moving.antt =====
-- What can happen next in the cluster, while a message is under way.
use distributed_task_dispatc.Prelude.{
  ℕ, ◌≤◌, ◌<◌, ◌^◌, ◌≡◌, refl, sym, ap, ◌∙◌, subst, arith, inl, inr, true, false, List, [], ◌∷◌,
  ◌++◌, some, String, Result, ok, length, In, Eq_nat, dec_lt, List-cases, get_elem?, All, All-at,
  In-get_elem?,
}
use distributed_task_dispatc.Domain.{ExprResult, VariableId}
use distributed_task_dispatc.Domain.Arith.{Reducer}
use distributed_task_dispatc.Expr.{Expr}
use distributed_task_dispatc.Expr.Traversal.{postorder, is_complete}
use distributed_task_dispatc.Dag.Library.{GraphLibrary}
use distributed_task_dispatc.Decomposition.{TaskDecompositor}
use distributed_task_dispatc.Decomposition.Order.{IsDecomposition}
use distributed_task_dispatc.Decomposition.Independent.{is_constant}
use distributed_task_dispatc.Messages.{TaskId, Task, WorkerTask, WorkerTaskId}
use distributed_task_dispatc.Database.{Store, write_dynamic_data}
use distributed_task_dispatc.Dispatch.Completion.{answer, answer-IsConsistent}
use distributed_task_dispatc.Worker.{Worker, finish_task, calculate_task, erase_at}
use distributed_task_dispatc.Worker.Queues.{reply_some}
use distributed_task_dispatc.System.{evaluate}
use distributed_task_dispatc.System.Working.{open_value}
use distributed_task_dispatc.System.Termination.{reply_task}
use distributed_task_dispatc.System.Progress.{In-split, evaluate-postorder}
use distributed_task_dispatc.Cluster.{Node, Cluster, Step, IsOther}
use distributed_task_dispatc.Cluster.Flight.{HoldsNode}
use distributed_task_dispatc.Cluster.Explained.{Asked, Replied, IsExplained, view}
use distributed_task_dispatc.Cluster.Routing.{
  receive_manager_request-Routed, receive_response-Settled,
}
use distributed_task_dispatc.Cluster.Weights.{Weights, total, node_weight, weight}
use distributed_task_dispatc.Cluster.Falling.{Fixed}
use distributed_task_dispatc.Cluster.Threads.{HasThread}
use distributed_task_dispatc.Cluster.Known.{strangers, response-In}

pub total-positive :
    {A : Type 0} (f : A → ℕ) (xs : List A) → 0 < total f xs → (x : A) × In x xs × (0 < f x)
total-positive f [] more = absurd (omega arith)
total-positive f (x ∷ xs) more = elim (dec_lt 0 (f x)) [
  | yes some_here ↦ (x, inl refl, some_here)
  | no n ↦ let (y, i, some_there) = total-positive f xs (omega arith) in (y, inr i, some_there)
]

-- A task whose calculation returns is finished.
finish_task-returns :
    (r : Reducer) (s s' : Store) (w : Worker) (t : WorkerTask) (x : WorkerTaskId)
    (ts : List WorkerTask)
    → w.running ≡ t ∷ ts
    → calculate_task r s t ≡ ok (s', x)
    → finish_task r s w 0
      ≡ ok (
        s',
        record w { running = erase_at w.running 0; finished_tasks = w.finished_tasks ++ x ∷ [] },
      )
unfolding finish_task
finish_task-returns r s s' w t x ts e done =
    let at : get_elem? w.running 0 ≡ some t = ap (λ l. get_elem? l 0) e in
    rw (at, finish_task, done) refl

-- No message is of another problem.
abbrev pub Nothing : TaskId → Type 0
Nothing id = ⊥

module _ (lib : GraphLibrary) (sort : lib.Graph → Result (List ℕ)) (root : Expr)
    (d : TaskDecompositor lib sort) (h : IsDecomposition lib sort root d) (r : Reducer)
    (read : VariableId → Result ExprResult) (problem_id : ℕ) (complete : is_complete root ≡ true)
    (plain : (e : Expr) → In e (postorder root) → is_constant e ≡ false)
    (small : length h.records ≤ 2 ^ 32) (apart : (id : TaskId) → Nothing id → IsOther problem_id id)
    (κ : Cluster lib sort)
    (x : IsExplained lib sort root d h r read problem_id complete plain small Nothing apart κ) where
  abbrev pub CanGoOn : Type 0
  CanGoOn = (μ : Cluster lib sort) × Step lib sort r problem_id κ μ

  route-next : (t : Task) (rest : List Task) → κ.requests ≡ t ∷ rest → CanGoOn
  route-next t rest at =
      let (b, sent, run, _) = receive_manager_request-Routed κ.broker t in (_, Step.route at run)

  settle-next :
      (ids names : List String) (y : String × WorkerTaskId) (rest : List (String × WorkerTaskId))
      → Fixed lib sort ids names κ
      → weight (strangers names) lib sort κ ≡ 0
      → κ.responses ≡ y ∷ rest
      → CanGoOn
  settle-next ids names y rest (_, known) z at =
      let i =
        response-In lib sort r problem_id ids names κ y.0 y.1 z
          (subst (In y) (sym at) (inl refl)) in
      let (b, sent, run, _) =
        receive_response-Settled κ.broker y.0 y.1 (subst (In y.1.identity) (sym known) i) in
      (_, Step.settle [] rest y.0 y.1 at run)

  reply-next :
      problem_id < 2 ^ 32 → (id : TaskId) (rest : List TaskId) → κ.replies ≡ id ∷ rest → CanGoOn
  reply-next below id rest at =
      let replied =
        All-at (Replied Nothing x.answered) κ.replies id x.holds.replies
          (subst (In id) (sym at) (inl refl)) in
      let i : In id x.answered = elim replied [ inl j ↦ j | inr f ↦ absurd f ] in
      let a = x.coherent.answers id i in
      let number =
        reply_task lib sort root d h r read problem_id complete plain small
          (view lib sort root d h r read problem_id complete plain small Nothing apart κ x.sent
            x.answered)
          id x.coherent a in
      let (c, run, _, _) =
        answer-IsConsistent lib sort root d h κ.entry a.task a.status x.coherent.inv a.known in
      let q = ap (λ (k : TaskId). k.problem_id) a.id_of in
      (_, Step.reply at (omega arith) (ap (answer lib sort κ.entry) number ∙ run))

  module _ (v : ExprResult) (value : evaluate r read root ≡ ok v) (n : Node) (here : In n κ.nodes)
      (holds : HoldsNode (Asked Nothing x.sent) (Replied Nothing x.answered) n) where
    finish-next : (t : WorkerTask) (ts : List WorkerTask) → n.worker.running ≡ t ∷ ts → CanGoOn
    finish-next t ts e =
        let (pre, post, at) = In-split n κ.nodes here in
        let asked =
          All-at (λ (y : WorkerTask). Asked Nothing x.sent y.task) n.worker.running t holds.running
            (subst (In t) (sym e) (inl refl)) in
        let i : In t.task x.sent = elim asked [ inl j ↦ j | inr f ↦ absurd f ] in
        let o = x.coherent.requests t.task i in
        let node = (h.numbering.exact o.expr).0 (In-get_elem? h.records o.task o.at) in
        let (w, known) = evaluate-postorder r read root complete v value o.expr node in
        let run : calculate_task r κ.store t
            ≡ ok (
              write_dynamic_data κ.store t.task.id.problem_id t.task.id.task_id w,
              record { identity = t.identity; id = t.task.id },
            ) =
          open_value lib sort root d h r read problem_id complete
            (view lib sort root d h r read problem_id complete plain small Nothing apart κ x.sent
              x.answered)
            t.identity t.task x.coherent o
          ∙ rw known refl in
        let some_task = ap length e in
        (
          _,
          Step.finish pre post n 0 at (omega arith)
              (finish_task-returns r κ.store _ n.worker t _ ts e run),
        )

    -- A worker with something in hand can go on.
    node-next : 0 < n.worker.cores → (k : Weights) → 0 < node_weight k n → CanGoOn
    node-next threads k more =
        let (pre, post, at) = In-split n κ.nodes here in
        elim (List-cases n.worker.finished_tasks) [
          | inr (y, ys, e) ↦ (_, Step.respond pre post n at (reply_some n.worker e))
          | inl e₁ ↦ elim (List-cases n.worker.running) [
            | inr (t, ts, e) ↦ finish-next t ts e
            | inl e₂ ↦ elim (List-cases n.worker.tasks) [
              | inr (t, ts, e) ↦
                  let none_runs = ap length e₂ in
                  (
                    _,
                    Step.take pre post n at (λ z. let both : t ∷ ts ≡ [] = sym e ∙ z in cc both)
                        (omega arith),
                  )
              | inl e₃ ↦ elim (List-cases n.inbox) [
                | inr (t, ts, e) ↦ (_, Step.hear pre post n at e)
                | inl e₄ ↦
                    let z₁ = ap (total k.finished) e₁ in
                    let z₂ = ap (total k.running) e₂ in
                    let z₃ = ap (total k.taken) e₃ in
                    let z₄ = ap (total (k.inbox n.worker.identity)) e₄ in absurd (omega arith)
              ]
            ]
          ]
        ]

  -- While a message is under way that does not wait at the broker, some step is possible, if every
  -- worker has a thread.
  pub message-next :
      (below : problem_id < 2 ^ 32) (threads : All HasThread κ.nodes) (v : ExprResult)
      (ids names : List String) (k : Weights)
      → evaluate r read root ≡ ok v
      → Fixed lib sort ids names κ
      → weight (strangers names) lib sort κ ≡ 0
      → total k.queue κ.broker.task_queue ≡ 0
      → 0 < weight k lib sort κ
      → CanGoOn
  message-next below threads v ids names k value fixed known quiet more =
      elim (List-cases κ.requests) [
        | inr (t, rest, at) ↦ route-next t rest at
        | inl e₁ ↦ elim (List-cases κ.responses) [
          | inr (y, rest, at) ↦ settle-next ids names y rest fixed known at
          | inl e₂ ↦ elim (List-cases κ.replies) [
            | inr (id, rest, at) ↦ reply-next below id rest at
            | inl e₃ ↦
                let z₁ = ap (total k.request) e₁ in
                let z₂ = ap (total (λ (y : String × WorkerTaskId). k.response y.1)) e₂ in
                let z₃ = ap (total k.reply) e₃ in
                let (n, here, some_message) =
                  total-positive (node_weight k) κ.nodes (omega arith) in
                node-next v value n here
                  (All-at (HoldsNode (Asked Nothing x.sent) (Replied Nothing x.answered)) κ.nodes n
                    x.holds.nodes here)
                  (All-at HasThread κ.nodes n threads here) k some_message
          ]
        ]
      ]
