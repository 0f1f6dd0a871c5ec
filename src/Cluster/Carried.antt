-- ===== src/Cluster/Carried.antt =====
-- No message is lost on its way while at most one task waits at the broker.
use distributed_task_dispatc.Prelude.{
  ℕ, ◌+◌, ◌≤◌, ◌≡◌, refl, sym, ap, ◌∙◌, subst, ◌⊎◌, arith, inl, inr, Bool, List, [], ◌∷◌, ◌++◌,
  some, String, Result, ok, length, In, if◌then◌else◌, str_eq, str_eq_iff, List-cases, get_last?,
}
use distributed_task_dispatc.Domain.Arith.{Reducer}
use distributed_task_dispatc.Dag.Library.{GraphLibrary}
use distributed_task_dispatc.Messages.{uint32, WorkerTask, TaskId, Task, WorkerTaskId, task_id}
use distributed_task_dispatc.Dispatch.{CalculationData, send_problem}
use distributed_task_dispatc.Dispatch.Completion.{answer}
use distributed_task_dispatc.Worker.{read_request, take_task}
use distributed_task_dispatc.Broker.{
  Broker, Output, receive_manager_request, receive_worker_message,
}
use distributed_task_dispatc.Cluster.{Cluster, Step, broadcast}
use distributed_task_dispatc.Cluster.Weights.{
  Weights, total, total-append, total-remove, spread, output_weight, weight, broadcast-weight,
  node-weight, identities,
}
use distributed_task_dispatc.Cluster.Moves.{hear-weight, take-weight, finish-weight, respond-weight}
use distributed_task_dispatc.Cluster.Falling.{Fixed}
use distributed_task_dispatc.Cluster.Routing.{accepted-In, accepted-Routed, accepted-Settled}

abbrev pub hit : (TaskId → Bool) → TaskId → ℕ
hit p id = if p id then 1 else 0

-- The messages that pass a test; a published task counts where its worker hears it.
abbrev pub passing : (TaskId → Bool) → Weights
passing p = record {
  request = λ t. hit p t.id;
  queue = λ t. hit p t.id;
  inbox = λ i t. if str_eq t.identity i then hit p t.task.id else 0;
  taken = λ t. hit p t.task.id;
  running = λ t. hit p t.task.id;
  finished = λ x. hit p x.id;
  response = λ x. hit p x.id;
  reply = λ id. hit p id;
}

heard :
    (p : TaskId → Bool) (ids : List String) (t : WorkerTask)
    → In t.identity ids
    → hit p t.task.id ≤ spread (passing p) ids t
heard p [] t i = absurd i
heard p (w ∷ ids) t (inl q) = rw ((str_eq_iff t.identity w).1 q) (omega arith)
heard p (w ∷ ids) t (inr i) = let ih = heard p ids t i in omega arith

module _ (lib : GraphLibrary) (sort : lib.Graph → Result (List ℕ)) (r : Reducer) (problem_id : ℕ)
    (p : TaskId → Bool) (ids names : List String)
    (all_here : (w : String) → In w names → In w ids) where
  abbrev pub carried : Cluster lib sort → ℕ
  carried κ = weight (passing p) lib sort κ

  route-carried :
      (κ : Cluster lib sort) (b : Broker) (sent : List Output) (t : Task) (rest : List Task)
      → Fixed lib sort ids names κ
      → κ.requests ≡ t ∷ rest
      → receive_manager_request κ.broker (some t) ≡ ok (b, sent)
      → carried κ ≤ carried (broadcast lib sort (record κ { requests = rest }) b sent)
  route-carried κ b sent t rest (workers, known) at run =
      let (kept, where_to) = accepted-Routed κ.broker b t sent run in
      let sum = broadcast-weight (passing p) lib sort (record κ { requests = rest }) b sent in
      let front = ap (total (λ (x : Task). hit p x.id)) at in
      elim where_to [
        | inl (w, i, says, queue) ↦
            let there = subst (In w) (sym workers) (all_here w (subst (In w) known i)) in
            let far = heard p (identities κ.nodes) (record { identity = w; task = t }) there in
            let out = ap (total (output_weight (passing p) (identities κ.nodes))) says in
            let waiting = ap (total (λ (x : Task). hit p x.id)) queue in omega arith
        | inr (says, queue) ↦
            let out = ap (total (output_weight (passing p) (identities κ.nodes))) says in
            let waiting = ap (total (λ (x : Task). hit p x.id)) queue in
            let more = total-append (λ (x : Task). hit p x.id) κ.broker.task_queue (t ∷ []) in
            omega arith
      ]

  settle-carried :
      (κ : Cluster lib sort) (pre post : List (String × WorkerTaskId)) (b : Broker)
      (sent : List Output) (identity : String) (x : WorkerTaskId)
      → Fixed lib sort ids names κ
      → length κ.broker.task_queue ≤ 1
      → κ.responses ≡ pre ++ (identity, x) ∷ post
      → receive_worker_message κ.broker identity (some (task_id x)) ≡ ok (b, sent)
      → carried κ ≤ carried (broadcast lib sort (record κ { responses = pre ++ post }) b sent)
  settle-carried κ pre post b sent identity x (workers, known) few at run =
      let (kept, popped, says) = accepted-Settled κ.broker b identity x sent run in
      let i = subst (In x.identity) known (accepted-In κ.broker b identity x sent run) in
      let sum =
        broadcast-weight (passing p) lib sort (record κ { responses = pre ++ post }) b sent in
      let weigh : String × WorkerTaskId → ℕ = λ y. hit p y.1.id in
      let gone = total-remove weigh pre post (identity, x) in
      let before = ap (total weigh) at in
      let waiting = ap (total (λ (y : Task). hit p y.id)) popped in
      elim says [
        | inl (empty, q) ↦
            let out = ap (total (output_weight (passing p) (identities κ.nodes))) q in
            let none_before = ap (total (λ (y : Task). hit p y.id)) empty in omega arith
        | inr (t, back, q) ↦ elim (List-cases κ.broker.task_queue) [
          | inl empty ↦ absurd (let z = ap get_last? empty in cc (z, back))
          | inr (u, [], split) ↦
              let only : some u ≡ some t = sym (ap get_last? split) ∙ back in
              let same : u ≡ t = cc only in
              let u≡ = ap (λ (y : Task). hit p y.id) same in
              let there = subst (In x.identity) (sym workers) (all_here x.identity i) in
              let far =
                heard p (identities κ.nodes) (record { identity = x.identity; task = t }) there in
              let out = ap (total (output_weight (passing p) (identities κ.nodes))) q in
              let all = ap (total (λ (y : Task). hit p y.id)) split in omega arith
          | inr (u, v ∷ rest, split) ↦ let many = ap length split in absurd (omega arith)
        ]
      ]

  -- What a step does to the messages that are under way.
  abbrev pub Carries : Cluster lib sort → Cluster lib sort → Type 0
  Carries κ μ =
      ((requests : List Task) × (c : CalculationData lib sort) × (send_problem lib sort problem_id
            κ.entry
          ≡ ok (requests, c))
        × (μ.entry ≡ c)
        × (carried μ ≡ carried κ + total (λ (t : Task). hit p t.id) requests))
      ⊎ (((id : TaskId) × (c : CalculationData lib sort) × (uint32 id.problem_id
              ≡ uint32 problem_id)
            × (answer lib sort κ.entry id.task_id ≡ ok c)
            × (μ.entry ≡ c)
            × In id κ.replies
            × (carried κ ≡ carried μ + hit p id))
          ⊎ ((μ.entry ≡ κ.entry) × (carried κ ≤ carried μ)))

  pub Step-carried :
      (κ μ : Cluster lib sort)
      → Step lib sort r problem_id κ μ
      → Fixed lib sort ids names κ
      → length κ.broker.task_queue ≤ 1
      → Carries κ μ
  Step-carried κ μ (Step.send {requests = requests} {c = c} left run) fixed few =
      let more = total-append (λ (t : Task). hit p t.id) κ.requests requests in
      inl (requests, c, run, refl, omega arith)
  Step-carried κ μ (Step.route {b = b} {sent = sent} {t = t} {rest = rest} at run) fixed few =
      inr (inr (refl, route-carried κ b sent t rest fixed at run))
  Step-carried κ μ (Step.hear pre post n {t = t} {rest = rest} at waiting) fixed few =
      let (same, sum) = hear-weight (passing p) n t rest waiting in
      let change =
        node-weight (passing p) lib sort κ pre post n
          (record { inbox = rest; worker = read_request n.worker t }) at in
      inr (inr (refl, omega arith))
  Step-carried κ μ (Step.take pre post n at busy free) fixed few =
      let (same, (t, sum)) = take-weight (passing p) n busy free in
      let change =
        node-weight (passing p) lib sort κ pre post n (record n { worker = take_task n.worker })
          at in
      inr (inr (refl, omega arith))
  Step-carried κ μ (Step.finish pre post n i {s = s} {w = w} at some_task run) fixed few =
      let (same, (t, sum)) = finish-weight (passing p) r κ.store s n i w some_task run in
      let change = node-weight (passing p) lib sort κ pre post n (record n { worker = w }) at in
      inr (inr (refl, omega arith))
  Step-carried κ μ (Step.respond pre post n {w = w} {response = x} at run) fixed few =
      let (same, sum) = respond-weight (passing p) n w x run in
      let change = node-weight (passing p) lib sort κ pre post n (record n { worker = w }) at in
      inr (inr (refl, omega arith))
  Step-carried κ μ (Step.settle pre post {b = b} {sent = sent} identity x at run) fixed few =
      inr (inr (refl, settle-carried κ pre post b sent identity x fixed few at run))
  Step-carried κ μ (Step.reply {id = id} {c = c} at own run) fixed few =
      let front = ap (total (hit p)) at in
      let first : In id κ.replies = subst (In id) (sym at) (inl refl) in
      inr (inl (id, c, ap uint32 own, run, refl, first, omega arith))
