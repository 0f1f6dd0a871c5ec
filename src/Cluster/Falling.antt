-- ===== src/Cluster/Falling.antt =====
-- Sums that no step of the cluster raises, but for a step that sends.
use distributed_task_dispatc.Prelude.{
  ℕ, ◌+◌, ◌≤◌, ◌≡◌, ◌≢◌, refl, sym, ap, ◌∙◌, subst, ◌⊎◌, arith, inl, inr, List, [], ◌∷◌, ◌++◌, some,
  String, Result, ok, In, keys, if◌then◌else◌, str_eq, List-cases, get_last?, Eq_string,
}
use distributed_task_dispatc.Domain.Arith.{Reducer}
use distributed_task_dispatc.Dag.Library.{GraphLibrary}
use distributed_task_dispatc.Messages.{WorkerTask, TaskId, Task, WorkerTaskId, task_id}
use distributed_task_dispatc.Dispatch.{CalculationData, send_problem}
use distributed_task_dispatc.Worker.Queues.{answer_of}
use distributed_task_dispatc.Broker.{
  Broker, Output, pop, receive_manager_request, receive_worker_message,
}
use distributed_task_dispatc.Cluster.{Node, Cluster, Step, broadcast}
use distributed_task_dispatc.Cluster.Routing.{accepted-In, accepted-Routed, accepted-Settled}
use distributed_task_dispatc.Cluster.Weights.{
  Weights, total, total-append, total-remove, identities, identities-replace, node_weight, spread,
  output_weight, deliver-weight, weight, broadcast-weight, node-weight,
}
use distributed_task_dispatc.Cluster.Moves.{hear-weight, take-weight, finish-weight, respond-weight}

-- Each step takes at least `e` from the sum; `ids` are the workers and `names` those that the
-- broker knows.
pub record IsFalling (e : ℕ) (k : Weights) (ids names : List String) : Type 0 where
  pub route :
      (t : Task) (w : String)
      → In w names
      → e + spread k ids (record { identity = w; task = t }) ≤ k.request t
  pub wait : (t : Task) → e + k.queue t ≤ k.request t
  pub hear :
      (i : String) (t : WorkerTask)
      → e + (if str_eq t.identity i then k.taken t else 0) ≤ k.inbox i t
  pub take : (t : WorkerTask) → e + k.running t ≤ k.taken t
  pub finish : (t : WorkerTask) → e + k.finished (answer_of t) ≤ k.running t
  pub respond : (x : WorkerTaskId) → e + k.response x ≤ k.finished x
  pub settle : (x : WorkerTaskId) → In x.identity names → e + k.reply x.id ≤ k.response x
  pub refill :
      (x : WorkerTaskId) (t u : Task)
      → In x.identity names
      → e + spread k ids (record { identity = x.identity; task = t }) + k.reply x.id
        ≤ k.queue u + k.response x
  pub reply : (id : TaskId) → e ≤ k.reply id

module _ (lib : GraphLibrary) (sort : lib.Graph → Result (List ℕ)) (ids names : List String) where
  -- The workers, and those that the broker knows.
  abbrev pub Fixed : Cluster lib sort → Type 0
  Fixed κ = (identities κ.nodes ≡ ids) × (keys κ.broker.available ≡ names)

module _ (lib : GraphLibrary) (sort : lib.Graph → Result (List ℕ)) (r : Reducer) (problem_id : ℕ)
    (e : ℕ) (k : Weights) (ids names : List String) (rules : IsFalling e k ids names) where
  abbrev pub Lower : Cluster lib sort → Cluster lib sort → Type 0
  Lower κ μ = Fixed lib sort ids names μ × (e + weight k lib sort μ ≤ weight k lib sort κ)

  route-Lower :
      (κ : Cluster lib sort) (b : Broker) (sent : List Output) (t : Task) (rest : List Task)
      → Fixed lib sort ids names κ
      → κ.requests ≡ t ∷ rest
      → receive_manager_request κ.broker (some t) ≡ ok (b, sent)
      → Lower κ (broadcast lib sort (record κ { requests = rest }) b sent)
  route-Lower κ b sent t rest (workers, known) at run =
      let (kept, where_to) = accepted-Routed κ.broker b t sent run in
      let (same, _) = deliver-weight k sent κ.nodes in
      let sum = broadcast-weight k lib sort (record κ { requests = rest }) b sent in
      let front = ap (total k.request) at in
      (
        (same ∙ workers, kept ∙ known),
        elim where_to [
          | inl (w, i, says, queue) ↦
              let rule = rules.route t w (subst (In w) known i) in
              let out = ap (total (output_weight k (identities κ.nodes))) says in
              let here = ap (λ l. spread k l (record { identity = w; task = t })) workers in
              let waiting = ap (total k.queue) queue in omega arith
          | inr (says, queue) ↦
              let rule = rules.wait t in
              let out = ap (total (output_weight k (identities κ.nodes))) says in
              let waiting = ap (total k.queue) queue in
              let more = total-append k.queue κ.broker.task_queue (t ∷ []) in omega arith
        ],
      )

  settle-Lower :
      (κ : Cluster lib sort) (pre post : List (String × WorkerTaskId)) (b : Broker)
      (sent : List Output) (identity : String) (x : WorkerTaskId)
      → Fixed lib sort ids names κ
      → κ.responses ≡ pre ++ (identity, x) ∷ post
      → receive_worker_message κ.broker identity (some (task_id x)) ≡ ok (b, sent)
      → Lower κ (broadcast lib sort (record κ { responses = pre ++ post }) b sent)
  settle-Lower κ pre post b sent identity x (workers, known) at run =
      let (kept, popped, says) = accepted-Settled κ.broker b identity x sent run in
      let i = subst (In x.identity) known (accepted-In κ.broker b identity x sent run) in
      let (same, _) = deliver-weight k sent κ.nodes in
      let sum = broadcast-weight k lib sort (record κ { responses = pre ++ post }) b sent in
      let weigh : String × WorkerTaskId → ℕ = λ y. k.response y.1 in
      let gone = total-remove weigh pre post (identity, x) in
      let before = ap (total weigh) at in
      let waiting = ap (total k.queue) popped in
      (
        (same ∙ workers, kept ∙ known),
        elim says [
          | inl (empty, q) ↦
              let rule = rules.settle x i in
              let out = ap (total (output_weight k (identities κ.nodes))) q in
              let none_left = ap (λ l. total k.queue (pop l)) empty in
              let none_before = ap (total k.queue) empty in omega arith
          | inr (t, back, q) ↦ elim (List-cases κ.broker.task_queue) [
            | inl empty ↦ absurd (let z = ap get_last? empty in cc (z, back))
            | inr (u, rest, split) ↦
                let rule = rules.refill x t u i in
                let out = ap (total (output_weight k (identities κ.nodes))) q in
                let here =
                  ap (λ l. spread k l (record { identity = x.identity; task = t })) workers in
                let left = ap (λ l. total k.queue (pop l)) split in
                let all = ap (total k.queue) split in omega arith
          ]
        ],
      )

  node-Lower :
      (κ : Cluster lib sort) (pre post : List Node) (n n' : Node)
      → Fixed lib sort ids names κ
      → κ.nodes ≡ pre ++ n ∷ post
      → n'.worker.identity ≡ n.worker.identity
      → e + node_weight k n' ≤ node_weight k n
      → Lower κ (record κ { nodes = pre ++ n' ∷ post })
  node-Lower κ pre post n n' (workers, known) at same less =
      let sum = node-weight k lib sort κ pre post n n' at in
      (
        (identities-replace pre post n n' same ∙ sym (ap identities at) ∙ workers, known),
        omega arith,
      )

  -- What the dispatcher sends is all that a step can add.
  abbrev pub Sends : Cluster lib sort → Cluster lib sort → Type 0
  Sends κ μ =
      (requests : List Task) × (c : CalculationData lib sort)
      × (κ.entry.computable_task_to_dependencies ≢ [])
      × (send_problem lib sort problem_id κ.entry ≡ ok (requests, c))
      × (μ.entry ≡ c)
      × (weight k lib sort μ ≡ weight k lib sort κ + total k.request requests)

  pub Step-Lower :
      (κ μ : Cluster lib sort)
      → Step lib sort r problem_id κ μ
      → Fixed lib sort ids names κ
      → Fixed lib sort ids names μ × (Sends κ μ ⊎ (e + weight k lib sort μ ≤ weight k lib sort κ))
  Step-Lower κ μ (Step.send {requests = requests} {c = c} left run) fixed =
      let more = total-append k.request κ.requests requests in
      (fixed, inl (requests, c, left, run, refl, omega arith))
  Step-Lower κ μ (Step.route {b = b} {sent = sent} {t = t} {rest = rest} at run) fixed =
      let (fixed', less) = route-Lower κ b sent t rest fixed at run in (fixed', inr less)
  Step-Lower κ μ (Step.hear pre post n {t = t} {rest = rest} at waiting) fixed =
      let (same, sum) = hear-weight k n t rest waiting in
      let rule = rules.hear n.worker.identity t in
      let (fixed', less) = node-Lower κ pre post n _ fixed at same (omega arith) in
      (fixed', inr less)
  Step-Lower κ μ (Step.take pre post n at busy free) fixed =
      let (same, (t, sum)) = take-weight k n busy free in
      let rule = rules.take t in
      let (fixed', less) = node-Lower κ pre post n _ fixed at same (omega arith) in
      (fixed', inr less)
  Step-Lower κ μ (Step.finish pre post n i {s = s} {w = w} at some_task run) fixed =
      let (same, (t, sum)) = finish-weight k r κ.store s n i w some_task run in
      let rule = rules.finish t in
      let (fixed', less) =
        node-Lower κ pre post n (record n { worker = w }) fixed at same (omega arith) in
      (fixed', inr less)
  Step-Lower κ μ (Step.respond pre post n {w = w} {response = x} at run) fixed =
      let (same, sum) = respond-weight k n w x run in
      let rule = rules.respond x in
      let change = node-weight k lib sort κ pre post n (record n { worker = w }) at in
      (
        (
          identities-replace pre post n (record n { worker = w }) same
              ∙ sym (ap identities at)
              ∙ fixed.0,
          fixed.1,
        ),
        inr (omega arith),
      )
  Step-Lower κ μ (Step.settle pre post {b = b} {sent = sent} identity x at run) fixed =
      let (fixed', less) = settle-Lower κ pre post b sent identity x fixed at run in
      (fixed', inr less)
  Step-Lower κ μ (Step.reply {id = id} at own run) fixed =
      let rule = rules.reply id in let front = ap (total k.reply) at in (fixed, inr (omega arith))
