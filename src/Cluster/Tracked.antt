-- ===== src/Cluster/Tracked.antt =====
-- Every step keeps the broker's counts right, while at most one task waits at the broker.
use distributed_task_dispatc.Prelude.{
  ℕ, ◌+◌, ◌≤◌, ◌<◌, ◌≡◌, refl, sym, ap, ◌∙◌, subst, arith, inl, inr, List, [], ◌∷◌, ◌++◌, some,
  String, Result, ok, length, In, Distinct, keys-lookup, Eq_string, str_eq_iff, List-cases,
}
use distributed_task_dispatc.Domain.Arith.{Reducer}
use distributed_task_dispatc.Dag.Library.{GraphLibrary}
use distributed_task_dispatc.Messages.{
  WorkerTask, TaskId, Task, WorkerTaskId, task_id, from_message,
}
use distributed_task_dispatc.Broker.{
  Broker, Output, to_manager, pop, receive_manager_request, receive_worker_message,
}
use distributed_task_dispatc.Broker.Cores.{
  Tracks, published, less_one, send_task_to_worker-Tracks, process_worker_task_reply-Tracks,
}
use distributed_task_dispatc.Worker.{read_request, take_task}
use distributed_task_dispatc.Cluster.{Cluster, Step, broadcast}
use distributed_task_dispatc.Cluster.Routing.{accepted-In, accepted-Routed, accepted-Settled}
use distributed_task_dispatc.Cluster.Weights.{
  total, total-remove, spread, output_weight, weight, broadcast-weight, node-weight, identities,
}
use distributed_task_dispatc.Cluster.Moves.{hear-weight, take-weight, finish-weight, respond-weight}
use distributed_task_dispatc.Cluster.Falling.{Fixed}
use distributed_task_dispatc.Cluster.Known.{total-zero}
use distributed_task_dispatc.Cluster.Loads.{
  mark, in_hand, spread-once, Tracks-same, WaitsFull, stays-full, published-append,
}

module _ (lib : GraphLibrary) (sort : lib.Graph → Result (List ℕ)) (r : Reducer) (problem_id : ℕ)
    (ids names : List String) (distinct : Distinct ids)
    (all_here : (w : String) → In w names → In w ids) (cores : String → ℕ) where
  abbrev pub load : Cluster lib sort → String → ℕ
  load κ w = weight (in_hand w) lib sort κ

  -- The counts are right, and tasks wait only while no worker has a free core.
  abbrev pub IsTracked : Cluster lib sort → Type 0
  IsTracked κ = Tracks κ.broker cores (load κ) × WaitsFull κ.broker

  route-IsTracked :
      (κ : Cluster lib sort) (b : Broker) (sent : List Output) (t : Task) (rest : List Task)
      → Fixed lib sort ids names κ
      → κ.requests ≡ t ∷ rest
      → receive_manager_request κ.broker (some t) ≡ ok (b, sent)
      → IsTracked κ
      → IsTracked (broadcast lib sort (record κ { requests = rest }) b sent)
  unfolding receive_manager_request from_message
  route-IsTracked κ b sent t rest (workers, known) at run (h, full) =
      let (b₁, sent₁, run₁, h₁, where_to) =
        send_task_to_worker-Tracks κ.broker cores (load κ) t h in
      let q : ok (b₁, sent₁) ≡ ok (b, sent) = sym run₁ ∙ run in
      let e : b₁ ≡ b = cc q in
      let f : sent₁ ≡ sent = cc q in
      let h₂ : Tracks b cores (λ w. load κ w + published w sent) =
        subst (λ (z : Broker × List Output). Tracks z.0 cores (λ w. load κ w + published w z.1))
          (λ i. (e i, f i)) h₁ in
      let (kept, cases) = accepted-Routed κ.broker b t sent run in
      let μ = broadcast lib sort (record κ { requests = rest }) b sent in
      let grows : (w : String) → load κ w + published w sent ≡ load μ w = λ w.
        let sum = broadcast-weight (in_hand w) lib sort (record κ { requests = rest }) b sent in
        let z₁ = total-zero κ.requests in
        let z₂ = total-zero rest in
        let z₃ = total-zero κ.broker.task_queue in
        let z₄ = total-zero b.task_queue in
        elim cases [
          | inl (v, i, says, queue) ↦
              let out = ap (total (output_weight (in_hand w) (identities κ.nodes))) says in
              let said = ap (published w) says in
              let there = all_here v (subst (In v) known i) in
              let once = spread-once w ids (record { identity = v; task = t }) distinct there in
              let same =
                ap (λ l. spread (in_hand w) l (record { identity = v; task = t })) workers in
              omega arith
          | inr (says, queue) ↦
              let out = ap (total (output_weight (in_hand w) (identities κ.nodes))) says in
              let said = ap (published w) says in omega arith
        ] in
      let h₃ = Tracks-same b cores _ (load μ) grows h₂ in
      (
        h₃,
        elim full [
          | inr zero_left ↦ inr (
              stays-full κ.broker b cores (load κ) (load μ) h h₃ kept
                (λ w. let e = grows w in omega arith) zero_left)
          | inl empty ↦ elim cases [
            | inl (v, i, says, queue) ↦ inl (queue ∙ empty)
            | inr (says, queue) ↦ elim where_to [
              | inl (v, _, _, said, _, _) ↦ absurd (let z = sym said ∙ f ∙ says in cc z)
              | inr (_, _, _, zero_left) ↦ inr (
                  stays-full κ.broker b cores (load κ) (load μ) h h₃ kept
                    (λ w. let e = grows w in omega arith) zero_left)
            ]
          ]
        ],
      )

  settle-IsTracked :
      (κ : Cluster lib sort) (pre post : List (String × WorkerTaskId)) (b : Broker)
      (sent : List Output) (identity : String) (x : WorkerTaskId)
      → Fixed lib sort ids names κ
      → length κ.broker.task_queue ≤ 1
      → κ.responses ≡ pre ++ (identity, x) ∷ post
      → receive_worker_message κ.broker identity (some (task_id x)) ≡ ok (b, sent)
      → IsTracked κ
      → IsTracked (broadcast lib sort (record κ { responses = pre ++ post }) b sent)
  unfolding receive_worker_message from_message
  settle-IsTracked κ pre post b sent identity x (workers, known) few at run (h, full) =
      let i = accepted-In κ.broker b identity x sent run in
      let (n, found) = keys-lookup x.identity κ.broker.available i in
      let weigh : String → String × WorkerTaskId → ℕ = λ w y. mark w y.1.identity in
      let gone : (w : String)
          → total (weigh w) κ.responses ≡ total (weigh w) (pre ++ post) + mark w x.identity =
        λ w. ap (total (weigh w)) at ∙ total-remove (weigh w) pre post (identity, x) in
      let own : mark x.identity x.identity ≡ 1 =
        rw ((str_eq_iff x.identity x.identity).1 refl) refl in
      let busy : 0 < load κ x.identity = let e = gone x.identity in omega arith in
      let (b₁, sent₁, run₁, h₁, _, _) =
        process_worker_task_reply-Tracks κ.broker cores (load κ) x n h found busy in
      let q : ok (b₁, sent₁ ++ to_manager x.id ∷ []) ≡ ok (b, sent) = sym run₁ ∙ run in
      let e : b₁ ≡ b = cc q in
      let f : sent₁ ++ to_manager x.id ∷ [] ≡ sent = cc q in
      let (kept, popped, says) = accepted-Settled κ.broker b identity x sent run in
      let μ = broadcast lib sort (record κ { responses = pre ++ post }) b sent in
      let same : (w : String) → less_one x.identity (load κ) w + published w sent₁ ≡ load μ w = λ w.
        let sum =
          broadcast-weight (in_hand w) lib sort (record κ { responses = pre ++ post }) b sent in
        let z₃ = total-zero κ.broker.task_queue in
        let z₄ = total-zero b.task_queue in
        let g = gone w in
        let split = published-append w sent₁ (to_manager x.id ∷ []) in
        let whole = ap (published w) f in
        elim says [
          | inl (empty, z) ↦
              let out = ap (total (output_weight (in_hand w) (identities κ.nodes))) z in
              let said = ap (published w) z in omega arith
          | inr (t, back, z) ↦
              let task : WorkerTask = record { identity = x.identity; task = t } in
              let out = ap (total (output_weight (in_hand w) (identities κ.nodes))) z in
              let said = ap (published w) z in
              let there = all_here x.identity (subst (In x.identity) known i) in
              let once = spread-once w ids task distinct there in
              let here = ap (λ l. spread (in_hand w) l task) workers in omega arith
        ] in
      (
        Tracks-same b cores _ (load μ) same (
            subst (λ z. Tracks z cores (λ w. less_one x.identity (load κ) w + published w sent₁)) e
              h₁),
        inl (elim (List-cases κ.broker.task_queue) [
          | inl z ↦ popped ∙ ap pop z
          | inr (u, [], z) ↦ popped ∙ ap pop z
          | inr (u, v ∷ rest, z) ↦ let many = ap length z in absurd (omega arith)
        ]),
      )

  -- A step that moves a task within the workers.
  kept-IsTracked :
      (κ μ : Cluster lib sort)
      → μ.broker ≡ κ.broker
      → ((w : String) → load κ w ≡ load μ w)
      → IsTracked κ
      → IsTracked μ
  kept-IsTracked κ μ e same (h, full) = (
    subst (λ b. Tracks b cores (load μ)) (sym e)
        (Tracks-same κ.broker cores (load κ) (load μ) same h),
    subst WaitsFull (sym e) full,
  )

  pub Step-IsTracked :
      (κ μ : Cluster lib sort)
      → Step lib sort r problem_id κ μ
      → Fixed lib sort ids names κ
      → length κ.broker.task_queue ≤ 1
      → IsTracked κ
      → IsTracked μ
  Step-IsTracked κ μ (Step.send {requests = requests} {c = c} left run) fixed few good =
      kept-IsTracked κ μ refl
        (λ w. omega (arith, total-zero κ.requests, total-zero (κ.requests ++ requests))) good
  Step-IsTracked κ μ (Step.route {b = b} {sent = sent} {t = t} {rest = rest} at run) fixed few
        good =
      route-IsTracked κ b sent t rest fixed at run good
  Step-IsTracked κ μ (Step.hear pre post n {t = t} {rest = rest} at waiting) fixed few good =
      kept-IsTracked κ μ refl
        (λ w.
          let (same, sum) = hear-weight (in_hand w) n t rest waiting in
          let change =
            node-weight (in_hand w) lib sort κ pre post n
              (record { inbox = rest; worker = read_request n.worker t }) at in
          omega arith)
        good
  Step-IsTracked κ μ (Step.take pre post n at busy free) fixed few good =
      kept-IsTracked κ μ refl
        (λ w.
          let (same, (t, sum)) = take-weight (in_hand w) n busy free in
          let change =
            node-weight (in_hand w) lib sort κ pre post n (record n { worker = take_task n.worker })
              at in
          omega arith)
        good
  Step-IsTracked κ μ (Step.finish pre post n i {s = s} {w = v} at some_task run) fixed few good =
      kept-IsTracked κ μ refl
        (λ w.
          let (same, (t, sum)) = finish-weight (in_hand w) r κ.store s n i v some_task run in
          let change = node-weight (in_hand w) lib sort κ pre post n (record n { worker = v }) at in
          omega arith)
        good
  Step-IsTracked κ μ (Step.respond pre post n {w = v} {response = x} at run) fixed few good =
      kept-IsTracked κ μ refl
        (λ w.
          let (same, sum) = respond-weight (in_hand w) n v x run in
          let change = node-weight (in_hand w) lib sort κ pre post n (record n { worker = v }) at in
          omega arith)
        good
  Step-IsTracked κ μ (Step.settle pre post {b = b} {sent = sent} identity x at run) fixed few good =
      settle-IsTracked κ pre post b sent identity x fixed few at run good
  Step-IsTracked κ μ (Step.reply {id = id} {rest = rest} at own run) fixed few good =
      kept-IsTracked κ μ refl (λ w. let front = ap (total (λ (y : TaskId). 0)) at in omega arith)
        good
