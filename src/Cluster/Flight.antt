-- ===== src/Cluster/Flight.antt =====
-- What holds of every request and every reply in the cluster, wherever it is; and that the broker and
-- the workers only pass on what they were given.
use distributed_task_dispatc.Prelude.{
  ℕ, ◌+◌, ◌-◌, ◌%◌, ◌^◌, ◌≡◌, refl, sym, ◌∙◌, subst, inl, inr, Bool-cases, not, List, [], ◌∷◌, ◌++◌,
  map, some, String, ok, err, >>=-eq-ok, or_fault, Option-cases, get_last?, get_last?-In, All,
  All-append, All-at, if◌then◌else◌, lookup, assign, Eq_string, out_of_range, bad_deref,
  logic_error,
}
use distributed_task_dispatc.Messages.{
  WorkerTask, uint32, TaskId, Task, WorkerTaskId, task_id, from_message,
}
use distributed_task_dispatc.Worker.{Worker, send_ack_message}
use distributed_task_dispatc.Broker.{
  Broker, Output, publish, to_manager, pop, is_empty, find_free, register_worker,
  send_task_to_worker_impl, send_task_to_worker_from_queue, send_task_to_worker,
  process_worker_task_reply, receive_manager_request, receive_worker_message, increment,
}
use distributed_task_dispatc.Cluster.{Node, notify, deliver, forwarded}

All-pop : (P : Task → Type 0) (ts : List Task) → All P ts → All P (pop ts)
All-pop P [] h = h
All-pop P (t ∷ ts) h = h.1

register_worker-queue :
    (b b' : Broker) (identity : String) (n : ℕ)
    → register_worker b identity n ≡ ok b'
    → b'.task_queue ≡ b.task_queue
unfolding register_worker
register_worker-queue b b' identity n run = elim (Option-cases (lookup identity b.available)) [
  | inl e ↦
      let run' : ok (record b { available = assign identity n b.available }) ≡ ok b' =
        sym (rw (e, register_worker) refl) ∙ run in
      cc run'
  | inr (k, e) ↦
      absurd (let run' : err logic_error ≡ ok b' = sym (rw (e, register_worker) refl) ∙ run in cc)
]

module _ (P : Task → Type 0) (Q : TaskId → Type 0) where
  -- The requests and responses that a worker has in hand.
  pub record HoldsNode (n : Node) : Type 0 where
    pub inbox : All (λ (t : WorkerTask). P t.task) n.inbox
    pub tasks : All (λ (t : WorkerTask). P t.task) n.worker.tasks
    pub running : All (λ (t : WorkerTask). P t.task) n.worker.running
    pub finished : All (λ (x : WorkerTaskId). Q x.id) n.worker.finished_tasks

  abbrev pub Says : Output → Type 0
  Says (publish t) = P t.task
  Says (to_manager id) = Q id

  HoldsNode-notify :
      (t : WorkerTask) (nodes : List Node)
      → P t.task
      → All HoldsNode nodes
      → All HoldsNode (map (notify t) nodes)
  HoldsNode-notify t [] p h = tt
  HoldsNode-notify t (n ∷ nodes) p h = (
    record {
      inbox = All-append (λ (x : WorkerTask). P x.task) n.inbox (t ∷ []) h.0.inbox (p, tt);
      tasks = h.0.tasks;
      running = h.0.running;
      finished = h.0.finished;
    },
    HoldsNode-notify t nodes p h.1,
  )

  pub HoldsNode-deliver :
      (sent : List Output) (nodes : List Node)
      → All Says sent
      → All HoldsNode nodes
      → All HoldsNode (deliver sent nodes)
  HoldsNode-deliver [] nodes says h = h
  HoldsNode-deliver (publish t ∷ os) nodes says h =
      HoldsNode-deliver os (map (notify t) nodes) says.1 (HoldsNode-notify t nodes says.0 h)
  HoldsNode-deliver (to_manager id ∷ os) nodes says h = HoldsNode-deliver os nodes says.1 h

  pub All-forwarded : (sent : List Output) → All Says sent → All Q (forwarded sent)
  All-forwarded [] says = tt
  All-forwarded (publish t ∷ os) says = All-forwarded os says.1
  All-forwarded (to_manager id ∷ os) says = (says.0, All-forwarded os says.1)

  -- A queue of which `P` holds, and messages that pass it on.
  abbrev Passed : Broker → List Output → Type 0
  Passed b sent = All P b.task_queue × All Says sent

  impl-Passed :
      (b b' : Broker) (t : WorkerTask) (sent : List Output)
      → All P b.task_queue
      → P t.task
      → send_task_to_worker_impl b t ≡ ok (b', sent)
      → Passed b' sent
  unfolding send_task_to_worker_impl
  impl-Passed b b' t sent h p run =
      let (n, found, run') =
        >>=-eq-ok (or_fault (lookup t.identity b.available) out_of_range) _ run in
      let queue : b.task_queue ≡ b'.task_queue = cc run' in
      let said : publish t ∷ [] ≡ sent = cc run' in
      (subst (All P) queue h, subst (All Says) said (p, tt))

  send_task_to_worker-Passed :
      (b b' : Broker) (t : Task) (sent : List Output)
      → All P b.task_queue
      → P t
      → send_task_to_worker b t ≡ ok (b', sent)
      → Passed b' sent
  unfolding send_task_to_worker
  send_task_to_worker-Passed b b' t sent h p run = elim (Option-cases (find_free b.available)) [
    | inl e ↦
        let run' : ok (record b { task_queue = b.task_queue ++ t ∷ [] }, []) ≡ ok (b', sent) =
          sym (rw (e, send_task_to_worker) refl) ∙ run in
        let queue : b.task_queue ++ t ∷ [] ≡ b'.task_queue = cc run' in
        let said : [] ≡ sent = cc run' in
        (
          subst (All P) queue (All-append P b.task_queue (t ∷ []) h (p, tt)),
          subst (All Says) said tt,
        )
    | inr (w, e) ↦
        impl-Passed b b' (record { identity = w; task = t }) sent h p
          (sym (rw (e, send_task_to_worker) refl) ∙ run)
  ]

  pub receive_manager_request-Passed :
      (b b' : Broker) (t : Task) (sent : List Output)
      → All P b.task_queue
      → P t
      → receive_manager_request b (some t) ≡ ok (b', sent)
      → Passed b' sent
  unfolding receive_manager_request from_message
  receive_manager_request-Passed b b' t sent h p run =
      send_task_to_worker-Passed b b' t sent h p run

  from_queue-Passed :
      (b b' : Broker) (w : String) (sent : List Output)
      → All P b.task_queue
      → send_task_to_worker_from_queue b w ≡ ok (b', sent)
      → Passed b' sent
  unfolding send_task_to_worker_from_queue
  from_queue-Passed b b' w sent h run = elim (Option-cases (get_last? b.task_queue)) [
    | inl e ↦ absurd (
        let q : err bad_deref ≡ ok (b', sent) =
          sym (rw (e, send_task_to_worker_from_queue) refl) ∙ run in
        cc)
    | inr (t, e) ↦
        impl-Passed (record b { task_queue = pop b.task_queue }) b'
          (record { identity = w; task = t }) sent (All-pop P b.task_queue h)
          (All-at P b.task_queue t h (get_last?-In b.task_queue e))
          (sym (rw (e, send_task_to_worker_from_queue) refl) ∙ run)
  ]

  refill-Passed :
      (b b' : Broker) (w : String) (sent : List Output)
      → All P b.task_queue
      → (if not (is_empty b.task_queue) then send_task_to_worker_from_queue b w else ok (b, []))
        ≡ ok (b', sent)
      → Passed b' sent
  refill-Passed b b' w sent h run = elim (Bool-cases (is_empty b.task_queue)) [
    | inl e ↦
        let run' : ok (b, []) ≡ ok (b', sent) = rw e at run in
        let queue : b.task_queue ≡ b'.task_queue = cc run' in
        let said : [] ≡ sent = cc run' in (subst (All P) queue h, subst (All Says) said tt)
    | inr e ↦
        let run' : send_task_to_worker_from_queue b w ≡ ok (b', sent) = rw e at run in
        from_queue-Passed b b' w sent h run'
  ]

  -- A response of a worker hands out a waiting task, and passes its number on.
  pub process_worker_task_reply-Passed :
      (b b' : Broker) (x : WorkerTaskId) (sent : List Output)
      → All P b.task_queue
      → Q x.id
      → process_worker_task_reply b x ≡ ok (b', sent)
      → Passed b' sent
  unfolding process_worker_task_reply
  process_worker_task_reply-Passed b b' x sent h q run =
      let (n, found, run₁) =
        >>=-eq-ok (or_fault (lookup x.identity b.available) out_of_range) _ run in
      let ((b₂, sent₂), refilled, run₂) =
        >>=-eq-ok (if not (is_empty b.task_queue) then _ else _) _ run₁ in
      let queue : b₂.task_queue ≡ b'.task_queue = cc run₂ in
      let said : sent₂ ++ to_manager x.id ∷ [] ≡ sent = cc run₂ in
      let (kept, says) =
        refill-Passed (record b { available = assign x.identity (increment n) b.available }) b₂
          x.identity sent₂ h refilled in
      (
        subst (All P) queue kept,
        subst (All Says) said (All-append Says sent₂ (to_manager x.id ∷ []) says (q, tt)),
      )

  pub receive_response-Passed :
      (b b' : Broker) (identity : String) (x : WorkerTaskId) (sent : List Output)
      → All P b.task_queue
      → Q x.id
      → receive_worker_message b identity (some (task_id x)) ≡ ok (b', sent)
      → Passed b' sent
  unfolding receive_worker_message from_message
  receive_response-Passed b b' identity x sent h q run =
      process_worker_task_reply-Passed b b' x sent h q run

  pub receive_ack-Passed :
      (b b' : Broker) (w : Worker) (sent : List Output)
      → All P b.task_queue
      → receive_worker_message b w.identity (some (send_ack_message w)) ≡ ok (b', sent)
      → Passed b' sent
  unfolding receive_worker_message from_message send_ack_message
  receive_ack-Passed b b' w sent h run =
      let n = uint32 ((w.cores + 2 ^ 64 - 1) % 2 ^ 64) in
      let (b₁, registered, run₁) = >>=-eq-ok (register_worker b w.identity n) _ run in
      let queue : b₁.task_queue ≡ b'.task_queue = cc run₁ in
      let said : [] ≡ sent = cc run₁ in
      (
        subst (All P) (sym (register_worker-queue b b₁ w.identity n registered) ∙ queue) h,
        subst (All Says) said tt,
      )
