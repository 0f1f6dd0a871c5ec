-- ===== src/Broker/Queue.antt =====
-- The broker's queue under the replies that drain it.
use distributed_task_dispatc.Prelude.{
  ◌≡◌, refl, ap, ◌∙◌, inl, inr, false, List, [], ◌∷◌, ◌++◌, some, String, Result, ok, arith, In,
  keys, assign, Eq_string, keys-assign_mono, keys-lookup, lookup-assign_self, get_last?, length,
  ◌>>=◌, replicate,
}
use distributed_task_dispatc.Messages.{Task, WorkerTaskId}
use distributed_task_dispatc.Broker.{
  Broker, Output, publish, to_manager, increment, decrement, pop, is_empty,
  send_task_to_worker_impl, send_task_to_worker_from_queue, process_worker_task_reply,
}

-- The tasks that the messages give to workers.
abbrev pub tasks_of : List Output → List Task
tasks_of [] = []
tasks_of (publish t ∷ os) = t.task ∷ tasks_of os
tasks_of (to_manager id ∷ os) = tasks_of os

tasks_of-append : (os ps : List Output) → tasks_of (os ++ ps) ≡ tasks_of os ++ tasks_of ps
tasks_of-append [] ps = refl
tasks_of-append (publish t ∷ os) ps = ap (◌∷◌ t.task) (tasks_of-append os ps)
tasks_of-append (to_manager id ∷ os) ps = tasks_of-append os ps

-- Replies in turn, with all that is sent.
unfoldable pub replies : Broker → List WorkerTaskId → Result (Broker × List Output)
replies b [] = ok (b, [])
replies b (m ∷ ms) = do
  (b₁, sent) ← process_worker_task_reply b m
  (b₂, later) ← replies b₁ ms
  ok (b₂, sent ++ later)

abbrev pub Registered : Broker → List WorkerTaskId → Type 0
Registered b ms = (m : WorkerTaskId) → In m ms → In m.identity (keys b.available)

reply-waiting :
    (b : Broker) (m : WorkerTaskId) (x : Task) (rest : List Task) (t : Task)
    → b.task_queue ≡ x ∷ rest
    → get_last? (x ∷ rest) ≡ some t
    → In m.identity (keys b.available)
    → (b' : Broker) × (sent : List Output) × (process_worker_task_reply b m ≡ ok (b', sent))
      × (b'.task_queue ≡ rest)
      × (tasks_of sent ≡ t ∷ [])
      × ((w : String) → In w (keys b.available) → In w (keys b'.available))
unfolding process_worker_task_reply send_task_to_worker_from_queue send_task_to_worker_impl
reply-waiting b m x rest t e last known =
    let (n, at) = keys-lookup m.identity b.available known in
    let filled : is_empty b.task_queue ≡ false = ap is_empty e in
    let at_back : get_last? b.task_queue ≡ some t = ap get_last? e ∙ last in
    let found = lookup-assign_self m.identity (increment n) b.available in
    (
      record {
        available =
            assign m.identity (decrement (increment n))
              (assign m.identity (increment n) b.available);
        task_queue = pop b.task_queue;
      },
      publish (record { identity = m.identity; task = t }) ∷ to_manager m.id ∷ [],
      rw (at, filled, at_back, found) refl,
      ap pop e,
      refl,
      λ w i. keys-assign_mono m.identity w _ _ (keys-assign_mono m.identity w _ b.available i),
    )

drain :
    (ms : List WorkerTaskId) (b : Broker) (q : List Task) (t : Task)
    → b.task_queue ≡ q
    → get_last? q ≡ some t
    → length ms ≡ length q
    → Registered b ms
    → (b' : Broker) × (sent : List Output) × (replies b ms ≡ ok (b', sent))
      × (b'.task_queue ≡ [])
      × (tasks_of sent ≡ replicate (length q) t)
unfolding replies
drain ms b [] t e last size known = cc
drain [] b (x ∷ rest) t e last size known = absurd (omega arith)
drain (m ∷ m' ∷ ms) b (x ∷ []) t e last size known = absurd (omega arith)
drain (m ∷ []) b (x ∷ []) t e last size known =
    let (b₁, sent, run, queue, gave, kept) = reply-waiting b m x [] t e last (known m (inl refl)) in
    (b₁, sent ++ [], rw run refl, queue, tasks_of-append sent [] ∙ rw gave refl)
drain (m ∷ ms) b (x ∷ y ∷ rest) t e last size known =
    let (b₁, sent, run, queue, gave, kept) =
      reply-waiting b m x (y ∷ rest) t e last (known m (inl refl)) in
    let (b₂, later, runs, empty, gave') =
      drain ms b₁ (y ∷ rest) t queue last (omega arith)
        (λ m' i. kept m'.identity (known m' (inr i))) in
    (
      b₂,
      sent ++ later,
      rw (run, runs) refl,
      empty,
      tasks_of-append sent later ∙ rw (gave, gave') refl,
    )

-- As many replies of registered workers as tasks wait leave the queue empty, and publish the last
-- task of the queue each time: as many copies of it as tasks waited, and nothing else.
pub replies-repeat_last :
    (b : Broker) (ms : List WorkerTaskId) (t : Task)
    → get_last? b.task_queue ≡ some t
    → length ms ≡ length b.task_queue
    → Registered b ms
    → (b' : Broker) × (sent : List Output) × (replies b ms ≡ ok (b', sent))
      × (b'.task_queue ≡ [])
      × (tasks_of sent ≡ replicate (length b.task_queue) t)
replies-repeat_last b ms t last size known = drain ms b b.task_queue t refl last size known
