-- ===== src/Cluster/Moves.antt =====
-- What the steps of a worker do to a sum over its messages.
use distributed_task_dispatc.Prelude.{
  ℕ, ◌+◌, ◌<◌, ◌≡◌, ◌≢◌, refl, ap, subst, arith, inl, inr, Bool-cases, List, [], ◌∷◌, some, ok,
  if◌then◌else◌, str_eq, List-cases, get_elem?-some, length, lt→ltb,
}
use distributed_task_dispatc.Domain.Arith.{Reducer}
use distributed_task_dispatc.Messages.{WorkerTask, WorkerTaskId, task_id}
use distributed_task_dispatc.Database.{Store}
use distributed_task_dispatc.Worker.{
  Worker, read_request, take_task, finish_task, check_output_queue,
}
use distributed_task_dispatc.Worker.Queues.{answer_of, take_some}
use distributed_task_dispatc.Cluster.{Node}
use distributed_task_dispatc.Cluster.Nodes.{finish_task-done, check_output_queue-front}
use distributed_task_dispatc.Cluster.Weights.{
  Weights, total, total-append, total-erase_at, node_weight,
}

module _ (k : Weights) where
  pub hear-weight :
      (n : Node) (t : WorkerTask) (rest : List WorkerTask)
      → n.inbox ≡ t ∷ rest
      → ((read_request n.worker t).identity ≡ n.worker.identity)
        × (node_weight k (record { inbox = rest; worker = read_request n.worker t })
              + k.inbox n.worker.identity t
            ≡ node_weight k n + (if str_eq t.identity n.worker.identity then k.taken t else 0))
  unfolding read_request
  hear-weight n t rest e =
      let before = ap (total (k.inbox n.worker.identity)) e in
      let more = total-append k.taken n.worker.tasks (t ∷ []) in
      elim (Bool-cases (str_eq t.identity n.worker.identity)) [
        | inl b ↦ rw b (refl, omega arith)
        | inr b ↦ rw b (refl, omega arith)
      ]

  pub take-weight :
      (n : Node)
      → n.worker.tasks ≢ []
      → length n.worker.running < n.worker.cores
      → ((take_task n.worker).identity ≡ n.worker.identity)
        × ((t : WorkerTask) × (node_weight k (record n { worker = take_task n.worker }) + k.taken t
              ≡ node_weight k n + k.running t))
  take-weight n busy free = elim (List-cases n.worker.tasks) [
    | inl e ↦ absurd (busy e)
    | inr (t, ts, e) ↦
        let before = ap (total k.taken) e in
        let more = total-append k.running n.worker.running (t ∷ []) in
        rw (take_some n.worker e (lt→ltb _ _ free)) (refl, (t, omega arith))
  ]

  pub finish-weight :
      (r : Reducer) (s s' : Store) (n : Node) (i : ℕ) (w : Worker)
      → i < length n.worker.running
      → finish_task r s n.worker i ≡ ok (s', w)
      → (w.identity ≡ n.worker.identity)
        × ((t : WorkerTask) × (node_weight k (record n { worker = w }) + k.running t
              ≡ node_weight k n + k.finished (answer_of t)))
  finish-weight r s s' n i w less run =
      let (t, at) = get_elem?-some n.worker.running i less in
      let (done, after) = finish_task-done r s s' n.worker w i t at run in
      let fewer = total-erase_at k.running n.worker.running i at in
      let more = total-append k.finished n.worker.finished_tasks (answer_of t ∷ []) in
      subst
        (λ z.
          (z.identity ≡ n.worker.identity)
          × ((t : WorkerTask) × (node_weight k (record n { worker = z }) + k.running t
                ≡ node_weight k n + k.finished (answer_of t))))
        after (refl, (t, omega arith))

  pub respond-weight :
      (n : Node) (w : Worker) (x : WorkerTaskId)
      → check_output_queue n.worker ≡ (w, some (task_id x))
      → (w.identity ≡ n.worker.identity)
        × (node_weight k (record n { worker = w }) + k.finished x ≡ node_weight k n)
  respond-weight n w x run =
      let (ys, e, after) = check_output_queue-front n.worker w x run in
      let front = ap (total k.finished) e in
      subst
        (λ z.
          (z.identity ≡ n.worker.identity)
          × (node_weight k (record n { worker = z }) + k.finished x ≡ node_weight k n))
        after (refl, omega arith)
