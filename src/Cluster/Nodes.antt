-- ===== src/Cluster/Nodes.antt =====
-- A worker only passes on what it was given; and the requests and replies of the whole cluster.
use distributed_task_dispatc.Prelude.{
  ℕ, zero, suc, ◌≡◌, refl, sym, ap, ◌∙◌, subst, ◌⊎◌, inl, inr, Bool-cases, List, [], ◌∷◌, ◌++◌,
  none, some, ok, >>=-eq-ok, Option, get_elem?, List-cases, All, All-append, str_eq, ltb, length,
}
use distributed_task_dispatc.Domain.Arith.{Reducer}
use distributed_task_dispatc.Messages.{
  WorkerTask, TaskId, Task, WorkerTaskId, WorkerMessage, task_id,
}
use distributed_task_dispatc.Database.{Store}
use distributed_task_dispatc.Worker.{
  Worker, read_request, take_task, finish_task, check_output_queue, erase_at, calculate_task,
}
use distributed_task_dispatc.Worker.Queues.{
  answer_of, calculate_task-answer, take_none, take_busy, take_some,
}
use distributed_task_dispatc.Cluster.{Node}
use distributed_task_dispatc.Cluster.Flight.{HoldsNode}

All-erase_at :
    {A : Type 0} (P : A → Type 0) (xs : List A) (i : ℕ) → All P xs → All P (erase_at xs i)
unfolding erase_at
All-erase_at P [] i h = h
All-erase_at P (x ∷ xs) zero h = h.1
All-erase_at P (x ∷ xs) (suc i) h = (h.0, All-erase_at P xs i h.1)

-- A thread that finishes a task calculates one that it took, and queues the response.
pub finish_task-done :
    (r : Reducer) (s s' : Store) (w w' : Worker) (i : ℕ) (t : WorkerTask)
    → get_elem? w.running i ≡ some t
    → finish_task r s w i ≡ ok (s', w')
    → (calculate_task r s t ≡ ok (s', answer_of t))
      × (record w {
        running = erase_at w.running i;
        finished_tasks = w.finished_tasks ++ answer_of t ∷ [];
      }
          ≡ w')
unfolding finish_task
finish_task-done r s s' w w' i t e run =
    let run' = rw (e, finish_task) at run in
    let (a, done, run₁) = >>=-eq-ok (calculate_task r s t) _ run' in
    let said = calculate_task-answer r s t a done in
    let store : a.0 ≡ s' = cc run₁ in
    let end : record w {
      running = erase_at w.running i;
      finished_tasks = w.finished_tasks ++ a.1 ∷ [];
    }
        ≡ w' =
      cc run₁ in
    (done ∙ (λ j. ok (store j, sym said j)), rw said end)

-- A response that is sent was at the front of its queue.
pub check_output_queue-front :
    (w w' : Worker) (x : WorkerTaskId)
    → check_output_queue w ≡ (w', some (task_id x))
    → (ys : List WorkerTaskId) × (w.finished_tasks ≡ x ∷ ys)
      × (record w { finished_tasks = ys } ≡ w')
unfolding check_output_queue
check_output_queue-front w w' x run = elim (List-cases w.finished_tasks) [
  | inl e ↦ absurd (
      let silent : (check_output_queue w).1 ≡ none = rw (e, check_output_queue) refl in
      cc (silent, ap (λ (z : Worker × Option WorkerMessage). z.1) run))
  | inr (y, ys, e) ↦
      let run' : (record w { finished_tasks = ys }, some (task_id y)) ≡ (w', some (task_id x)) =
        sym (rw (e, check_output_queue) refl) ∙ run in
      let said : y ≡ x = cc run' in (ys, e ∙ ap (λ z. z ∷ ys) said, cc run')
]

read_request-cases :
    (w : Worker) (t : WorkerTask)
    → (w ≡ read_request w t) ⊎ (record w { tasks = w.tasks ++ t ∷ [] } ≡ read_request w t)
unfolding read_request
read_request-cases w t = elim (Bool-cases (str_eq t.identity w.identity)) [
  | inl q ↦ inr (rw (q, read_request) refl)
  | inr q ↦ inl (rw (q, read_request) refl)
]

module _ (P : Task → Type 0) (Q : TaskId → Type 0) where
  pub hear-HoldsNode :
      (n : Node) (t : WorkerTask) (rest : List WorkerTask)
      → n.inbox ≡ t ∷ rest
      → HoldsNode P Q n
      → HoldsNode P Q (record { inbox = rest; worker = read_request n.worker t })
  hear-HoldsNode n t rest e h =
      let waiting = subst (All (λ (x : WorkerTask). P x.task)) e h.inbox in
      elim (read_request-cases n.worker t) [
        | inl q ↦
            subst (λ x. HoldsNode P Q (record { inbox = rest; worker = x })) q
              (record {
                inbox = waiting.1;
                tasks = h.tasks;
                running = h.running;
                finished = h.finished;
              })
        | inr q ↦
            subst (λ x. HoldsNode P Q (record { inbox = rest; worker = x })) q
              (record {
                inbox = waiting.1;
                tasks =
                    All-append (λ (x : WorkerTask). P x.task) n.worker.tasks (t ∷ []) h.tasks
                      (waiting.0, tt);
                running = h.running;
                finished = h.finished;
              })
      ]

  pub lose-HoldsNode :
      (n : Node) (t : WorkerTask) (rest : List WorkerTask)
      → n.inbox ≡ t ∷ rest
      → HoldsNode P Q n
      → HoldsNode P Q (record n { inbox = rest })
  lose-HoldsNode n t rest e h = record {
    inbox = (subst (All (λ (x : WorkerTask). P x.task)) e h.inbox).1;
    tasks = h.tasks;
    running = h.running;
    finished = h.finished;
  }

  pub take-HoldsNode :
      (n : Node) → HoldsNode P Q n → HoldsNode P Q (record n { worker = take_task n.worker })
  take-HoldsNode n h = elim (List-cases n.worker.tasks) [
    | inl e ↦ subst (λ z. HoldsNode P Q (record n { worker = z })) (sym (take_none n.worker e)) h
    | inr (t, ts, e) ↦ elim (Bool-cases (ltb (length n.worker.running) n.worker.cores)) [
      | inr b ↦ subst (λ z. HoldsNode P Q (record n { worker = z })) (sym (take_busy n.worker b)) h
      | inl b ↦
          let waiting = subst (All (λ (x : WorkerTask). P x.task)) e h.tasks in
          let moved : HoldsNode P Q (record n {
            worker = record n.worker { tasks = ts; running = n.worker.running ++ t ∷ [] };
          }) =
            record {
              inbox = h.inbox;
              tasks = waiting.1;
              running =
                  All-append (λ (x : WorkerTask). P x.task) n.worker.running (t ∷ []) h.running
                    (waiting.0, tt);
              finished = h.finished;
            } in
          subst (λ z. HoldsNode P Q (record n { worker = z })) (sym (take_some n.worker e b)) moved
    ]
  ]

  -- The response of a task that was taken is one that `Q` holds of.
  pub finish-HoldsNode :
      (n : Node) (i : ℕ) (x : WorkerTaskId)
      → Q x.id
      → HoldsNode P Q n
      → HoldsNode P Q (record n {
        worker = record n.worker {
          running = erase_at n.worker.running i;
          finished_tasks = n.worker.finished_tasks ++ x ∷ [];
        };
      })
  finish-HoldsNode n i x q h = record {
    inbox = h.inbox;
    tasks = h.tasks;
    running = All-erase_at (λ (y : WorkerTask). P y.task) n.worker.running i h.running;
    finished =
        All-append (λ (y : WorkerTaskId). Q y.id) n.worker.finished_tasks (x ∷ []) h.finished
          (q, tt);
  }

  pub respond-HoldsNode :
      (n : Node) (w : Worker) (x : WorkerTaskId)
      → check_output_queue n.worker ≡ (w, some (task_id x))
      → HoldsNode P Q n
      → Q x.id × HoldsNode P Q (record n { worker = w })
  respond-HoldsNode n w x run h =
      let (ys, e, worker) = check_output_queue-front n.worker w x run in
      let waiting = subst (All (λ (z : WorkerTaskId). Q z.id)) e h.finished in
      (
        waiting.0,
        subst (λ z. HoldsNode P Q (record n { worker = z })) worker
            (record {
              inbox = h.inbox;
              tasks = h.tasks;
              running = h.running;
              finished = waiting.1;
            }),
      )
