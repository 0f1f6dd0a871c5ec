-- ===== src/Cluster/Threads.antt =====
-- The pool of a worker keeps its threads (worker/src/worker-impl/thread_pool.cpp).
use distributed_task_dispatc.Prelude.{
  ℕ, ◌<◌, ◌≡◌, refl, sym, ap, subst, inl, inr, Bool-cases, List, [], ◌∷◌, ◌++◌, map, Result, ok,
  some, str_eq, ltb, length, List-cases, All, All-replace, get_elem?-some,
}
use distributed_task_dispatc.Domain.Arith.{Reducer}
use distributed_task_dispatc.Dag.Library.{GraphLibrary}
use distributed_task_dispatc.Messages.{WorkerTask, WorkerTaskId, task_id}
use distributed_task_dispatc.Database.{Store}
use distributed_task_dispatc.Worker.{
  Worker, read_request, take_task, finish_task, check_output_queue,
}
use distributed_task_dispatc.Worker.Queues.{take_none, take_busy, take_some}
use distributed_task_dispatc.Broker.{Output, publish, to_manager}
use distributed_task_dispatc.Cluster.{Node, Cluster, Step, deliver, notify}
use distributed_task_dispatc.Cluster.Nodes.{finish_task-done, check_output_queue-front}

-- A worker that calculates with at least one thread.
abbrev pub HasThread : Node → Type 0
HasThread n = 0 < n.worker.cores

read_request-cores : (w : Worker) (t : WorkerTask) → (read_request w t).cores ≡ w.cores
unfolding read_request
read_request-cores w t = elim (Bool-cases (str_eq t.identity w.identity)) [
  | inl b ↦ rw (b, read_request) refl
  | inr b ↦ rw (b, read_request) refl
]

take_task-cores : (w : Worker) → (take_task w).cores ≡ w.cores
take_task-cores w = elim (List-cases w.tasks) [
  | inl e ↦ ap (λ (z : Worker). z.cores) (take_none w e)
  | inr (t, ts, e) ↦ elim (Bool-cases (ltb (length w.running) w.cores)) [
    | inl b ↦ ap (λ (z : Worker). z.cores) (take_some w e b)
    | inr b ↦ ap (λ (z : Worker). z.cores) (take_busy w b)
  ]
]

finish_task-cores :
    (r : Reducer) (s s' : Store) (w w' : Worker) (i : ℕ)
    → i < length w.running
    → finish_task r s w i ≡ ok (s', w')
    → w.cores ≡ w'.cores
finish_task-cores r s s' w w' i less run =
    let (t, at) = get_elem?-some w.running i less in
    let (_, end) = finish_task-done r s s' w w' i t at run in ap (λ (z : Worker). z.cores) end

check_output_queue-cores :
    (w w' : Worker) (x : WorkerTaskId)
    → check_output_queue w ≡ (w', some (task_id x))
    → w.cores ≡ w'.cores
check_output_queue-cores w w' x run =
    let (_, _, end) = check_output_queue-front w w' x run in ap (λ (z : Worker). z.cores) end

notify-HasThread :
    (t : WorkerTask) (nodes : List Node)
    → All HasThread nodes
    → All HasThread (map (notify t) nodes)
notify-HasThread t [] h = tt
notify-HasThread t (n ∷ nodes) h = (h.0, notify-HasThread t nodes h.1)

deliver-HasThread :
    (sent : List Output) (nodes : List Node)
    → All HasThread nodes
    → All HasThread (deliver sent nodes)
deliver-HasThread [] nodes h = h
deliver-HasThread (publish t ∷ os) nodes h =
    deliver-HasThread os (map (notify t) nodes) (notify-HasThread t nodes h)
deliver-HasThread (to_manager id ∷ os) nodes h = deliver-HasThread os nodes h

-- Another state of one worker, with as many threads.
replace-HasThread :
    (nodes pre post : List Node) (n n' : Node)
    → nodes ≡ pre ++ n ∷ post
    → n'.worker.cores ≡ n.worker.cores
    → All HasThread nodes
    → All HasThread (pre ++ n' ∷ post)
replace-HasThread nodes pre post n n' at same h =
    let (there, _, put) = All-replace HasThread pre post n (subst (All HasThread) at h) in
    put n' (subst (λ c. 0 < c) (sym same) there)

module _ (lib : GraphLibrary) (sort : lib.Graph → Result (List ℕ)) (r : Reducer)
    (problem_id : ℕ) where
  pub Step-HasThread :
      (κ μ : Cluster lib sort)
      → Step lib sort r problem_id κ μ
      → All HasThread κ.nodes
      → All HasThread μ.nodes
  Step-HasThread κ μ (Step.send some_task run) h = h
  Step-HasThread κ μ (Step.route {sent = sent} at run) h = deliver-HasThread sent κ.nodes h
  Step-HasThread κ μ (Step.hear pre post n {t = t} at e) h =
      replace-HasThread κ.nodes pre post n _ at (read_request-cores n.worker t) h
  Step-HasThread κ μ (Step.take pre post n at e free) h =
      replace-HasThread κ.nodes pre post n _ at (take_task-cores n.worker) h
  Step-HasThread κ μ (Step.finish pre post n i {s = s} {w = w} at less run) h =
      replace-HasThread κ.nodes pre post n (record n { worker = w }) at
        (sym (finish_task-cores r κ.store s n.worker w i less run)) h
  Step-HasThread κ μ (Step.respond pre post n {w = w} {response = x} at run) h =
      replace-HasThread κ.nodes pre post n (record n { worker = w }) at
        (sym (check_output_queue-cores n.worker w x run)) h
  Step-HasThread κ μ (Step.settle pre post {sent = sent} identity x at run) h =
      deliver-HasThread sent κ.nodes h
  Step-HasThread κ μ (Step.reply at own run) h = h
