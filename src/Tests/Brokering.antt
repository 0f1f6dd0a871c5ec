-- ===== src/Tests/Brokering.antt =====
-- A broker with two workers, and one with tasks that wait.
use distributed_task_dispatc.Prelude.{
  ℕ, ◌+◌, ◌≡◌, refl, ap, ◌⊎◌, inl, inr, List, [], ◌∷◌, ◌++◌, String, some, ok, arith, lookup,
  assign, suc, Eq_string, if◌then◌else◌, str_eq, str_eq_iff,
}
use distributed_task_dispatc.Messages.{Task, WorkerTaskId}
use distributed_task_dispatc.Broker.{
  Broker, Output, publish, to_manager, pop, send_task_to_worker, process_worker_task_reply,
}
use distributed_task_dispatc.Broker.Cores.{
  Tracks, published, less_one, Refill, send_task_to_worker-Tracks, process_worker_task_reply-Tracks,
}
use distributed_task_dispatc.Broker.Queue.{replies, tasks_of, Registered, replies-repeat_last}

abbrev task : ℕ → Task
task n = record { id = record { problem_id = 0; task_id = n }; operation_type = 4; operands = [] }

-- One worker with a busy core and a free one, and one with no free core.
abbrev broker : Broker
broker = record { available = ("a", 1) ∷ ("b", 0) ∷ []; task_queue = [] }

abbrev cores : String → ℕ
cores w = if str_eq "a" w then 2 else 1

abbrev load : String → ℕ
load w = 1

broker-Tracks : Tracks broker cores load
unfolding lookup
broker-Tracks = record {
  distinct = (λ i. elim i [ inl q ↦ cc ((str_eq_iff "a" "b").1 q) | inr z ↦ z ], (λ i. i, tt));
  bounded = λ w. ground arith;
  balance = λ w n e. ground (arith, str_eq_iff "a" w, str_eq_iff "b" w);
}

send_task_to_worker-Tracks_example :
    (b' : Broker) × (sent : List Output) × (send_task_to_worker broker (task 5) ≡ ok (b', sent))
    × Tracks b' cores (λ w. load w + published w sent)
    × (((w : String) × (n : ℕ) × (lookup w broker.available ≡ some (suc n))
          × (sent ≡ publish (record { identity = w; task = task 5 }) ∷ [])
          × (b'.task_queue ≡ [])
          × (b'.available ≡ assign w n broker.available))
        ⊎ ((sent ≡ [])
            × (b'.task_queue ≡ task 5 ∷ [])
            × (b'.available ≡ broker.available)
            × ((w : String) (n : ℕ) → lookup w broker.available ≡ some n → n ≡ 0)))
send_task_to_worker-Tracks_example =
    send_task_to_worker-Tracks broker cores load (task 5) broker-Tracks

abbrev answer : WorkerTaskId
answer = record { identity = "b"; id = record { problem_id = 0; task_id = 3 } }

answer_known : lookup "b" broker.available ≡ some 0
unfolding lookup
answer_known = refl

process_worker_task_reply-Tracks_example :
    (b' : Broker) × (sent : List Output) × (process_worker_task_reply broker answer
      ≡ ok (b', sent ++ to_manager answer.id ∷ []))
    × Tracks b' cores (λ w. less_one "b" load w + published w sent)
    × (b'.task_queue ≡ pop broker.task_queue)
    × Refill broker.task_queue "b" sent
process_worker_task_reply-Tracks_example =
    process_worker_task_reply-Tracks broker cores load answer 0 broker-Tracks answer_known
      (omega arith)

abbrev waiting : Broker
waiting = record { available = ("a", 0) ∷ ("b", 0) ∷ []; task_queue = task 7 ∷ task 8 ∷ [] }

abbrev answers : List WorkerTaskId
answers = record { identity = "a"; id = record { problem_id = 0; task_id = 2 } } ∷ answer ∷ []

answers-Registered : Registered waiting answers
answers-Registered m (inl q) = inl (ap (λ (r : WorkerTaskId). r.identity) q)
answers-Registered m (inr (inl q)) = inr (inl (ap (λ (r : WorkerTaskId). r.identity) q))
answers-Registered m (inr (inr i)) = absurd i

replies-repeat_last_example :
    (b' : Broker) × (sent : List Output) × (replies waiting answers ≡ ok (b', sent))
    × (b'.task_queue ≡ [])
    × (tasks_of sent ≡ task 8 ∷ task 8 ∷ [])
replies-repeat_last_example =
    replies-repeat_last waiting answers (task 8) refl refl answers-Registered
