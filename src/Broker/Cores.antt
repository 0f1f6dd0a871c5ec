-- ===== src/Broker/Cores.antt =====
-- The broker's count of free cores against the tasks that each worker has in hand.
use distributed_task_dispatc.Prelude.{
  ℕ, zero, suc, ◌+◌, ◌-◌, ◌^◌, ◌<◌, ◌≡◌, refl, sym, ap, ◌∙◌, subst, ◌⊎◌, inl, inr, false, not, List,
  [], ◌∷◌, ◌++◌, none, some, String, ok, arith, In, Distinct, keys, lookup, assign, Eq_string,
  lookup-assign, lookup-assign_self, lookup-In, Distinct-assign, if◌then◌else◌, str_eq, str_eq_iff,
  Bool-cases, Option-cases, get_last?, get_last?-some, List-cases,
}
use distributed_task_dispatc.Messages.{Task, WorkerTask, WorkerTaskId}
use distributed_task_dispatc.Broker.{
  Broker, Output, publish, to_manager, increment, decrement, pop, is_empty, find_free,
  send_task_to_worker_impl, send_task_to_worker_from_queue, send_task_to_worker,
  process_worker_task_reply,
}

-- How many of the messages give a task to a worker.
abbrev pub published : String → List Output → ℕ
published w [] = 0
published w (publish t ∷ os) = (if str_eq t.identity w then 1 else 0) + published w os
published w (to_manager id ∷ os) = published w os

-- Each worker has `cores` and holds `load` tasks; the broker's number is what is free.
pub record Tracks (b : Broker) (cores load : String → ℕ) : Type 0 where
  pub distinct : Distinct (keys b.available)
  pub bounded : (w : String) → cores w < 2 ^ 64
  pub balance : (w : String) (n : ℕ) → lookup w b.available ≡ some n → n + load w ≡ cores w

-- The worker that is found has a free core, and none is found only if no worker has one.
find_free-some :
    (m : List (String × ℕ)) (w : String)
    → Distinct (keys m)
    → find_free m ≡ some w
    → (n : ℕ) × (lookup w m ≡ some (suc n))
unfolding find_free lookup
find_free-some [] w d h = cc
find_free-some ((i, zero) ∷ m) w d h =
    let (n, at) = find_free-some m w d.1 h in
    elim (Bool-cases (str_eq i w)) [
      | inl b ↦
          absurd (d.0 (subst (λ v. In v (keys m)) (sym ((str_eq_iff i w).0 b)) (lookup-In w m at)))
      | inr b ↦ (n, rw b at)
    ]
find_free-some ((i, suc k) ∷ m) w d h = (k, ground (arith, str_eq_iff i w))

pub find_free-none :
    (m : List (String × ℕ)) (w : String) (n : ℕ) → find_free m ≡ none → lookup w m ≡ some n → n ≡ 0
unfolding find_free lookup
find_free-none [] w n h k = cc
find_free-none ((i, zero) ∷ m) w n h k = elim (Bool-cases (str_eq i w)) [
  | inl b ↦ ground arith
  | inr b ↦ find_free-none m w n h (rw b at k)
]
find_free-none ((i, suc j) ∷ m) w n h k = ground arith

-- A task for a worker with a free core takes that core.
impl-Tracks :
    (b : Broker) (cores load : String → ℕ) (t : WorkerTask) (n : ℕ)
    → Tracks b cores load
    → lookup t.identity b.available ≡ some (suc n)
    → (b' : Broker) × (send_task_to_worker_impl b t ≡ ok (b', publish t ∷ []))
      × Tracks b' cores (λ w. load w + published w (publish t ∷ []))
      × (b'.task_queue ≡ b.task_queue)
      × (b'.available ≡ assign t.identity n b.available)
unfolding send_task_to_worker_impl
impl-Tracks b cores load t n h at =
    let full = h.balance t.identity (suc n) at in
    let limit = h.bounded t.identity in
    let less : decrement (suc n) ≡ n = omega arith in
    (
      record b { available = assign t.identity n b.available },
      rw (at, less) refl,
      record {
        distinct = Distinct-assign t.identity n b.available h.distinct;
        bounded = h.bounded;
        balance = λ w k e. elim (Bool-cases (str_eq t.identity w)) [
          | inl q ↦
              let same = (str_eq_iff t.identity w).0 q in
              ground (arith, lookup-assign t.identity w n b.available, ap load same, ap cores same)
          | inr q ↦ ground (arith, lookup-assign t.identity w n b.available, h.balance w k)
        ];
      },
      refl,
      refl,
    )

-- A request never throws while the counts are right. Either it is published, alone, for a worker
-- that is registered with at least one free core, whose count falls by one and no other's, and the
-- queue stays; or no registered worker has a free core, nothing is published, and the request goes
-- to the end of the queue. The count stays right for every worker.
pub send_task_to_worker-Tracks :
    (b : Broker) (cores load : String → ℕ) (t : Task)
    → Tracks b cores load
    → (b' : Broker) × (sent : List Output) × (send_task_to_worker b t ≡ ok (b', sent))
      × Tracks b' cores (λ w. load w + published w sent)
      × (((w : String) × (n : ℕ) × (lookup w b.available ≡ some (suc n))
            × (sent ≡ publish (record { identity = w; task = t }) ∷ [])
            × (b'.task_queue ≡ b.task_queue)
            × (b'.available ≡ assign w n b.available))
          ⊎ ((sent ≡ [])
              × (b'.task_queue ≡ b.task_queue ++ t ∷ [])
              × (b'.available ≡ b.available)
              × ((w : String) (n : ℕ) → lookup w b.available ≡ some n → n ≡ 0)))
unfolding send_task_to_worker
send_task_to_worker-Tracks b cores load t h = elim (Option-cases (find_free b.available)) [
  | inl e ↦ (
    record b { task_queue = b.task_queue ++ t ∷ [] },
    [],
    rw (e, send_task_to_worker) refl,
    record {
      distinct = h.distinct;
      bounded = h.bounded;
      balance = λ w n k. omega (arith, h.balance w n k);
    },
    inr (refl, refl, refl, λ w n k. find_free-none b.available w n e k),
  )
  | inr (w, e) ↦
      let (n, at) = find_free-some b.available w h.distinct e in
      let (b', run, tracks, queue, counts) =
        impl-Tracks b cores load (record { identity = w; task = t }) n h at in
      (
        b',
        publish (record { identity = w; task = t }) ∷ [],
        rw (e, send_task_to_worker) run,
        tracks,
        inl (w, n, at, refl, queue, counts),
      )
]

-- The state in which a reply leaves the broker before it looks at the queue.
credited : Broker → String → ℕ → Broker
credited b w n = record b { available = assign w (suc n) b.available }

abbrev pub less_one : String → (String → ℕ) → String → ℕ
less_one w load v = load v - (if str_eq w v then 1 else 0)

credited-Tracks :
    (b : Broker) (cores load : String → ℕ) (w : String) (n : ℕ)
    → Tracks b cores load
    → lookup w b.available ≡ some n
    → 0 < load w
    → Tracks (credited b w n) cores (less_one w load)
unfolding credited
credited-Tracks b cores load w n h at some_load = record {
  distinct = Distinct-assign w (suc n) b.available h.distinct;
  bounded = h.bounded;
  balance = λ v k e. elim (Bool-cases (str_eq w v)) [
    | inl q ↦
        let same = (str_eq_iff w v).0 q in
        ground (
          arith,
          lookup-assign w v (suc n) b.available,
          ap load same,
          ap cores same,
          h.balance w n at,
        )
    | inr q ↦ ground (arith, lookup-assign w v (suc n) b.available, h.balance v k)
  ];
}

-- What the reply gives the worker from the queue.
abbrev pub Refill : List Task → String → List Output → Type 0
Refill queue w sent =
    ((queue ≡ []) × (sent ≡ []))
    ⊎ ((t : Task) × (get_last? queue ≡ some t)
        × (sent ≡ publish (record { identity = w; task = t }) ∷ []))

refill_lem :
    (b : Broker) (cores load : String → ℕ) (w : String) (n : ℕ)
    → Tracks b cores load
    → lookup w b.available ≡ some (suc n)
    → (b' : Broker) × (sent : List Output) × ((if not (is_empty b.task_queue)
          then send_task_to_worker_from_queue b w
          else ok (b, []))
        ≡ ok (b', sent))
      × Tracks b' cores (λ v. load v + published v sent)
      × (b'.task_queue ≡ pop b.task_queue)
      × Refill b.task_queue w sent
unfolding send_task_to_worker_from_queue
refill_lem b cores load w n h at = elim (List-cases b.task_queue) [
  | inl e ↦ (
    b,
    [],
    rw e refl,
    record {
      distinct = h.distinct;
      bounded = h.bounded;
      balance = λ v k q. omega (arith, h.balance v k q);
    },
    rw e refl,
    inl (e, refl),
  )
  | inr (x, rest, e) ↦
      let (t, last) = get_last?-some (x ∷ rest) x (inl refl) in
      let filled : is_empty b.task_queue ≡ false = ap is_empty e in
      let at_back : get_last? b.task_queue ≡ some t = ap get_last? e ∙ last in
      let (b', run, tracks, queue, _) =
        impl-Tracks (record b { task_queue = pop b.task_queue }) cores load
          (record { identity = w; task = t }) n
          (record { distinct = h.distinct; bounded = h.bounded; balance = h.balance }) at in
      (
        b',
        publish (record { identity = w; task = t }) ∷ [],
        rw (filled, at_back) run,
        tracks,
        queue,
        inr (t, at_back, refl),
      )
]

-- While the counts are right, a reply of a registered worker with a task in hand never throws, and
-- is passed on to the manager last. If tasks wait, the worker gets the task at the back of the
-- queue while the queue loses the one at its front; if none waits, nothing is published. The count
-- stays right for every worker.
pub process_worker_task_reply-Tracks :
    (b : Broker) (cores load : String → ℕ) (message : WorkerTaskId) (n : ℕ)
    → Tracks b cores load
    → lookup message.identity b.available ≡ some n
    → 0 < load message.identity
    → (b' : Broker) × (sent : List Output) × (process_worker_task_reply b message
        ≡ ok (b', sent ++ to_manager message.id ∷ []))
      × Tracks b' cores (λ w. less_one message.identity load w + published w sent)
      × (b'.task_queue ≡ pop b.task_queue)
      × Refill b.task_queue message.identity sent
unfolding process_worker_task_reply credited
process_worker_task_reply-Tracks b cores load message n h at some_load =
    let w = message.identity in
    let full = h.balance w n at in
    let limit = h.bounded w in
    let more : increment n ≡ suc n = omega arith in
    let tracks = credited-Tracks b cores load w n h at some_load in
    let (b', sent, run, tracks', queue, refilled) =
      refill_lem (credited b w n) cores (less_one w load) w n tracks
        (lookup-assign_self w (suc n) b.available) in
    (b', sent, rw (at, more, run) refl, tracks', queue, refilled)
