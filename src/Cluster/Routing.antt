-- ===== src/Cluster/Routing.antt =====
-- What the broker does with a request and with a response, to the workers that it knows, its queue
-- and the messages that it sends.
use distributed_task_dispatc.Prelude.{
  ℕ, ◌≡◌, refl, sym, ap, ◌∙◌, subst, ◌⊎◌, inl, inr, Bool-cases, false, List, [], ◌∷◌, ◌++◌, some,
  String, ok, err, >>=-eq-ok, or_fault, Option-cases, List-cases, get_last?, get_last?-some, In,
  keys, lookup, assign, keys-lookup, lookup-In, Eq_string, out_of_range, str_eq, ◌==◌,
}
use distributed_task_dispatc.Messages.{WorkerTask, Task, WorkerTaskId, task_id, from_message}
use distributed_task_dispatc.Broker.{
  Broker, Output, publish, to_manager, pop, is_empty, find_free, send_task_to_worker_impl,
  send_task_to_worker_from_queue, send_task_to_worker, process_worker_task_reply,
  receive_manager_request, receive_worker_message, increment, decrement,
}

-- An entry that is there keeps its place.
keys-assign_known :
    (w : String) (n : ℕ) (m : List (String × ℕ)) {k : ℕ}
    → lookup w m ≡ some k
    → keys (assign w n m) ≡ keys m
unfolding lookup assign
keys-assign_known w n [] at = cc
keys-assign_known w n ((i, k) ∷ m) at = elim (Bool-cases (str_eq i w)) [
  | inl b ↦ rw b refl
  | inr b ↦ rw b (ap (◌∷◌ i) (keys-assign_known w n m (rw b at at)))
]

find_free-In : (m : List (String × ℕ)) (w : String) → find_free m ≡ some w → In w (keys m)
unfolding find_free
find_free-In [] w h = cc
find_free-In ((i, n) ∷ m) w h = elim (Bool-cases (n == 0)) [
  | inl b ↦ inr (find_free-In m w (rw b at h))
  | inr b ↦ inl (let q : some i ≡ some w = rw b at h in cc q)
]

-- A task for a worker that is known.
impl-known :
    (b : Broker) (t : WorkerTask) {k : ℕ}
    → lookup t.identity b.available ≡ some k
    → send_task_to_worker_impl b t
      ≡ ok (record b { available = assign t.identity (decrement k) b.available }, publish t ∷ [])
unfolding send_task_to_worker_impl
impl-known b t at = rw (at, send_task_to_worker_impl) refl

-- A request goes to a worker that the broker knows, or to the end of the queue.
abbrev pub Routed : Broker → Task → Broker → List Output → Type 0
Routed b t b' sent =
    (keys b'.available ≡ keys b.available)
    × (((w : String) × In w (keys b.available)
          × (sent ≡ publish (record { identity = w; task = t }) ∷ [])
          × (b'.task_queue ≡ b.task_queue))
        ⊎ ((sent ≡ []) × (b'.task_queue ≡ b.task_queue ++ t ∷ [])))

pub receive_manager_request-Routed :
    (b : Broker) (t : Task)
    → (b' : Broker) × (sent : List Output) × (receive_manager_request b (some t) ≡ ok (b', sent))
      × Routed b t b' sent
unfolding receive_manager_request from_message send_task_to_worker
receive_manager_request-Routed b t = elim (Option-cases (find_free b.available)) [
  | inl e ↦ (
    record b { task_queue = b.task_queue ++ t ∷ [] },
    [],
    rw (e, send_task_to_worker) refl,
    (refl, inr (refl, refl)),
  )
  | inr (w, e) ↦
      let i = find_free-In b.available w e in
      let (k, at) = keys-lookup w b.available i in
      (
        record b { available = assign w (decrement k) b.available },
        publish (record { identity = w; task = t }) ∷ [],
        rw (e, send_task_to_worker) (impl-known b (record { identity = w; task = t }) at),
        (keys-assign_known w (decrement k) b.available at, inl (w, i, refl, refl)),
      )
]

-- A response is passed on, and its worker gets the task at the back of the queue while the queue
-- loses the one at its front.
abbrev pub Settled : Broker → WorkerTaskId → Broker → List Output → Type 0
Settled b x b' sent =
    (keys b'.available ≡ keys b.available)
    × (b'.task_queue ≡ pop b.task_queue)
    × (((b.task_queue ≡ []) × (sent ≡ to_manager x.id ∷ []))
        ⊎ ((t : Task) × (get_last? b.task_queue ≡ some t)
            × (sent ≡ publish (record { identity = x.identity; task = t }) ∷ to_manager x.id ∷ [])))

pub receive_response-Settled :
    (b : Broker) (identity : String) (x : WorkerTaskId)
    → In x.identity (keys b.available)
    → (b' : Broker) × (sent : List Output) × (receive_worker_message b identity (some (task_id x))
        ≡ ok (b', sent))
      × Settled b x b' sent
unfolding receive_worker_message from_message process_worker_task_reply
    send_task_to_worker_from_queue send_task_to_worker_impl assign
receive_response-Settled b identity x i =
    let w = x.identity in
    let (n, at) = keys-lookup w b.available i in
    let m = assign w (increment n) b.available in
    let same = keys-assign_known w (increment n) b.available at in
    let (k, there) = keys-lookup w m (subst (In w) (sym same) i) in
    elim (List-cases b.task_queue) [
      | inl e ↦ (
        record b { available = m },
        to_manager x.id ∷ [],
        rw (at, process_worker_task_reply, ap is_empty e) refl,
        (same, e ∙ sym (ap pop e), inl (e, refl)),
      )
      | inr (u, rest, e) ↦
          let (t, last) = get_last?-some (u ∷ rest) u (inl refl) in
          let at_back : get_last? b.task_queue ≡ some t = ap get_last? e ∙ last in
          let filled : is_empty b.task_queue ≡ false = ap is_empty e in
          (
            record { available = assign w (decrement k) m; task_queue = pop b.task_queue },
            publish (record { identity = w; task = t }) ∷ to_manager x.id ∷ [],
            rw (at, process_worker_task_reply, filled, at_back, there) refl,
            (keys-assign_known w (decrement k) m there ∙ same, refl, inr (t, at_back, refl)),
          )
    ]

-- The broker knows the worker of a response that it accepts.
pub accepted-In :
    (b b' : Broker) (identity : String) (x : WorkerTaskId) (sent : List Output)
    → receive_worker_message b identity (some (task_id x)) ≡ ok (b', sent)
    → In x.identity (keys b.available)
unfolding receive_worker_message from_message process_worker_task_reply
accepted-In b b' identity x sent run =
    let (n, found, _) = >>=-eq-ok (or_fault (lookup x.identity b.available) out_of_range) _ run in
    elim (Option-cases (lookup x.identity b.available)) [
      | inl e ↦ absurd (let q : err out_of_range ≡ ok n = rw e at found in cc q)
      | inr (k, e) ↦ lookup-In x.identity b.available e
    ]

-- What follows from a response that the broker accepts.
pub accepted-Settled :
    (b b' : Broker) (identity : String) (x : WorkerTaskId) (sent : List Output)
    → receive_worker_message b identity (some (task_id x)) ≡ ok (b', sent)
    → Settled b x b' sent
accepted-Settled b b' identity x sent run =
    let (b₁, sent₁, run₁, is) =
      receive_response-Settled b identity x (accepted-In b b' identity x sent run) in
    let q : ok (b₁, sent₁) ≡ ok (b', sent) = sym run₁ ∙ run in
    let e : b₁ ≡ b' = cc q in
    let f : sent₁ ≡ sent = cc q in
    subst (λ (z : Broker × List Output). Settled b x z.0 z.1) (λ i. (e i, f i)) is

pub accepted-Routed :
    (b b' : Broker) (t : Task) (sent : List Output)
    → receive_manager_request b (some t) ≡ ok (b', sent)
    → Routed b t b' sent
accepted-Routed b b' t sent run =
    let (b₁, sent₁, run₁, is) = receive_manager_request-Routed b t in
    let q : ok (b₁, sent₁) ≡ ok (b', sent) = sym run₁ ∙ run in
    let e : b₁ ≡ b' = cc q in
    let f : sent₁ ≡ sent = cc q in
    subst (λ (z : Broker × List Output). Routed b t z.0 z.1) (λ i. (e i, f i)) is
