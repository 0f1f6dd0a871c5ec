-- ===== src/Cluster/Loads.antt =====
-- The broker's counts of free cores against what its workers have in hand, in the cluster.
use distributed_task_dispatc.Prelude.{
  ℕ, ◌+◌, ◌≤◌, ◌≡◌, refl, subst, ◌⊎◌, arith, inl, inr, Bool-cases, List, [], ◌∷◌, ◌++◌, some,
  String, In, Distinct, keys, keys-lookup, lookup, lookup-In, Eq_string, if◌then◌else◌, str_eq,
  str_eq_iff,
}
use distributed_task_dispatc.Messages.{WorkerTask}
use distributed_task_dispatc.Broker.{Broker, Output, publish, to_manager}
use distributed_task_dispatc.Broker.Cores.{Tracks, published}
use distributed_task_dispatc.Cluster.Weights.{Weights, spread}

abbrev pub mark : String → String → ℕ
mark w i = if str_eq i w then 1 else 0

-- The tasks of one worker, from the broker's message to its response.
abbrev pub in_hand : String → Weights
in_hand w = record {
  request = λ t. 0;
  queue = λ t. 0;
  inbox = λ i t. if str_eq t.identity i then mark w t.identity else 0;
  taken = λ t. mark w t.identity;
  running = λ t. mark w t.identity;
  finished = λ x. mark w x.identity;
  response = λ x. mark w x.identity;
  reply = λ id. 0;
}

-- A task is heard by the one worker that it is for.
spread-absent :
    (w : String) (ids : List String) (t : WorkerTask)
    → ¬ In t.identity ids
    → spread (in_hand w) ids t ≡ 0
spread-absent w [] t n = refl
spread-absent w (i ∷ ids) t n = elim (Bool-cases (str_eq t.identity i)) [
  | inl b ↦ absurd (n (inl ((str_eq_iff t.identity i).0 b)))
  | inr b ↦ rw b (omega (arith, spread-absent w ids t (λ j. n (inr j))))
]

pub spread-once :
    (w : String) (ids : List String) (t : WorkerTask)
    → Distinct ids
    → In t.identity ids
    → spread (in_hand w) ids t ≡ mark w t.identity
spread-once w [] t d j = absurd j
spread-once w (i ∷ ids) t d (inl q) =
    let none_else : spread (in_hand w) ids t ≡ 0 =
      spread-absent w ids t (λ j. d.0 (subst (λ z. In z ids) q j)) in
    rw ((str_eq_iff t.identity i).1 q) (omega arith)
spread-once w (i ∷ ids) t d (inr j) =
    let ih = spread-once w ids t d.1 j in
    elim (Bool-cases (str_eq t.identity i)) [
      | inl b ↦ absurd (d.0 (subst (λ z. In z ids) ((str_eq_iff t.identity i).0 b) j))
      | inr b ↦ rw b (omega arith)
    ]

pub Tracks-same :
    (b : Broker) (cores load load' : String → ℕ)
    → ((w : String) → load w ≡ load' w)
    → Tracks b cores load
    → Tracks b cores load'
Tracks-same b cores load load' same h = record {
  distinct = h.distinct;
  bounded = h.bounded;
  balance = λ w n at. omega (arith, h.balance w n at, same w);
}

-- Tasks wait only while no worker has a free core.
abbrev pub WaitsFull : Broker → Type 0
WaitsFull b = (b.task_queue ≡ []) ⊎ ((w : String) (n : ℕ) → lookup w b.available ≡ some n → n ≡ 0)

-- Workers that are full stay full while their tasks grow in number.
pub stays-full :
    (b b' : Broker) (cores load load' : String → ℕ)
    → Tracks b cores load
    → Tracks b' cores load'
    → keys b'.available ≡ keys b.available
    → ((w : String) → load w ≤ load' w)
    → ((w : String) (n : ℕ) → lookup w b.available ≡ some n → n ≡ 0)
    → (w : String) (n : ℕ) → lookup w b'.available ≡ some n
    → n ≡ 0
stays-full b b' cores load load' h h' same more full w n at =
    let (k, before) = keys-lookup w b.available (subst (In w) same (lookup-In w b'.available at)) in
    omega (arith, h.balance w k before, h'.balance w n at, more w, full w k before)

pub published-append :
    (w : String) (xs ys : List Output) → published w (xs ++ ys) ≡ published w xs + published w ys
published-append w [] ys = omega arith
published-append w (publish t ∷ xs) ys = omega (arith, published-append w xs ys)
published-append w (to_manager id ∷ xs) ys = published-append w xs ys
