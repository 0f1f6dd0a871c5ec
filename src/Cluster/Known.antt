-- ===== src/Cluster/Known.antt =====
-- The broker knows the worker of every response that it receives.
use distributed_task_dispatc.Prelude.{
  ℕ, ◌≡◌, refl, sym, arith, inl, inr, Bool-cases, List, [], ◌∷◌, String, Result, In, if◌then◌else◌,
  str_eq, str_eq_iff,
}
use distributed_task_dispatc.Messages.{WorkerTask, Task, WorkerTaskId}
use distributed_task_dispatc.Domain.Arith.{Reducer}
use distributed_task_dispatc.Dag.Library.{GraphLibrary}
use distributed_task_dispatc.Cluster.{Cluster, Step}
use distributed_task_dispatc.Cluster.Weights.{Weights, total, spread, weight}
use distributed_task_dispatc.Cluster.Falling.{IsFalling, Fixed, Step-Lower}
use distributed_task_dispatc.Cluster.Live.{total-In}

-- 0 for a name of the list, 1 for another.
abbrev pub absent : List String → String → ℕ
absent [] w = 1
absent (i ∷ names) w = if str_eq i w then 0 else absent names w

absent-In : (names : List String) (w : String) → In w names → absent names w ≡ 0
absent-In [] w i = absurd i
absent-In (n ∷ names) w i = elim (Bool-cases (str_eq n w)) [
  | inl b ↦ rw b refl
  | inr b ↦ elim i [
    | inl q ↦ rw ((str_eq_iff n w).1 (sym q)) refl
    | inr j ↦ rw b (absent-In names w j)
  ]
]

pub In-absent : (names : List String) (w : String) → absent names w ≡ 0 → In w names
In-absent [] w z = absurd (omega arith)
In-absent (n ∷ names) w z = elim (Bool-cases (str_eq n w)) [
  | inl b ↦ inl (sym ((str_eq_iff n w).0 b))
  | inr b ↦ inr (In-absent names w (rw b at z))
]

-- The messages of workers that the broker does not know.
abbrev pub strangers : List String → Weights
strangers names = record {
  request = λ t. 0;
  queue = λ t. 0;
  inbox = λ i t. absent names t.identity;
  taken = λ t. absent names t.identity;
  running = λ t. absent names t.identity;
  finished = λ x. absent names x.identity;
  response = λ x. absent names x.identity;
  reply = λ id. 0;
}

spread-strangers :
    (ids names : List String) (t : WorkerTask)
    → In t.identity names
    → spread (strangers names) ids t ≡ 0
spread-strangers [] names t i = refl
spread-strangers (w ∷ ids) names t i =
    omega (arith, absent-In names t.identity i, spread-strangers ids names t i)

strangers-IsFalling : (ids names : List String) → IsFalling 0 (strangers names) ids names
strangers-IsFalling ids names = record {
  route = λ t w i.
      let z = spread-strangers ids names (record { identity = w; task = t }) i in omega arith;
  wait = λ t. omega arith;
  hear = λ i t. elim (Bool-cases (str_eq t.identity i)) [
    | inl b ↦ rw b (omega arith)
    | inr b ↦ rw b (omega arith)
  ];
  take = λ t. omega arith;
  finish = λ t. omega arith;
  respond = λ x. omega arith;
  settle = λ x i. omega arith;
  refill = λ x t u i.
      let z = spread-strangers ids names (record { identity = x.identity; task = t }) i in
      omega arith;
  reply = λ id. omega arith;
}

pub total-zero : (requests : List Task) → total (λ (t : Task). 0) requests ≡ 0
total-zero [] = refl
total-zero (t ∷ ts) = omega (arith, total-zero ts)

module _ (lib : GraphLibrary) (sort : lib.Graph → Result (List ℕ)) (r : Reducer) (problem_id : ℕ)
    (ids names : List String) where
  pub Step-strangers :
      (κ μ : Cluster lib sort)
      → Step lib sort r problem_id κ μ
      → Fixed lib sort ids names κ
      → weight (strangers names) lib sort κ ≡ 0
      → weight (strangers names) lib sort μ ≡ 0
  Step-strangers κ μ st fixed z =
      let (_, moved) =
        Step-Lower lib sort r problem_id 0 (strangers names) ids names
          (strangers-IsFalling ids names) κ μ st fixed in
      elim moved [
        | inl (requests, c, _, _, _, sum) ↦ omega (arith, total-zero requests)
        | inr less ↦ omega arith
      ]

  pub response-In :
      (κ : Cluster lib sort) (identity : String) (x : WorkerTaskId)
      → weight (strangers names) lib sort κ ≡ 0
      → In (identity, x) κ.responses
      → In x.identity names
  response-In κ identity x z i =
      let there =
        total-In (λ (y : String × WorkerTaskId). absent names y.1.identity) κ.responses
          (identity, x) i in
      In-absent names x.identity (omega arith)
