-- ===== src/Cluster/Complete.antt =====
-- A problem that the cluster calculates alone, with nothing under way at its start: the steps that it
-- takes, and that it goes on until its value is there.
use distributed_task_dispatc.Prelude.{
  ℕ, ◌+◌, ◌*◌, ◌≤◌, ◌<◌, ◌^◌, ◌≡◌, ◌≢◌, refl, sym, ap, ◌∙◌, subst, ◌⊎◌, arith, inl, inr, true,
  false, List, [], ◌∷◌, none, some, String, Result, ok, length, get_last?, In, In-append, keys,
  Eq_nat, List-cases, Distinct, Option, Option-cases, lookup, lookup-In, keys-lookup, All,
  Eq_string,
}
use distributed_task_dispatc.Domain.{ExprResult}
use distributed_task_dispatc.Domain.Arith.{Reducer}
use distributed_task_dispatc.Expr.{Expr}
use distributed_task_dispatc.Expr.Traversal.{postorder, is_complete}
use distributed_task_dispatc.Dag.Library.{GraphLibrary}
use distributed_task_dispatc.Decomposition.Order.{Sorts}
use distributed_task_dispatc.Decomposition.{TaskDecompositor}
use distributed_task_dispatc.Decomposition.Independent.{variable_of, is_constant}
use distributed_task_dispatc.Messages.{TaskId, Task}
use distributed_task_dispatc.Database.{key_eq, dyn_id, dyn_record_id, find_row, read_data}
use distributed_task_dispatc.Dispatch.{processing, new_calculation}
use distributed_task_dispatc.Dispatch.Work.{work-bound}
use distributed_task_dispatc.Dispatch.Progress.{first_remaining, IsConsistent-progress}
use distributed_task_dispatc.Dispatch.Send.{send_problem-IsConsistent}
use distributed_task_dispatc.System.{evaluate, static_value}
use distributed_task_dispatc.System.Correct.{IsMade, making, made-Coherent, Coherent-correct}
use distributed_task_dispatc.Cluster.{Node, Cluster, Step, Alone, IsOther}
use distributed_task_dispatc.Cluster.Holds.{Holds-imply}
use distributed_task_dispatc.Cluster.Explained.{Asked, Replied, IsExplained}
use distributed_task_dispatc.Cluster.Steps.{step-IsExplained}
use distributed_task_dispatc.Cluster.Weights.{Weights, total, weight, identities}
use distributed_task_dispatc.Cluster.Falling.{Fixed}
use distributed_task_dispatc.Cluster.Ends.{levels, readers, worth_le, left, Step-falls, Alone-falls}
use distributed_task_dispatc.Cluster.Live.{IsLive, Step-IsLive}
use distributed_task_dispatc.Cluster.Carried.{passing}
use distributed_task_dispatc.Cluster.Known.{strangers, total-zero, Step-strangers}
use distributed_task_dispatc.Cluster.Threads.{HasThread, Step-HasThread}
use distributed_task_dispatc.Cluster.Loads.{in_hand}
use distributed_task_dispatc.Cluster.Tracked.{IsTracked, Step-IsTracked}
use distributed_task_dispatc.Cluster.Moving.{Nothing, message-next}
use distributed_task_dispatc.Cluster.Idle.{IsIdle, idle_weight, All-empty}

length-identities : (nodes : List Node) → length (identities nodes) ≡ length nodes
length-identities [] = refl
length-identities (n ∷ nodes) = omega (arith, length-identities nodes)

readers_lem : (ids : List String) → readers ids ≡ 6 * length ids
readers_lem [] = omega arith
readers_lem (i ∷ ids) = omega (arith, readers_lem ids)

-- What the broker was told of a worker.
abbrev or_zero : Option ℕ → ℕ
or_zero none = 0
or_zero (some n) = n

bound_lem : (w n t l : ℕ) → w ≡ 6 * n → l ≤ 2 * t → (w + 3) * l ≤ (12 * n + 6) * t
bound_lem w n t l e le =
    let most = worth_le w l (2 * t) le in
    let all : (w + 3) * (2 * t) ≡ (12 * n + 6) * t = rw e (grind arith) in omega arith

module _ (lib : GraphLibrary) (sort : lib.Graph → Result (List ℕ)) (sorts : Sorts lib sort)
    (root : Expr) (complete : is_complete root ≡ true)
    (plain : (e : Expr) → In e (postorder root) → is_constant e ≡ false)
    (operation : variable_of root ≡ []) (r : Reducer) (problem_id : ℕ) (κ : Cluster lib sort)
    (fresh : (t : ℕ) → find_row (dyn_record_id problem_id t) κ.store.dynamic_data ≡ none)
    (idle : IsIdle lib sort κ) (made : new_calculation lib sort root ≡ ok κ.entry)
    (small : length (lib.properties κ.entry.decompositor.graph) ≤ 2 ^ 32) (last : ℕ)
    (at_end : get_last? κ.entry.decompositor.tasks ≡ some last) where
  abbrev apart : (id : TaskId) → Nothing id → IsOther problem_id id
  apart id z = absurd z

  abbrev start :
      IsMade lib sort sorts root complete plain operation r problem_id κ.store fresh κ.entry made
        small last at_end
  start =
      making lib sort sorts root complete plain operation r problem_id κ.store fresh κ.entry made
        small last at_end

  -- What explains a state of the problem alone.
  abbrev Explained : Cluster lib sort → Type 0
  Explained μ =
      IsExplained lib sort root start.d start.h r (static_value κ.store) problem_id complete plain
        start.bound Nothing apart μ

  -- The cores that the broker was told of.
  abbrev cores : String → ℕ
  cores w = or_zero (lookup w κ.broker.available)

  abbrev Remains : Cluster lib sort → Type 0
  Remains μ =
      Explained μ
      × Fixed lib sort (identities κ.nodes) (keys κ.broker.available) μ
      × (weight (strangers (keys κ.broker.available)) lib sort μ ≡ 0)
      × IsLive lib sort root start.d start.h r (static_value κ.store) problem_id complete plain
          start.bound Nothing apart μ

  start-Explained : Explained κ
  start-Explained = record {
    sent = [];
    answered = [];
    coherent =
        made-Coherent lib sort sorts root complete plain operation r problem_id κ.store fresh
          κ.entry made small last at_end;
    holds =
        Holds-imply lib sort (λ (t : Task). ⊥) (Asked Nothing []) (λ (id : TaskId). ⊥)
          (Replied Nothing []) κ (λ t z. absurd z) (λ id z. absurd z) idle;
  }

  start-Remains : Remains κ
  start-Remains = (
    start-Explained,
    (refl, refl),
    idle_weight lib sort (strangers (keys κ.broker.available)) κ idle,
    λ t busy. let (z, _) = (start.leaves t processing).0 busy in cc z,
  )

  -- For every sort that meets `Sorts`, every order in which the standard library reduces, and every
  -- tree without null operands and constants that is not a single variable and has at most 2 ^ 32
  -- distinct nodes, on a store without values of the problem: when nothing is under way in the
  -- cluster as the problem starts, and nothing but the problem runs, it takes at most 12 N + 6 steps
  -- for each task, where N is the number of workers, however many tasks wait at the broker.
  pub routed_ends :
      (m n : ℕ) (μ : Cluster lib sort)
      → Alone lib sort r problem_id m n κ μ
      → n ≤ (12 * length κ.nodes + 6) * length κ.entry.decompositor.tasks
  routed_ends m n μ run =
      let ids = identities κ.nodes in
      let (_, _, bound) =
        Alone-falls lib sort root start.d start.h r (static_value κ.store) problem_id complete plain
          start.bound Nothing apart ids (keys κ.broker.available) m n κ μ run start-Explained
          (refl, refl) in
      let z = idle_weight lib sort (levels (readers ids)) κ idle in
      let most = work-bound κ.entry.processed_tasks_to_status start.d.tasks in
      let size = ap (λ (y : TaskDecompositor lib sort). length y.tasks) start.same in
      let price = readers_lem ids in
      let workers = length-identities κ.nodes in
      let all =
        bound_lem (readers ids) (length κ.nodes) (length κ.entry.decompositor.tasks)
          (left lib sort root start.d start.h r (static_value κ.store) problem_id complete plain
            start.bound Nothing apart κ)
          (omega arith) (omega arith) in
      omega arith

  module _ (below : problem_id < 2 ^ 32) (threads : All HasThread κ.nodes)
      (here : (w : String) → In w (keys κ.broker.available) → In w (identities κ.nodes))
      (apart_workers : Distinct (identities κ.nodes))
      (known_once : Distinct (keys κ.broker.available))
      (bounded : (w : String) (n : ℕ) → lookup w κ.broker.available ≡ some n → n < 2 ^ 64) where
    abbrev Counted : Cluster lib sort → Type 0
    Counted μ =
        IsTracked lib sort r problem_id (identities κ.nodes) (keys κ.broker.available) apart_workers
          here cores μ

    start-Counted : Counted κ
    start-Counted = (
      record {
        distinct = known_once;
        bounded = λ w. elim (Option-cases (lookup w κ.broker.available)) [
          | inl e ↦ rw e (omega arith)
          | inr (n, e) ↦ let less = bounded w n e in rw e (omega arith)
        ];
        balance = λ w n at.
            let none_taken = idle_weight lib sort (in_hand w) κ idle in
            let told = ap or_zero at in omega arith;
      },
      inl (All-empty κ.broker.task_queue idle.queue),
    )

    Alone-HasThread :
        (n : ℕ) (ν μ : Cluster lib sort)
        → Alone lib sort r problem_id 1 n ν μ
        → All HasThread ν.nodes
        → All HasThread μ.nodes
    Alone-HasThread _ ν μ Alone.stop h = h
    Alone-HasThread _ ν μ (Alone.step {n = n} {μ = τ} st few rest) h =
        Alone-HasThread n τ μ rest (Step-HasThread lib sort r problem_id ν τ st h)

    Alone-Remains :
        (n : ℕ) (ν μ : Cluster lib sort)
        → length ν.broker.task_queue ≤ 1
        → Alone lib sort r problem_id 1 n ν μ
        → Remains ν × Counted ν
        → Remains μ × Counted μ
    Alone-Remains _ ν μ few Alone.stop good = good
    Alone-Remains _ ν μ few (Alone.step {n = n} {μ = τ} st few' rest)
          ((x, fixed, known, live), counted) =
        let ids = identities κ.nodes in
        let names = keys κ.broker.available in
        let x' =
          step-IsExplained lib sort root start.d start.h r (static_value κ.store) problem_id
            complete plain start.bound Nothing apart ν τ st x in
        let (fixed', _) =
          Step-falls lib sort root start.d start.h r (static_value κ.store) problem_id complete
            plain start.bound Nothing apart ids names ν τ st x fixed in
        let known' = Step-strangers lib sort r problem_id ids names ν τ st fixed known in
        let live' =
          Step-IsLive lib sort root start.d start.h r (static_value κ.store) problem_id complete
            plain start.bound Nothing apart ids names here ν τ st x fixed few live in
        let counted' =
          Step-IsTracked lib sort r problem_id ids names apart_workers here cores ν τ st fixed few
            counted in
        Alone-Remains n τ μ few' rest ((x', fixed', known', live'), counted')

    -- Where tasks wait, the workers are full, so there are messages of theirs.
    full-message :
        (μ : Cluster lib sort) (w : String) (n : ℕ)
        → lookup w κ.broker.available ≡ some n
        → 0 < n
        → keys μ.broker.available ≡ keys κ.broker.available
        → Counted μ
        → μ.broker.task_queue ≢ []
        → 0 < weight (in_hand w) lib sort μ
    full-message μ w n at some_core same (tracks, full) waits =
        let there = subst (In w) (sym same) (lookup-In w κ.broker.available at) in
        let (k, now) = keys-lookup w μ.broker.available there in
        let balance = tracks.balance w k now in
        let told = ap or_zero at in
        elim full [
          | inl empty ↦ absurd (waits empty)
          | inr zero_left ↦ let z = zero_left w k now in omega arith
        ]

    -- Under the conditions of `routed_ends`, if the problem's number is below 2 ^ 32, every worker has
    -- at least one thread, the workers have distinct identities, every worker that the broker knows is there, each known once with a count below 2 ^ 64, one of them with a
    -- free core at the start, and the tree has a value: where a run stands in which at most one task
    -- ever waits at the broker, either the value of the tree is what is read of the last task, or
    -- some step is possible.
    pub routed_progress :
        (free : String) (count : ℕ)
        → lookup free κ.broker.available ≡ some count
        → 0 < count
        → (v : ExprResult) → evaluate r (static_value κ.store) root ≡ ok v
        → (n : ℕ) (μ : Cluster lib sort) → Alone lib sort r problem_id 1 n κ μ
        → (read_data μ.store (dyn_id (dyn_record_id problem_id last)) ≡ ok v)
          ⊎ ((ν : Cluster lib sort) × Step lib sort r problem_id μ ν)
    routed_progress free count at some_core v value n μ run =
        let none_waits = ap length (All-empty κ.broker.task_queue idle.queue) in
        let ((x, fixed, known, live), counted) =
          Alone-Remains n κ μ (omega arith) run (start-Remains, start-Counted) in
        let go_on : (k : Weights)
            → total k.queue μ.broker.task_queue ≡ 0
            → 0 < weight k lib sort μ
            → (ν : Cluster lib sort) × Step lib sort r problem_id μ ν =
          λ k.
            message-next lib sort root start.d start.h r (static_value κ.store) problem_id complete
              plain start.bound apart μ x below (Alone-HasThread n κ μ run threads) v
              (identities κ.nodes) (keys κ.broker.available) k value fixed known in
        elim (first_remaining μ.entry.processed_tasks_to_status start.d.tasks) [
          | inl all ↦
              let (w, value', found, _) =
                Coherent-correct lib sort sorts root complete plain operation r problem_id κ.store
                  fresh κ.entry made small last at_end _ x.coherent (all last start.listed) in
              let both : ok v ≡ ok w = sym value ∙ value' in
              let same : v ≡ w = cc both in inl (found ∙ ap ok (sym same))
          | inr (pre, t, post, split, done, left) ↦
              let listed : In t start.d.tasks =
                subst (In t) (sym split) ((In-append t pre (t ∷ post)).1 (inr (inl refl))) in
              inr
                (elim (IsConsistent-progress lib sort root start.d start.h μ.entry t x.coherent.inv
                  listed left) [
                    | inl (u, deps, i) ↦
                        let (requests, c, run', _, _, _) =
                          send_problem-IsConsistent lib sort root start.d start.h problem_id μ.entry
                            x.coherent.inv in
                        (_, Step.send (λ z. subst (In (u, deps)) z i) run')
                    | inr (u, busy) ↦ elim (List-cases μ.broker.task_queue) [
                      | inr (q, rest, e) ↦ go_on (in_hand free) (total-zero μ.broker.task_queue) (
                          full-message μ free count at some_core fixed.1 counted
                            (λ z. let both : q ∷ rest ≡ [] = sym e ∙ z in cc both))
                      | inl quiet ↦
                          let k = passing (key_eq (dyn_record_id problem_id u)) in
                          go_on k (ap (total k.queue) quiet) (live u busy)
                    ]
                  ])
        ]
