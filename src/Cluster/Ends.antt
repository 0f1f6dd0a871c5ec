-- ===== src/Cluster/Ends.antt =====
-- A problem that the cluster calculates alone comes to an end.
use distributed_task_dispatc.Prelude.{
  ℕ, suc, ◌+◌, ◌-◌, ◌*◌, ◌≤◌, ◌<◌, ◌^◌, ◌≡◌, ◌≢◌, sym, ap, ◌∙◌, subst, arith, inl, inr, true, false,
  List, [], ◌∷◌, String, Result, ok, length, In, str_eq, Bool-cases, get_elem?, some, assign,
  lookup, Eq_nat,
}
use distributed_task_dispatc.Domain.{ExprResult, VariableId}
use distributed_task_dispatc.Domain.Arith.{Reducer}
use distributed_task_dispatc.Expr.{Expr}
use distributed_task_dispatc.Expr.Traversal.{postorder, is_complete}
use distributed_task_dispatc.Dag.Library.{GraphLibrary}
use distributed_task_dispatc.Decomposition.{TaskDecompositor}
use distributed_task_dispatc.Decomposition.Order.{IsDecomposition}
use distributed_task_dispatc.Decomposition.Independent.{is_constant}
use distributed_task_dispatc.Messages.{uint32, TaskId, Task}
use distributed_task_dispatc.Database.{dyn_record_id}
use distributed_task_dispatc.Dispatch.{TaskStatus, CalculationData, send_problem, completed}
use distributed_task_dispatc.Dispatch.Send.{send_problem-IsConsistent, AreRequests, mark_processing}
use distributed_task_dispatc.Dispatch.Work.{work, work-assign}
use distributed_task_dispatc.Dispatch.Completion.{answer, answer-IsConsistent}
use distributed_task_dispatc.Dispatch.Invariant.{IsConsistent}
use distributed_task_dispatc.System.Measure.{sent-work}
use distributed_task_dispatc.System.Termination.{reply_task}
use distributed_task_dispatc.Cluster.{Cluster, Step, Alone, IsOther}
use distributed_task_dispatc.Cluster.Holds.{Holds-reply}
use distributed_task_dispatc.Cluster.Explained.{Asked, Replied, IsExplained, view}
use distributed_task_dispatc.Cluster.Steps.{step-IsExplained}
use distributed_task_dispatc.Cluster.Weights.{Weights, total, weight}
use distributed_task_dispatc.Cluster.Falling.{IsFalling, Fixed, Step-Lower}

-- How far a message still has to go; every worker reads all that is published, `v` in total.
abbrev pub levels : ℕ → Weights
levels v = record {
  request = λ t. v + 2;
  queue = λ t. v + 1;
  inbox = λ i t. 6;
  taken = λ t. 5;
  running = λ t. 4;
  finished = λ x. 3;
  response = λ x. 2;
  reply = λ id. 1;
}

abbrev pub readers : List String → ℕ
readers ids = total (λ i. 6) ids

levels-IsFalling : (ids names : List String) → IsFalling 1 (levels (readers ids)) ids names
levels-IsFalling ids names = record {
  route = λ t w i. omega arith;
  wait = λ t. omega arith;
  hear = λ i t. elim (Bool-cases (str_eq t.identity i)) [
    | inl b ↦ rw b (omega arith)
    | inr b ↦ rw b (omega arith)
  ];
  take = λ t. omega arith;
  finish = λ t. omega arith;
  respond = λ x. omega arith;
  settle = λ x i. omega arith;
  refill = λ x t u i. omega arith;
  reply = λ id. omega arith;
}

total-constant {ℓ} : {A : Type ℓ} (c : ℕ) (xs : List A) → total (λ x. c) xs ≡ c * length xs
total-constant c [] = omega arith
total-constant c (x ∷ xs) = let ih = total-constant c xs in grind arith

-- Work is worth more than the requests that it makes.
worth : (v x y q : ℕ) → x + q ≡ y → (v + 3) * x + (v + 2) * q + q ≡ (v + 3) * y
worth v x y q e = grind arith

pub worth_le : (v x y : ℕ) → x ≤ y → (v + 3) * x ≤ (v + 3) * y
worth_le v x y le = let e = worth v x y (y - x) (omega arith) in omega arith

module _ (lib : GraphLibrary) (sort : lib.Graph → Result (List ℕ)) (root : Expr)
    (d : TaskDecompositor lib sort) (h : IsDecomposition lib sort root d) (r : Reducer)
    (read : VariableId → Result ExprResult) (problem_id : ℕ) (complete : is_complete root ≡ true)
    (plain : (e : Expr) → In e (postorder root) → is_constant e ≡ false)
    (small : length h.records ≤ 2 ^ 32) (F : TaskId → Type 0)
    (apart : (id : TaskId) → F id → IsOther problem_id id) where
  abbrev pub left : Cluster lib sort → ℕ
  left κ = work κ.entry.processed_tasks_to_status d.tasks

  -- What `send_problem` returned, of a consistent entry.
  pub sent-facts :
      (c c' : CalculationData lib sort) (requests : List Task)
      → IsConsistent lib sort root d h c
      → send_problem lib sort problem_id c ≡ ok (requests, c')
      → AreRequests lib sort root d h problem_id c c.computable_task_to_dependencies requests
        × (c'.processed_tasks_to_status
            ≡ mark_processing c.computable_task_to_dependencies c.processed_tasks_to_status)
  sent-facts c c' requests inv run =
      let (rs, e, run', are, _, marked) =
        send_problem-IsConsistent lib sort root d h problem_id c inv in
      let q : ok (rs, e) ≡ ok (requests, c') = sym run' ∙ run in
      let same : rs ≡ requests = cc q in
      let same' : e ≡ c' = cc q in
      (
        subst (AreRequests lib sort root d h problem_id c c.computable_task_to_dependencies) same
            are,
        ap (λ (x : CalculationData lib sort). x.processed_tasks_to_status) (sym same') ∙ marked,
      )

  send-left :
      (κ : Cluster lib sort) (requests : List Task) (c : CalculationData lib sort)
      → IsConsistent lib sort root d h κ.entry
      → κ.entry.computable_task_to_dependencies ≢ []
      → send_problem lib sort problem_id κ.entry ≡ ok (requests, c)
      → (work c.processed_tasks_to_status d.tasks + length requests ≡ left κ)
        × (0 < length requests)
  send-left κ requests c inv some_task run =
      let (are, marked) = sent-facts κ.entry c requests inv run in
      sent-work lib sort root d h r read problem_id complete plain small κ.entry c requests inv
        some_task are marked

  -- A reply of the problem is for a task that it knows, and marks it.
  pub replied-facts :
      (κ : Cluster lib sort) (id : TaskId) (c : CalculationData lib sort)
      (x : IsExplained lib sort root d h r read problem_id complete plain small F apart κ)
      → In id x.answered
      → answer lib sort κ.entry id.task_id ≡ ok c
      → (t : ℕ) × (s : TaskStatus) × (e : Expr) × (id ≡ dyn_record_id problem_id t)
        × (get_elem? h.records t ≡ some e)
        × (lookup t κ.entry.processed_tasks_to_status ≡ some s)
        × (c.processed_tasks_to_status ≡ assign t completed κ.entry.processed_tasks_to_status)
  replied-facts κ id c x i run =
      let a = x.coherent.answers id i in
      let number =
        reply_task lib sort root d h r read problem_id complete plain small
          (view lib sort root d h r read problem_id complete plain small F apart κ x.sent
            x.answered)
          id x.coherent a in
      let (c', run', _, marked) =
        answer-IsConsistent lib sort root d h κ.entry a.task a.status x.coherent.inv a.known in
      let q : ok c' ≡ ok c = sym run' ∙ sym (ap (answer lib sort κ.entry) number) ∙ run in
      let same : c' ≡ c = cc q in
      (
        a.task,
        a.status,
        a.expr,
        a.id_of,
        a.at,
        a.known,
        ap (λ (z : CalculationData lib sort). z.processed_tasks_to_status) (sym same) ∙ marked,
      )

  reply-left :
      (κ : Cluster lib sort) (id : TaskId) (c : CalculationData lib sort)
      (x : IsExplained lib sort root d h r read problem_id complete plain small F apart κ)
      → In id x.answered
      → answer lib sort κ.entry id.task_id ≡ ok c
      → work c.processed_tasks_to_status d.tasks ≤ left κ
  reply-left κ id c x i run =
      let (t, s, e, _, _, known, marked) = replied-facts κ id c x i run in
      let listed = (x.coherent.inv.started t s known).0 in
      let moved =
        work-assign κ.entry.processed_tasks_to_status t completed d.tasks h.order.distinct listed in
      let now = ap (λ m. work m d.tasks) marked in omega arith

  -- No step makes work.
  Step-left :
      (κ μ : Cluster lib sort)
      → Step lib sort r problem_id κ μ
      → IsExplained lib sort root d h r read problem_id complete plain small F apart κ
      → left μ ≤ left κ
  Step-left κ μ (Step.send {requests = requests} {c = c} some_task run) x =
      let (sum, more) = send-left κ requests c x.coherent.inv some_task run in omega arith
  Step-left κ μ (Step.reply {id = id} {rest = rest} {c = c} at own run) x =
      let (q, _) =
        Holds-reply lib sort (Asked F x.sent) (Replied F x.answered) κ id rest at x.holds in
      reply-left κ id c x (elim q [ inl i ↦ i | inr f ↦ absurd (apart id f (ap uint32 own)) ]) run
  Step-left κ μ (Step.route at run) x = omega arith
  Step-left κ μ (Step.hear pre post n at e) x = omega arith
  Step-left κ μ (Step.take pre post n at e free) x = omega arith
  Step-left κ μ (Step.finish pre post n i at e run) x = omega arith
  Step-left κ μ (Step.respond pre post n at run) x = omega arith
  Step-left κ μ (Step.settle pre post identity y at run) x = omega arith

  module _ (ids names : List String) where
    abbrev pub measure : Cluster lib sort → ℕ
    measure κ = (readers ids + 3) * left κ + weight (levels (readers ids)) lib sort κ

    pub Step-falls :
        (κ μ : Cluster lib sort)
        → Step lib sort r problem_id κ μ
        → IsExplained lib sort root d h r read problem_id complete plain small F apart κ
        → Fixed lib sort ids names κ
        → Fixed lib sort ids names μ × (suc (measure μ) ≤ measure κ)
    Step-falls κ μ st x fixed =
        let v = readers ids in
        let (fixed', moved) =
          Step-Lower lib sort r problem_id 1 (levels v) ids names (levels-IsFalling ids names) κ μ
            st fixed in
        (
          fixed',
          elim moved [
            | inl (requests, c, some_task, run, entry, sum) ↦
                let (done, more) = send-left κ requests c x.coherent.inv some_task run in
                let now =
                  ap (λ (z : CalculationData lib sort). work z.processed_tasks_to_status d.tasks)
                    entry in
                let price = total-constant (v + 2) requests in
                let value = worth v (left μ) (left κ) (length requests) (omega arith) in omega arith
            | inr less ↦
                let value = worth_le v (left μ) (left κ) (Step-left κ μ st x) in omega arith
          ],
        )

    pub Alone-falls :
        (m n : ℕ) (κ μ : Cluster lib sort)
        → Alone lib sort r problem_id m n κ μ
        → IsExplained lib sort root d h r read problem_id complete plain small F apart κ
        → Fixed lib sort ids names κ
        → IsExplained lib sort root d h r read problem_id complete plain small F apart μ
          × Fixed lib sort ids names μ
          × (n + measure μ ≤ measure κ)
    Alone-falls m _ κ μ Alone.stop x fixed = (x, fixed, omega arith)
    Alone-falls m _ κ μ (Alone.step {n = n} {μ = ν} st few rest) x fixed =
        let (fixed', less) = Step-falls κ ν st x fixed in
        let x' =
          step-IsExplained lib sort root d h r read problem_id complete plain small F apart κ ν st
            x in
        let (x'', fixed'', bound) = Alone-falls m n ν μ rest x' fixed' in
        (x'', fixed'', omega arith)
