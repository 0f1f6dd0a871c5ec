-- ===== src/Cluster/Live.antt =====
-- A task that is under way has a message under way, while at most one task waits at the broker.
use distributed_task_dispatc.Prelude.{
  ℕ, ◌+◌, ◌≤◌, ◌<◌, ◌^◌, ◌≡◌, refl, sym, ap, ◌∙◌, subst, arith, inl, inr, true, false, Bool-cases,
  List, [], ◌∷◌, some, String, Result, ok, length, In, lookup, assign, lookup-assign_self,
  lookup-assign_ne, Eq_nat, ℕ_discrete, All-at,
}
use distributed_task_dispatc.Domain.{ExprResult, VariableId}
use distributed_task_dispatc.Domain.Arith.{Reducer}
use distributed_task_dispatc.Expr.{Expr}
use distributed_task_dispatc.Expr.Traversal.{postorder, is_complete}
use distributed_task_dispatc.Dag.Library.{GraphLibrary}
use distributed_task_dispatc.Decomposition.{TaskDecompositor}
use distributed_task_dispatc.Decomposition.Order.{IsDecomposition}
use distributed_task_dispatc.Decomposition.Independent.{is_constant}
use distributed_task_dispatc.Messages.{TaskId, Task}
use distributed_task_dispatc.Database.{dyn_record_id, key_eq}
use distributed_task_dispatc.Database.Rows.{key_eq_iff}
use distributed_task_dispatc.Dispatch.{CalculationData, send_problem, processing, completed}
use distributed_task_dispatc.Dispatch.Completion.{answer}
use distributed_task_dispatc.System.Sending.{sent-under_way}
use distributed_task_dispatc.System.Working.{same_task, known_task}
use distributed_task_dispatc.Cluster.{Cluster, Step, IsOther}
use distributed_task_dispatc.Cluster.Explained.{Replied, IsExplained}
use distributed_task_dispatc.Cluster.Weights.{total, weight}
use distributed_task_dispatc.Cluster.Falling.{Fixed}
use distributed_task_dispatc.Cluster.Carried.{hit, passing, Step-carried}
use distributed_task_dispatc.Cluster.Ends.{sent-facts, replied-facts}

pub total-In : {A : Type 0} (f : A → ℕ) (xs : List A) (x : A) → In x xs → f x ≤ total f xs
total-In f [] x i = absurd i
total-In f (y ∷ ys) x (inl q) = let e = ap f q in omega arith
total-In f (y ∷ ys) x (inr i) = let ih = total-In f ys x i in omega arith

hit_self : (k id : TaskId) → id ≡ k → hit (key_eq k) id ≡ 1
hit_self k id q = rw ((key_eq_iff k id).1 (sym q)) refl

module _ (lib : GraphLibrary) (sort : lib.Graph → Result (List ℕ)) (root : Expr)
    (d : TaskDecompositor lib sort) (h : IsDecomposition lib sort root d) (r : Reducer)
    (read : VariableId → Result ExprResult) (problem_id : ℕ) (complete : is_complete root ≡ true)
    (plain : (e : Expr) → In e (postorder root) → is_constant e ≡ false)
    (small : length h.records ≤ 2 ^ 32) (F : TaskId → Type 0)
    (apart : (id : TaskId) → F id → IsOther problem_id id) where
  -- The messages for a task that are under way.
  abbrev pub messages : ℕ → Cluster lib sort → ℕ
  messages t κ = weight (passing (key_eq (dyn_record_id problem_id t))) lib sort κ

  abbrev pub IsLive : Cluster lib sort → Type 0
  IsLive κ =
      (t : ℕ) → lookup t κ.entry.processed_tasks_to_status ≡ some processing → 0 < messages t κ

  send-IsLive :
      (κ : Cluster lib sort) (requests : List Task) (c : CalculationData lib sort) (t : ℕ)
      → IsExplained lib sort root d h r read problem_id complete plain small F apart κ
      → IsLive κ
      → send_problem lib sort problem_id κ.entry ≡ ok (requests, c)
      → lookup t c.processed_tasks_to_status ≡ some processing
      → 0
        < messages t κ
          + total (λ (x : Task). hit (key_eq (dyn_record_id problem_id t)) x.id) requests
  send-IsLive κ requests c t x live run q =
      let k = dyn_record_id problem_id t in
      let (are, marked) =
        sent-facts lib sort root d h r read problem_id complete plain small F apart κ.entry c
          requests x.coherent.inv run in
      elim (sent-under_way lib sort root d h r read problem_id κ.entry c requests t are marked q) [
        | inr before ↦ let some_message = live t before in omega arith
        | inl (request, i, same) ↦
            let one = hit_self k request.id same in
            let there = total-In (λ (y : Task). hit (key_eq k) y.id) requests request i in
            omega arith
      ]

  -- A reply for another task is not among the messages for this one.
  reply-IsLive :
      (κ : Cluster lib sort) (id : TaskId) (c : CalculationData lib sort) (t : ℕ)
      (x : IsExplained lib sort root d h r read problem_id complete plain small F apart κ)
      → In id x.answered
      → answer lib sort κ.entry id.task_id ≡ ok c
      → lookup t c.processed_tasks_to_status ≡ some processing
      → (lookup t κ.entry.processed_tasks_to_status ≡ some processing)
        × (hit (key_eq (dyn_record_id problem_id t)) id ≡ 0)
  reply-IsLive κ id c t x i run q =
      let m = κ.entry.processed_tasks_to_status in
      let (u, s, e, id_of, at, known, marked) =
        replied-facts lib sort root d h r read problem_id complete plain small F apart κ id c x i
          run in
      let now = sym (ap (lookup t) marked) ∙ q in
      elim (ℕ_discrete u t) [
        | yes same ↦ absurd (
            let done = lookup-assign_self u completed m in
            let now' =
              subst (λ z. lookup z (assign u completed m) ≡ some processing) (sym same) now in
            cc (done, now'))
        | no differs ↦
            let before = sym (lookup-assign_ne u t completed m differs) ∙ now in
            (
              before,
              elim (Bool-cases (key_eq (dyn_record_id problem_id t) id)) [
                | inr b ↦ rw b refl
                | inl b ↦
                    let same = (key_eq_iff (dyn_record_id problem_id t) id).0 b ∙ id_of in
                    let (e', at') =
                      known_task lib sort root d h r read problem_id complete κ.entry x.coherent.inv
                        t processing before in
                    absurd (
                      differs (
                        sym (
                          same_task lib sort root d h r read problem_id complete small t u e' e at'
                            at same)))
              ],
            )
      ]

  pub Step-IsLive :
      (ids names : List String) (all_here : (w : String) → In w names → In w ids)
      (κ μ : Cluster lib sort)
      → Step lib sort r problem_id κ μ
      → IsExplained lib sort root d h r read problem_id complete plain small F apart κ
      → Fixed lib sort ids names κ
      → length κ.broker.task_queue ≤ 1
      → IsLive κ
      → IsLive μ
  Step-IsLive ids names all_here κ μ st x fixed few live t q =
      let p = key_eq (dyn_record_id problem_id t) in
      let now : (c : CalculationData lib sort)
          → μ.entry ≡ c
          → lookup t c.processed_tasks_to_status ≡ some processing =
        λ c e.
          subst
            (λ (z : CalculationData lib sort).
              lookup t z.processed_tasks_to_status ≡ some processing)
            e q in
      elim (Step-carried lib sort r problem_id p ids names all_here κ μ st fixed few) [
        | inl (requests, c, run, e, sum) ↦
            let more = send-IsLive κ requests c t x live run (now c e) in omega arith
        | inr (inl (id, c, own, run, e, i, sum)) ↦
            let replied = All-at (Replied F x.answered) κ.replies id x.holds.replies i in
            let (before, other) =
              reply-IsLive κ id c t x (elim replied [ inl j ↦ j | inr f ↦ absurd (apart id f own) ])
                run (now c e) in
            let some_message = live t before in omega arith
        | inr (inr (e, le)) ↦ let before = live t (now κ.entry e) in omega arith
      ]
