-- ===== src/Cluster/Explained.antt =====
-- Every state of the cluster is one of the problem with its messages: the broker and the workers may
-- lose, delay and repeat what the problem sent, and add nothing to it.
use distributed_task_dispatc.Prelude.{
  ℕ, ◌≤◌, ◌<◌, ◌^◌, ◌≡◌, refl, sym, subst, ◌⊎◌, inl, inr, true, false, Bool, List, [], ◌∷◌, ◌++◌,
  Result, ok, length, All-append, All-each, All-at, get_elem?-some, In-get_elem?, In, In-append,
}
use distributed_task_dispatc.Domain.{ExprResult, VariableId}
use distributed_task_dispatc.Domain.Arith.{Reducer}
use distributed_task_dispatc.Expr.{Expr}
use distributed_task_dispatc.Expr.Traversal.{postorder, is_complete}
use distributed_task_dispatc.Dag.Library.{GraphLibrary}
use distributed_task_dispatc.Decomposition.{TaskDecompositor}
use distributed_task_dispatc.Decomposition.Order.{IsDecomposition}
use distributed_task_dispatc.Decomposition.Independent.{is_constant}
use distributed_task_dispatc.Messages.{WorkerTask, TaskId, Task, WorkerTaskId}
use distributed_task_dispatc.Database.{Store}
use distributed_task_dispatc.Dispatch.{CalculationData}
use distributed_task_dispatc.Manager.Connection.{send_requests, send_requests-In}
use distributed_task_dispatc.Worker.{Worker, finish_task, erase_at}
use distributed_task_dispatc.Worker.Queues.{answer_of}
use distributed_task_dispatc.System.{System}
use distributed_task_dispatc.System as Calculation
use distributed_task_dispatc.System.Measure.{Coherent}
use distributed_task_dispatc.System.Termination.{Run-Falls}
use distributed_task_dispatc.Cluster.{Node, Cluster, IsOther}
use distributed_task_dispatc.Cluster.Flight.{HoldsNode}
use distributed_task_dispatc.Cluster.Nodes.{finish_task-done, finish-HoldsNode}
use distributed_task_dispatc.Cluster.Holds.{Holds, Holds-imply, Holds-node}
use distributed_task_dispatc.Cluster.Again.{again_request}

-- A request or a reply is one of those that the problem made, or foreign.
abbrev pub Asked : (TaskId → Type 0) → List Task → Task → Type 0
Asked F sent t = In t sent ⊎ F t.id

abbrev pub Replied : (TaskId → Type 0) → List TaskId → TaskId → Type 0
Replied F answered id = In id answered ⊎ F id

module _ (lib : GraphLibrary) (sort : lib.Graph → Result (List ℕ)) (root : Expr)
    (d : TaskDecompositor lib sort) (h : IsDecomposition lib sort root d) (r : Reducer)
    (read : VariableId → Result ExprResult) (problem_id : ℕ) (complete : is_complete root ≡ true)
    (plain : (e : Expr) → In e (postorder root) → is_constant e ≡ false)
    (small : length h.records ≤ 2 ^ 32) (F : TaskId → Type 0)
    (apart : (id : TaskId) → F id → IsOther problem_id id) where
  -- All requests and replies that the problem made so far explain the state of the cluster.
  abbrev pub view : Cluster lib sort → List Task → List TaskId → System lib sort
  view κ sent answered = record {
    entry = κ.entry;
    sent = sent;
    answered = answered;
    store = κ.store;
  }

  pub record IsExplained (κ : Cluster lib sort) : Type 0 where
    pub sent : List Task
    pub answered : List TaskId
    pub coherent :
        Coherent lib sort root d h r read problem_id complete plain small (view κ sent answered)
    pub holds : Holds lib sort (Asked F sent) (Replied F answered) κ

  -- One step of the problem with its messages.
  pub one_step :
      (σ τ : System lib sort)
      → Calculation.Step lib sort r problem_id σ τ
      → Coherent lib sort root d h r read problem_id complete plain small σ
      → Coherent lib sort root d h r read problem_id complete plain small τ
  one_step σ τ st good =
      (Run-Falls lib sort root d h r read problem_id complete plain small 1 σ τ
        (Calculation.Run.step st Calculation.Run.stop) good).0

  pub one_elsewhere :
      (σ τ : System lib sort)
      → Calculation.Elsewhere lib sort r problem_id σ τ
      → Coherent lib sort root d h r read problem_id complete plain small σ
      → Coherent lib sort root d h r read problem_id complete plain small τ
  one_elsewhere σ τ st good =
      (Run-Falls lib sort root d h r read problem_id complete plain small 0 σ τ
        (Calculation.Run.elsewhere st Calculation.Run.stop) good).0

  -- A step that changes neither the entry of the problem nor the store.
  pub quiet :
      (κ μ : Cluster lib sort) (x : IsExplained κ)
      → μ.entry ≡ κ.entry
      → μ.store ≡ κ.store
      → Holds lib sort (Asked F x.sent) (Replied F x.answered) μ
      → IsExplained μ
  quiet κ μ x e s holds = record {
    sent = x.sent;
    answered = x.answered;
    coherent =
        subst
          (λ (v : CalculationData lib sort × Store).
            Coherent lib sort root d h r read problem_id complete plain small
              (record { entry = v.0; sent = x.sent; answered = x.answered; store = v.1 }))
          (λ i. (sym e i, sym s i)) x.coherent;
    holds = holds;
  }

  pub sent-Holds :
      (κ : Cluster lib sort) (sent requests : List Task) (answered : List TaskId)
      (c : CalculationData lib sort)
      → Holds lib sort (Asked F sent) (Replied F answered) κ
      → Holds lib sort
          (Asked F (sent ++ requests))
          (Replied F answered)
          (record κ { entry = c; requests = κ.requests ++ requests })
  sent-Holds κ sent requests answered c holds =
      let P = Asked F (sent ++ requests) in
      let more =
        Holds-imply lib sort (Asked F sent) P (Replied F answered) (Replied F answered) κ
          (λ t f. elim f [ inl i ↦ inl ((In-append t sent requests).1 (inl i)) | inr z ↦ inr z ])
          (λ id f. f) holds in
      record {
        requests =
            All-append P κ.requests requests more.requests
              (All-each P requests λ t i. inl ((In-append t sent requests).1 (inr i)));
        queue = more.queue;
        nodes = more.nodes;
        responses = more.responses;
        replies = more.replies;
      }

  -- A socket that takes some of the requests.
  pub refused-Holds :
      (κ : Cluster lib sort) (sent requests : List Task) (answered : List TaskId)
      (c : CalculationData lib sort) (takes : Task → Bool)
      → Holds lib sort (Asked F sent) (Replied F answered) κ
      → Holds lib sort
          (Asked F (sent ++ requests))
          (Replied F answered)
          (record κ { entry = c; requests = send_requests takes κ.requests requests })
  refused-Holds κ sent requests answered c takes holds =
      let P = Asked F (sent ++ requests) in
      let all = sent-Holds κ sent requests answered c holds in
      record {
        requests = All-each P (send_requests takes κ.requests requests) λ t i.
            All-at P (κ.requests ++ requests) t all.requests (
              (In-append t κ.requests requests).1 (send_requests-In takes κ.requests requests t i));
        queue = all.queue;
        nodes = all.nodes;
        responses = all.responses;
        replies = all.replies;
      }

  abbrev pub finished :
      Cluster lib sort → List Node → List Node → Node → Store → Worker → Cluster lib sort
  finished κ pre post n s w = record κ { nodes = pre ++ record n { worker = w } ∷ post; store = s }

  -- The store holds no message.
  stored :
      {P : Task → Type 0} {Q : TaskId → Type 0} (κ : Cluster lib sort) (pre post : List Node)
      (n : Node) (s : Store) (w : Worker)
      → Holds lib sort P Q (record κ { nodes = pre ++ record n { worker = w } ∷ post })
      → Holds lib sort P Q (finished κ pre post n s w)
  stored κ pre post n s w h = record {
    requests = h.requests;
    queue = h.queue;
    nodes = h.nodes;
    responses = h.responses;
    replies = h.replies;
  }

  -- A response that `Q` holds of is queued.
  finished-Holds :
      (P : Task → Type 0) (Q : TaskId → Type 0) (κ : Cluster lib sort) (pre post : List Node)
      (n : Node) (i : ℕ) (y : WorkerTaskId) (s : Store) (w : Worker)
      → κ.nodes ≡ pre ++ n ∷ post
      → record n.worker {
        running = erase_at n.worker.running i;
        finished_tasks = n.worker.finished_tasks ++ y ∷ [];
      }
        ≡ w
      → Q y.id
      → Holds lib sort P Q κ
      → Holds lib sort P Q (finished κ pre post n s w)
  finished-Holds P Q κ pre post n i y s w e after q holds =
      let (at, put) = Holds-node lib sort P Q κ pre post n e holds in
      let moved = finish-HoldsNode P Q n i y q at in
      stored κ pre post n s w
        (put _ (subst (λ z. HoldsNode P Q (record n { worker = z })) after moved))

  -- A thread finishes a task of the problem or of another.
  pub finish-IsExplained :
      (κ : Cluster lib sort) (pre post : List Node) (n : Node) (i : ℕ) (s : Store) (w : Worker)
      → κ.nodes ≡ pre ++ n ∷ post
      → i < length n.worker.running
      → finish_task r κ.store n.worker i ≡ ok (s, w)
      → IsExplained κ
      → IsExplained (finished κ pre post n s w)
  finish-IsExplained κ pre post n i s w e less run x =
      let P = Asked F x.sent in
      let Q = Replied F x.answered in
      let (at, put) = Holds-node lib sort P Q κ pre post n e x.holds in
      let (t, here) = get_elem?-some n.worker.running i less in
      let (done, after) = finish_task-done r κ.store s n.worker w i t here run in
      let asked =
        All-at (λ (z : WorkerTask). P z.task) n.worker.running t at.running
          (In-get_elem? n.worker.running i here) in
      elim asked [
        | inl own ↦
            let Q' = Replied F (t.task.id ∷ x.answered) in
            let more =
              Holds-imply lib sort P P Q Q' κ (λ _ f. f)
                (λ _ f. elim f [ inl j ↦ inl (inr j) | inr z ↦ inr z ]) x.holds in
            record {
              sent = x.sent;
              answered = t.task.id ∷ x.answered;
              coherent =
                  one_step (view κ (t.task ∷ x.sent) x.answered) _
                    (Calculation.Step.work t.identity [] x.sent t.task refl done)
                    (again_request lib sort root d h r read problem_id (view κ x.sent x.answered)
                      t.task own x.coherent);
              holds =
                  finished-Holds P Q' κ pre post n i (answer_of t) s w e after (inl (inl refl))
                    more;
            }
        | inr other ↦ record {
          sent = x.sent;
          answered = x.answered;
          coherent =
              one_elsewhere (view κ x.sent x.answered) _
                (Calculation.Elsewhere.other_work t (apart t.task.id other) done) x.coherent;
          holds = finished-Holds P Q κ pre post n i (answer_of t) s w e after (inr other) x.holds;
        }
      ]
