-- ===== src/Cluster/Holds.antt =====
-- What holds of every request and every reply in the cluster, wherever it is.
use distributed_task_dispatc.Prelude.{
  ℕ, ◌≡◌, sym, subst, List, [], ◌∷◌, ◌++◌, String, Result, All, All-append, All-imply, All-replace,
}
use distributed_task_dispatc.Dag.Library.{GraphLibrary}
use distributed_task_dispatc.Messages.{WorkerTask, TaskId, Task, WorkerTaskId}
use distributed_task_dispatc.Worker.{Worker}
use distributed_task_dispatc.Broker.{Broker, Output}
use distributed_task_dispatc.Cluster.{Node, Cluster, broadcast}
use distributed_task_dispatc.Cluster.Flight.{HoldsNode, Says, HoldsNode-deliver, All-forwarded}

module _ (P P' : Task → Type 0) (Q Q' : TaskId → Type 0) (f : (t : Task) → P t → P' t)
    (g : (id : TaskId) → Q id → Q' id) where
  HoldsNode-imply : (n : Node) → HoldsNode P Q n → HoldsNode P' Q' n
  HoldsNode-imply n h =
      let task : (t : WorkerTask) → P t.task → P' t.task = λ t. f t.task in
      let each : (ts : List WorkerTask)
          → All (λ (t : WorkerTask). P t.task) ts
          → All (λ (t : WorkerTask). P' t.task) ts =
        λ ts. All-imply (λ (t : WorkerTask). P t.task) (λ (t : WorkerTask). P' t.task) ts task in
      record {
        inbox = each n.inbox h.inbox;
        tasks = each n.worker.tasks h.tasks;
        running = each n.worker.running h.running;
        finished =
            All-imply (λ (x : WorkerTaskId). Q x.id) (λ (x : WorkerTaskId). Q' x.id)
              n.worker.finished_tasks (λ x. g x.id) h.finished;
      }

module _ (lib : GraphLibrary) (sort : lib.Graph → Result (List ℕ)) where
  -- `P` holds of every request and `Q` of every reply.
  pub record Holds (P : Task → Type 0) (Q : TaskId → Type 0) (κ : Cluster lib sort) : Type 0 where
    pub requests : All P κ.requests
    pub queue : All P κ.broker.task_queue
    pub nodes : All (HoldsNode P Q) κ.nodes
    pub responses : All (λ (x : String × WorkerTaskId). Q x.1.id) κ.responses
    pub replies : All Q κ.replies

  pub Holds-imply :
      (P P' : Task → Type 0) (Q Q' : TaskId → Type 0) (κ : Cluster lib sort)
      → ((t : Task) → P t → P' t)
      → ((id : TaskId) → Q id → Q' id)
      → Holds P Q κ
      → Holds P' Q' κ
  Holds-imply P P' Q Q' κ f g h = record {
    requests = All-imply P P' κ.requests f h.requests;
    queue = All-imply P P' κ.broker.task_queue f h.queue;
    nodes =
        All-imply (HoldsNode P Q) (HoldsNode P' Q') κ.nodes (HoldsNode-imply P P' Q Q' f g) h.nodes;
    responses =
        All-imply (λ (x : String × WorkerTaskId). Q x.1.id)
          (λ (x : String × WorkerTaskId). Q' x.1.id) κ.responses (λ x. g x.1.id) h.responses;
    replies = All-imply Q Q' κ.replies g h.replies;
  }

  -- The messages of the broker that pass on what holds.
  pub Holds-broadcast :
      (P : Task → Type 0) (Q : TaskId → Type 0) (κ : Cluster lib sort) (b : Broker)
      (sent : List Output)
      → Holds P Q κ
      → All P b.task_queue × All (Says P Q) sent
      → Holds P Q (broadcast lib sort κ b sent)
  Holds-broadcast P Q κ b sent h (queue, says) = record {
    requests = h.requests;
    queue = queue;
    nodes = HoldsNode-deliver P Q sent κ.nodes says h.nodes;
    responses = h.responses;
    replies = All-append Q κ.replies _ h.replies (All-forwarded P Q sent says);
  }

  -- A worker of the cluster, and the cluster with another state of it.
  pub Holds-node :
      (P : Task → Type 0) (Q : TaskId → Type 0) (κ : Cluster lib sort) (pre post : List Node)
      (n : Node)
      → κ.nodes ≡ pre ++ n ∷ post
      → Holds P Q κ
      → HoldsNode P Q n
        × ((n' : Node) → HoldsNode P Q n' → Holds P Q (record κ { nodes = pre ++ n' ∷ post }))
  Holds-node P Q κ pre post n e h =
      let (at, rest, put) =
        All-replace (HoldsNode P Q) pre post n (subst (All (HoldsNode P Q)) e h.nodes) in
      (
        at,
        λ n' k. record {
          requests = h.requests;
          queue = h.queue;
          nodes = put n' k;
          responses = h.responses;
          replies = h.replies;
        },
      )

  pub Holds-join :
      (P : Task → Type 0) (Q : TaskId → Type 0) (κ : Cluster lib sort) (w : Worker)
      → w.tasks ≡ []
      → w.running ≡ []
      → w.finished_tasks ≡ []
      → Holds P Q κ
      → Holds P Q (record κ { nodes = κ.nodes ++ record { inbox = []; worker = w } ∷ [] })
  Holds-join P Q κ w tasks running finished h = record {
    requests = h.requests;
    queue = h.queue;
    nodes = All-append (HoldsNode P Q) κ.nodes _ h.nodes (
      record {
        inbox = tt;
        tasks = subst (All (λ (t : WorkerTask). P t.task)) (sym tasks) tt;
        running = subst (All (λ (t : WorkerTask). P t.task)) (sym running) tt;
        finished = subst (All (λ (x : WorkerTaskId). Q x.id)) (sym finished) tt;
      },
      tt,
    );
    responses = h.responses;
    replies = h.replies;
  }

  -- The next request, response or reply is taken.
  pub Holds-route :
      (P : Task → Type 0) (Q : TaskId → Type 0) (κ : Cluster lib sort) (t : Task) (rest : List Task)
      → κ.requests ≡ t ∷ rest
      → Holds P Q κ
      → P t × Holds P Q (record κ { requests = rest })
  Holds-route P Q κ t rest e h =
      let pending = subst (All P) e h.requests in
      (
        pending.0,
        record {
          requests = pending.1;
          queue = h.queue;
          nodes = h.nodes;
          responses = h.responses;
          replies = h.replies;
        },
      )

  pub Holds-settle :
      (P : Task → Type 0) (Q : TaskId → Type 0) (κ : Cluster lib sort)
      (pre post : List (String × WorkerTaskId)) (identity : String) (x : WorkerTaskId)
      → κ.responses ≡ pre ++ (identity, x) ∷ post
      → Holds P Q κ
      → Q x.id × Holds P Q (record κ { responses = pre ++ post })
  Holds-settle P Q κ pre post identity x e h =
      let R : String × WorkerTaskId → Type 0 = λ y. Q y.1.id in
      let (at, rest, put) = All-replace R pre post (identity, x) (subst (All R) e h.responses) in
      (
        at,
        record {
          requests = h.requests;
          queue = h.queue;
          nodes = h.nodes;
          responses = rest;
          replies = h.replies;
        },
      )

  pub Holds-reply :
      (P : Task → Type 0) (Q : TaskId → Type 0) (κ : Cluster lib sort) (id : TaskId)
      (rest : List TaskId)
      → κ.replies ≡ id ∷ rest
      → Holds P Q κ
      → Q id × Holds P Q (record κ { replies = rest })
  Holds-reply P Q κ id rest e h =
      let pending = subst (All Q) e h.replies in
      (
        pending.0,
        record {
          requests = h.requests;
          queue = h.queue;
          nodes = h.nodes;
          responses = h.responses;
          replies = pending.1;
        },
      )
