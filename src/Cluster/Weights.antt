-- ===== src/Cluster/Weights.antt =====
-- Sums over all that is under way in the cluster: a request, a response and a reply count by the
-- place where they are.
use distributed_task_dispatc.Prelude.{
  ℕ, zero, suc, ◌+◌, ◌≡◌, refl, ap, ◌∙◌, arith, List, [], ◌∷◌, ◌++◌, map, some, String, Result,
  get_elem?,
}
use distributed_task_dispatc.Dag.Library.{GraphLibrary}
use distributed_task_dispatc.Messages.{WorkerTask, TaskId, Task, WorkerTaskId}
use distributed_task_dispatc.Worker.{erase_at}
use distributed_task_dispatc.Broker.{Broker, Output, publish, to_manager}
use distributed_task_dispatc.Cluster.{Node, notify, deliver, forwarded, Cluster, broadcast}

abbrev pub total {ℓ} : {A : Type ℓ} → (A → ℕ) → List A → ℕ
total f [] = 0
total f (x ∷ xs) = f x + total f xs

pub total-append {ℓ} :
    {A : Type ℓ} (f : A → ℕ) (xs ys : List A) → total f (xs ++ ys) ≡ total f xs + total f ys
total-append f [] ys = omega arith
total-append f (x ∷ xs) ys = omega (arith, total-append f xs ys)

pub total-replace {ℓ} :
    {A : Type ℓ} (f : A → ℕ) (pre post : List A) (x y : A)
    → total f (pre ++ y ∷ post) + f x ≡ total f (pre ++ x ∷ post) + f y
total-replace f [] post x y = omega arith
total-replace f (z ∷ pre) post x y = omega (arith, total-replace f pre post x y)

pub total-remove {ℓ} :
    {A : Type ℓ} (f : A → ℕ) (pre post : List A) (x : A)
    → total f (pre ++ x ∷ post) ≡ total f (pre ++ post) + f x
total-remove f [] post x = omega arith
total-remove f (z ∷ pre) post x = omega (arith, total-remove f pre post x)

pub total-erase_at {ℓ} :
    {A : Type ℓ} (f : A → ℕ) (xs : List A) (i : ℕ) {x : A}
    → get_elem? xs i ≡ some x
    → total f xs ≡ total f (erase_at xs i) + f x
unfolding erase_at
total-erase_at f [] i at = cc
total-erase_at f (y ∷ xs) zero {x} at = let q : y ≡ x = cc at in let e = ap f q in omega arith
total-erase_at f (y ∷ xs) (suc i) {x} at = let ih = total-erase_at f xs i {x = x} at in omega arith

abbrev pub identities : List Node → List String
identities [] = []
identities (n ∷ nodes) = n.worker.identity ∷ identities nodes

pub record Weights : Type 0 where
  pub request : Task → ℕ
  pub queue : Task → ℕ
  pub inbox : String → WorkerTask → ℕ
  pub taken : WorkerTask → ℕ
  pub running : WorkerTask → ℕ
  pub finished : WorkerTaskId → ℕ
  pub response : WorkerTaskId → ℕ
  pub reply : TaskId → ℕ

module _ (k : Weights) where
  abbrev pub node_weight : Node → ℕ
  node_weight n =
      total (k.inbox n.worker.identity) n.inbox
      + (total k.taken n.worker.tasks
          + (total k.running n.worker.running + total k.finished n.worker.finished_tasks))

  -- What a published task counts with all workers together.
  abbrev pub spread : List String → WorkerTask → ℕ
  spread ids t = total (λ i. k.inbox i t) ids

  abbrev pub output_weight : List String → Output → ℕ
  output_weight ids (publish t) = spread ids t
  output_weight ids (to_manager id) = k.reply id

  notify-weight :
      (t : WorkerTask) (nodes : List Node)
      → (identities (map (notify t) nodes) ≡ identities nodes)
        × (total node_weight (map (notify t) nodes)
            ≡ total node_weight nodes + spread (identities nodes) t)
  notify-weight t [] = (refl, refl)
  notify-weight t (n ∷ nodes) =
      let (same, sum) = notify-weight t nodes in
      let more = total-append (k.inbox n.worker.identity) n.inbox (t ∷ []) in
      (ap (◌∷◌ n.worker.identity) same, omega arith)

  pub deliver-weight :
      (sent : List Output) (nodes : List Node)
      → (identities (deliver sent nodes) ≡ identities nodes)
        × (total node_weight (deliver sent nodes) + total k.reply (forwarded sent)
            ≡ total node_weight nodes + total (output_weight (identities nodes)) sent)
  deliver-weight [] nodes = (refl, refl)
  deliver-weight (publish t ∷ os) nodes =
      let (same, sum) = notify-weight t nodes in
      let (same', sum') = deliver-weight os (map (notify t) nodes) in
      let e = ap (λ ids. total (output_weight ids) os) same in (same' ∙ same, omega arith)
  deliver-weight (to_manager id ∷ os) nodes =
      let (same, sum) = deliver-weight os nodes in (same, omega arith)

  module _ (lib : GraphLibrary) (sort : lib.Graph → Result (List ℕ)) where
    abbrev pub weight : Cluster lib sort → ℕ
    weight κ =
        total k.request κ.requests
        + (total k.queue κ.broker.task_queue
            + (total node_weight κ.nodes
                + (total (λ (x : String × WorkerTaskId). k.response x.1) κ.responses
                    + total k.reply κ.replies)))

    pub broadcast-weight :
        (κ : Cluster lib sort) (b : Broker) (sent : List Output)
        → weight (broadcast lib sort κ b sent) + total k.queue κ.broker.task_queue
          ≡ weight κ + total k.queue b.task_queue + total (output_weight (identities κ.nodes)) sent
    broadcast-weight κ b sent =
        let (same, sum) = deliver-weight sent κ.nodes in
        let more = total-append k.reply κ.replies (forwarded sent) in omega arith

    -- One worker moves on.
    pub node-weight :
        (κ : Cluster lib sort) (pre post : List Node) (n n' : Node)
        → κ.nodes ≡ pre ++ n ∷ post
        → weight (record κ { nodes = pre ++ n' ∷ post }) + node_weight n ≡ weight κ + node_weight n'
    node-weight κ pre post n n' e =
        let before = ap (total node_weight) e in
        let change = total-replace node_weight pre post n n' in omega arith

pub identities-replace :
    (pre post : List Node) (n n' : Node)
    → n'.worker.identity ≡ n.worker.identity
    → identities (pre ++ n' ∷ post) ≡ identities (pre ++ n ∷ post)
identities-replace [] post n n' e = ap (λ i. i ∷ identities post) e
identities-replace (m ∷ pre) post n n' e =
    ap (◌∷◌ m.worker.identity) (identities-replace pre post n n' e)
