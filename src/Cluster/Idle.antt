-- ===== src/Cluster/Idle.antt =====
-- A cluster with nothing under way.
use distributed_task_dispatc.Prelude.{
  ℕ, ◌≡◌, refl, arith, List, [], ◌∷◌, String, Result, Eq_nat, All,
}
use distributed_task_dispatc.Dag.Library.{GraphLibrary}
use distributed_task_dispatc.Messages.{TaskId, Task, WorkerTaskId}
use distributed_task_dispatc.Cluster.{Node, Cluster}
use distributed_task_dispatc.Cluster.Flight.{HoldsNode}
use distributed_task_dispatc.Cluster.Holds.{Holds}
use distributed_task_dispatc.Cluster.Weights.{Weights, total, node_weight, weight}

pub total-none : {A : Type 0} (f : A → ℕ) (xs : List A) → All (λ (x : A). ⊥) xs → total f xs ≡ 0
total-none f [] a = refl
total-none f (x ∷ xs) a = absurd a.0

pub All-empty : {A : Type 0} (xs : List A) → All (λ (x : A). ⊥) xs → xs ≡ []
All-empty [] a = refl
All-empty (x ∷ xs) a = absurd a.0

module _ (lib : GraphLibrary) (sort : lib.Graph → Result (List ℕ)) where
  -- No request and no reply is anywhere.
  abbrev pub IsIdle : Cluster lib sort → Type 0
  IsIdle κ = Holds lib sort (λ (t : Task). ⊥) (λ (id : TaskId). ⊥) κ

  idle_nodes :
      (k : Weights) (nodes : List Node)
      → All (HoldsNode (λ (t : Task). ⊥) (λ (id : TaskId). ⊥)) nodes
      → total (node_weight k) nodes ≡ 0
  idle_nodes k [] a = refl
  idle_nodes k (n ∷ nodes) a = omega (
    arith,
    total-none (k.inbox n.worker.identity) n.inbox a.0.inbox,
    total-none k.taken n.worker.tasks a.0.tasks,
    total-none k.running n.worker.running a.0.running,
    total-none k.finished n.worker.finished_tasks a.0.finished,
    idle_nodes k nodes a.1,
  )

  pub idle_weight : (k : Weights) (κ : Cluster lib sort) → IsIdle κ → weight k lib sort κ ≡ 0
  idle_weight k κ idle = omega (
    arith,
    total-none k.request κ.requests idle.requests,
    total-none k.queue κ.broker.task_queue idle.queue,
    idle_nodes k κ.nodes idle.nodes,
    total-none (λ (y : String × WorkerTaskId). k.response y.1) κ.responses idle.responses,
    total-none k.reply κ.replies idle.replies,
  )
