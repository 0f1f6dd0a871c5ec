-- ===== src/Broker/Workers.antt =====
-- `RegisterWorker` and the counts of free cores.
use distributed_task_dispatc.Prelude.{
  ℕ, ◌≡◌, refl, sym, ap, ◌∙◌, inl, inr, String, none, some, ok, err, logic_error, arith, lookup,
  lookup-assign_self, lookup-assign_ne, assign, Distinct-assign, Eq_string, str_eq, str_eq_iff,
  Bool-cases,
}
use distributed_task_dispatc.Broker.{Broker, register_worker}
use distributed_task_dispatc.Broker.Cores.{Tracks}

register_new :
    (b : Broker) (w : String) (n : ℕ)
    → lookup w b.available ≡ none
    → register_worker b w n ≡ ok (record b { available = assign w n b.available })
unfolding register_worker
register_new b w n e = rw (e, register_worker) refl

register_known :
    (b : Broker) (w : String) (n : ℕ) {k : ℕ}
    → lookup w b.available ≡ some k
    → register_worker b w n ≡ err logic_error
unfolding register_worker
register_known b w n e = rw (e, register_worker) refl

-- While the counts are right, a worker that is not known and holds no task is registered with all
-- its cores free: the counts stay right, the queue is left as it is, and a second registration
-- under the same identity is refused.
pub register_worker-Tracks :
    (b : Broker) (cores load : String → ℕ) (w : String)
    → Tracks b cores load
    → lookup w b.available ≡ none
    → load w ≡ 0
    → (b' : Broker) × (register_worker b w (cores w) ≡ ok b')
      × Tracks b' cores load
      × (b'.task_queue ≡ b.task_queue)
      × ((n : ℕ) → register_worker b' w n ≡ err logic_error)
register_worker-Tracks b cores load w h fresh idle =
    let b' : Broker = record b { available = assign w (cores w) b.available } in
    let here = lookup-assign_self w (cores w) b.available in
    (
      b',
      register_new b w (cores w) fresh,
      record {
        distinct = Distinct-assign w (cores w) b.available h.distinct;
        bounded = h.bounded;
        balance = λ v k e. elim (Bool-cases (str_eq w v)) [
          | inl q ↦
              let same = (str_eq_iff w v).0 q in
              let at : some (cores w) ≡ some k =
                sym here ∙ ap (λ u. lookup u b'.available) same ∙ e in
              let n : cores w ≡ k = cc at in omega (arith, n, idle, ap load same, ap cores same)
          | inr q ↦ h.balance v k (
              sym (lookup-assign_ne w v (cores w) b.available (λ z. cc ((str_eq_iff w v).1 z, q)))
              ∙ e)
        ];
      },
      refl,
      λ n. register_known b' w n here,
    )
