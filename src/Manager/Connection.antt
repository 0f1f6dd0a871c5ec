-- ===== src/Manager/Connection.antt =====
-- `BrokerConnection::SendRequest` of manager/src/dispatch/task_dealer.cpp.
use mathlib.Core.List.{append-nil, append_assoc}
use distributed_task_dispatc.Prelude.{
  ◌⊎◌, ◌≡◌, ◌∙◌, inl, inr, Bool, true, false, Bool-cases, List, [], ◌∷◌, ◌++◌, In, In-append, sym,
}
use distributed_task_dispatc.Messages.{Task}

-- `SendRequest`, with the requests that the socket has taken so far and whether it takes this one; a
-- request that it does not take is logged and lost.
unfoldable pub send_request : Bool → List Task → Task → List Task
send_request true sent t = sent ++ t ∷ []
send_request false sent t = sent

-- The calls of `SendComputableTasks` in turn.
unfoldable pub send_requests : (Task → Bool) → List Task → List Task → List Task
unfolding send_request
send_requests takes sent [] = sent
send_requests takes sent (t ∷ ts) = send_requests takes (send_request (takes t) sent t) ts

-- Nothing but the requests reaches the broker.
pub send_requests-In :
    (takes : Task → Bool) (sent ts : List Task) (t : Task)
    → In t (send_requests takes sent ts)
    → In t sent ⊎ In t ts
unfolding send_requests send_request
send_requests-In takes sent [] t i = inl i
send_requests-In takes sent (u ∷ us) t i = elim (Bool-cases (takes u)) [
  | inr b ↦ elim (send_requests-In takes sent us t (rw b at i)) [
    | inl j ↦ inl j
    | inr j ↦ inr (inr j)
  ]
  | inl b ↦ elim (send_requests-In takes (sent ++ u ∷ []) us t (rw b at i)) [
    | inr j ↦ inr (inr j)
    | inl j ↦ elim ((In-append t sent (u ∷ [])).0 j) [
      | inl k ↦ inl k
      | inr (inl q) ↦ inr (inl q)
      | inr (inr z) ↦ absurd z
    ]
  ]
]

-- A connection that takes every request has them all, in order.
pub send_requests-append : (sent ts : List Task) → send_requests (λ t. true) sent ts ≡ sent ++ ts
unfolding send_requests send_request
send_requests-append sent [] = sym (append-nil sent)
send_requests-append sent (t ∷ ts) =
    send_requests-append (sent ++ t ∷ []) ts ∙ append_assoc sent (t ∷ []) ts
