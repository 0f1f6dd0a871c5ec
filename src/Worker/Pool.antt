-- ===== src/Worker/Pool.antt =====
-- The queues of a worker under any interleaving of its requests, threads and replies.
use distributed_task_dispatc.Prelude.{
  ℕ, ◌≡◌, refl, ap, ◌∙◌, Bool, List, [], ◌∷◌, ◌++◌, Option, none, String, Result, ok, ◌>>=◌,
  >>=-eq-ok, arith,
}
use distributed_task_dispatc.Domain.Arith.{Reducer}
use distributed_task_dispatc.Messages.{WorkerTask, WorkerTaskId, WorkerMessage}
use distributed_task_dispatc.Database.{Store}
use distributed_task_dispatc.Worker.{
  Worker, read_request, take_task, finish_task, check_output_queue,
}
use distributed_task_dispatc.Worker.Queues.{
  count, count-append, Balanced, sent_by, taken_in, read_request-Balanced, take_task-Balanced,
  finish_task-Balanced, check_output_queue-Balanced,
}

pub data Event : Type 0 where
  request : WorkerTask → Event
  take : Event
  finish : ℕ → Event
  reply : Event

abbrev pub handle :
    Reducer → Store → Worker → Event → Result (Store × Worker × Option WorkerMessage)
handle r s w (request t) = ok (s, read_request w t, none)
handle r s w take = ok (s, take_task w, none)
handle r s w (finish i) = do (s', w') ← finish_task r s w i; ok (s', w', none)
handle r s w reply = let (w', message) = check_output_queue w in ok (s, w', message)

-- The tasks that an event brings for this worker.
abbrev pub accepted : String → Event → List WorkerTaskId
accepted identity (request t) = taken_in identity t
accepted identity _ = []

handle-Balanced :
    (p : WorkerTaskId → Bool) (r : Reducer) (e : Event) (s s' : Store) (w w' : Worker)
    (message : Option WorkerMessage)
    → handle r s w e ≡ ok (s', w', message)
    → Balanced p w (accepted w.identity e) w' (sent_by message)
handle-Balanced p r (request t) s s' w w' message h =
    let e : read_request w t ≡ w' = cc h in
    let f : none ≡ message = cc h in rw (← e, ← f) (read_request-Balanced p w t)
handle-Balanced p r take s s' w w' message h =
    let e : take_task w ≡ w' = cc h in
    let f : none ≡ message = cc h in rw (← e, ← f) (take_task-Balanced p w)
handle-Balanced p r (finish i) s s' w w' message h =
    let (a, run, h') = >>=-eq-ok (finish_task r s w i) _ h in
    let e : a.1 ≡ w' = cc h' in
    let f : none ≡ message = cc h' in rw (← e, ← f) (finish_task-Balanced p r s a.0 w a.1 i run)
handle-Balanced p r reply s s' w w' message h =
    let e : (check_output_queue w).0 ≡ w' = cc h in
    let f : (check_output_queue w).1 ≡ message = cc h in
    rw (← e, ← f) (check_output_queue-Balanced p w)

-- The events in turn, with the responses that are sent.
unfoldable pub handle_all :
    Reducer → Store → Worker → List Event → Result (Store × Worker × List WorkerTaskId)
handle_all r s w [] = ok (s, w, [])
handle_all r s w (e ∷ es) = do
  (s₁, w₁, message) ← handle r s w e
  (s₂, w₂, later) ← handle_all r s₁ w₁ es
  ok (s₂, w₂, sent_by message ++ later)

abbrev pub accepted_all : String → List Event → List WorkerTaskId
accepted_all identity [] = []
accepted_all identity (e ∷ es) = accepted identity e ++ accepted_all identity es

-- For every test on responses and every order of requests, threads and replies: the responses that
-- were sent and those that the worker owes at the end are, counted, those that it owed before and
-- those of the tasks that it accepted.
pub handle_all-Balanced :
    (p : WorkerTaskId → Bool) (r : Reducer) (es : List Event) (s s' : Store) (w w' : Worker)
    (sent : List WorkerTaskId)
    → handle_all r s w es ≡ ok (s', w', sent)
    → Balanced p w (accepted_all w.identity es) w' sent
unfolding handle_all
handle_all-Balanced p r [] s s' w w' sent h =
    let e : w ≡ w' = cc h in let f : [] ≡ sent = cc h in rw (← e, ← f) (refl, refl)
handle_all-Balanced p r (e ∷ es) s s' w w' sent h =
    let (a, run, h') = >>=-eq-ok (handle r s w e) _ h in
    let (b, runs, h'') = >>=-eq-ok (handle_all r a.0 a.1 es) _ h' in
    let end : b.1 ≡ w' = cc h'' in
    let all : sent_by a.2 ++ b.2 ≡ sent = cc h'' in
    let (same, one) = handle-Balanced p r e s a.0 w a.1 a.2 run in
    let (same', rest) = handle_all-Balanced p r es a.0 b.0 a.1 b.1 b.2 runs in
    let got = count-append p (accepted w.identity e) (accepted_all w.identity es) in
    let gave = count-append p (sent_by a.2) b.2 in
    let id = ap (λ i. count p (accepted_all i es)) same in
    rw (← end, ← all) (same' ∙ same, omega arith)
