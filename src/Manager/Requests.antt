-- ===== src/Manager/Requests.antt =====
-- grpc-server/grpc_server.cpp and dispatch/dispatch.cpp: `CalculateProblem` before and after its wait.
use distributed_task_dispatc.Prelude.{
  ℕ, ◌≡◌, ◌≢◌, refl, true, false, List, some, String, Result, ok, err, bad_deref, logic_error,
  get_last?, In, lookup, keys, Eq_nat,
}
use distributed_task_dispatc.Domain.{ExprResult}
use distributed_task_dispatc.Expr.{Expr}
use distributed_task_dispatc.Expr.Json.{Json, from_json}
use distributed_task_dispatc.Expr.Json.RoundTrip.{one, to_json, Fits, from_json-to_json}
use distributed_task_dispatc.Expr.Traversal.{is_complete, postorder}
use distributed_task_dispatc.Dag.Library.{GraphLibrary}
use distributed_task_dispatc.Messages.{uint32, TaskId}
use distributed_task_dispatc.Decomposition.Order.{Sorts, new-incomplete}
use distributed_task_dispatc.Decomposition.Independent.{is_constant}
use distributed_task_dispatc.Database.{
  Store, dyn_id, dyn_record_id, read_data, clear_intermediate_calculations,
}
use distributed_task_dispatc.Database.Rows.{read_data-clear}
use distributed_task_dispatc.Dispatch.{
  CalculationData, Dispatcher, new_calculation, push_problem, clear_problem,
}
use distributed_task_dispatc.Dispatch.Start.{new_calculation-IsConsistent}
use distributed_task_dispatc.Dispatch.Serving.{IsServing}
use distributed_task_dispatc.Dispatch.Problems.{push_problem-IsServing, clear_problem-IsServing}
use distributed_task_dispatc.Manager.{
  begin_problem, end_problem, accept_request, answer_request, to_reply,
}

module _ (lib : GraphLibrary) (sort : lib.Graph → Result (List ℕ)) where
  -- For every sort that meets `Sorts`: the document of a tree with 32-bit constants in which no
  -- node lacks an operand and no node is a constant is accepted. On a dispatcher whose problems are
  -- all consistent and whose next number is not in use, the problem gets that number with the
  -- calculation that is made of the tree, and its flag is not set; all other problems stay, all
  -- problems are consistent, and the wait is for the last task of the problem.
  pub accept_request-starts :
      (sorts : Sorts lib sort) (parse : String → Result Json) (s : Dispatcher lib sort)
      (request : String) (e : Expr)
      → Fits e
      → parse request ≡ ok (one "ast" (to_json e))
      → is_complete e ≡ true
      → ((x : Expr) → In x (postorder e) → is_constant x ≡ false)
      → IsServing lib sort s
      → ¬ In s.next_problem_id (keys s.calculations)
      → ¬ In s.next_problem_id (keys s.sync)
      → (s' : Dispatcher lib sort) × (c : CalculationData lib sort) × (last : ℕ) × (accept_request
            lib sort parse s request
          ≡ ok (s', s.next_problem_id, last))
        × (new_calculation lib sort e ≡ ok c)
        × IsServing lib sort s'
        × (lookup s.next_problem_id s'.calculations ≡ some c)
        × (lookup s.next_problem_id s'.sync ≡ some false)
        × (get_last? c.decompositor.tasks ≡ some last)
        × ((j : ℕ) → j ≢ s.next_problem_id → lookup j s'.calculations ≡ lookup j s.calculations)
  unfolding accept_request begin_problem
  accept_request-starts sorts parse s request e fits parsed complete plain serving fresh fresh' =
      let (d, h, c, made, inv, _) = new_calculation-IsConsistent lib sort sorts e complete plain in
      let (last, at_end, _) = h.last_task in
      let end : get_last? c.decompositor.tasks ≡ some last = rw inv.same at_end in
      let (serving', same, found, flag, others) =
        push_problem-IsServing lib sort s c serving
          (record { root = e; d = d; made = h; inv = inv }) fresh fresh' in
      (
        (push_problem lib sort s c).0,
        c,
        last,
        rw (from_json-to_json parse request e fits parsed, made, end, same) refl,
        made,
        serving',
        found,
        flag,
        end,
        others,
      )

  -- The document of a tree in which some node lacks an operand passes the reader, and the missing
  -- operand is then dereferenced, whatever the library and the dispatcher are.
  pub accept_request-incomplete :
      (parse : String → Result Json) (s : Dispatcher lib sort) (request : String) (e : Expr)
      → Fits e
      → parse request ≡ ok (one "ast" (to_json e))
      → is_complete e ≡ false
      → (from_json parse request ≡ ok e) × (accept_request lib sort parse s request ≡ err bad_deref)
  unfolding accept_request begin_problem new_calculation
  accept_request-incomplete parse s request e fits parsed missing =
      let read = from_json-to_json parse request e fits parsed in
      (read, rw (read, new-incomplete lib sort e missing) refl)

  -- On a dispatcher whose problems are all consistent, after the wait for a task whose value is in
  -- the store: the reply holds that value; the dispatcher forgets the problem and keeps all others,
  -- each consistent; no value of the problem can be read any more, and the values of other problems
  -- and the static data stay.
  pub answer_request-returns :
      (s : Dispatcher lib sort) (store : Store) (problem_id last : ℕ) (v : ExprResult)
      → IsServing lib sort s
      → read_data store (dyn_id (dyn_record_id problem_id last)) ≡ ok v
      → (s' : Dispatcher lib sort) × (store' : Store) × (answer_request lib sort s store problem_id
            last
          ≡ (s', ok (store', to_reply v)))
        × IsServing lib sort s'
        × (¬ In problem_id (keys s'.calculations))
        × ((j : ℕ) → j ≢ problem_id → lookup j s'.calculations ≡ lookup j s.calculations)
        × ((t : ℕ) → read_data store' (dyn_id (dyn_record_id problem_id t)) ≡ err logic_error)
        × ((k : TaskId)
            → k.problem_id ≢ uint32 problem_id
            → read_data store' (dyn_id k) ≡ read_data store (dyn_id k))
        × (store'.static_data ≡ store.static_data)
  unfolding answer_request end_problem
  answer_request-returns s store problem_id last v serving value =
      let (serving', gone, others) = clear_problem-IsServing lib sort s problem_id serving in
      let (unreadable, kept, static) = read_data-clear store problem_id in
      (
        clear_problem lib sort s problem_id,
        clear_intermediate_calculations store problem_id,
        rw value refl,
        serving',
        gone,
        λ j n. (others j n).0,
        unreadable,
        kept,
        static,
      )
