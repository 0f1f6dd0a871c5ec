-- ===== src/System/Working.antt =====
-- `CalculateTask` of a worker keeps the invariant of a problem with its messages.
use distributed_task_dispatc.Prelude.{
  ℕ, ◌≤◌, ◌<◌, ◌^◌, ◌≡◌, sym, ap, ◌∙◌, subst, ◌⊎◌, inl, inr, true, List, ◌∷◌, ◌++◌, some, String,
  Result, ok, arith, length, get_elem?, get_elem?-lt, get_elem?-some, In, In-append, lookup, Eq_nat,
  In-get_elem?, ◌>>=◌,
}
use distributed_task_dispatc.Domain.{ExprResult, VariableId}
use distributed_task_dispatc.Domain.Arith.{Reducer}
use distributed_task_dispatc.Expr.{Expr}
use distributed_task_dispatc.Expr.Traversal.{is_complete}
use distributed_task_dispatc.Dag.Library.{GraphLibrary}
use distributed_task_dispatc.Messages.{uint32, TaskId, Task}
use distributed_task_dispatc.Decomposition.{TaskDecompositor}
use distributed_task_dispatc.Decomposition.Order.{IsDecomposition, length-vertices}
use distributed_task_dispatc.Database.{dyn_record_id, write_dynamic_data, find_row}
use distributed_task_dispatc.Database.Growth.{
  write_dynamic_data-keeps, write_dynamic_data-adds, write_dynamic_data-there, read_data-static,
}
use distributed_task_dispatc.Dispatch.{TaskStatus, CalculationData}
use distributed_task_dispatc.Dispatch.Invariant.{IsConsistent}
use distributed_task_dispatc.Worker.{calculate_task}
use distributed_task_dispatc.System.{System, evaluate}
use distributed_task_dispatc.Expr.Subexpressions.{complete-postorder}
use distributed_task_dispatc.System.Requests.{dyn_record_id_twice, calculate_task-evaluate}
use distributed_task_dispatc.System.Coherent.{IsCoherent, IsOpen, operands-IsStored}

-- Task numbers below 2 ^ 32 survive the message.
pub dyn_record_id_eq :
    (p a b : ℕ) → a < 2 ^ 32 → b < 2 ^ 32 → dyn_record_id p a ≡ dyn_record_id p b → a ≡ b
dyn_record_id_eq p a b less less' q =
    let e : uint32 a ≡ uint32 b = ap (λ (k : TaskId). k.task_id) q in omega arith

pub In-rest :
    {A : Type 0} (pre post : List A) (x y : A) (xs : List A)
    → xs ≡ pre ++ x ∷ post
    → In y (pre ++ post)
    → In y xs
In-rest pre post x y xs split i = subst (In y) (sym split) (
    (In-append y pre (x ∷ post)).1
      (elim ((In-append y pre post).0 i) [ inl j ↦ inl j | inr j ↦ inr (inr j) ]))

pub In-taken :
    {A : Type 0} (pre post : List A) (x y : A) (xs : List A)
    → xs ≡ pre ++ x ∷ post
    → In y xs
    → (y ≡ x) ⊎ In y (pre ++ post)
In-taken pre post x y xs split i = elim ((In-append y pre (x ∷ post)).0 (subst (In y) split i)) [
  | inl j ↦ inr ((In-append y pre post).1 (inl j))
  | inr (inl q) ↦ inl q
  | inr (inr j) ↦ inr ((In-append y pre post).1 (inr j))
]

module _ (lib : GraphLibrary) (sort : lib.Graph → Result (List ℕ)) (root : Expr)
    (d : TaskDecompositor lib sort) (h : IsDecomposition lib sort root d) (r : Reducer)
    (read : VariableId → Result ExprResult) (problem_id : ℕ)
    (complete : is_complete root ≡ true) where
  -- A request is calculated to the value of its expression.
  pub open_value :
      (σ : System lib sort) (identity : String) (t : Task)
      → IsCoherent lib sort root d h r read problem_id σ
      → (o : IsOpen lib sort root d h r read problem_id σ.entry t)
      → calculate_task r σ.store (record { identity = identity; task = t }) ≡ (
          evaluate r read o.expr >>= λ v. ok (
            write_dynamic_data σ.store t.id.problem_id t.id.task_id v,
            record { identity = identity; id = t.id },
          ))
  open_value σ identity t good o =
      calculate_task-evaluate r read problem_id h.records σ.store identity t o.expr
        (complete-postorder root o.expr complete
          ((h.numbering.exact o.expr).0 (In-get_elem? h.records o.task o.at)))
        o.operation good.static_data o.type_of o.stand
        (λ e i.
          operands-IsStored lib sort root d h r read problem_id σ good o.task o.expr e o.status o.at
            o.known i)

  -- A task with a status is a node of the tree.
  pub known_task :
      (c : CalculationData lib sort)
      → IsConsistent lib sort root d h c
      → (u : ℕ) (s : TaskStatus) → lookup u c.processed_tasks_to_status ≡ some s
      → (e : Expr) × (get_elem? h.records u ≡ some e)
  known_task c inv u s known = get_elem?-some h.records u (
      omega (
        arith,
        (h.order.exact u).0 (inv.started u s known).0,
        length-vertices lib h.records d.graph h.graph_of,
      ))

  module _ (small : length h.records ≤ 2 ^ 32) where
    pub same_task :
        (a b : ℕ) (x y : Expr)
        → get_elem? h.records a ≡ some x
        → get_elem? h.records b ≡ some y
        → dyn_record_id problem_id a ≡ dyn_record_id problem_id b
        → a ≡ b
    same_task a b x y at at' q =
        let less = get_elem?-lt h.records a at in
        let less' = get_elem?-lt h.records b at' in
        dyn_record_id_eq problem_id a b (omega arith) (omega arith) q

    -- The state after a worker calculated the value of a request.
    abbrev worked : System lib sort → List Task → List Task → Task → ExprResult → System lib sort
    worked σ pre post t v = record σ {
      sent = pre ++ post;
      answered = t.id ∷ σ.answered;
      store = write_dynamic_data σ.store t.id.problem_id t.id.task_id v;
    }

    pub worked-IsCoherent :
        (σ : System lib sort) (pre post : List Task) (t : Task) (v : ExprResult)
        → IsCoherent lib sort root d h r read problem_id σ
        → σ.sent ≡ pre ++ t ∷ post
        → (o : IsOpen lib sort root d h r read problem_id σ.entry t) → evaluate r read o.expr ≡ ok v
        → IsCoherent lib sort root d h r read problem_id (worked σ pre post t v)
    worked-IsCoherent σ pre post t v good split o value =
        let p = t.id.problem_id in
        let k = t.id.task_id in
        let key : dyn_record_id p k ≡ dyn_record_id problem_id o.task =
          ap (λ (x : TaskId). dyn_record_id x.problem_id x.task_id) o.id_of
          ∙ dyn_record_id_twice problem_id o.task in
        let (f, there) = write_dynamic_data-there σ.store p k v in
        record {
          inv = good.inv;
          variables = good.variables;
          static_data = λ id. read_data-static σ.store p k v id ∙ good.static_data id;
          requests = λ request i. good.requests request (In-rest pre post t request σ.sent split i);
          answers = λ id i. elim i [
            | inl q ↦ record {
              task = o.task;
              expr = o.expr;
              status = o.status;
              at = o.at;
              known = o.known;
              id_of = q ∙ o.id_of;
              row = f;
              found =
                  subst (λ j. find_row j (write_dynamic_data σ.store p k v).dynamic_data ≡ some f)
                    key there;
            }
            | inr j ↦
                let a = good.answers id j in
                record {
                  task = a.task;
                  expr = a.expr;
                  status = a.status;
                  at = a.at;
                  known = a.known;
                  id_of = a.id_of;
                  row = a.row;
                  found =
                      write_dynamic_data-keeps σ.store p k v (dyn_record_id problem_id a.task) a.row
                        a.found;
                }
          ];
          values = λ u e g at row.
              elim (write_dynamic_data-adds σ.store p k v (dyn_record_id problem_id u) g row) [
                | inl old ↦ good.values u e g at old
                | inr (here, q) ↦
                    let same = same_task u o.task e o.expr at o.at (here ∙ key) in
                    let both : some e ≡ some o.expr =
                      sym at ∙ ap (get_elem? h.records) same ∙ o.at in
                    let e≡ : e ≡ o.expr = cc both in (v, q, ap (evaluate r read) e≡ ∙ value)
              ];
          stored = λ u e at done. elim (good.stored u e at done) [
            | inl z ↦ inl z
            | inr (g, row) ↦
                inr (g, write_dynamic_data-keeps σ.store p k v (dyn_record_id problem_id u) g row)
          ];
          under_way = λ u q. elim (good.under_way u q) [
            | inl (request, i, same) ↦ elim (In-taken pre post t request σ.sent split i) [
              | inl z ↦ inr (inl (sym same ∙ ap (λ (x : Task). x.id) z))
              | inr j ↦ inl (request, j, same)
            ]
            | inr i ↦ inr (inr i)
          ];
        }
