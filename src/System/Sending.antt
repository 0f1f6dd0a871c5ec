-- ===== src/System/Sending.antt =====
-- `SendComputableTasks` keeps the invariant of a problem with its messages.
use distributed_task_dispatc.Prelude.{
  ℕ, ◌≡◌, refl, sym, ap, ◌∙◌, subst, ◌⊎◌, inl, inr, false, List, [], ◌∷◌, ◌++◌, some, Result,
  get_elem?, In, In-append, keys, lookup, Eq_nat, map, List-cases, entry-In, In-entry, In-get_elem?,
}
use distributed_task_dispatc.Domain.{VariableId}
use distributed_task_dispatc.Domain.{ExprResult}
use distributed_task_dispatc.Domain.Arith.{Reducer}
use distributed_task_dispatc.Expr.{Expr}
use distributed_task_dispatc.Expr.Traversal.{operands, postorder}
use distributed_task_dispatc.Dag.{index_of}
use distributed_task_dispatc.Dag.Records.{index_of-In}
use distributed_task_dispatc.Dag.Library.{GraphLibrary}
use distributed_task_dispatc.Messages.{Task}
use distributed_task_dispatc.Database.{dyn_record_id}
use distributed_task_dispatc.Decomposition.{TaskDecompositor}
use distributed_task_dispatc.Decomposition.Order.{IsDecomposition}
use distributed_task_dispatc.Decomposition.Independent.{variable_of, is_constant}
use distributed_task_dispatc.Decomposition.Queries.{In-cases}
use distributed_task_dispatc.Dispatch.{processing, CalculationData, form_operand}
use distributed_task_dispatc.Dispatch.Invariant.{IsConsistent}
use distributed_task_dispatc.Dispatch.Send.{
  IsRequest, AreRequests, mark_processing, mark_other, mark_sent,
}
use distributed_task_dispatc.System.{System}
use distributed_task_dispatc.System.Requests.{AllStand}
use distributed_task_dispatc.System.Coherent.{IsCoherent, IsOpen, form_operand-AllStand}
use distributed_task_dispatc.System.Grows.{Grows, mark-Grows, IsOpen-Grows, IsAnswer-Grows}

module _ (lib : GraphLibrary) (sort : lib.Graph → Result (List ℕ)) (root : Expr)
    (d : TaskDecompositor lib sort) (h : IsDecomposition lib sort root d) (r : Reducer)
    (read : VariableId → Result ExprResult) (problem_id : ℕ) where
  AreRequests-In :
      (c : CalculationData lib sort) (entries : List (ℕ × List ℕ)) (requests : List Task)
      (request : Task)
      → AreRequests lib sort root d h problem_id c entries requests
      → In request requests
      → (entry : ℕ × List ℕ) × In entry entries
        × IsRequest lib sort root d h problem_id c entry request
  AreRequests-In c [] [] request are i = absurd i
  AreRequests-In c [] (q ∷ qs) request are i = absurd are
  AreRequests-In c (e ∷ es) [] request are i = absurd are
  AreRequests-In c (e ∷ es) (q ∷ qs) request are (inl z) =
      (e, inl refl, subst (IsRequest lib sort root d h problem_id c e) (sym z) are.0)
  AreRequests-In c (e ∷ es) (q ∷ qs) request are (inr i) =
      let (entry, j, is) = AreRequests-In c es qs request are.1 i in (entry, inr j, is)

  In-AreRequests :
      (c : CalculationData lib sort) (entries : List (ℕ × List ℕ)) (requests : List Task)
      (entry : ℕ × List ℕ)
      → AreRequests lib sort root d h problem_id c entries requests
      → In entry entries
      → (request : Task) × In request requests
        × IsRequest lib sort root d h problem_id c entry request
  In-AreRequests c [] qs entry are i = absurd i
  In-AreRequests c (e ∷ es) [] entry are i = absurd are
  In-AreRequests c (e ∷ es) (q ∷ qs) entry are (inl z) =
      (q, inl refl, subst (λ x. IsRequest lib sort root d h problem_id c x q) (sym z) are.0)
  In-AreRequests c (e ∷ es) (q ∷ qs) entry are (inr i) =
      let (request, j, is) = In-AreRequests c es qs entry are.1 i in (request, inr j, is)

  operand_known :
      (t : ℕ) (e o : Expr)
      → get_elem? h.records t ≡ some e
      → In o (operands e)
      → get_elem? h.records (index_of h.records o) ≡ some o
  operand_known t e o at i =
      let (j, _, at') = h.numbering.operands_first t e o at i in
      index_of-In h.records o (In-get_elem? h.records j at')

  -- A task that is under way after a send was so before, or is requested.
  pub sent-under_way :
      (c c' : CalculationData lib sort) (requests : List Task) (t : ℕ)
      → AreRequests lib sort root d h problem_id c c.computable_task_to_dependencies requests
      → c'.processed_tasks_to_status
        ≡ mark_processing c.computable_task_to_dependencies c.processed_tasks_to_status
      → lookup t c'.processed_tasks_to_status ≡ some processing
      → ((request : Task) × In request requests × (request.id ≡ dyn_record_id problem_id t))
        ⊎ (lookup t c.processed_tasks_to_status ≡ some processing)
  sent-under_way c c' requests t are marked q =
      let entries = c.computable_task_to_dependencies in
      elim (In-cases t (keys entries)) [
        | inl i ↦
            let (deps, k) = In-entry t entries i in
            let (request, j, (_, _, same)) = In-AreRequests c entries requests (t, deps) are k in
            inl (request, j, ap (λ (x : Task). x.id) same)
        | inr n ↦
            inr
              (sym (ap (lookup t) marked ∙ mark_other entries c.processed_tasks_to_status t n) ∙ q)
      ]

  module _ (plain : (e : Expr) → In e (postorder root) → is_constant e ≡ false) where
    request-IsOpen :
        (σ : System lib sort) (c : CalculationData lib sort) (t : ℕ) (deps : List ℕ)
        (request : Task)
        → IsCoherent lib sort root d h r read problem_id σ
        → c.processed_tasks_to_status
          ≡ mark_processing σ.entry.computable_task_to_dependencies
              σ.entry.processed_tasks_to_status
        → In (t, deps) σ.entry.computable_task_to_dependencies
        → IsRequest lib sort root d h problem_id σ.entry (t, deps) request
        → IsOpen lib sort root d h r read problem_id c request
    request-IsOpen σ c t deps request good marked i (e, at, same) =
        let m = σ.entry.processed_tasks_to_status in
        let entries = σ.entry.computable_task_to_dependencies in
        let (listed, unseen, ready, targets_of) = (good.inv.exact t deps).0 i in
        record {
          task = t;
          expr = e;
          status = processing;
          at = at;
          operation = (
            elim (List-cases (variable_of e)) [
              | inl z ↦ z
              | inr (id, ids, z) ↦
                  let done = good.variables t e id at (subst (In id) (sym z) (inl refl)) in
                  cc (done, unseen)
            ],
            plain e ((h.numbering.exact e).0 (In-get_elem? h.records t at)),
          );
          known = rw marked (mark_sent entries m t (entry-In t deps entries i));
          id_of = ap (λ (x : Task). x.id) same;
          type_of = ap (λ (x : Task). x.operation_type) same;
          stand =
              subst (λ x. AllStand r read problem_id h.records x (operands e))
                (sym (
                  ap (λ (x : Task). x.operands) same
                  ∙ ap (map (form_operand lib sort σ.entry problem_id))
                      (targets_of ∙ h.graph_of.edges t e at)))
                (form_operand-AllStand lib sort root d h r read problem_id σ.entry good.inv
                  (operands e) (λ o j. operand_known t e o at j));
        }

    -- The state after a send.
    abbrev after : System lib sort → CalculationData lib sort → List Task → System lib sort
    after σ c requests = record σ { entry = c; sent = σ.sent ++ requests }

    pub send-IsCoherent :
        (σ : System lib sort) (c : CalculationData lib sort) (requests : List Task)
        → IsCoherent lib sort root d h r read problem_id σ
        → IsConsistent lib sort root d h c
        → AreRequests lib sort root d h problem_id σ.entry σ.entry.computable_task_to_dependencies
            requests
        → c.processed_tasks_to_status
          ≡ mark_processing σ.entry.computable_task_to_dependencies
              σ.entry.processed_tasks_to_status
        → IsCoherent lib sort root d h r read problem_id (after σ c requests)
    send-IsCoherent σ c requests good inv are marked =
        let m = σ.entry.processed_tasks_to_status in
        let entries = σ.entry.computable_task_to_dependencies in
        let grows : Grows m c.processed_tasks_to_status =
          subst (Grows m) (sym marked) (mark-Grows entries m) in
        let status : (t : ℕ)
            → ¬ In t (keys entries)
            → lookup t c.processed_tasks_to_status ≡ lookup t m =
          λ t n. ap (lookup t) marked ∙ mark_other entries m t n in
        let sent : (t : ℕ)
            → In t (keys entries)
            → lookup t c.processed_tasks_to_status ≡ some processing =
          λ t i. ap (lookup t) marked ∙ mark_sent entries m t i in
        record {
          inv = inv;
          variables = λ t e id at i.
              let done = good.variables t e id at i in
              status t (λ j.
                let (deps, k) = In-entry t entries j in cc (((good.inv.exact t deps).0 k).1, done))
              ∙ done;
          static_data = good.static_data;
          requests = λ request i. elim ((In-append request σ.sent requests).0 i) [
            | inl j ↦
                IsOpen-Grows lib sort root d h r read problem_id σ.entry c request grows
                  (good.requests request j)
            | inr j ↦
                let ((t, deps), k, is) = AreRequests-In σ.entry entries requests request are j in
                request-IsOpen σ c t deps request good marked k is
          ];
          answers = λ id i.
              IsAnswer-Grows lib sort root d h r read problem_id σ.entry c σ.store id grows
                (good.answers id i);
          values = good.values;
          stored = λ t e at done. elim (In-cases t (keys entries)) [
            | inl i ↦ cc (sent t i, done)
            | inr n ↦ good.stored t e at (sym (status t n) ∙ done)
          ];
          under_way = λ t q. elim (sent-under_way σ.entry c requests t are marked q) [
            | inl (request, j, same) ↦
                inl (request, (In-append request σ.sent requests).1 (inr j), same)
            | inr before ↦ elim (good.under_way t before) [
              | inl (request, j, same) ↦
                  inl (request, (In-append request σ.sent requests).1 (inl j), same)
              | inr j ↦ inr j
            ]
          ];
        }
