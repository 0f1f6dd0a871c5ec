-- ===== src/Dag/Records.antt =====
-- `DagVisitor::Visit` over a traversal: the records as a numbering of the subexpressions.
use mathlib.Core.List.{foldl}
use distributed_task_dispatc.Prelude.{
  ℕ, suc, ◌<◌, ◌≡◌, refl, sym, ap, ◌∙◌, subst, ◌⊎◌, ◌↔◌, inl, inr, true, List, [], ◌∷◌, ◌++◌, some,
  ok, arith, length, get_elem?, get_last?, get_elem?-append_left, get_elem?-append_last,
  get_elem?-lt, get_elem?-In, get_last?-append, length-append, In, In-append, Distinct,
  Distinct-append_last, concat_map, In-concat_map, dec_lt, Bool-cases,
}
use distributed_task_dispatc.Expr.{Expr, expr_eq, postorder_traverse}
use distributed_task_dispatc.Expr.Equality.{expr_eq_iff}
use distributed_task_dispatc.Expr.Traversal.{
  operands, is_complete, postorder, foldl-append, traverse-postorder,
}
use distributed_task_dispatc.Expr.Subexpressions.{
  Expr-induction, postorder_lem, In-postorder_self, not-In-postorder_operands,
}
use distributed_task_dispatc.Dag.{find_index, index_of, visit}

-- A test that decides equality finds the first copy of what occurs, and nothing else.
pub index_of-In :
    (records : List Expr) (e : Expr)
    → In e records
    → get_elem? records (index_of records e) ≡ some e
unfolding find_index
index_of-In [] e m = absurd m
index_of-In (x ∷ records) e m = elim (Bool-cases (expr_eq x e)) [
  | inl h ↦ rw h (ap some ((expr_eq_iff x e).0 h))
  | inr h ↦ rw h (elim m [
    | inl q ↦ absurd (cc ((expr_eq_iff x e).1 (sym q)))
    | inr m' ↦ index_of-In records e m'
  ])
]

index_of-length :
    (records : List Expr) (e : Expr) → ¬ In e records → index_of records e ≡ length records
unfolding find_index
index_of-length [] e n = refl
index_of-length (x ∷ records) e n = elim (Bool-cases (expr_eq x e)) [
  | inl h ↦ absurd (n (inl (sym ((expr_eq_iff x e).0 h))))
  | inr h ↦ rw h (ap suc (index_of-length records e (λ m. n (inr m))))
]

-- Whether an expression has a record.
In-cases : (records : List Expr) (e : Expr) → In e records ⊎ ¬ In e records
In-cases [] e = inr (λ m. m)
In-cases (x ∷ records) e = elim (Bool-cases (expr_eq x e)) [
  | inl h ↦ inl (inl (sym ((expr_eq_iff x e).0 h)))
  | inr h ↦ elim (In-cases records e) [
    | inl m ↦ inl (inr m)
    | inr n ↦ inr (λ m. elim m [ inl q ↦ cc ((expr_eq_iff x e).1 (sym q)) | inr m' ↦ n m' ])
  ]
]

visit-old : (records : List Expr) (e : Expr) → In e records → visit records e ≡ records
unfolding visit
visit-old records e m =
    ground (arith, get_elem?-lt records (index_of records e) (index_of-In records e m))

visit-new : (records : List Expr) (e : Expr) → ¬ In e records → visit records e ≡ records ++ e ∷ []
unfolding visit
visit-new records e n = ground (arith, index_of-length records e n)

In-visit :
    (x : Expr) (records : List Expr) (e : Expr) → In x (visit records e) ↔ (In x records ⊎ (x ≡ e))
In-visit x records e = elim (In-cases records e) [
  | inl m ↦
      rw (visit-old records e m)
        (inl, λ s. elim s [ inl i ↦ i | inr q ↦ subst (λ y. In y records) (sym q) m ])
  | inr n ↦ rw (visit-new records e n) (
    λ m. elim ((In-append x records (e ∷ [])).0 m) [
      | inl i ↦ inl i
      | inr (inl q) ↦ inr q
      | inr (inr z) ↦ absurd z
    ],
    λ s. (In-append x records (e ∷ [])).1 (elim s [ inl i ↦ inl i | inr q ↦ inr (inl q) ]),
  )
]

Distinct-visit : (records : List Expr) (e : Expr) → Distinct records → Distinct (visit records e)
Distinct-visit records e d = elim (In-cases records e) [
  | inl m ↦ rw (visit-old records e m) d
  | inr n ↦ rw (visit-new records e n) (Distinct-append_last records e d n)
]

-- Every operand of a record has a record with a smaller index.
abbrev pub OperandsFirst : List Expr → Type 0
OperandsFirst records =
    (i : ℕ) (p o : Expr)
    → get_elem? records i ≡ some p
    → In o (operands p)
    → (j : ℕ) × (j < i) × (get_elem? records j ≡ some o)

append-OperandsFirst :
    (records : List Expr) (e : Expr)
    → OperandsFirst records
    → ((o : Expr) → In o (operands e) → In o records)
    → OperandsFirst (records ++ e ∷ [])
append-OperandsFirst records e f below i p o h m = elim (dec_lt i (length records)) [
  | yes old ↦
      let (j, less, at) = f i p o (sym (get_elem?-append_left records (e ∷ []) i old) ∙ h) m in
      (j, less, get_elem?-append_left records (e ∷ []) j (omega arith) ∙ at)
  | no late ↦
      let size = get_elem?-lt (records ++ e ∷ []) i h in
      let last : i ≡ length records = omega (arith, length-append records (e ∷ [])) in
      let same : p ≡ e = cc (get_elem?-append_last records e, h, last) in
      let (j, at) = get_elem?-In records (below o (subst (λ y. In o (operands y)) same m)) in
      let less = get_elem?-lt records j at in
      (j, omega arith, get_elem?-append_left records (e ∷ []) j less ∙ at)
]

visit-OperandsFirst :
    (records : List Expr) (e : Expr)
    → OperandsFirst records
    → ((o : Expr) → In o (operands e) → In o records)
    → OperandsFirst (visit records e)
visit-OperandsFirst records e f below = elim (In-cases records e) [
  | inl m ↦ subst OperandsFirst (sym (visit-old records e m)) f
  | inr n ↦
      subst OperandsFirst (sym (visit-new records e n)) (append-OperandsFirst records e f below)
]

In-foldl :
    (x : Expr) (l records : List Expr) → In x (foldl visit records l) ↔ (In x records ⊎ In x l)
In-foldl x [] records = (inl, λ s. elim s [ inl m ↦ m | inr z ↦ absurd z ])
In-foldl x (e ∷ l) records = ground (arith, In-foldl x l (visit records e), In-visit x records e)

Distinct-foldl : (l records : List Expr) → Distinct records → Distinct (foldl visit records l)
Distinct-foldl [] records d = d
Distinct-foldl (e ∷ l) records d = Distinct-foldl l (visit records e) (Distinct-visit records e d)

-- What a visit to the subexpressions of one expression keeps.
abbrev Keeps : Expr → Type 0
Keeps e =
    (records : List Expr)
    → OperandsFirst records
    → OperandsFirst (foldl visit records (postorder e))

operands-Keeps :
    (os : List Expr)
    → ((o : Expr) → In o os → Keeps o)
    → (records : List Expr) → OperandsFirst records
    → OperandsFirst (foldl visit records (concat_map postorder os))
operands-Keeps [] ih records f = f
operands-Keeps (o ∷ os) ih records f =
    subst OperandsFirst (sym (foldl-append visit records (postorder o) (concat_map postorder os))) (
      operands-Keeps os (λ o' m. ih o' (inr m)) (foldl visit records (postorder o))
        (ih o (inl refl) records f))

foldl-postorder :
    (e : Expr) (records : List Expr)
    → foldl visit records (postorder e)
      ≡ visit (foldl visit records (concat_map postorder (operands e))) e
foldl-postorder e records =
    ap (foldl visit records) (postorder_lem e)
    ∙ foldl-append visit records (concat_map postorder (operands e)) (e ∷ [])

postorder-Keeps : (e : Expr) → Keeps e
postorder-Keeps = Expr-induction Keeps λ e ih records f.
    subst OperandsFirst (sym (foldl-postorder e records)) (
      visit-OperandsFirst _ e (operands-Keeps (operands e) ih records f) λ o m.
        (In-foldl o (concat_map postorder (operands e)) records).1
          (inr ((In-concat_map postorder o (operands e)).1 (o, m, In-postorder_self o))))

-- The records that number the values of the tree `root`.
pub record IsNumbering (root : Expr) (records : List Expr) : Type 0 where
  pub distinct : Distinct records
  pub exact : (x : Expr) → In x records ↔ In x (postorder root)
  pub operands_first : OperandsFirst records
  pub root_last : get_last? records ≡ some root

foldl-root_last : (e : Expr) → get_last? (foldl visit [] (postorder e)) ≡ some e
foldl-root_last e =
    rw
      (
        foldl-postorder e [],
        visit-new (foldl visit [] (concat_map postorder (operands e))) e (λ m.
            elim ((In-foldl e (concat_map postorder (operands e)) []).0 m) [
              | inl z ↦ z
              | inr i ↦ not-In-postorder_operands e i
            ]),
      )
      (get_last?-append (foldl visit [] (concat_map postorder (operands e))) e)

-- Value numbering: a traversal of a tree without null operands succeeds; its records are the
-- distinct subexpressions of the tree and nothing else, each operand has a smaller index than the
-- node, and the root is the last record.
pub traverse-IsNumbering :
    (root : Expr)
    → is_complete root ≡ true
    → (records : List Expr) × (postorder_traverse visit root [] ≡ ok records)
      × IsNumbering root records
traverse-IsNumbering root c = (
  foldl visit [] (postorder root),
  traverse-postorder visit root [] ∙ rw c refl,
  record {
    distinct = Distinct-foldl (postorder root) [] tt;
    exact = λ x. ground (arith, In-foldl x (postorder root) []);
    operands_first = postorder-Keeps root [] (λ i p o h m. cc);
    root_last = foldl-root_last root;
  },
)
