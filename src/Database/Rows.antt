-- ===== src/Database/Rows.antt =====
-- Reading, writing and clearing in database_client.cpp and database_server.cpp, on the rows of the
-- store.
use distributed_task_dispatc.Prelude.{
  ℕ, ◌≡◌, ◌≢◌, refl, sym, ap, subst, ◌∙◌, ◌↔◌, inl, inr, true, ◌==◌, ==_iff, List, [], ◌∷◌, ◌++◌,
  Option, none, some, Result, ok, err, logic_error, sql_exception, arith, if◌then◌else◌, Bool-cases,
  Option-cases,
}
use distributed_task_dispatc.Domain.{ExprResult, of_list, of_scalar}
use distributed_task_dispatc.Messages.{uint32, TaskId}
use distributed_task_dispatc.Database.{
  Field, Store, dyn_id, key_eq, find_row, delete_problem, to_field, of_field, dyn_record_id,
  write_dynamic_data, write_dynamic_data_impl, read_data, read_data_impl, call,
  clear_intermediate_calculations, clear_intermediate_calculations_impl,
}

pub key_eq_iff : (a b : TaskId) → (key_eq a b ≡ true) ↔ (a ≡ b)
key_eq_iff a b =
    let p = ==_iff a.problem_id b.problem_id in
    let q = ==_iff a.task_id b.task_id in
    (
      λ h. let e = p.0 (ground arith) in let f = q.0 (ground arith) in cc (e, f),
      λ e.
          rw (p.1 (ap (λ (k : TaskId). k.problem_id) e), q.1 (ap (λ (k : TaskId). k.task_id) e))
            refl,
    )

find_row-append :
    (k j : TaskId) (f : Field) (rows : List (TaskId × Field))
    → find_row k rows ≡ none
    → find_row j (rows ++ (k, f) ∷ []) ≡ (if key_eq k j then some f else find_row j rows)
unfolding find_row
find_row-append k j f [] fresh = refl
find_row-append k j f ((i, g) ∷ rows) fresh = elim (Bool-cases (key_eq i k)) [
  | inl b ↦ absurd (let q : some g ≡ none = rw b at fresh in cc)
  | inr b ↦
      let ih = find_row-append k j f rows (rw b at fresh) in
      elim (Bool-cases (key_eq i j)) [
        | inr c ↦ rw c ih
        | inl c ↦ elim (Bool-cases (key_eq k j)) [
          | inr n ↦ rw (c, n) refl
          | inl n ↦
              let e = (key_eq_iff i j).0 c in
              let e' = (key_eq_iff k j).0 n in cc ((key_eq_iff i k).1 (e ∙ sym e'), b)
        ]
      ]
]

pub find_row-delete :
    (p : ℕ) (k : TaskId) (rows : List (TaskId × Field))
    → find_row k (delete_problem p rows) ≡ (if k.problem_id == p then none else find_row k rows)
unfolding find_row delete_problem
find_row-delete p k [] = elim (Bool-cases (k.problem_id == p)) [
  | inl b ↦ rw b refl
  | inr b ↦ rw b refl
]
find_row-delete p k ((i, g) ∷ rows) =
    let ih = find_row-delete p k rows in
    elim (Bool-cases (key_eq i k)) [
      | inl c ↦
          let e = ap (λ (t : TaskId). t.problem_id) ((key_eq_iff i k).0 c) in
          let same = ap (λ n. n == p) e in
          elim (Bool-cases (k.problem_id == p)) [
            | inl b ↦ rw (same ∙ b, b) (rw b at ih)
            | inr b ↦ rw (same ∙ b, b, c) refl
          ]
      | inr c ↦ elim (Bool-cases (i.problem_id == p)) [
        | inl b ↦ rw (b, c) ih
        | inr b ↦ rw (b, c) ih
      ]
    ]

abbrev pub reads : Option Field → Result ExprResult
reads none = err logic_error
reads (some f) = of_field f

pub read_data-row :
    (s : Store) (k : TaskId) → read_data s (dyn_id k) ≡ reads (find_row k s.dynamic_data)
unfolding read_data read_data_impl of_field call
read_data-row s k = elim (Option-cases (find_row k s.dynamic_data)) [
  | inl e ↦ rw e refl
  | inr (f, e) ↦ rw e refl
]

pub of_field-to_field : (r : ExprResult) → of_field (to_field r) ≡ ok r
unfolding of_field to_field
of_field-to_field (of_list l) = refl
of_field-to_field (of_scalar x) = refl

write-new :
    (s : Store) (k : TaskId) (f : Field)
    → find_row k s.dynamic_data ≡ none
    → write_dynamic_data_impl s k f ≡ ok (record s { dynamic_data = s.dynamic_data ++ (k, f) ∷ [] })
unfolding write_dynamic_data_impl
write-new s k f e = rw (e, write_dynamic_data_impl) refl

write-taken :
    (s : Store) (k : TaskId) (f : Field) {g : Field}
    → find_row k s.dynamic_data ≡ some g
    → write_dynamic_data_impl s k f ≡ err sql_exception
unfolding write_dynamic_data_impl
write-taken s k f e = rw (e, write_dynamic_data_impl) refl

write_dynamic_data-taken :
    (s : Store) (p t : ℕ) (r : ExprResult) {g : Field}
    → find_row (dyn_record_id p t) s.dynamic_data ≡ some g
    → write_dynamic_data s p t r ≡ s
unfolding write_dynamic_data call
write_dynamic_data-taken s p t r e = rw (write-taken s (dyn_record_id p t) (to_field r) e) refl

write_new :
    (s : Store) (p t : ℕ) (r : ExprResult)
    → find_row (dyn_record_id p t) s.dynamic_data ≡ none
    → write_dynamic_data s p t r
      ≡ record s { dynamic_data = s.dynamic_data ++ (dyn_record_id p t, to_field r) ∷ [] }
unfolding write_dynamic_data call
write_new s p t r fresh = rw (write-new s (dyn_record_id p t) (to_field r) fresh) refl

-- The row of the written task is the one that it had, or else the new one; no other row changes.
pub write_dynamic_data-row :
    (s : Store) (p t : ℕ) (r : ExprResult) (j : TaskId)
    → find_row j (write_dynamic_data s p t r).dynamic_data ≡ (elim (find_row j s.dynamic_data) [
      | some f ↦ some f
      | none ↦ if key_eq (dyn_record_id p t) j then some (to_field r) else none
    ])
write_dynamic_data-row s p t r j =
    let k = dyn_record_id p t in
    elim (Option-cases (find_row k s.dynamic_data)) [
      | inl e ↦
          ap (λ (z : Store). find_row j z.dynamic_data) (write_new s p t r e)
          ∙ find_row-append k j (to_field r) s.dynamic_data e
          ∙ elim (Bool-cases (key_eq k j)) [
            | inl b ↦
                let n = subst (λ u. find_row u s.dynamic_data ≡ none) ((key_eq_iff k j).0 b) e in
                rw (n, b) refl
            | inr b ↦ elim (Option-cases (find_row j s.dynamic_data)) [
              | inl n ↦ rw (n, b) refl
              | inr (f, n) ↦ rw (n, b) refl
            ]
          ]
      | inr (g, e) ↦
          ap (λ (z : Store). find_row j z.dynamic_data) (write_dynamic_data-taken s p t r e)
          ∙ elim (Option-cases (find_row j s.dynamic_data)) [
            | inr (f, n) ↦ rw n refl
            | inl n ↦ elim (Bool-cases (key_eq k j)) [
              | inr b ↦ rw (n, b) refl
              | inl b ↦ absurd (let q : some g ≡ none = sym e ∙ rw ((key_eq_iff k j).0 b) n in cc)
            ]
          ]
    ]

pub write_dynamic_data-static :
    (s : Store) (p t : ℕ) (r : ExprResult)
    → (write_dynamic_data s p t r).static_data ≡ s.static_data
write_dynamic_data-static s p t r =
    elim (Option-cases (find_row (dyn_record_id p t) s.dynamic_data)) [
      | inl e ↦ ap (λ (z : Store). z.static_data) (write_new s p t r e)
      | inr (g, e) ↦ ap (λ (z : Store). z.static_data) (write_dynamic_data-taken s p t r e)
    ]

-- A result under a task that has none is stored: it is read back under that task, and what is read
-- under every other task is what was read before.
pub read_data-write_dynamic_data :
    (s : Store) (p t : ℕ) (r : ExprResult)
    → find_row (dyn_record_id p t) s.dynamic_data ≡ none
    → (read_data (write_dynamic_data s p t r) (dyn_id (dyn_record_id p t)) ≡ ok r)
      × ((k : TaskId)
          → k ≢ dyn_record_id p t
          → read_data (write_dynamic_data s p t r) (dyn_id k) ≡ read_data s (dyn_id k))
read_data-write_dynamic_data s p t r fresh =
    let k = dyn_record_id p t in
    let w = write_dynamic_data s p t r in
    (
      read_data-row w k
          ∙ rw (write_dynamic_data-row s p t r k, fresh, (key_eq_iff k k).1 refl)
              (of_field-to_field r),
      λ j other. elim (Bool-cases (key_eq k j)) [
        | inl b ↦ absurd (other (sym ((key_eq_iff k j).0 b)))
        | inr b ↦
            read_data-row w j
            ∙ ap reads (
                write_dynamic_data-row s p t r j ∙ elim (Option-cases (find_row j s.dynamic_data)) [
                  | inl n ↦ rw (n, b) refl
                  | inr (f, n) ↦ rw n refl
                ])
            ∙ sym (read_data-row s j)
      ],
    )

-- A second result under one task is lost without a sign of it, whatever it is: the server refuses
-- the row, the client does not read the status, and the store is as it was after the first.
pub write_dynamic_data-twice :
    (s : Store) (p t : ℕ) (r r' : ExprResult)
    → (write_dynamic_data_impl (write_dynamic_data s p t r) (dyn_record_id p t) (to_field r')
        ≡ err sql_exception)
      × (write_dynamic_data (write_dynamic_data s p t r) p t r' ≡ write_dynamic_data s p t r)
write_dynamic_data-twice s p t r r' =
    let k = dyn_record_id p t in
    let w = write_dynamic_data s p t r in
    let (f, found) : (f : Field) × (find_row k w.dynamic_data ≡ some f) =
      elim (Option-cases (find_row k s.dynamic_data)) [
        | inl e ↦
            (to_field r, write_dynamic_data-row s p t r k ∙ rw (e, (key_eq_iff k k).1 refl) refl)
        | inr (g, e) ↦ (g, write_dynamic_data-row s p t r k ∙ rw e refl)
      ] in
    (write-taken w k (to_field r') found, write_dynamic_data-taken w p t r' found)

-- Clearing a problem makes every value of it unreadable, and keeps the values of every other problem
-- and the static data.
pub read_data-clear :
    (s : Store) (p : ℕ)
    → ((t : ℕ)
        → read_data (clear_intermediate_calculations s p) (dyn_id (dyn_record_id p t))
          ≡ err logic_error)
      × ((k : TaskId)
          → k.problem_id ≢ uint32 p
          → read_data (clear_intermediate_calculations s p) (dyn_id k) ≡ read_data s (dyn_id k))
      × ((clear_intermediate_calculations s p).static_data ≡ s.static_data)
unfolding clear_intermediate_calculations clear_intermediate_calculations_impl
read_data-clear s p =
    let s' : Store = record s { dynamic_data = delete_problem (uint32 p) s.dynamic_data } in
    (
      λ t.
          read_data-row s' (dyn_record_id p t)
          ∙ rw
              (
                find_row-delete (uint32 p) (dyn_record_id p t) s.dynamic_data,
                (==_iff (uint32 p) (uint32 p)).1 refl,
              )
              refl,
      λ k other. elim (Bool-cases (k.problem_id == uint32 p)) [
        | inl b ↦ absurd (other ((==_iff k.problem_id (uint32 p)).0 b))
        | inr b ↦
            read_data-row s' k
            ∙ rw (find_row-delete (uint32 p) k s.dynamic_data, b) (sym (read_data-row s k))
      ],
      refl,
    )
