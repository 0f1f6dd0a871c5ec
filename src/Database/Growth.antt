-- ===== src/Database/Growth.antt =====
-- What a write in database_client.cpp adds to the rows.
use distributed_task_dispatc.Prelude.{
  ℕ, ◌≡◌, refl, sym, ◌∙◌, ◌⊎◌, inl, inr, none, some, Bool-cases, Option-cases,
}
use distributed_task_dispatc.Domain.{ExprResult, VariableId}
use distributed_task_dispatc.Messages.{TaskId}
use distributed_task_dispatc.Database.{
  Field, Store, key_eq, find_row, to_field, dyn_record_id, write_dynamic_data, read_data,
  read_data_impl, static_id,
}
use distributed_task_dispatc.Database.Rows.{
  key_eq_iff, write_dynamic_data-row, write_dynamic_data-static,
}

pub write_dynamic_data-keeps :
    (s : Store) (p t : ℕ) (r : ExprResult) (j : TaskId) (f : Field)
    → find_row j s.dynamic_data ≡ some f
    → find_row j (write_dynamic_data s p t r).dynamic_data ≡ some f
write_dynamic_data-keeps s p t r j f q = write_dynamic_data-row s p t r j ∙ rw q refl

pub write_dynamic_data-adds :
    (s : Store) (p t : ℕ) (r : ExprResult) (j : TaskId) (f : Field)
    → find_row j (write_dynamic_data s p t r).dynamic_data ≡ some f
    → (find_row j s.dynamic_data ≡ some f) ⊎ ((j ≡ dyn_record_id p t) × (f ≡ to_field r))
write_dynamic_data-adds s p t r j f q =
    let row = sym (write_dynamic_data-row s p t r j) ∙ q in
    elim (Option-cases (find_row j s.dynamic_data)) [
      | inr (g, e) ↦ let same : some g ≡ some f = rw e at row in inl (e ∙ same)
      | inl e ↦ elim (Bool-cases (key_eq (dyn_record_id p t) j)) [
        | inl b ↦
            let same : some (to_field r) ≡ some f = rw (e, b) at row in
            inr (sym ((key_eq_iff (dyn_record_id p t) j).0 b), cc same)
        | inr b ↦ absurd (let z : none ≡ some f = rw (e, b) at row in cc)
      ]
    ]

pub write_dynamic_data-there :
    (s : Store) (p t : ℕ) (r : ExprResult)
    → (f : Field) × (find_row (dyn_record_id p t) (write_dynamic_data s p t r).dynamic_data
        ≡ some f)
write_dynamic_data-there s p t r =
    let k = dyn_record_id p t in
    elim (Option-cases (find_row k s.dynamic_data)) [
      | inr (g, e) ↦ (g, write_dynamic_data-keeps s p t r k g e)
      | inl e ↦
          (to_field r, write_dynamic_data-row s p t r k ∙ rw (e, (key_eq_iff k k).1 refl) refl)
    ]

pub read_data-static :
    (s : Store) (p t : ℕ) (r : ExprResult) (id : VariableId)
    → read_data (write_dynamic_data s p t r) (static_id id) ≡ read_data s (static_id id)
unfolding read_data read_data_impl
read_data-static s p t r id = rw (write_dynamic_data-static s p t r) refl
