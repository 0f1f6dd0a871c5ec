-- ===== src/Dispatch/Problems.antt =====
-- `PushProblem` and `ClearProblem`: how problems come and go.
use distributed_task_dispatc.Prelude.{
  ℕ, ◌≡◌, ◌≢◌, refl, sym, ap, ◌∙◌, subst, ◌⊎◌, inl, inr, false, List, [], ◌∷◌, some, Result, ◌==◌,
  ==_iff, Bool-cases, In, keys, lookup, lookup-keys, lookup-emplace, lookup-erase, emplace, erase,
  Eq_nat, entry-In, In-entry, keys-emplace,
}
use distributed_task_dispatc.Dag.Library.{GraphLibrary}
use distributed_task_dispatc.Dispatch.{CalculationData, Dispatcher, push_problem, clear_problem}
use distributed_task_dispatc.Dispatch.Serving.{IsCalculation, IsServing}

module _ {V : Type 0} where
  emplace-entry :
      (k j : ℕ) (v w : V) (m : List (ℕ × V)) → In (j, w) (emplace k v m) → (w ≡ v) ⊎ In (j, w) m
  unfolding emplace
  emplace-entry k j v w [] (inl q) = inl (ap (λ (p : ℕ × V). p.1) q)
  emplace-entry k j v w [] (inr i) = absurd i
  emplace-entry k j v w ((t, u) ∷ m) i = elim (Bool-cases (t == k)) [
    | inl b ↦ inr (rw b at i)
    | inr b ↦ elim (rw b at i) [
      | inl q ↦ inr (inl q)
      | inr i' ↦ elim (emplace-entry k j v w m i') [ inl q ↦ inl q | inr z ↦ inr (inr z) ]
    ]
  ]

  keys-emplace_mono :
      (k j : ℕ) (v : V) (m : List (ℕ × V)) → (j ≡ k) ⊎ In j (keys m) → In j (keys (emplace k v m))
  unfolding emplace
  keys-emplace_mono k j v [] (inl q) = inl q
  keys-emplace_mono k j v [] (inr i) = absurd i
  keys-emplace_mono k j v ((t, u) ∷ m) i = elim (Bool-cases (t == k)) [
    | inl b ↦ rw b (elim i [ inl q ↦ inl (q ∙ sym ((==_iff t k).0 b)) | inr z ↦ z ])
    | inr b ↦ rw b (elim i [
      | inl q ↦ inr (keys-emplace_mono k j v m (inl q))
      | inr (inl q) ↦ inl q
      | inr (inr z) ↦ inr (keys-emplace_mono k j v m (inr z))
    ])
  ]

  erase-entry : (k j : ℕ) (w : V) (m : List (ℕ × V)) → In (j, w) (erase k m) → (j ≢ k) × In (j, w) m
  unfolding erase
  erase-entry k j w [] i = absurd i
  erase-entry k j w ((t, u) ∷ m) i = elim (Bool-cases (t == k)) [
    | inl b ↦ let (n, z) = erase-entry k j w m (rw b at i) in (n, inr z)
    | inr b ↦ elim (rw b at i) [
      | inl q ↦
          let same : j ≡ t = ap (λ (p : ℕ × V). p.0) q in
          (λ e. cc ((==_iff t k).1 (sym same ∙ e), b), inl q)
      | inr i' ↦ let (n, z) = erase-entry k j w m i' in (n, inr z)
    ]
  ]

  keys-erase_other : (k j : ℕ) (m : List (ℕ × V)) → j ≢ k → In j (keys m) → In j (keys (erase k m))
  unfolding erase
  keys-erase_other k j [] n i = absurd i
  keys-erase_other k j ((t, u) ∷ m) n i = elim (Bool-cases (t == k)) [
    | inl b ↦
        rw b (elim i [
          | inl q ↦ absurd (n (q ∙ (==_iff t k).0 b))
          | inr z ↦ keys-erase_other k j m n z
        ])
    | inr b ↦ rw b (elim i [ inl q ↦ inl q | inr z ↦ inr (keys-erase_other k j m n z) ])
  ]

  lookup-emplace_new :
      (k : ℕ) (v : V) (m : List (ℕ × V)) → ¬ In k (keys m) → lookup k (emplace k v m) ≡ some v
  lookup-emplace_new k v m fresh =
      lookup-emplace k k v m ∙ rw ((==_iff k k).1 refl, lookup-keys k m fresh) refl

  lookup-emplace_other :
      (k j : ℕ) (v : V) (m : List (ℕ × V)) → j ≢ k → lookup j (emplace k v m) ≡ lookup j m
  lookup-emplace_other k j v m n = elim (Bool-cases (k == j)) [
    | inl b ↦ absurd (n (sym ((==_iff k j).0 b)))
    | inr b ↦ lookup-emplace k j v m ∙ rw b refl
  ]

  lookup-erase_other : (k j : ℕ) (m : List (ℕ × V)) → j ≢ k → lookup j (erase k m) ≡ lookup j m
  lookup-erase_other k j m n = elim (Bool-cases (k == j)) [
    | inl b ↦ absurd (n (sym ((==_iff k j).0 b)))
    | inr b ↦ lookup-erase k j m ∙ rw b refl
  ]

module _ (lib : GraphLibrary) (sort : lib.Graph → Result (List ℕ)) where
  -- On a dispatcher whose problems are all consistent and whose next number is not in use,
  -- `PushProblem` returns that number and keeps the calculation under it, with a flag that is not
  -- set; the other problems stay as they are, and all problems are consistent.
  pub push_problem-IsServing :
      (s : Dispatcher lib sort) (c : CalculationData lib sort)
      → IsServing lib sort s
      → IsCalculation lib sort c
      → ¬ In s.next_problem_id (keys s.calculations)
      → ¬ In s.next_problem_id (keys s.sync)
      → IsServing lib sort (push_problem lib sort s c).0
        × ((push_problem lib sort s c).1 ≡ s.next_problem_id)
        × (lookup s.next_problem_id (push_problem lib sort s c).0.calculations ≡ some c)
        × (lookup s.next_problem_id (push_problem lib sort s c).0.sync ≡ some false)
        × ((j : ℕ)
            → j ≢ s.next_problem_id
            → lookup j (push_problem lib sort s c).0.calculations ≡ lookup j s.calculations)
  unfolding push_problem
  push_problem-IsServing s c serving good fresh fresh' =
      let k = s.next_problem_id in
      (
        record {
          each = λ j e i. elim (emplace-entry k j c e s.calculations i) [
            | inl q ↦ subst (IsCalculation lib sort) (sym q) good
            | inr z ↦ serving.each j e z
          ];
          synced = λ j i.
              keys-emplace_mono k j false s.sync (elim (keys-emplace k j c s.calculations i) [
                | inl q ↦ inl q
                | inr z ↦ inr (serving.synced j z)
              ]);
        },
        refl,
        lookup-emplace_new k c s.calculations fresh,
        lookup-emplace_new k false s.sync fresh',
        λ j n. lookup-emplace_other k j c s.calculations n,
      )

  -- On a dispatcher whose problems are all consistent, `ClearProblem` forgets the problem, every
  -- other problem and flag stays, and all problems are consistent.
  pub clear_problem-IsServing :
      (s : Dispatcher lib sort) (problem_id : ℕ)
      → IsServing lib sort s
      → IsServing lib sort (clear_problem lib sort s problem_id)
        × (¬ In problem_id (keys (clear_problem lib sort s problem_id).calculations))
        × ((j : ℕ)
            → j ≢ problem_id
            → (lookup j (clear_problem lib sort s problem_id).calculations
                ≡ lookup j s.calculations)
              × (lookup j (clear_problem lib sort s problem_id).sync ≡ lookup j s.sync))
  unfolding clear_problem
  clear_problem-IsServing s problem_id serving = (
    record {
      each = λ j e i. serving.each j e (erase-entry problem_id j e s.calculations i).1;
      synced = λ j i.
          let (e, i') = In-entry j (erase problem_id s.calculations) i in
          let (n, z) = erase-entry problem_id j e s.calculations i' in
          keys-erase_other problem_id j s.sync n (serving.synced j (entry-In j e s.calculations z));
    },
    λ i.
        let (e, i') = In-entry problem_id (erase problem_id s.calculations) i in
        (erase-entry problem_id problem_id e s.calculations i').0 refl,
    λ j n. (
      lookup-erase_other problem_id j s.calculations n,
      lookup-erase_other problem_id j s.sync n,
    ),
  )
