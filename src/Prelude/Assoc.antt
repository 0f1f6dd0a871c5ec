-- ===== src/Prelude/Assoc.antt =====
-- The maps of the program as lists of entries. `assign` is `map[key] = value`, `emplace` leaves an
-- entry that is there, `lookup` is `find`. A map never holds two entries with one key.
use Prim.Native.Nat.{ℕ}
use Prim.Native.String.{String}
use mathlib.Core.Path.{◌≡◌, refl, sym, ap}
use mathlib.Core.Logic.{◌≢◌, ◌↔◌, ◌⊎◌, inl, inr}
use mathlib.Core.Bool.{Bool, true}
use mathlib.Core.List.{List, [], ◌∷◌, map}
use mathlib.Core.Option.{Option, none, some}
use native.Mathlib.Omega.{arith}
use text.Mathlib.Text.{◌==◌ as str_eq}
use text.Mathlib.TextEquality.{eq_iff as str_eq_iff}
use distributed_task_dispatc.Prelude.Tests.{◌==◌ as nat_eq, ==_iff, if◌then◌else◌, Bool-cases}
use distributed_task_dispatc.Prelude.Lists.{In, Distinct}

pub record Eq (K : Type 0) : Type 0 where
  pub beq : K → K → Bool
  pub beq_iff : (a b : K) → (beq a b ≡ true) ↔ (a ≡ b)

instance abbrev pub Eq_nat : Eq ℕ
Eq_nat = record { beq = nat_eq; beq_iff = ==_iff }

instance abbrev pub Eq_string : Eq String
Eq_string = record { beq = str_eq; beq_iff = str_eq_iff }

abbrev pub keys : {K V : Type 0} → List (K × V) → List K
keys m = map (λ p. p.0) m

module _ {K V : Type 0} ⦃e : Eq K⦄ where
  unfoldable pub lookup : K → List (K × V) → Option V
  lookup k [] = none
  lookup k ((j, v) ∷ m) = if e.beq j k then some v else lookup k m

  unfoldable pub assign : K → V → List (K × V) → List (K × V)
  assign k v [] = (k, v) ∷ []
  assign k v ((j, w) ∷ m) = if e.beq j k then (j, v) ∷ m else (j, w) ∷ assign k v m

  unfoldable pub emplace : K → V → List (K × V) → List (K × V)
  emplace k v [] = (k, v) ∷ []
  emplace k v ((j, w) ∷ m) = if e.beq j k then (j, w) ∷ m else (j, w) ∷ emplace k v m

  unfoldable pub erase : K → List (K × V) → List (K × V)
  erase k [] = []
  erase k ((j, w) ∷ m) = if e.beq j k then erase k m else (j, w) ∷ erase k m

  pub lookup-assign :
      (k j : K) (v : V) (m : List (K × V))
      → lookup j (assign k v m) ≡ (if e.beq k j then some v else lookup j m)
  unfolding lookup assign
  lookup-assign k j v [] = refl
  lookup-assign k j v ((i, w) ∷ m) =
      ground (arith, e.beq_iff k j, e.beq_iff i k, e.beq_iff i j, lookup-assign k j v m)

  pub lookup-assign_self : (k : K) (v : V) (m : List (K × V)) → lookup k (assign k v m) ≡ some v
  lookup-assign_self k v m = rw (lookup-assign k k v m, (e.beq_iff k k).1 refl) refl

  pub lookup-assign_ne :
      (k j : K) (v : V) (m : List (K × V)) → k ≢ j → lookup j (assign k v m) ≡ lookup j m
  lookup-assign_ne k j v m h = elim (Bool-cases (e.beq k j)) [
    | inl b ↦ absurd (h ((e.beq_iff k j).0 b))
    | inr b ↦ rw (lookup-assign k j v m, b) refl
  ]

  pub lookup-erase :
      (k j : K) (m : List (K × V)) → lookup j (erase k m) ≡ (if e.beq k j then none else lookup j m)
  unfolding lookup erase
  lookup-erase k j [] = ground arith
  lookup-erase k j ((i, w) ∷ m) =
      ground (arith, e.beq_iff k j, e.beq_iff i k, e.beq_iff i j, lookup-erase k j m)

  pub lookup-emplace :
      (k j : K) (v : V) (m : List (K × V))
      → lookup j (emplace k v m) ≡ (
          if e.beq k j then (elim (lookup k m) [ none ↦ some v | some w ↦ some w ]) else lookup j m)
  unfolding lookup emplace
  lookup-emplace k j v [] = refl
  lookup-emplace k j v ((i, w) ∷ m) =
      ground (arith, e.beq_iff k j, e.beq_iff i k, e.beq_iff i j, lookup-emplace k j v m)

  pub lookup-In : (k : K) (m : List (K × V)) {v : V} → lookup k m ≡ some v → In k (keys m)
  unfolding lookup
  lookup-In k [] h = cc
  lookup-In k ((j, w) ∷ m) h = elim (Bool-cases (e.beq j k)) [
    | inl b ↦ inl (sym ((e.beq_iff j k).0 b))
    | inr b ↦ inr (lookup-In k m (rw b at h))
  ]

  pub In-entry : (k : K) (m : List (K × V)) → In k (keys m) → (v : V) × In (k, v) m
  In-entry k [] i = absurd i
  In-entry k ((j, w) ∷ m) (inl q) = (w, inl (rw q refl))
  In-entry k ((j, w) ∷ m) (inr i) = let (v, i') = In-entry k m i in (v, inr i')

  pub entry-In : (k : K) (v : V) (m : List (K × V)) → In (k, v) m → In k (keys m)
  entry-In k v [] i = absurd i
  entry-In k v ((j, w) ∷ m) (inl q) = inl (ap (λ (p : K × V). p.0) q)
  entry-In k v ((j, w) ∷ m) (inr i) = inr (entry-In k v m i)

  -- A key that occurs has a value, and only such a key.
  pub lookup-keys : (k : K) (m : List (K × V)) → ¬ In k (keys m) → lookup k m ≡ none
  unfolding lookup
  lookup-keys k [] n = refl
  lookup-keys k ((j, v) ∷ m) n = elim (Bool-cases (e.beq j k)) [
    | inl h ↦ absurd (n (inl (sym ((e.beq_iff j k).0 h))))
    | inr h ↦ rw h (lookup-keys k m (λ i. n (inr i)))
  ]

  pub keys-assign :
      (k j : K) (v : V) (m : List (K × V)) → In j (keys (assign k v m)) → (j ≡ k) ⊎ In j (keys m)
  unfolding assign
  keys-assign k j v [] i = ground arith
  keys-assign k j v ((t, w) ∷ m) i = ground (arith, e.beq_iff t k, keys-assign k j v m)

  pub keys-emplace :
      (k j : K) (v : V) (m : List (K × V)) → In j (keys (emplace k v m)) → (j ≡ k) ⊎ In j (keys m)
  unfolding emplace
  keys-emplace k j v [] i = ground arith
  keys-emplace k j v ((t, w) ∷ m) i = ground (arith, e.beq_iff t k, keys-emplace k j v m)

  pub Distinct-assign :
      (k : K) (v : V) (m : List (K × V)) → Distinct (keys m) → Distinct (keys (assign k v m))
  unfolding assign
  Distinct-assign k v [] d = (λ i. i, tt)
  Distinct-assign k v ((t, w) ∷ m) d = elim (Bool-cases (e.beq t k)) [
    | inl h ↦ rw h d
    | inr h ↦ rw h (
      λ i. elim (keys-assign k t v m i) [ inl q ↦ cc ((e.beq_iff t k).1 q) | inr j ↦ d.0 j ],
      Distinct-assign k v m d.1,
    )
  ]

  pub Distinct-emplace :
      (k : K) (v : V) (m : List (K × V)) → Distinct (keys m) → Distinct (keys (emplace k v m))
  unfolding emplace
  Distinct-emplace k v [] d = (λ i. i, tt)
  Distinct-emplace k v ((t, w) ∷ m) d = elim (Bool-cases (e.beq t k)) [
    | inl h ↦ rw h d
    | inr h ↦ rw h (
      λ i. elim (keys-emplace k t v m i) [ inl q ↦ cc ((e.beq_iff t k).1 q) | inr j ↦ d.0 j ],
      Distinct-emplace k v m d.1,
    )
  ]

  -- A value that `lookup` finds stands in the map, and `assign` changes one entry.
  pub lookup-entry : (k : K) (m : List (K × V)) {v : V} → lookup k m ≡ some v → In (k, v) m
  unfolding lookup
  lookup-entry k [] h = cc
  lookup-entry k ((j, w) ∷ m) h = elim (Bool-cases (e.beq j k)) [
    | inl b ↦
        let q : j ≡ k = (e.beq_iff j k).0 b in
        let r : some w ≡ some _ = rw b at h in inl (cc (q, r))
    | inr b ↦ inr (lookup-entry k m (rw b at h))
  ]

  pub assign-entry :
      (k j : K) (v w : V) (m : List (K × V)) → In (j, w) (assign k v m) → (w ≡ v) ⊎ In (j, w) m
  unfolding assign
  assign-entry k j v w [] (inl q) = inl (ap (λ (p : K × V). p.1) q)
  assign-entry k j v w [] (inr i) = absurd i
  assign-entry k j v w ((t, u) ∷ m) i = elim (Bool-cases (e.beq t k)) [
    | inl b ↦ elim (rw b at i) [ inl q ↦ inl (ap (λ (p : K × V). p.1) q) | inr i' ↦ inr (inr i') ]
    | inr b ↦ elim (rw b at i) [
      | inl q ↦ inr (inl q)
      | inr i' ↦ elim (assign-entry k j v w m i') [ inl q ↦ inl q | inr i'' ↦ inr (inr i'') ]
    ]
  ]

  pub keys-assign_mono :
      (k j : K) (v : V) (m : List (K × V)) → In j (keys m) → In j (keys (assign k v m))
  unfolding assign
  keys-assign_mono k j v [] i = absurd i
  keys-assign_mono k j v ((t, w) ∷ m) i = elim (Bool-cases (e.beq t k)) [
    | inl b ↦ rw b i
    | inr b ↦ rw b (elim i [ inl q ↦ inl q | inr i' ↦ inr (keys-assign_mono k j v m i') ])
  ]

  pub keys-lookup : (k : K) (m : List (K × V)) → In k (keys m) → (v : V) × (lookup k m ≡ some v)
  unfolding lookup
  keys-lookup k [] i = absurd i
  keys-lookup k ((j, w) ∷ m) i = elim (Bool-cases (e.beq j k)) [
    | inl b ↦ (w, rw b refl)
    | inr b ↦
        rw b (keys-lookup k m (elim i [ inl q ↦ cc ((e.beq_iff j k).1 (sym q), b) | inr i' ↦ i' ]))
  ]
