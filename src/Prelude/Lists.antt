-- ===== src/Prelude/Lists.antt =====
-- Lists measured and indexed by native numbers, and predicates on their elements.
use Prim.Native.Nat.{ℕ, zero, suc, ◌+◌, ◌<◌, ◌≤◌}
use mathlib.Core.Path.{◌≡◌, refl, ap, subst}
use mathlib.Core.Logic.{◌≢◌, ◌↔◌, ◌⊎◌, inl, inr}
use mathlib.Core.List.{List, [], ◌∷◌, ◌++◌, map}
use mathlib.Core.Option.{Option, none, some}
use native.Mathlib.Omega.{arith}

module _ {ℓ} {A : Type ℓ} where
  abbrev pub length : List A → ℕ
  length [] = 0
  length (x ∷ xs) = suc (length xs)

  abbrev pub get_elem? : List A → ℕ → Option A
  get_elem? [] i = none
  get_elem? (x ∷ xs) zero = some x
  get_elem? (x ∷ xs) (suc i) = get_elem? xs i

  -- A write out of bounds changes nothing.
  abbrev pub set : List A → ℕ → A → List A
  set [] i v = []
  set (x ∷ xs) zero v = v ∷ xs
  set (x ∷ xs) (suc i) v = x ∷ set xs i v

  abbrev pub get_last? : List A → Option A
  get_last? [] = none
  get_last? (x ∷ []) = some x
  get_last? (x ∷ y ∷ ys) = get_last? (y ∷ ys)

  abbrev pub get_or : List A → ℕ → A → A
  get_or [] i d = d
  get_or (x ∷ xs) zero d = x
  get_or (x ∷ xs) (suc i) d = get_or xs i d

  abbrev pub replicate : ℕ → A → List A
  replicate zero a = []
  replicate (suc n) a = a ∷ replicate n a

  pub length-append : (xs ys : List A) → length (xs ++ ys) ≡ length xs + length ys
  length-append [] ys = omega arith
  length-append (x ∷ xs) ys = omega (arith, length-append xs ys)

  pub length-set : (xs : List A) (i : ℕ) (v : A) → length (set xs i v) ≡ length xs
  length-set [] i v = refl
  length-set (x ∷ xs) zero v = refl
  length-set (x ∷ xs) (suc i) v = ap suc (length-set xs i v)

  pub get_elem?-set_self :
      (xs : List A) (i : ℕ) (v : A) → i < length xs → get_elem? (set xs i v) i ≡ some v
  get_elem?-set_self [] i v h = elim h [ ]
  get_elem?-set_self (x ∷ xs) zero v h = refl
  get_elem?-set_self (x ∷ xs) (suc i) v h = get_elem?-set_self xs i v (omega arith)

  pub get_elem?-set_ne :
      (xs : List A) (i j : ℕ) (v : A) → i ≢ j → get_elem? (set xs i v) j ≡ get_elem? xs j
  get_elem?-set_ne [] i j v h = refl
  get_elem?-set_ne (x ∷ xs) zero zero v h = absurd (h refl)
  get_elem?-set_ne (x ∷ xs) zero (suc j) v h = refl
  get_elem?-set_ne (x ∷ xs) (suc i) zero v h = refl
  get_elem?-set_ne (x ∷ xs) (suc i) (suc j) v h = get_elem?-set_ne xs i j v (λ e. h (ap suc e))

  pub get_elem?-append_left :
      (xs ys : List A) (i : ℕ) → i < length xs → get_elem? (xs ++ ys) i ≡ get_elem? xs i
  get_elem?-append_left [] ys i h = elim h [ ]
  get_elem?-append_left (x ∷ xs) ys zero h = refl
  get_elem?-append_left (x ∷ xs) ys (suc i) h = get_elem?-append_left xs ys i (omega arith)

  pub get_elem?-append_last : (xs : List A) (a : A) → get_elem? (xs ++ a ∷ []) (length xs) ≡ some a
  get_elem?-append_last [] a = refl
  get_elem?-append_last (x ∷ xs) a = get_elem?-append_last xs a

  pub get_elem?-lt : (xs : List A) (i : ℕ) {a : A} → get_elem? xs i ≡ some a → i < length xs
  get_elem?-lt [] i h = cc
  get_elem?-lt (x ∷ xs) zero h = omega arith
  get_elem?-lt (x ∷ xs) (suc i) h = omega (arith, get_elem?-lt xs i h)

  pub get_elem?-some : (xs : List A) (i : ℕ) → i < length xs → (a : A) × (get_elem? xs i ≡ some a)
  get_elem?-some [] i h = elim h [ ]
  get_elem?-some (x ∷ xs) zero h = (x, refl)
  get_elem?-some (x ∷ xs) (suc i) h = get_elem?-some xs i (omega arith)

  pub get_elem?-none : (xs : List A) (i : ℕ) → length xs ≤ i → get_elem? xs i ≡ none
  get_elem?-none [] i h = refl
  get_elem?-none (x ∷ xs) zero h = absurd (omega arith)
  get_elem?-none (x ∷ xs) (suc i) h = get_elem?-none xs i (omega arith)

  pub get_last?-append : (xs : List A) (a : A) → get_last? (xs ++ a ∷ []) ≡ some a
  get_last?-append [] a = refl
  get_last?-append (x ∷ []) a = refl
  get_last?-append (x ∷ y ∷ ys) a = get_last?-append (y ∷ ys) a

  abbrev pub All {κ} : (A → Type κ) → List A → Type κ
  All P [] = Unit
  All P (x ∷ xs) = P x × All P xs

module _ {ℓ} {A : Type ℓ} where
  pub List-cases : (xs : List A) → (xs ≡ []) ⊎ ((x : A) × (rest : List A) × (xs ≡ x ∷ rest))
  List-cases [] = inl refl
  List-cases (x ∷ xs) = inr (x, xs, refl)

  pub length-map {κ} : {B : Type κ} (xs : List A) (f : A → B) → length (map f xs) ≡ length xs
  length-map [] f = refl
  length-map (x ∷ xs) f = ap suc (length-map xs f)

pub get_elem?-map {ℓ κ} :
    {A : Type ℓ} {B : Type κ} (f : A → B) (xs : List A) (i : ℕ) {a : A}
    → get_elem? xs i ≡ some a
    → get_elem? (map f xs) i ≡ some (f a)
get_elem?-map f [] i h = cc
get_elem?-map f (x ∷ xs) zero h = ap some (cc)
get_elem?-map f (x ∷ xs) (suc i) h = get_elem?-map f xs i h

-- Membership by recursion: a type that case splits read.
module _ {A : Type 0} where
  abbrev pub In : A → List A → Type 0
  In a [] = ⊥
  In a (x ∷ xs) = (a ≡ x) ⊎ In a xs

  pub In-append : (a : A) (xs ys : List A) → In a (xs ++ ys) ↔ (In a xs ⊎ In a ys)
  In-append a [] ys = (inr, λ s. ground arith)
  In-append a (x ∷ xs) ys = ground (arith, In-append a xs ys)

  pub In-get_elem? : (xs : List A) (i : ℕ) {a : A} → get_elem? xs i ≡ some a → In a xs
  In-get_elem? [] i h = cc
  In-get_elem? (x ∷ xs) zero h = inl (cc)
  In-get_elem? (x ∷ xs) (suc i) h = inr (In-get_elem? xs i h)

  pub get_elem?-In : (xs : List A) {a : A} → In a xs → (i : ℕ) × (get_elem? xs i ≡ some a)
  get_elem?-In [] m = absurd m
  get_elem?-In (x ∷ xs) (inl e) = (0, cc)
  get_elem?-In (x ∷ xs) (inr m) = let (i, h) = get_elem?-In xs m in (suc i, h)

  -- No element occurs twice.
  abbrev pub Distinct : List A → Type 0
  Distinct [] = Unit {0}
  Distinct (x ∷ xs) = ¬ In x xs × Distinct xs

  pub Distinct-append_last :
      (xs : List A) (a : A) → Distinct xs → ¬ In a xs → Distinct (xs ++ a ∷ [])
  Distinct-append_last [] a d n = (λ m. m, tt)
  Distinct-append_last (x ∷ xs) a d n = (
    λ m. ground (arith, In-append x xs (a ∷ []), d.0, n (inl _)),
    Distinct-append_last xs a d.1 (λ m. n (inr m)),
  )

  pub Distinct-index :
      (xs : List A) (i j : ℕ) {a : A}
      → Distinct xs
      → get_elem? xs i ≡ some a
      → get_elem? xs j ≡ some a
      → i ≡ j
  Distinct-index [] i j d h k = cc
  Distinct-index (x ∷ xs) zero zero d h k = refl
  Distinct-index (x ∷ xs) zero (suc j) {a} d h k = absurd (d.0 (In-get_elem? xs j {a = x} (cc)))
  Distinct-index (x ∷ xs) (suc i) zero {a} d h k = absurd (d.0 (In-get_elem? xs i {a = x} (cc)))
  Distinct-index (x ∷ xs) (suc i) (suc j) d h k = ap suc (Distinct-index xs i j d.1 h k)

  pub get_last?-some : (xs : List A) (a : A) → In a xs → (b : A) × (get_last? xs ≡ some b)
  get_last?-some [] a m = absurd m
  get_last?-some (x ∷ []) a m = (x, refl)
  get_last?-some (x ∷ y ∷ ys) a m = get_last?-some (y ∷ ys) y (inl refl)

  -- One element stands before another.
  abbrev pub Before : A → A → List A → Type 0
  Before a b [] = ⊥
  Before a b (x ∷ xs) = (a ≡ x) × In b xs ⊎ Before a b xs

  pub get_last?-In : (xs : List A) {a : A} → get_last? xs ≡ some a → In a xs
  get_last?-In [] h = cc
  get_last?-In (x ∷ []) h = inl (cc)
  get_last?-In (x ∷ y ∷ ys) h = inr (get_last?-In (y ∷ ys) h)

  pub Before-In : (xs : List A) (a b : A) → Before a b xs → In b xs
  Before-In [] a b m = absurd m
  Before-In (x ∷ xs) a b (inl m) = inr m.1
  Before-In (x ∷ xs) a b (inr m) = inr (Before-In xs a b m)

  -- What stands before another element is not the last one.
  pub Before-last : (xs : List A) (a b : A) → Distinct xs → Before a b xs → get_last? xs ≢ some a
  Before-last [] a b d m h = m
  Before-last (x ∷ []) a b d (inl m) h = m.1
  Before-last (x ∷ []) a b d (inr m) h = m
  Before-last (x ∷ y ∷ ys) a b d (inl m) h =
      d.0 (subst (λ z. In z (y ∷ ys)) m.0 (get_last?-In (y ∷ ys) h))
  Before-last (x ∷ y ∷ ys) a b d (inr m) h = Before-last (y ∷ ys) a b d.1 m h

module _ {A B : Type 0} where
  pub In-map : (f : A → B) (a : A) (xs : List A) → In a xs → In (f a) (map f xs)
  In-map f a (x ∷ xs) (inl e) = inl (ap f e)
  In-map f a (x ∷ xs) (inr m) = inr (In-map f a xs m)
  In-map f a [] m = absurd m

  pub In-map_inv :
      (f : A → B) (b : B) (xs : List A) → In b (map f xs) → (a : A) × In a xs × (b ≡ f a)
  In-map_inv f b [] m = absurd m
  In-map_inv f b (x ∷ xs) (inl e) = (x, inl refl, e)
  In-map_inv f b (x ∷ xs) (inr m) = let (a, i, e) = In-map_inv f b xs m in (a, inr i, e)

-- `flat_map` over a list, as a fold that tactics open.
module _ {A B : Type 0} where
  abbrev pub concat_map : (A → List B) → List A → List B
  concat_map f [] = []
  concat_map f (x ∷ xs) = f x ++ concat_map f xs

  pub In-concat_map :
      (f : A → List B) (b : B) (xs : List A)
      → In b (concat_map f xs) ↔ ((a : A) × In a xs × In b (f a))
  In-concat_map f b [] = (λ m. absurd m, λ (a, m, _). m)
  In-concat_map f b (x ∷ xs) = (
    λ m. elim ((In-append b (f x) (concat_map f xs)).0 m) [
      | inl here ↦ (x, inl refl, here)
      | inr there ↦ let (a, i, j) = (In-concat_map f b xs).0 there in (a, inr i, j)
    ],
    λ (a, i, j). (In-append b (f x) (concat_map f xs)).1 (elim i [
      | inl e ↦ inl (subst (λ y. In b (f y)) e j)
      | inr i' ↦ inr ((In-concat_map f b xs).1 (a, i', j))
    ]),
  )
