-- ===== src/Prelude/Fallible.antt =====
-- Results of code that can fail. A fault is an exception that the source throws, one that the
-- standard library throws, or a step whose behaviour C++ leaves undefined.
use mathlib.Core.Path.{◌≡◌, refl}
use mathlib.Core.Logic.{◌⊎◌, inl, inr}
use mathlib.Core.Option.{Option, none, some}

-- `bad_deref` is the dereference of a null pointer or of an end iterator, `overflow` a signed
-- overflow or a division outside the range, and `failed_assert` a false `assert`.
pub data Fault : Type 0 where
  invalid_argument logic_error domain_error out_of_range bad_variant_access bad_optional_access :
      Fault
  bad_deref overflow failed_assert sql_exception json_exception : Fault

-- `err` carries what was thrown.
pub data Result {ℓ} (A : Type ℓ) : Type ℓ where
  err : Fault → Result A
  ok : A → Result A

pub Result-cases {ℓ} :
    {A : Type ℓ} (r : Result A) → ((a : A) × (r ≡ ok a)) ⊎ ((e : Fault) × (r ≡ err e))
Result-cases (err fault) = inr (fault, refl)
Result-cases (ok value) = inl (value, refl)

-- What the code reads from a container, an optional or a message.
abbrev pub or_fault {ℓ} : {A : Type ℓ} → Option A → Fault → Result A
or_fault none fault = err fault
or_fault (some value) fault = ok value

-- The rest of a function after a call that may throw.
infixl 5 ◌>>=◌
abbrev pub ◌>>=◌ {ℓ κ} : {V : Type ℓ} {W : Type κ} → Result V → (V → Result W) → Result W
err fault >>= rest = err fault
ok value >>= rest = rest value

-- A function that returns got a value from the call.
pub >>=-eq-ok {ℓ κ} :
    {V : Type ℓ} {W : Type κ} (call : Result V) (rest : V → Result W) {w : W}
    → (call >>= rest) ≡ ok w
    → (v : V) × (call ≡ ok v) × (rest v ≡ ok w)
>>=-eq-ok (err fault) rest returned = cc
>>=-eq-ok (ok value) rest returned = (value, refl, returned)

infixl 5 ◌>>◌
abbrev pub ◌>>◌ {ℓ} : {W : Type ℓ} → Result (Unit {0}) → Result W → Result W
check >> rest = check >>= λ done. rest
