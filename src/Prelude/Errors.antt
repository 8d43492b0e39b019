-- ===== src/Prelude/Errors.antt =====
-- Exceptions as values. An exception is its class and the fixed part of its message; what an
-- f-string puts into a message is left out.
use Prim.Native.String.{String}
use mathlib.Core.Path.{◌≡◌, refl}
use mathlib.Core.Logic.{◌⊎◌, inl, inr}
use mathlib.Core.Bool.{Bool, true, false}
use symbolic_recommendation.Prelude.Tests.{if◌then◌else◌}

pub data Exn : Type 0 where
  type_error value_error index_error key_error overflow_error : String → Exn
  memory_error runtime_error timeout_error : String → Exn
  -- raised by a callee that is not part of the program
  foreign_error : String → Exn

-- What a call returns or raises.
pub data Result {ℓ} (A : Type ℓ) : Type ℓ where
  err : Exn → Result A
  ok : A → Result A

pub ok-injective {ℓ} : {A : Type ℓ} {a b : A} → ok a ≡ ok b → a ≡ b
ok-injective h = cc

-- `if bad: raise e`
abbrev pub guard : Bool → Exn → Result (Unit {0})
guard true e = err e
guard false e = ok tt

module _ {ℓ κ} {A : Type ℓ} {B : Type κ} where
  infixl 5 ◌>>=◌
  -- What follows a call is not reached where it raises.
  abbrev pub ◌>>=◌ : Result A → (A → Result B) → Result B
  err raised >>= next = err raised
  ok value >>= next = next value

  -- Inversion of a successful bind.
  pub >>=-eq-ok :
      (r : Result A) (next : A → Result B) {b : B}
      → (r >>= next) ≡ ok b
      → (a : A) × (r ≡ ok a) × (next a ≡ ok b)
  >>=-eq-ok (err raised) next h = cc
  >>=-eq-ok (ok value) next h = (value, refl, h)

-- To split on a computed result and keep the equation.
pub Result-cases {ℓ} :
    {A : Type ℓ} (r : Result A) → ((a : A) × (r ≡ ok a)) ⊎ ((e : Exn) × (r ≡ err e))
Result-cases (err raised) = inr (raised, refl)
Result-cases (ok value) = inl (value, refl)

-- A test that raises has not been met where there is a result.
pub if_err-eq-ok {ℓ} :
    {A : Type ℓ} (b : Bool) (x : Exn) (r : Result A) {a : A}
    → (if b then err x else r) ≡ ok a
    → (b ≡ false) × (r ≡ ok a)
if_err-eq-ok true x r h = cc
if_err-eq-ok false x r h = (refl, h)

pub if_ok-eq-ok {ℓ} :
    {A : Type ℓ} (b : Bool) (x : Exn) (v : A) {a : A}
    → (if b then ok v else err x) ≡ ok a
    → (b ≡ true) × (v ≡ a)
if_ok-eq-ok true x v h = (refl, ok-injective h)
if_ok-eq-ok false x v h = cc
