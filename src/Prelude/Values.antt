-- ===== src/Prelude/Values.antt =====
-- Values of the dynamic language, as far as the validating code tells them apart, and integers.
use Prim.Native.Nat.{ℕ}
use Prim.Native.String.{String}
use mathlib.Core.Bool.{Bool}

-- `negsuc n` is -(n + 1).
pub data ℤ : Type 0 where
  pos : ℕ → ℤ
  negsuc : ℕ → ℤ

-- A `bool` is an `int` in Python, and the code tells it apart. `other_value` stands for a value of
-- any other type.
pub data Scalar : Type 0 where
  none_value other_value : Scalar
  bool_value : Bool → Scalar
  int_value : ℤ → Scalar
  text_value : String → Scalar
