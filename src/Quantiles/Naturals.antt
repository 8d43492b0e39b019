-- ===== src/Quantiles/Naturals.antt =====
-- Natural numbers in place of floats: what is relied on of floats can hold.
use symbolic_recommendation.Prelude.{
  ℕ, ◌+◌, ◌-◌, ◌*◌, ◌/◌, ◌^◌, refl, true, none, arith, ltb, leb, nat_eq,
}
use symbolic_recommendation.Quantiles.{Floats}
use symbolic_recommendation.Quantiles.Laws.{FloatLaws}

abbrev apart_by : ℕ → ℕ → ℕ
apart_by a b = (a - b) + (b - a)

abbrev pub naturals : Floats
naturals = record {
  F = ℕ;
  zero_ = 0;
  one_ = 1;
  largest = 1000;
  of_nat = λ n. n;
  literal = λ n k. n / 10 ^ k;
  parse = λ t. none;
  is_finite = λ n. true;
  lt = ltb;
  le = leb;
  eq = nat_eq;
  add = λ a b. a + b;
  sub = apart_by;
  mul = λ a b. a * b;
  div = λ a b. a / b;
  abs = λ n. n;
  log = λ n. n;
  round = λ n digits. n;
  is_close = λ relative absolute a b. leb (apart_by a b) absolute;
}

pub naturals-FloatLaws : FloatLaws naturals
naturals-FloatLaws = record {
  asymmetric = λ a b h. ground arith;
  through = λ a b c fa fb fc h g. ground arith;
  le_is = λ a b fa fb. ground arith;
  eq_is = λ a b fa fb. ground arith;
  eq_same = λ a b fa fb h. ground arith;
  equal_close = λ relative absolute a b r t fa fb h g. ground arith;
  close_swap = λ relative absolute a b. ground arith;
  size_swap = λ a b fa fb. omega arith;
  one_zero = λ a h. ground arith;
  literal_positive = λ n k. ground arith;
  zero_finite = refl;
  largest_finite = refl;
  largest_positive = refl;
  difference_positive = λ a b fa fb h. ground arith;
  product_positive = λ a b h g. ground arith;
}
