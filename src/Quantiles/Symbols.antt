-- ===== src/Quantiles/Symbols.antt =====
-- The symbols of an encoder stay within its bins.
use symbolic_recommendation.Prelude.{
  ℕ, ◌≤◌, ◌<◌, ◌≡◌, refl, Bool, true, ◌&&◌, Option, none, some, List, [], ◌∷◌, arith, leb, length,
  Option-cases, inl, inr,
}
use symbolic_recommendation.Quantiles.{Floats}
use symbolic_recommendation.Quantiles.Encoder.{
  Raw, Encoder, finite_number, absolute_delta, bisect_right, ScalarLabel, unknown_scalar, bucket,
  encode_scalar, PairLabel, left_bucket, right_bucket, label_pair, encode_pair,
}

-- A symbol for a number or a pair is one of `bins` buckets, where it is a bucket.
abbrev pub scalar_within : {fl : Floats} → ℕ → ScalarLabel fl → Bool
scalar_within bins unknown_scalar = true
scalar_within bins (bucket n) = leb 1 n && leb n bins

abbrev pub pair_within : {fl : Floats} → ℕ → PairLabel fl → Bool
pair_within bins (left_bucket n) = leb 1 n && leb n bins
pair_within bins (right_bucket n) = leb 1 n && leb n bins
pair_within bins _ = true

module _ (fl : Floats) where
  bisect_right-le : (cuts : List fl.F) (x : fl.F) → bisect_right fl cuts x ≤ length cuts
  unfolding bisect_right
  bisect_right-le [] x = omega arith
  bisect_right-le (t ∷ cuts) x = ground (arith, bisect_right-le cuts x)

  pub encode_scalar-within :
      (e : Encoder fl) {bins : ℕ} (value : Raw fl)
      → length e.scalar_thresholds < bins
      → scalar_within bins (encode_scalar fl e value) ≡ true
  unfolding encode_scalar
  encode_scalar-within e value h = elim (Option-cases (finite_number fl value)) [
    | inl nothing ↦ rw nothing refl
    | inr (x, read) ↦ rw read (ground (arith, bisect_right-le e.scalar_thresholds x))
  ]

  label_pair-within :
      (e : Encoder fl) (bins : ℕ) (l r : Option fl.F)
      → length e.delta_thresholds < bins
      → pair_within bins (label_pair fl e l r) ≡ true
  label_pair-within e bins none none h = refl
  label_pair-within e bins none (some r) h = refl
  label_pair-within e bins (some l) none h = refl
  label_pair-within e bins (some l) (some r) h =
      ground (arith, bisect_right-le e.delta_thresholds (absolute_delta fl l r))

  pub encode_pair-within :
      (e : Encoder fl) {bins : ℕ} (left right : Raw fl)
      → length e.delta_thresholds < bins
      → pair_within bins (encode_pair fl e left right) ≡ true
  unfolding encode_pair
  encode_pair-within e {bins} left right h =
      label_pair-within e bins (finite_number fl left) (finite_number fl right) h
