-- ===== src/Quantiles/Fitted.antt =====
-- `fit` on a sound request always returns an encoder, which has passed its own checks and gives no
-- symbol beyond the bins that were asked for.
use symbolic_recommendation.Prelude.{
  ℕ, zero, suc, ◌<◌, ◌≡◌, refl, ◌∙◌, subst, true, false, none, some, List, [], ◌∷◌, ◌++◌, map,
  arith, ltb, length, length-map, is_empty, all_true, all_true-append, any_true-not, IsOrdered,
  Scalar, none_value, other_value, bool_value, text_value, int_value, pos, negsuc, Result, ok,
  if_err-eq-ok, ok-injective,
}
use symbolic_recommendation.Metta.{Text, strip}
use symbolic_recommendation.Metta.Strip.{is_empty-strip-strip}
use symbolic_recommendation.Quantiles.{Floats}
use symbolic_recommendation.Quantiles.Laws.{FloatLaws}
use symbolic_recommendation.Quantiles.Rising.{
  Thresholds, length-ones, distinct_quantile_thresholds-Thresholds,
}
use symbolic_recommendation.Quantiles.Encoder.{
  Raw, Encoder, FitRequest, Complete, absolute_delta, training_scale_of, scale_relative_tolerance,
  bad_number, falls_back, post_init, check_fields, bins_of, tolerance_of, Tolerance, not_a_number,
  number, finite_numbers, pair_weights, complete_pairs, endpoints, apart, deltas, fit_numbers, fit,
  encode_scalar, encode_pair,
}
use symbolic_recommendation.Quantiles.Metadata.{to_metadata, from_metadata}
use symbolic_recommendation.Quantiles.Restore.{from_metadata-to_metadata}
use symbolic_recommendation.Quantiles.Symbols.{
  scalar_within, pair_within, encode_scalar-within, encode_pair-within,
}
use symbolic_recommendation.Quantiles.Sound.{
  both_finite, finite_numbers-finite, training_scale_of-good, scale_relative_tolerance-positive,
  complete_pairs-finite, endpoints-finite, deltas-finite,
}

-- What `fit` returns.
pub record Fitted (fl : Floats) (bins : ℕ) (r : Result (Encoder fl)) : Type 0 where
  pub encoder : Encoder fl
  pub returns : r ≡ ok encoder
  pub passes : post_init fl encoder ≡ ok encoder
  pub as_asked : encoder.requested_bins ≡ bins
  pub scalar_cuts : Thresholds fl bins encoder.scalar_thresholds
  pub delta_cuts : Thresholds fl bins encoder.delta_thresholds
  pub restores : from_metadata fl (to_metadata fl encoder) ≡ ok encoder
  pub scalar_symbols : (value : Raw fl) → scalar_within bins (encode_scalar fl encoder value) ≡ true
  pub pair_symbols :
      (left right : Raw fl) → pair_within bins (encode_pair fl encoder left right) ≡ true

module _ (fl : Floats) (laws : FloatLaws fl) where
  Thresholds-falls_back :
      (cuts : List fl.F)
      → all_true fl.is_finite cuts ≡ true
      → IsOrdered fl.lt cuts
      → falls_back fl cuts ≡ false
  unfolding falls_back all_true
  Thresholds-falls_back [] f o = refl
  Thresholds-falls_back (x ∷ []) f o = refl
  Thresholds-falls_back (x ∷ y ∷ ys) f o =
      ground (arith, laws.le_is x y, Thresholds-falls_back (y ∷ ys) (ground arith) o.1)

  -- An encoder with thresholds like these passes its checks.
  post_init-passes :
      (e : Encoder fl)
      → is_empty (strip e.feature) ≡ false
      → 0 < e.requested_bins
      → bad_number fl e.training_scale ≡ false
      → bad_number fl e.relative_tolerance ≡ false
      → bad_number fl e.scale_tolerance ≡ false
      → Thresholds fl e.requested_bins e.scalar_thresholds
      → Thresholds fl e.requested_bins e.delta_thresholds
      → post_init fl e ≡ ok e
  unfolding check_fields
  post_init-passes e named one scale relative absolute s d =
      let enough : ltb e.requested_bins 1 ≡ false = ground (arith, one) in
      let finite = any_true-not fl.is_finite (e.scalar_thresholds ++ e.delta_thresholds) (
        all_true-append fl.is_finite e.scalar_thresholds e.delta_thresholds
        ∙ ground (arith, s.finite, d.finite)) in
      rw
        (
          named,
          enough,
          scale,
          relative,
          absolute,
          finite,
          Thresholds-falls_back e.scalar_thresholds s.finite s.rising,
          Thresholds-falls_back e.delta_thresholds d.finite d.rising,
        )
        refl

  fit_numbers-Fitted :
      (feature : Text) (bins : ℕ) (relative scale : fl.F) (scalars : List fl.F)
      (pairs : List (Complete fl))
      → is_empty (strip feature) ≡ false
      → 0 < bins
      → bad_number fl relative ≡ false
      → bad_number fl scale ≡ false
      → all_true fl.is_finite scalars ≡ true
      → all_true (both_finite fl laws) pairs ≡ true
      → Fitted fl bins (fit_numbers fl feature bins relative scale scalars pairs)
  unfolding fit_numbers
  fit_numbers-Fitted feature bins relative scale scalars pairs named one r t f h =
      let training_scale = training_scale_of fl (scalars ++ endpoints fl pairs) in
      let good = training_scale_of-good fl laws (scalars ++ endpoints fl pairs) (
        all_true-append fl.is_finite scalars (endpoints fl pairs)
        ∙ ground (arith, f, endpoints-finite fl laws pairs h)) in
      let absolute = scale_relative_tolerance fl scale training_scale in
      let positive =
        scale_relative_tolerance-positive fl laws scale training_scale (ground (arith, t))
          (ground (arith, good)) in
      let rows = apart fl relative absolute pairs in
      let weights = map (λ (c : Complete fl). c.weight) rows in
      let (scalar_cuts, scalar_found, s) =
        distinct_quantile_thresholds-Thresholds fl laws scalars bins none relative absolute f
          (length-ones fl scalars) one (ground (arith, r)) positive in
      let (delta_cuts, delta_found, d) =
        distinct_quantile_thresholds-Thresholds fl laws (deltas fl rows) bins (some weights)
          relative absolute (deltas-finite fl laws rows)
          (omega (
            arith,
            length-map (λ (c : Complete fl). c.weight) rows,
            length-map (λ (c : Complete fl). absolute_delta fl c.left c.right) rows,
          ))
          one (ground (arith, r)) positive in
      let made : Encoder fl = record {
        feature = strip feature;
        requested_bins = bins;
        scalar_thresholds = scalar_cuts;
        delta_thresholds = delta_cuts;
        scalar_sample_count = length scalars;
        delta_sample_count = length rows;
        training_scale = training_scale;
        relative_tolerance = relative;
        scale_tolerance = scale;
      } in
      let passes = post_init-passes made (is_empty-strip-strip feature ∙ named) one good r t s d in
      record {
        encoder = made;
        returns = rw (scalar_found, delta_found) passes;
        passes = passes;
        as_asked = refl;
        scalar_cuts = s;
        delta_cuts = d;
        restores = from_metadata-to_metadata fl laws made passes;
        scalar_symbols = λ value. encode_scalar-within fl made value s.few;
        pair_symbols = λ left right. encode_pair-within fl made left right d.few;
      }

  bins_of-positive : (b : Scalar) (bins : ℕ) → bins_of fl b ≡ ok bins → 0 < bins
  unfolding bins_of
  bins_of-positive none_value bins h = cc
  bins_of-positive other_value bins h = cc
  bins_of-positive (bool_value b) bins h = cc
  bins_of-positive (text_value s) bins h = cc
  bins_of-positive (int_value (negsuc n)) bins h = cc
  bins_of-positive (int_value (pos zero)) bins h = cc
  bins_of-positive (int_value (pos (suc n))) bins h =
      let same : suc n ≡ bins = ok-injective h in omega (arith, same)

  tolerance_of-good :
      (t : Tolerance fl) (x : fl.F) → tolerance_of fl t ≡ ok x → bad_number fl x ≡ false
  unfolding tolerance_of
  tolerance_of-good not_a_number x h = cc
  tolerance_of-good (number y) x h =
      let (good, same) = if_err-eq-ok (bad_number fl y) _ _ h in
      subst (λ z. bad_number fl z ≡ false) (ok-injective same) good

  -- Of a request whose feature has a name, whose count of bins is a positive integer, whose tolerances
  -- are finite and not negative, with as many weights as pairs, and whose pairs and weights are
  -- accepted: `fit` returns an encoder, for every such training split. It has passed the checks of
  -- `__post_init__`, has the bins that were asked for, and its thresholds for numbers as well as for
  -- differences are finite, strictly increasing and fewer than the bins; every symbol that it
  -- gives for any value or pair and that is a bucket is one of the buckets from 1 to the bins; and
  -- `from_metadata` of its metadata gives it back.
  pub fit-Fitted :
      (q : FitRequest fl) (bins : ℕ) (relative scale : fl.F) (weights : List (Raw fl))
      (pairs : List (Complete fl))
      → is_empty (strip q.feature_given) ≡ false
      → bins_of fl q.bins ≡ ok bins
      → tolerance_of fl q.relative ≡ ok relative
      → tolerance_of fl q.scale ≡ ok scale
      → pair_weights fl q.training_pairs q.training_pair_weights ≡ ok weights
      → complete_pairs fl q.training_pairs weights ≡ ok pairs
      → Fitted fl bins (fit fl q)
  unfolding fit
  fit-Fitted q bins relative scale weights pairs named b r t w p =
      rw (b, r, t, w, p)
        (fit_numbers-Fitted q.feature_given bins relative scale
          (finite_numbers fl q.training_values) pairs named (bins_of-positive q.bins bins b)
          (tolerance_of-good q.relative relative r) (tolerance_of-good q.scale scale t)
          (finite_numbers-finite fl laws q.training_values)
          (complete_pairs-finite fl laws q.training_pairs weights pairs p))
