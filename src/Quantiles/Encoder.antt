-- ===== src/Quantiles/Encoder.antt =====
-- `QuantileNumericEvidence`: its checks, `fit`, and the symbols of numbers and of pairs of numbers.
use symbolic_recommendation.Prelude.{
  ℕ, suc, ◌+◌, Bool, false, not, ◌||◌, Option, none, some, List, [], ◌∷◌, ◌++◌, map, ltb, nat_eq,
  if◌then◌else◌, length, is_empty, any_true, keep_if, Scalar, int_value, pos, Result, ok, err,
  ◌>>=◌, value_error,
}
use symbolic_recommendation.Metta.{Text, strip}
use symbolic_recommendation.Quantiles.{Floats, distinct_quantile_thresholds}

module _ (fl : Floats) where
  -- A value before it is read: none, a Boolean, or what `float` makes of it where it does not raise.
  pub data Raw : Type 0 where
    missing flag : Raw
    reads : Option fl.F → Raw

  -- A training pair: a text, which is refused, something that is not two values, or two values.
  pub data RawPair : Type 0 where
    text_pair wrong_size : RawPair
    pair : Raw → Raw → RawPair

  pub data Tolerance : Type 0 where
    not_a_number : Tolerance
    number : fl.F → Tolerance

  pub record Encoder : Type 0 where
    pub feature : Text
    pub requested_bins : ℕ
    pub scalar_thresholds : List fl.F
    pub delta_thresholds : List fl.F
    pub scalar_sample_count : ℕ
    pub delta_sample_count : ℕ
    pub training_scale : fl.F
    pub relative_tolerance : fl.F
    pub scale_tolerance : fl.F

  pub record FitRequest : Type 0 where
    pub feature_given : Text
    pub training_values : List Raw
    pub training_pairs : List RawPair
    pub training_pair_weights : Option (List Raw)
    pub bins : Scalar
    pub relative : Tolerance
    pub scale : Tolerance

  -- -0.0 becomes 0.0.
  abbrev pub positive_zero : fl.F → fl.F
  positive_zero x = if fl.eq x fl.zero_ then fl.zero_ else x

  unfoldable pub finite_number : Raw → Option fl.F
  finite_number missing = none
  finite_number flag = none
  finite_number (reads none) = none
  finite_number (reads (some x)) = if fl.is_finite x then some (positive_zero x) else none

  abbrev pub or_largest : fl.F → fl.F
  or_largest x = if fl.is_finite x then x else fl.largest

  unfoldable pub absolute_delta : fl.F → fl.F → fl.F
  absolute_delta left right = or_largest (fl.abs (fl.sub left right))

  -- `max` and `min` keep the first of the best.
  unfoldable pub maximum : fl.F → List fl.F → fl.F
  maximum best [] = best
  maximum best (x ∷ xs) = maximum (if fl.lt best x then x else best) xs

  unfoldable pub minimum : fl.F → List fl.F → fl.F
  minimum best [] = best
  minimum best (x ∷ xs) = minimum (if fl.lt x best then x else best) xs

  -- `_training_scale`
  unfoldable pub training_scale_of : List fl.F → fl.F
  training_scale_of [] = fl.zero_
  training_scale_of (x ∷ []) = fl.zero_
  training_scale_of (x ∷ y ∷ ys) = or_largest (fl.sub (maximum x (y ∷ ys)) (minimum x (y ∷ ys)))

  unfoldable pub scale_relative_tolerance : fl.F → fl.F → fl.F
  scale_relative_tolerance fraction scale =
      if fl.eq fraction fl.zero_ || fl.eq scale fl.zero_
      then fl.zero_
      else if fl.lt (fl.div fl.largest scale) fraction
      then fl.largest
      else fl.mul fraction scale

  abbrev pub bad_number : fl.F → Bool
  bad_number x = not (fl.is_finite x) || fl.lt x fl.zero_

  -- any(left >= right for left, right in zip(values, values[1:]))
  unfoldable pub falls_back : List fl.F → Bool
  falls_back [] = false
  falls_back (x ∷ []) = false
  falls_back (x ∷ y ∷ ys) = fl.le y x || falls_back (y ∷ ys)

  -- The checks of `__post_init__`, with whether a sample count is negative.
  unfoldable pub check_fields : Bool → Encoder → Result Encoder
  check_fields negative_count e =
      if is_empty (strip e.feature)
      then err (value_error "feature must be a non-empty string")
      else if ltb e.requested_bins 1
      then err (value_error "requested_bins must be at least 1")
      else if negative_count
      then err (value_error "sample counts cannot be negative")
      else if bad_number e.training_scale
      then err (value_error "training_scale must be finite and non-negative")
      else if bad_number e.relative_tolerance
      then err (value_error "relative_tolerance must be finite and non-negative")
      else if bad_number e.scale_tolerance
      then err (value_error "scale_tolerance must be finite and non-negative")
      else if any_true (λ x. not (fl.is_finite x)) (e.scalar_thresholds ++ e.delta_thresholds)
      then err (value_error "quantile thresholds must be finite")
      else if falls_back e.scalar_thresholds || falls_back e.delta_thresholds
      then err (value_error "quantile thresholds must be strictly increasing")
      else ok e

  -- `__post_init__` of an encoder whose counts are those of lists.
  abbrev pub post_init : Encoder → Result Encoder
  post_init e = check_fields false e

  unfoldable pub bins_of : Scalar → Result ℕ
  bins_of (int_value (pos (suc n))) = ok (suc n)
  bins_of _ = err (value_error "bins must be an integer of at least 1")

  unfoldable pub tolerance_of : Tolerance → Result fl.F
  tolerance_of not_a_number = err (value_error "must be a finite non-negative number")
  tolerance_of (number x) =
      if bad_number x then err (value_error "must be a finite non-negative number") else ok x

  abbrev pub cons_number : Option fl.F → List fl.F → List fl.F
  cons_number none xs = xs
  cons_number (some x) xs = x ∷ xs

  unfoldable pub finite_numbers : List Raw → List fl.F
  finite_numbers [] = []
  finite_numbers (r ∷ raws) = cons_number (finite_number r) (finite_numbers raws)

  unfoldable pub equal_weights : List RawPair → List Raw
  equal_weights [] = []
  equal_weights (p ∷ pairs) = reads (some fl.one_) ∷ equal_weights pairs

  unfoldable pub pair_weights : List RawPair → Option (List Raw) → Result (List Raw)
  pair_weights pairs none = ok (equal_weights pairs)
  pair_weights pairs (some weights) =
      if not (nat_eq (length weights) (length pairs))
      then err (value_error "training_pair_weights length must equal training_pairs length")
      else ok weights

  pub record Complete : Type 0 where
    pub left : fl.F
    pub right : fl.F
    pub weight : fl.F

  -- A pair that is complete, where its weight is not zero.
  abbrev pub weigh : fl.F → fl.F → Option fl.F → Result (List Complete)
  weigh left right none = err (value_error "training pair weight must be finite and non-negative")
  weigh left right (some w) =
      if fl.lt w fl.zero_
      then err (value_error "training pair weight must be finite and non-negative")
      else if fl.eq w fl.zero_
      then ok []
      else ok (record { left = left; right = right; weight = w } ∷ [])

  abbrev pub complete_pair : Option fl.F → Option fl.F → Raw → Result (List Complete)
  complete_pair none right weight = ok []
  complete_pair (some l) none weight = ok []
  complete_pair (some l) (some r) weight = weigh l r (finite_number weight)

  abbrev pub read_pair : RawPair → Raw → Result (List Complete)
  read_pair text_pair weight = err (value_error "training pair must contain two values")
  read_pair wrong_size weight = err (value_error "training pair must contain exactly two values")
  read_pair (pair l r) weight = complete_pair (finite_number l) (finite_number r) weight

  -- The loop over the pairs and their weights.
  unfoldable pub complete_pairs : List RawPair → List Raw → Result (List Complete)
  complete_pairs [] weights = ok []
  complete_pairs (p ∷ pairs) [] = ok []
  complete_pairs (p ∷ pairs) (w ∷ weights) =
      read_pair p w >>= λ c. complete_pairs pairs weights >>= λ rest. ok (c ++ rest)

  unfoldable pub endpoints : List Complete → List fl.F
  endpoints [] = []
  endpoints (c ∷ cs) = c.left ∷ c.right ∷ endpoints cs

  -- The pairs that are not close.
  abbrev pub apart : fl.F → fl.F → List Complete → List Complete
  apart relative absolute = keep_if (λ c. not (fl.is_close relative absolute c.left c.right))

  abbrev pub deltas : List Complete → List fl.F
  deltas = map (λ c. absolute_delta c.left c.right)

  -- The end of `fit`, from the numbers that count.
  unfoldable pub fit_numbers : Text → ℕ → fl.F → fl.F → List fl.F → List Complete → Result Encoder
  fit_numbers feature bins relative scale scalars pairs =
      let training_scale = training_scale_of (scalars ++ endpoints pairs) in
      let absolute = scale_relative_tolerance scale training_scale in
      let rows = apart relative absolute pairs in
      distinct_quantile_thresholds fl scalars bins none relative absolute >>= λ scalar_cuts.
      (distinct_quantile_thresholds fl (deltas rows) bins
          (some (map (λ (c : Complete). c.weight) rows)) relative absolute
        >>= λ delta_cuts. post_init (record {
          feature = strip feature;
          requested_bins = bins;
          scalar_thresholds = scalar_cuts;
          delta_thresholds = delta_cuts;
          scalar_sample_count = length scalars;
          delta_sample_count = length rows;
          training_scale = training_scale;
          relative_tolerance = relative;
          scale_tolerance = scale;
        }))

  unfoldable pub fit : FitRequest → Result Encoder
  fit q = bins_of q.bins >>= λ bins. tolerance_of q.relative >>= λ relative.
      tolerance_of q.scale >>= λ scale.
      pair_weights q.training_pairs q.training_pair_weights >>= λ weights.
      complete_pairs q.training_pairs weights >>= λ pairs.
      fit_numbers q.feature_given bins relative scale (finite_numbers q.training_values) pairs

  -- The insertion point behind the thresholds that are not above the number.
  unfoldable pub bisect_right : List fl.F → fl.F → ℕ
  bisect_right [] x = 0
  bisect_right (t ∷ thresholds) x = if fl.lt x t then 0 else suc (bisect_right thresholds x)

  -- The symbols `unknown` and `qN`.
  pub data ScalarLabel : Type 0 where
    unknown_scalar : ScalarLabel
    bucket : ℕ → ScalarLabel

  abbrev pub label_scalar : Encoder → Option fl.F → ScalarLabel
  label_scalar e none = unknown_scalar
  label_scalar e (some x) = bucket (bisect_right e.scalar_thresholds x + 1)

  unfoldable pub encode_scalar : Encoder → Raw → ScalarLabel
  encode_scalar e value = label_scalar e (finite_number value)

  -- The symbols of pairs; `left_bucket n` is `left_qN`.
  pub data PairLabel : Type 0 where
    unknown_pair left_known right_known equal : PairLabel
    left_bucket right_bucket : ℕ → PairLabel

  unfoldable pub absolute_tolerance : Encoder → fl.F
  absolute_tolerance e = scale_relative_tolerance e.scale_tolerance e.training_scale

  abbrev pub label_pair : Encoder → Option fl.F → Option fl.F → PairLabel
  label_pair e none none = unknown_pair
  label_pair e none (some r) = right_known
  label_pair e (some l) none = left_known
  label_pair e (some l) (some r) =
      let n = bisect_right e.delta_thresholds (absolute_delta l r) + 1 in
      if fl.is_close e.relative_tolerance (absolute_tolerance e) l r
      then equal
      else if fl.lt r l
      then left_bucket n
      else right_bucket n

  unfoldable pub encode_pair : Encoder → Raw → Raw → PairLabel
  encode_pair e left right = label_pair e (finite_number left) (finite_number right)
