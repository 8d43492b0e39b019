-- ===== src/Quantiles/Metadata.antt =====
-- `to_metadata` and `from_metadata`: the encoder as JSON-safe data and back. A field holds what the
-- reading code makes of it; none stands where that raises, or where the field has another type.
use symbolic_recommendation.Prelude.{
  ℕ, ◌+◌, Bool, true, false, not, ◌||◌, Option, none, some, List, [], ◌∷◌, map, nat_eq,
  if◌then◌else◌, length, String, codes, ◌==◌, code_keys, ℤ, pos, negsuc, Result, ok, err, ◌>>=◌,
  value_error,
}
use symbolic_recommendation.Metta.{Text}
use symbolic_recommendation.Quantiles.{Floats}
use symbolic_recommendation.Quantiles.Encoder.{
  Raw, reads, Encoder, finite_number, falls_back, check_fields, absolute_tolerance,
}

module _ (fl : Floats) where
  pub record CutsData : Type 0 where
    pub thresholds : Option (List (Raw fl))
    pub sample_count : Option ℤ
    pub bin_count : Option ℕ

  pub record EqualityData : Type 0 where
    pub scale_read : Option fl.F
    pub relative_read : Option fl.F
    pub fraction_read : Option fl.F
    pub absolute_given : Option fl.F

  pub record Metadata : Type 0 where
    pub schema : Option Text
    pub version : Option ℕ
    pub feature_text : Text
    pub bins_read : Option ℤ
    pub quantile_method : Option Text
    pub scalar : Option CutsData
    pub pair_delta : Option CutsData
    pub equality : Option EqualityData

  abbrev pub bin_count_of : List fl.F → ℕ
  bin_count_of cuts = length cuts + 1

  abbrev pub cuts_data : List fl.F → ℕ → CutsData
  cuts_data cuts count = record {
    thresholds = some (map (λ x. reads (some x)) cuts);
    sample_count = some (pos count);
    bin_count = some (bin_count_of cuts);
  }

  -- Less the constant labels for missing values.
  unfoldable pub to_metadata : Encoder fl → Metadata
  to_metadata e = record {
    schema = some (codes "quantile_numeric_evidence");
    version = some 1;
    feature_text = e.feature;
    bins_read = some (pos e.requested_bins);
    quantile_method = some (codes "nearest_distinct_empirical_split_v1");
    scalar = some (cuts_data e.scalar_thresholds e.scalar_sample_count);
    pair_delta = some (cuts_data e.delta_thresholds e.delta_sample_count);
    equality = some (record {
      scale_read = some e.training_scale;
      relative_read = some e.relative_tolerance;
      fraction_read = some e.scale_tolerance;
      absolute_given = some (absolute_tolerance fl e);
    });
  }

  abbrev pub is_text : Text → Option Text → Bool
  is_text expected none = false
  is_text expected (some given) = given == expected

  abbrev pub is_number : ℕ → Option ℕ → Bool
  is_number expected none = false
  is_number expected (some given) = nat_eq given expected

  abbrev pub required {ℓ} : {A : Type ℓ} → Option A → Result A
  required none = err (value_error "invalid numeric evidence metadata")
  required (some a) = ok a

  abbrev pub section {ℓ} : {A : Type ℓ} → String → Option A → Result A
  section message none = err (value_error message)
  section message (some a) = ok a

  abbrev pub finite_or_err : Option fl.F → Result fl.F
  finite_or_err none = err (value_error "thresholds must all be finite numbers")
  finite_or_err (some x) = ok x

  unfoldable pub finite_items : List (Raw fl) → Result (List fl.F)
  finite_items [] = ok []
  finite_items (r ∷ raws) =
      finite_or_err (finite_number fl r) >>= λ x. finite_items raws >>= λ rest. ok (x ∷ rest)

  abbrev pub rising_only : List fl.F → Result (List fl.F)
  rising_only values =
      if falls_back fl values
      then err (value_error "thresholds must be strictly increasing")
      else ok values

  unfoldable pub validated_thresholds : Option (List (Raw fl)) → Result (List fl.F)
  validated_thresholds none = err (value_error "thresholds must be a list")
  validated_thresholds (some raws) = finite_items raws >>= λ values. rising_only values

  -- A negative number of bins is no more than zero bins.
  abbrev pub natural_of : ℤ → ℕ
  natural_of (pos n) = n
  natural_of (negsuc n) = 0

  abbrev pub is_negative : ℤ → Bool
  is_negative (pos n) = false
  is_negative (negsuc n) = true

  abbrev pub match_counts : CutsData → CutsData → Encoder fl → Result (Encoder fl)
  match_counts s d e =
      if not (is_number (bin_count_of e.scalar_thresholds) s.bin_count)
      then err (value_error "scalar bin count does not match thresholds")
      else if not (is_number (bin_count_of e.delta_thresholds) d.bin_count)
      then err (value_error "pair-delta bin count does not match thresholds")
      else ok e

  unfoldable pub restore :
      Text → Option ℤ → CutsData → CutsData → EqualityData → Result (Encoder fl)
  restore feature bins_read s d q = required bins_read >>= λ bins.
      required s.sample_count >>= λ scalar_count. required d.sample_count >>= λ delta_count.
      required q.scale_read >>= λ training_scale. required q.relative_read >>= λ relative.
      required q.fraction_read >>= λ fraction. validated_thresholds s.thresholds >>= λ scalar_cuts.
      validated_thresholds d.thresholds >>= λ delta_cuts.
      check_fields fl (is_negative scalar_count || is_negative delta_count) (record {
        feature = feature;
        requested_bins = natural_of bins;
        scalar_thresholds = scalar_cuts;
        delta_thresholds = delta_cuts;
        scalar_sample_count = natural_of scalar_count;
        delta_sample_count = natural_of delta_count;
        training_scale = training_scale;
        relative_tolerance = relative;
        scale_tolerance = fraction;
      })
      >>= λ e. match_counts s d e

  unfoldable pub from_metadata : Metadata → Result (Encoder fl)
  from_metadata m =
      if not (is_text (codes "quantile_numeric_evidence") m.schema) || not (is_number 1 m.version)
      then err (value_error "unsupported numeric evidence schema")
      else if not (is_text (codes "nearest_distinct_empirical_split_v1") m.quantile_method)
      then err (value_error "unsupported quantile method")
      else (section "metadata is missing quantile sections" m.scalar >>= λ s.
          section "metadata is missing quantile sections" m.pair_delta >>= λ d.
          section "metadata is missing equality settings" m.equality >>= λ q.
          restore m.feature_text m.bins_read s d q)
