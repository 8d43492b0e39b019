-- ===== src/Quantiles/Tests.antt =====
-- A fit over natural numbers in place of floats.
use symbolic_recommendation.Prelude.{
  ℕ, ◌≡◌, refl, false, none, some, List, [], ◌∷◌, is_empty, any_true, codes, int_value, pos, ok,
}
use symbolic_recommendation.Metta.{is_space, lstrip, strip}
use symbolic_recommendation.Quantiles.Naturals.{naturals, naturals-FloatLaws}
use symbolic_recommendation.Quantiles.Encoder.{
  Raw, missing, reads, pair, number, FitRequest, Encoder, Complete, bins_of, tolerance_of,
  pair_weights, equal_weights, complete_pairs, finite_number, fit, post_init, check_fields,
  encode_pair, falls_back,
}
use symbolic_recommendation.Quantiles.Fitted.{Fitted, fit-Fitted}
use symbolic_recommendation.Quantiles.Swap.{other_way, encode_pair-swap}

abbrev n : ℕ → Raw naturals
n k = reads (some k)

abbrev request : FitRequest naturals
request = record {
  feature_given = codes " age";
  training_values = n 1 ∷ missing ∷ n 4 ∷ n 2 ∷ n 9 ∷ [];
  training_pairs = pair (n 1) (n 3) ∷ pair (n 9) (n 2) ∷ pair (n 4) missing ∷ [];
  training_pair_weights = none;
  bins = int_value (pos 3);
  relative = number 0;
  scale = number 0;
}

abbrev weights : List (Raw naturals)
weights = n 1 ∷ n 1 ∷ n 1 ∷ []

abbrev pairs : List (Complete naturals)
pairs = record { left = 1; right = 3; weight = 1 } ∷ record { left = 9; right = 2; weight = 1 } ∷ []

named : is_empty (strip request.feature_given) ≡ false
unfolding strip lstrip is_space
named = refl

three_bins : bins_of naturals request.bins ≡ ok 3
unfolding bins_of
three_bins = refl

no_tolerance : tolerance_of naturals (number 0) ≡ ok 0
unfolding tolerance_of
no_tolerance = refl

weighed : pair_weights naturals request.training_pairs none ≡ ok weights
unfolding pair_weights equal_weights
weighed = refl

completed : complete_pairs naturals request.training_pairs weights ≡ ok pairs
unfolding complete_pairs finite_number
completed = refl

fit-Fitted_example : Fitted naturals 3 (fit naturals request)
fit-Fitted_example =
    fit-Fitted naturals naturals-FloatLaws request 3 0 0 weights pairs named three_bins no_tolerance
      no_tolerance weighed completed

abbrev encoder : Encoder naturals
encoder = record {
  feature = codes "age";
  requested_bins = 3;
  scalar_thresholds = 2 ∷ 4 ∷ [];
  delta_thresholds = 7 ∷ [];
  scalar_sample_count = 4;
  delta_sample_count = 2;
  training_scale = 8;
  relative_tolerance = 0;
  scale_tolerance = 0;
}

passes : post_init naturals encoder ≡ ok encoder
unfolding check_fields falls_back strip lstrip is_space any_true
passes = refl

encode_pair-swap_example :
    encode_pair naturals encoder (n 9) (n 2)
    ≡ other_way naturals (encode_pair naturals encoder (n 2) (n 9))
encode_pair-swap_example = encode_pair-swap naturals naturals-FloatLaws encoder (n 2) (n 9) passes
