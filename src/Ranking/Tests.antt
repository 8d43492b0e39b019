-- ===== src/Ranking/Tests.antt =====
-- Pairs of small candidates, over natural numbers in place of floats.
use symbolic_recommendation.Prelude.{
  code_keys, ◌≡◌, refl, none, some, List, [], ◌∷◌, codes, length, ok, err, all_true, elem, keep_if,
  place_keys, if◌then◌else◌, ltb, value_error, Option, any_true,
}
use symbolic_recommendation.Prelude.Dict.{get, put, get-AllValues}
use symbolic_recommendation.Metta.{Text, is_space, lstrip, strip}
use symbolic_recommendation.Quantiles.Naturals.{naturals, naturals-FloatLaws}
use symbolic_recommendation.Quantiles.Encoder.{
  Encoder, post_init, check_fields, falls_back, absolute_delta, absolute_tolerance, bisect_right,
  encode_pair, finite_number, scale_relative_tolerance,
}
use symbolic_recommendation.Quantiles.{item_at}
use symbolic_recommendation.Ranking.{Premises, PairAttrs}
use symbolic_recommendation.Ranking.Matcher.{
  build_matcher, compile_pair_rule_matcher, matching_pair_rule_premises, same_premises,
  same_signature, rules_of, index_rule, index_rules, rule_predicates, predicates_of, add_companions,
  count_match, count_matches, count_tokens, no_matches, activated,
}
use symbolic_recommendation.Ranking.Joined.{matching_premises-scan}
use symbolic_recommendation.Ranking.Comparisons.{
  or_unknown, pair_orders, pair_ordered_comparisons, pair_direct_numeric_comparisons,
  llm_numeric_features, pair_llm_comparisons, numeric_pair_evidence, digits_from, decimal, wants,
  choose, ranks_from, compare_ranks, put_values, same_or_different,
}
use symbolic_recommendation.Ranking.Features.{
  Candidate, word, number, Encoders, pair_features, fact, shown, relative_value, finite,
  compare_numbers, relative_numeric_value, numeric_missing, raw_of, label_text, ordered_value,
  direct_value, llm_value, quantile_value, scope_value, put_same, bound_from, bounded_pair_features,
}
use symbolic_recommendation.Ranking.Reversal.{reverse_value, reverse_pair_features, reverse_from}
use symbolic_recommendation.Ranking.Turning.{map_ok}
use symbolic_recommendation.Ranking.Antisymmetry.{IsFitted}
use symbolic_recommendation.Ranking.Reversed.{IsNeutral, pair_features-swap}
use symbolic_recommendation.Ranking.Oriented.{
  Activation, Lab, compiled, oriented_pair_specs, activation_case,
}
use symbolic_recommendation.Ranking.Plan.{
  Plan, pairwise_plan, by_article, index_pairs, exhaustive_count, range_from, pairs_with,
  index_pairs_from, candidate_at, plan_pairs,
}
use symbolic_recommendation.Ranking.Exhaustive.{IsComplete, pairwise_plan-IsComplete}
use symbolic_recommendation.Ranking.Planned.{AllNeutral, plan_each, pairwise_plan-each}

abbrev pub prefers_left : Premises
prefers_left =
    (codes "pair_long_affinity", codes "left") ∷ (codes "pair_same_topic", codes "same") ∷ []

abbrev same_topic : Premises
same_topic = (codes "pair_same_topic", codes "same") ∷ []

abbrev rules : List Premises
rules = prefers_left ∷ same_topic ∷ []

abbrev facts : PairAttrs
facts = (codes "pair_same_topic", codes "same") ∷ (codes "pair_long_affinity", codes "right") ∷ []

matching_premises-scan_example :
    matching_pair_rule_premises (compile_pair_rule_matcher rules none) facts
    ≡ ok (keep_if (all_true (λ p. elem p facts)) rules)
matching_premises-scan_example = matching_premises-scan rules none facts tt (refl, (refl, tt))

-- The join finds the second rule only.
join_run :
    matching_pair_rule_premises (compile_pair_rule_matcher rules none) facts ≡ ok (same_topic ∷ [])
unfolding matching_pair_rule_premises count_tokens count_matches rules_of get put
    compile_pair_rule_matcher build_matcher index_rules index_rule count_match no_matches activated
join_run = refl

abbrev by_size : Encoder naturals
by_size = record {
  feature = codes "llm_concept_affinity";
  requested_bins = 3;
  scalar_thresholds = 2 ∷ 4 ∷ [];
  delta_thresholds = 5 ∷ [];
  scalar_sample_count = 4;
  delta_sample_count = 2;
  training_scale = 8;
  relative_tolerance = 0;
  scale_tolerance = 0;
}

abbrev encoders : Encoders naturals
encoders = (codes "llm_concept_affinity", by_size) ∷ []

by_size-passes : post_init naturals by_size ≡ ok by_size
unfolding check_fields falls_back strip lstrip is_space any_true
by_size-passes = refl

encoders-IsFitted : IsFitted naturals encoders
encoders-IsFitted source e found =
    get-AllValues (λ (e : Encoder naturals). post_init naturals e ≡ ok e) source e encoders
      (by_size-passes, tt) found

abbrev pub first : Candidate naturals
first = record {
  attrs =
      (codes "long_affinity", word (codes "high"))
      ∷ (codes "llm_concept_affinity", number 9 (codes "9.0"))
      ∷ [];
  scope = some (codes "short");
  topic = some (codes "ai");
  subcategory = none;
}

abbrev pub second : Candidate naturals
second = record {
  attrs =
      (codes "long_affinity", word (codes "low"))
      ∷ (codes "llm_concept_affinity", number 2 (codes "2.0"))
      ∷ [];
  scope = some (codes "short");
  topic = some (codes "ai");
  subcategory = some (codes "robots");
}

first-IsNeutral : IsNeutral first
unfolding reverse_value or_unknown
first-IsNeutral = refl

second-IsNeutral : IsNeutral second
unfolding reverse_value or_unknown
second-IsNeutral = refl

pair_features-swap_example :
    pair_features naturals encoders none second first
    ≡ map_ok reverse_pair_features (pair_features naturals encoders none first second)
pair_features-swap_example =
    pair_features-swap naturals naturals-FloatLaws encoders none first second encoders-IsFitted
      first-IsNeutral

abbrev needed : Option (List Text)
needed = some (codes "pair_long_affinity" ∷ codes "pair_llm_concept_affinity_quantile" ∷ [])

features_run :
    pair_features naturals encoders needed first second
    ≡ ok (
        (codes "pair_long_affinity", codes "left")
        ∷ (codes "pair_llm_concept_affinity_quantile", codes "left_q2")
        ∷ [])
unfolding put get keep_if pair_orders pair_ordered_comparisons pair_direct_numeric_comparisons
    llm_numeric_features pair_llm_comparisons numeric_pair_evidence digits_from decimal wants choose
    or_unknown ranks_from compare_ranks put_values same_or_different fact shown relative_value
    finite compare_numbers relative_numeric_value numeric_missing raw_of label_text ordered_value
    direct_value llm_value quantile_value scope_value put_same pair_features absolute_delta
    absolute_tolerance bisect_right encode_pair finite_number scale_relative_tolerance
features_run = refl

-- The digest of an activation, by its number of rules.
abbrev digest : Activation → Text
digest activation = length activation ∷ []

abbrev pub lab : Lab naturals
lab = record {
  pair_rules = rules;
  matcher = none;
  encoders = encoders;
  vocabulary =
      (codes "pair_long_affinity", codes "left" ∷ codes "right" ∷ [])
      ∷ (codes "pair_same_topic", codes "same" ∷ [])
      ∷ [];
  pair_candidate_case = digest;
}

abbrev pub ids : List Text
ids = codes "a" ∷ codes "b" ∷ []

abbrev pub specs : List (Text × Candidate naturals)
specs = (codes "a", first) ∷ (codes "b", second) ∷ []

specs-AllNeutral : AllNeutral naturals (by_article naturals specs [])
unfolding by_article put
specs-AllNeutral aid c found =
    get-AllValues (λ (c : Candidate naturals). IsNeutral c) aid c (by_article naturals specs [])
      (first-IsNeutral, (second-IsNeutral, tt)) found

pairwise_plan-each_example : pairwise_plan naturals lab 10 ids specs ≡ (
    if ltb 10 (exhaustive_count 2)
    then err (value_error "pairwise comparison budget exceeded")
    else plan_each naturals lab ids (by_article naturals specs []) (index_pairs 2))
pairwise_plan-each_example =
    pairwise_plan-each naturals naturals-FloatLaws lab 10 ids specs encoders-IsFitted tt
      specs-AllNeutral

abbrev pub plan : Plan
plan = record {
  comparisons = record { left = 0; right = 1; forward_case = 2 ∷ []; reverse_case = 1 ∷ [] } ∷ [];
  pair_specs =
      (
        2 ∷ [],
        (codes "pair_long_affinity", codes "left") ∷ (codes "pair_same_topic", codes "same") ∷ [],
      )
      ∷ (
        1 ∷ [],
        (codes "pair_long_affinity", codes "right") ∷ (codes "pair_same_topic", codes "same") ∷ [],
      )
      ∷ [];
}

pub planned : pairwise_plan naturals lab 10 ids specs ≡ ok plan
unfolding put get keep_if pair_orders pair_ordered_comparisons pair_direct_numeric_comparisons
    llm_numeric_features pair_llm_comparisons numeric_pair_evidence digits_from decimal wants choose
    or_unknown ranks_from compare_ranks put_values same_or_different fact shown relative_value
    finite compare_numbers relative_numeric_value numeric_missing raw_of label_text ordered_value
    direct_value llm_value quantile_value scope_value put_same pair_features absolute_delta
    absolute_tolerance bisect_right encode_pair finite_number scale_relative_tolerance bound_from
    bounded_pair_features same_premises same_signature rules_of index_rule index_rules
    rule_predicates predicates_of add_companions build_matcher compile_pair_rule_matcher count_match
    count_matches count_tokens no_matches activated matching_pair_rule_premises range_from
    pairs_with index_pairs_from index_pairs by_article candidate_at plan_pairs pairwise_plan
    compiled oriented_pair_specs activation_case reverse_value reverse_from reverse_pair_features
    item_at
planned = refl

pairwise_plan-IsComplete_example : IsComplete 2 10 plan.comparisons
pairwise_plan-IsComplete_example = pairwise_plan-IsComplete naturals lab 10 ids specs planned
