-- ===== src/Ranking/ScoreTests.antt =====
-- `score` over two small articles.
use symbolic_recommendation.Prelude.{
  false, ℕ, ◌≡◌, refl, true, none, some, List, [], ◌∷◌, codes, code_keys, ◌==◌, if◌then◌else◌,
  Result, ok, err, keep_if, any_true, all_true, sort_by, insert_by, arith, runtime_error,
}
use symbolic_recommendation.Prelude.Dict.{Dict, get, put}
use symbolic_recommendation.Metta.{Text}
use symbolic_recommendation.Quantiles.{item_at}
use symbolic_recommendation.Quantiles.Naturals.{naturals, naturals-FloatLaws}
use symbolic_recommendation.Quantiles.Encoder.{
  absolute_delta, absolute_tolerance, bisect_right, encode_pair, finite_number,
  scale_relative_tolerance,
}
use symbolic_recommendation.Ranking.Comparisons.{
  pair_orders, pair_ordered_comparisons, pair_direct_numeric_comparisons, llm_numeric_features,
  pair_llm_comparisons, numeric_pair_evidence, digits_from, decimal, wants, choose, or_unknown,
  ranks_from, compare_ranks, put_values, same_or_different,
}
use symbolic_recommendation.Ranking.Features.{
  Candidate, fact, shown, relative_value, finite, compare_numbers, relative_numeric_value,
  numeric_missing, raw_of, label_text, ordered_value, direct_value, llm_value, quantile_value,
  scope_value, put_same, pair_features, bound_from, bounded_pair_features,
}
use symbolic_recommendation.Ranking.Reversal.{reverse_value, reverse_from, reverse_pair_features}
use symbolic_recommendation.Ranking.Matcher.{
  same_premises, same_signature, rules_of, index_rule, index_rules, rule_predicates, predicates_of,
  add_companions, build_matcher, compile_pair_rule_matcher, count_match, count_matches,
  count_tokens, no_matches, activated, matching_pair_rule_premises,
}
use symbolic_recommendation.Ranking.Oriented.{
  activation_case, compiled, pair_spec, oriented_pair_specs,
}
use symbolic_recommendation.Ranking.Plan.{
  range_from, pairs_with, index_pairs_from, index_pairs, by_article, candidate_at, plan_pairs,
  pairwise_plan,
}
use symbolic_recommendation.Ranking.Margins.{
  Proof, MarginCache, PairRule, update_at, repeat, distinct_texts, posterior_of, log_odds,
  note_margin, margins_from, proof_dependency_margins, pair_rule_family, clusters_from,
}
use symbolic_recommendation.Ranking.Votes.{
  empty_families, transfer, vote_each, count_margins, vote, vote_all,
}
use symbolic_recommendation.Ranking.Midranks.{
  leading_equal, midrank, place_all, midrank_groups, numbered, midrank_scores,
}
use symbolic_recommendation.Ranking.Tournament.{
  averages, family_weight, score_families, sum_at, leading_rows, point_ranks, families_at,
  scores_at, update_rows, run_tournament, pairwise_rank,
}
use symbolic_recommendation.Ranking.Rows.{unpaired, RankedRow, key_before}
use symbolic_recommendation.Ranking.Score.{
  Scorer, shrunk, strongest, inference_of, surest, all_ids, total_weight, weighted_sum, proof_sum,
  evidence_of, implied_strength, revise, point_row,
}
use symbolic_recommendation.Ranking.Scoring.{
  row_ids, candidates_for, point_rows, rank, candidate_specs, score, feed_score,
}
use symbolic_recommendation.Ranking.Scored.{Ranks, key_of, score-Ranks}
use symbolic_recommendation.Ranking.Ended.{has_cases, pairwise_rank-returns}
use symbolic_recommendation.Feed.Pages.{FeedLab, PageRequest, no_cursor}
use symbolic_recommendation.Feed.Requests.{feed_page}
use symbolic_recommendation.Feed.Sessions.{AllTrack, after_page}
use symbolic_recommendation.Feed.Scored.{scored_page-AllTrack}
use symbolic_recommendation.Ranking.Tests.{
  prefers_left, first, second, lab, ids, specs, plan, planned,
}

abbrev proof_of : ℕ → ℕ → Proof naturals
proof_of strength confidence = record {
  proof_text = [];
  strength = strength;
  confidence = confidence;
  dependencies = ok (codes "cluster" ∷ []);
  mined_ids = codes "mined_1" ∷ [];
  feedback_ids = [];
}

abbrev pair_rule : PairRule naturals
pair_rule = record {
  rule_id = codes "cluster";
  dependency_id = none;
  categorical_fact_family = none;
  dependency_owner = none;
  premises = prefers_left;
  confidence = 1;
  strength = 1;
}

abbrev candidate_of : Text → Candidate naturals
candidate_of aid = if aid == codes "a" then first else second

abbrev no_margins : MarginCache naturals
no_margins = record { version = 1; limit = 2; margins = [] }

-- Two articles, of which the proofs of points prefer the second.
abbrev pub scorer : Scorer naturals
scorer = record {
  users = codes "u" ∷ [];
  articles = ids;
  top_k = 1;
  max_pair_comparisons = 10;
  popularity = (codes "a", 0) ∷ (codes "b", 0) ∷ [];
  click_base_rate = 0;
  mined_rules = [];
  pair_rules = pair_rule ∷ [];
  lab = lab;
  default_candidates = λ user. ids;
  tie_break = λ aid. record { topic_prior = 0; format_prior = 0; subcategory_prior = 0 };
  prepare = λ user aid. ok (record { aid = aid; case = aid; candidate = candidate_of aid });
  point_proofs = λ specs. ok ((codes "a", []) ∷ (codes "b", proof_of 1 1 ∷ []) ∷ []);
  pair_margins = λ ids. no_margins;
  pair_proofs = λ specs. ok ((2 ∷ [], proof_of 1 1 ∷ []) ∷ (1 ∷ [], []) ∷ []);
}

abbrev candidates : List Text
candidates = codes "a" ∷ codes "b" ∷ codes "a" ∷ []

abbrev rows_of : Result (List (RankedRow naturals)) → List (RankedRow naturals)
rows_of (err x) = []
rows_of (ok rows) = rows

abbrev ranked : List (RankedRow naturals)
ranked = rows_of (score naturals scorer (codes "u") (some candidates) (some 0) true)

scored : score naturals scorer (codes "u") (some candidates) (some 0) true ≡ ok ranked
unfolding get put keep_if any_true all_true sort_by insert_by item_at absolute_delta
    absolute_tolerance bisect_right encode_pair finite_number scale_relative_tolerance pair_orders
    pair_ordered_comparisons pair_direct_numeric_comparisons llm_numeric_features
    pair_llm_comparisons numeric_pair_evidence digits_from decimal wants choose or_unknown
    ranks_from compare_ranks put_values same_or_different fact shown relative_value finite
    compare_numbers relative_numeric_value numeric_missing raw_of label_text ordered_value
    direct_value llm_value quantile_value scope_value put_same pair_features bound_from
    bounded_pair_features reverse_value reverse_from reverse_pair_features same_premises
    same_signature rules_of index_rule index_rules rule_predicates predicates_of add_companions
    build_matcher compile_pair_rule_matcher count_match count_matches count_tokens no_matches
    activated matching_pair_rule_premises activation_case compiled pair_spec oriented_pair_specs
    range_from pairs_with index_pairs_from index_pairs by_article candidate_at plan_pairs
    pairwise_plan update_at repeat distinct_texts posterior_of log_odds note_margin margins_from
    proof_dependency_margins pair_rule_family clusters_from empty_families transfer vote_each
    count_margins vote vote_all leading_equal midrank place_all midrank_groups numbered
    midrank_scores averages family_weight score_families sum_at leading_rows point_ranks families_at
    scores_at update_rows run_tournament pairwise_rank key_before shrunk strongest inference_of
    surest all_ids total_weight weighted_sum proof_sum evidence_of implied_strength revise point_row
    point_rows rank candidate_specs score feed_score
scored = refl

score-Ranks_example :
    Ranks naturals
      (key_of naturals true)
      (candidates_for naturals scorer (codes "u") (some candidates))
      0
      ranked
score-Ranks_example =
    score-Ranks naturals naturals-FloatLaws scorer (codes "u") (some candidates) (some 0) true
      scored

abbrev pub feed_lab : FeedLab
feed_lab = record {
  users = codes "u" ∷ [];
  top_k = 1;
  feed_window = 2;
  lab_version = 1;
  articles = ids;
  candidates_of = λ user. ids;
  seen_of = λ user. [];
  shuffle = λ user articles. articles;
  limits = record { history_limit = 4; row_limit = 10 };
  show = λ n. n ∷ [];
}

abbrev request : PageRequest
request = record {
  user = codes "u";
  cursor_given = no_cursor;
  session = none;
  limit = none;
  now = 10;
  fresh_id = codes "s";
}

scored_page-AllTrack_example :
    AllTrack
      (feed_page (feed_score naturals scorer) feed_lab request []).1
      (after_page (feed_page (feed_score naturals scorer) feed_lab request []).0 (λ id. []))
unfolding get
scored_page-AllTrack_example =
    scored_page-AllTrack naturals naturals-FloatLaws scorer feed_lab request (λ id. [])
      (refl, (refl, tt)) (λ a xs. refl) refl [] (record { each = λ id s h. cc })

abbrev row_of : Text → RankedRow naturals
row_of aid = record {
  article = aid;
  score = 1;
  strength = 1;
  confidence = 1;
  inference_strength = 1;
  inference_confidence = 1;
  baseline = 0;
  rules = [];
  proofs = [];
  revised_by_feedback = false;
  topic_prior = 0;
  format_prior = 0;
  subcategory_prior = 0;
  feedback_rule_ids = [];
  pairing = unpaired;
}

abbrev rows : List (RankedRow naturals)
rows = row_of (codes "a") ∷ row_of (codes "b") ∷ []

abbrev proof_map : Dict Text (List (Proof naturals))
proof_map = (2 ∷ [], proof_of 1 1 ∷ []) ∷ (1 ∷ [], []) ∷ []

covered : all_true (has_cases naturals proof_map) plan.comparisons ≡ true
unfolding all_true
covered = refl

pairwise_rank-returns_example :
    (ranked : List (RankedRow naturals)) × (pairwise_rank naturals no_margins
        (pair_rule ∷ [])
        rows
        (pairwise_plan naturals lab 10 (row_ids naturals rows) specs)
        (λ specs. ok proof_map)
      ≡ ok ranked)
pairwise_rank-returns_example =
    pairwise_rank-returns naturals no_margins (pair_rule ∷ []) rows lab 10 specs plan
      (λ specs. ok proof_map) proof_map planned refl covered
      (((codes "cluster" ∷ [], refl), tt), (tt, tt)) (omega arith)

-- A full cache refuses new proofs, but returns what it has.
abbrev full_cache : MarginCache naturals
full_cache = record {
  version = 1;
  limit = 1;
  margins = ((1 ∷ []) ∷ codes "old" ∷ [] ∷ [], []) ∷ [];
}

refused :
    proof_dependency_margins naturals full_cache (codes "new") (proof_of 1 1 ∷ [])
    ≡ err (runtime_error "pair margin cache limit exceeded; promote a fresh rule snapshot")
unfolding proof_dependency_margins get
refused = refl

returned :
    proof_dependency_margins naturals full_cache (codes "old") (proof_of 1 1 ∷ [])
    ≡ ok ([], full_cache)
unfolding proof_dependency_margins get
returned = refl
