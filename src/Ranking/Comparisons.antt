-- ===== src/Ranking/Comparisons.antt =====
-- What `_pair_features` of mining/lab_lifecycle.py compares, over the tables of app/server.py and
-- features/llm_workspace.py, and its helpers. `codes "..."` is a text of the source.
use symbolic_recommendation.Prelude.{
  ℕ, zero, suc, ◌+◌, ◌/◌, ◌%◌, Bool, true, Option, none, some, List, [], ◌∷◌, ◌++◌, map, ltb,
  if◌then◌else◌, keep_if, elem, ◌==◌, code_keys, codes, Result, ok, err, ◌>>=◌, key_error,
}
use symbolic_recommendation.Prelude.Dict.{Dict, put}
use symbolic_recommendation.Metta.{Text}
use symbolic_recommendation.Ranking.{PairAttrs}

-- A predicate with the feature of a candidate that it compares.
abbrev pub Comparison : Type 0
Comparison = Text × Text

-- PAIR_ORDERS
unfoldable pub pair_orders : Dict Text (List Text)
pair_orders =
    (codes "long_affinity", codes "none" ∷ codes "low" ∷ codes "medium" ∷ codes "high" ∷ [])
    ∷ (
      codes "subcategory_affinity",
      codes "none" ∷ codes "low" ∷ codes "medium" ∷ codes "high" ∷ [],
    )
    ∷ (
      codes "title_overlap_detail",
      codes "none" ∷ codes "one" ∷ codes "two" ∷ codes "three_plus" ∷ [],
    )
    ∷ []

-- PAIR_ORDERED_COMPARISONS
unfoldable pub pair_ordered_comparisons : List Comparison
pair_ordered_comparisons =
    (codes "pair_long_affinity", codes "long_affinity")
    ∷ (codes "pair_subcategory_affinity", codes "subcategory_affinity")
    ∷ (codes "pair_title_overlap", codes "title_overlap_detail")
    ∷ []

-- PAIR_DIRECT_NUMERIC_COMPARISONS
unfoldable pub pair_direct_numeric_comparisons : List Comparison
pair_direct_numeric_comparisons =
    (codes "pair_entity_recent_top1_similarity", codes "entity_recent_top1_similarity")
    ∷ (codes "pair_recent_subcategory_transition", codes "recent_subcategory_transition_score")
    ∷ (codes "pair_text_semantic_attention_t8", codes "text_semantic_attention_t8_similarity")
    ∷ []

-- LLM_NUMERIC_FEATURES
unfoldable pub llm_numeric_features : List Text
llm_numeric_features =
    codes "llm_concept_affinity"
    ∷ codes "llm_recent_concept_affinity"
    ∷ codes "llm_concept_peak_overlap"
    ∷ codes "llm_concept_novelty"
    ∷ codes "llm_format_affinity"
    ∷ codes "llm_event_affinity"
    ∷ codes "llm_intent_affinity"
    ∷ codes "llm_audience_affinity"
    ∷ []

-- PAIR_LLM_COMPARISONS
unfoldable pub pair_llm_comparisons : List Comparison
pair_llm_comparisons = map (λ name. (codes "pair_" ++ name, name)) llm_numeric_features

-- NUMERIC_PAIR_EVIDENCE, with the predicate first
unfoldable pub numeric_pair_evidence : List Comparison
numeric_pair_evidence =
    map (λ name. (codes "pair_" ++ name ++ codes "_quantile", name)) llm_numeric_features

-- The digits of a number before a text; the fuel n is enough for n, and 10 is above every digit.
unfoldable pub digits_from : ℕ → ℕ → Text → Text
digits_from zero n text = text
digits_from (suc fuel) n text =
    let more = digits_from fuel (n / 10) ((48 + n % 10) ∷ text) in
    if ltb n 10 then (48 + n) ∷ text else more

unfoldable pub decimal : ℕ → Text
decimal n = digits_from (suc n) n []

-- What `needed` asks for.
unfoldable pub wants : Option (List Text) → Text → Bool
wants none predicate = true
wants (some needed) predicate = elem predicate needed

-- `choose` of `_pair_feature_execution_plan`
unfoldable pub choose : Option (List Text) → List Comparison → List Comparison
choose needed = keep_if (λ c. wants needed c.0)

-- str(article.get(key, "unknown")), of the value that is there
unfoldable pub or_unknown : Option Text → Text
or_unknown none = codes "unknown"
or_unknown (some text) = text

-- {value: index for index, value in enumerate(order)}
unfoldable pub ranks_from : ℕ → List Text → Dict Text ℕ → Dict Text ℕ
ranks_from i [] ranks = ranks
ranks_from i (text ∷ order) ranks = ranks_from (suc i) order (put text i ranks)

unfoldable pub compare_ranks : Option ℕ → Option ℕ → Text
compare_ranks none none = codes "incomparable"
compare_ranks none (some r) = codes "right_known"
compare_ranks (some l) none = codes "left_known"
compare_ranks (some l) (some r) = if ltb r l then codes "left" else codes "right"

abbrev pub find_order : Option (List Text) → Result (List Text)
find_order none = err (key_error "order")
find_order (some order) = ok order

abbrev pub put_some : Text → Option Text → PairAttrs → PairAttrs
put_some predicate none attrs = attrs
put_some predicate (some value) attrs = put predicate value attrs

-- One of the loops.
unfoldable pub put_values :
    (Text → Result (Option Text)) → List Comparison → PairAttrs → Result PairAttrs
put_values value [] attrs = ok attrs
put_values value (c ∷ comparisons) attrs =
    value c.1 >>= λ v. put_values value comparisons (put_some c.0 v attrs)

abbrev pub put_wanted : Option (List Text) → Text → Text → PairAttrs → PairAttrs
put_wanted needed predicate value attrs =
    if wants needed predicate then put predicate value attrs else attrs

unfoldable pub same_or_different : Option Text → Option Text → Text
same_or_different l r = if or_unknown l == or_unknown r then codes "same" else codes "different"
