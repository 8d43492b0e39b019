-- ===== src/Ranking/Features.antt =====
-- `_pair_features` and `_bounded_pair_features` of mining/lab_lifecycle.py.
use symbolic_recommendation.Prelude.{
  Bool, true, not, ◌||◌, Option, none, some, List, [], ◌∷◌, ◌++◌, if◌then◌else◌, is_empty, elem,
  ◌==◌, code_keys, codes, Result, ok, err, ◌>>=◌, overflow_error, is_some,
}
use symbolic_recommendation.Prelude.Dict.{Dict, get, put, has}
use symbolic_recommendation.Metta.{Text}
use symbolic_recommendation.Quantiles.{Floats}
use symbolic_recommendation.Quantiles.Encoder.{
  Raw, missing, flag as raw_flag, reads, Encoder, PairLabel, unknown_pair, left_known, right_known,
  equal, left_bucket, right_bucket, encode_pair,
}
use symbolic_recommendation.Ranking.{PairAttrs}
use symbolic_recommendation.Ranking.Comparisons.{
  pair_orders, pair_ordered_comparisons, pair_direct_numeric_comparisons, pair_llm_comparisons,
  numeric_pair_evidence, decimal, choose, or_unknown, ranks_from, compare_ranks, find_order,
  put_values, put_wanted, same_or_different,
}

module _ (fl : Floats) where
  -- A value of a candidate's facts. A number has its `str`; an `int` that no float holds is `huge`.
  pub data Value : Type 0 where
    nothing : Value
    flag : Bool → Value
    word : Text → Value
    number : fl.F → Text → Value
    huge : Text → Value

  -- The facts of a candidate and of its article that pairs compare; `scope` is the fact
  -- `history_size_bucket`.
  pub record Candidate : Type 0 where
    pub attrs : Dict Text Value
    pub scope : Option Text
    pub topic : Option Text
    pub subcategory : Option Text

  abbrev pub Encoders : Type 0
  Encoders = Dict Text (Encoder fl)

  abbrev pub value_of : Option Value → Value
  value_of none = nothing
  value_of (some v) = v

  -- attrs.get(source)
  unfoldable pub fact : Text → Candidate → Value
  fact source c = value_of (get source c.attrs)

  -- str(value or "unknown")
  unfoldable pub shown : Value → Text
  shown nothing = codes "unknown"
  shown (flag b) = if b then codes "True" else codes "unknown"
  shown (word text) = if is_empty text then codes "unknown" else text
  shown (number x text) = if fl.eq x fl.zero_ then codes "unknown" else text
  shown (huge text) = text

  -- `_relative_value`
  unfoldable pub relative_value : Value → Value → List Text → Text
  relative_value left right order =
      let ranks = ranks_from 0 order [] in
      if shown left == shown right
      then codes "equal"
      else compare_ranks (get (shown left) ranks) (get (shown right) ranks)

  abbrev pub if_finite : fl.F → Option fl.F
  if_finite x = if fl.is_finite x then some x else none

  abbrev pub finite_of : Option fl.F → Option fl.F
  finite_of none = none
  finite_of (some x) = if_finite x

  -- `finite` of `_relative_numeric_value`, which lets an OverflowError pass.
  unfoldable pub finite : Value → Result (Option fl.F)
  finite nothing = ok none
  finite (flag b) = ok (if_finite (if b then fl.one_ else fl.zero_))
  finite (word text) = ok (finite_of (fl.parse text))
  finite (number x text) = ok (if_finite x)
  finite (huge text) = err (overflow_error "int too large to convert to float")

  unfoldable pub compare_numbers : Option fl.F → Option fl.F → Text
  compare_numbers none none = codes "unknown"
  compare_numbers none (some r) = codes "right_known"
  compare_numbers (some l) none = codes "left_known"
  compare_numbers (some l) (some r) =
      if fl.is_close (fl.literal 1 12) (fl.literal 1 12) l r
      then codes "equal"
      else if fl.lt r l
      then codes "left"
      else codes "right"

  -- `_relative_numeric_value`
  unfoldable pub relative_numeric_value : Value → Value → Result Text
  relative_numeric_value left right =
      finite left >>= λ l. finite right >>= λ r. ok (compare_numbers l r)

  -- `_numeric_missing`
  unfoldable pub numeric_missing : Value → Bool
  numeric_missing nothing = true
  numeric_missing (flag b) = true
  numeric_missing (word text) = not (is_some (finite_of (fl.parse text)))
  numeric_missing (number x text) = not (fl.is_finite x)
  numeric_missing (huge text) = true

  -- The argument of an encoder.
  unfoldable pub raw_of : Value → Raw fl
  raw_of nothing = missing
  raw_of (flag b) = raw_flag
  raw_of (word text) = reads (fl.parse text)
  raw_of (number x text) = reads (some x)
  raw_of (huge text) = reads none

  -- The text of an encoder's symbol.
  unfoldable pub label_text : PairLabel fl → Text
  label_text unknown_pair = codes "unknown"
  label_text left_known = codes "left_known"
  label_text right_known = codes "right_known"
  label_text equal = codes "equal"
  label_text (left_bucket n) = codes "left_q" ++ decimal n
  label_text (right_bucket n) = codes "right_q" ++ decimal n

  -- The bodies of the loops: the value of a predicate, where there is one.
  unfoldable pub ordered_value : Candidate → Candidate → Text → Result (Option Text)
  ordered_value left right source =
      if has source left.attrs || has source right.attrs
      then (find_order (get source pair_orders) >>= λ order.
          ok (some (relative_value (fact source left) (fact source right) order)))
      else ok none

  unfoldable pub direct_value : Candidate → Candidate → Text → Result (Option Text)
  direct_value left right source =
      relative_numeric_value (fact source left) (fact source right) >>= λ t. ok (some t)

  unfoldable pub llm_value : Candidate → Candidate → Text → Result (Option Text)
  llm_value left right source =
      if numeric_missing (fact source left) || numeric_missing (fact source right)
      then ok (some (codes "incomparable"))
      else direct_value left right source

  abbrev pub encoded : Option (Encoder fl) → Value → Value → Option Text
  encoded none left right = none
  encoded (some e) left right = some (label_text (encode_pair fl e (raw_of left) (raw_of right)))

  unfoldable pub quantile_value : Encoders → Candidate → Candidate → Text → Result (Option Text)
  quantile_value encoders left right source =
      if numeric_missing (fact source left) || numeric_missing (fact source right)
      then ok (some (codes "incomparable"))
      else ok (encoded (get source encoders) (fact source left) (fact source right))

  unfoldable pub scope_value : Candidate → Candidate → Text
  scope_value left right =
      if or_unknown left.scope == or_unknown right.scope
      then or_unknown left.scope
      else codes "unknown"

  unfoldable pub put_same : Option (List Text) → Candidate → Candidate → PairAttrs → PairAttrs
  put_same needed left right attrs =
      put_wanted needed (codes "pair_same_subcategory")
        (same_or_different left.subcategory right.subcategory)
        (put_wanted needed (codes "pair_same_topic") (same_or_different left.topic right.topic)
          attrs)

  -- `_pair_features`
  unfoldable pub pair_features :
      Encoders → Option (List Text) → Candidate → Candidate → Result PairAttrs
  pair_features encoders needed left right =
      let shared = put_wanted needed (codes "pair_history_scope") (scope_value left right) [] in
      put_values (ordered_value left right) (choose needed pair_ordered_comparisons) shared >>= λ a.
      put_values (direct_value left right) (choose needed pair_direct_numeric_comparisons) a
      >>= λ b. put_values (llm_value left right) (choose needed pair_llm_comparisons) b >>= λ c.
          put_values (quantile_value encoders left right) (choose needed numeric_pair_evidence) c
          >>= λ d. ok (put_same needed left right d)

-- The value as the vocabulary bounds it.
abbrev pub bound_value : List Text → Text → Text
bound_value allowed value = if elem value allowed then value else codes "other"

abbrev pub put_bounded : Option (List Text) → Text → Text → PairAttrs → PairAttrs
put_bounded none predicate value bounded = bounded
put_bounded (some []) predicate value bounded = bounded
put_bounded (some (a ∷ allowed)) predicate value bounded =
    put predicate (bound_value (a ∷ allowed) value) bounded

unfoldable pub bound_from : Dict Text (List Text) → PairAttrs → PairAttrs → PairAttrs
bound_from vocabulary [] bounded = bounded
bound_from vocabulary (token ∷ attrs) bounded =
    bound_from vocabulary attrs (put_bounded (get token.0 vocabulary) token.0 token.1 bounded)

-- `_bounded_pair_features`, with the vocabulary
unfoldable pub bounded_pair_features : Dict Text (List Text) → PairAttrs → PairAttrs
bounded_pair_features vocabulary attrs = bound_from vocabulary attrs []
