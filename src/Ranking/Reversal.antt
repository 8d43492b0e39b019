-- ===== src/Ranking/Reversal.antt =====
-- `_reverse_pair_features`: the facts of a pair turned round, without a second look at the candidates.
use symbolic_recommendation.Prelude.{
  Option, none, some, List, [], ◌∷◌, ◌++◌, if◌then◌else◌, drop, elem, ◌==◌, code_keys, codes,
}
use symbolic_recommendation.Prelude.Dict.{get, put}
use symbolic_recommendation.Metta.{Text, starts_with}
use symbolic_recommendation.Ranking.{PairAttrs}
use symbolic_recommendation.Ranking.Matcher.{pair_side_predicate_swap}

-- PAIR_CATEGORICAL_SIDE_PREDICATES of the server.
abbrev pub pair_categorical_side_predicates : List Text
pair_categorical_side_predicates = []

-- The value of a directional predicate.
unfoldable pub reverse_value : Text → Text
reverse_value value =
    if value == codes "left"
    then codes "right"
    else if value == codes "right"
    then codes "left"
    else if value == codes "left_known"
    then codes "right_known"
    else if value == codes "right_known"
    then codes "left_known"
    else if starts_with (codes "left_q") value
    then codes "right_" ++ drop 5 value
    else if starts_with (codes "right_q") value
    then codes "left_" ++ drop 6 value
    else value

abbrev pub or_same : Text → Option Text → Text
or_same predicate none = predicate
or_same predicate (some other) = other

abbrev pub reverse_predicate : Text → Text
reverse_predicate predicate = or_same predicate (get predicate pair_side_predicate_swap)

abbrev pub reversed_value : Text → Text → Text
reversed_value predicate value =
    if elem predicate pair_categorical_side_predicates then value else reverse_value value

unfoldable pub reverse_from : PairAttrs → PairAttrs → PairAttrs
reverse_from [] reversed = reversed
reverse_from (token ∷ attrs) reversed =
    reverse_from attrs (put (reverse_predicate token.0) (reversed_value token.0 token.1) reversed)

unfoldable pub reverse_pair_features : PairAttrs → PairAttrs
reverse_pair_features attrs = reverse_from attrs []
