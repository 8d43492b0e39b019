-- ===== src/Ranking/Matcher.antt =====
-- `_compile_pair_rule_matcher` and `_matching_pair_rule_premises`: the index from tokens to the rules
-- that contain them, and the rules that a pair's facts activate.
use symbolic_recommendation.Prelude.{
  ℕ, zero, suc, Bool, true, false, ◌&&◌, Option, none, some, List, [], ◌∷◌, ◌++◌, map, nat_eq,
  if◌then◌else◌, length, elem, ◌==◌, code_keys, place_keys, Result, ok, err, ◌>>=◌, index_error,
}
use symbolic_recommendation.Prelude.Dict.{Dict, get, put}
use symbolic_recommendation.Metta.{Text}
use symbolic_recommendation.Ranking.{Token, Premises, PairAttrs}

pub record Matcher : Type 0 where
  pub signature : List Premises
  pub inverted : Dict Token (List ℕ)
  pub required : List ℕ
  pub active_predicates : List Text

-- The equality of the signatures.
unfoldable pub same_premises : Premises → Premises → Bool
same_premises [] [] = true
same_premises [] (q ∷ qs) = false
same_premises (p ∷ ps) [] = false
same_premises (p ∷ ps) (q ∷ qs) = p == q && same_premises ps qs

unfoldable pub same_signature : List Premises → List Premises → Bool
same_signature [] [] = true
same_signature [] (s ∷ ss) = false
same_signature (r ∷ rs) [] = false
same_signature (r ∷ rs) (s ∷ ss) = same_premises r s && same_signature rs ss

-- inverted.get(token, ())
abbrev pub or_empty {ℓ} : {A : Type ℓ} → Option (List A) → List A
or_empty none = []
or_empty (some xs) = xs

unfoldable pub rules_of : Token → Dict Token (List ℕ) → List ℕ
rules_of token inverted = or_empty (get token inverted)

-- The tokens of the rule at an index.
unfoldable pub index_rule : ℕ → Premises → Dict Token (List ℕ) → Dict Token (List ℕ)
index_rule i [] inverted = inverted
index_rule i (token ∷ rule) inverted =
    index_rule i rule (put token (rules_of token inverted ++ i ∷ []) inverted)

unfoldable pub index_rules : ℕ → List Premises → Dict Token (List ℕ) → Dict Token (List ℕ)
index_rules i [] inverted = inverted
index_rules i (rule ∷ rules) inverted = index_rules (suc i) rules (index_rule i rule inverted)

-- active_predicates, in the order of their first occurrence
abbrev pub add_predicate : Text → List Text → List Text
add_predicate p predicates = if elem p predicates then predicates else predicates ++ p ∷ []

unfoldable pub rule_predicates : Premises → List Text → List Text
rule_predicates [] predicates = predicates
rule_predicates (token ∷ rule) predicates = rule_predicates rule (add_predicate token.0 predicates)

unfoldable pub predicates_of : List Premises → List Text → List Text
predicates_of [] predicates = predicates
predicates_of (rule ∷ rules) predicates = predicates_of rules (rule_predicates rule predicates)

-- PAIR_SIDE_PREDICATE_SWAP of the server.
abbrev pub pair_side_predicate_swap : Dict Text Text
pair_side_predicate_swap = []

abbrev pub add_companion : Option Text → List Text → List Text
add_companion none predicates = predicates
add_companion (some companion) predicates = add_predicate companion predicates

unfoldable pub add_companions : List Text → List Text → List Text
add_companions [] predicates = predicates
add_companions (p ∷ ps) predicates =
    add_companions ps (add_companion (get p pair_side_predicate_swap) predicates)

unfoldable pub build_matcher : List Premises → Matcher
build_matcher rules =
    let active = predicates_of rules [] in
    record {
      signature = rules;
      inverted = index_rules 0 rules [];
      required = map length rules;
      active_predicates = add_companions active active;
    }

-- `_compile_pair_rule_matcher`, from the matcher that the last call left.
unfoldable pub compile_pair_rule_matcher : List Premises → Option Matcher → Matcher
compile_pair_rule_matcher rules none = build_matcher rules
compile_pair_rule_matcher rules (some m) =
    if same_signature rules m.signature then m else build_matcher rules

-- match_counts[rule_index] += 1
unfoldable pub count_match : ℕ → List ℕ → Result (List ℕ)
count_match i [] = err (index_error "list index out of range")
count_match zero (c ∷ counts) = ok (suc c ∷ counts)
count_match (suc i) (c ∷ counts) = count_match i counts >>= λ rest. ok (c ∷ rest)

unfoldable pub count_matches : List ℕ → List ℕ → Result (List ℕ)
count_matches [] counts = ok counts
count_matches (i ∷ indices) counts = count_match i counts >>= λ next. count_matches indices next

unfoldable pub count_tokens : Dict Token (List ℕ) → PairAttrs → List ℕ → Result (List ℕ)
count_tokens inverted [] counts = ok counts
count_tokens inverted (token ∷ attrs) counts =
    count_matches (rules_of token inverted) counts >>= λ next. count_tokens inverted attrs next

unfoldable pub no_matches : List Premises → List ℕ
no_matches [] = []
no_matches (rule ∷ rules) = 0 ∷ no_matches rules

-- The rules whose count is the required one; the three lists are read at one index.
unfoldable pub activated : List Premises → List ℕ → List ℕ → Result (List Premises)
activated rules [] counts = ok []
activated rules (n ∷ required) [] = err (index_error "list index out of range")
activated [] (n ∷ required) (c ∷ counts) =
    if nat_eq c n
    then err (index_error "tuple index out of range")
    else activated [] required counts
activated (rule ∷ rules) (n ∷ required) (c ∷ counts) =
    activated rules required counts >>= λ rest. ok (if nat_eq c n then rule ∷ rest else rest)

-- `_matching_pair_rule_premises`
unfoldable pub matching_pair_rule_premises : Matcher → PairAttrs → Result (List Premises)
matching_pair_rule_premises m attrs =
    count_tokens m.inverted attrs (no_matches m.signature) >>= λ counts.
    activated m.signature m.required counts
