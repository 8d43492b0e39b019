-- ===== src/Ranking/Oriented.antt =====
-- `_pair_spec` and `_oriented_pair_specs`: the case of a pair, for one orientation from its facts, and
-- for both from one comparison with a memo of the cases. The BLAKE2s digest of an activation is a
-- parameter; the times that the profile holds are left out.
use symbolic_recommendation.Prelude.{
  ◌≡◌, subst, true, Option, none, some, List, Result, ok, ◌>>=◌, Eq,
}
use symbolic_recommendation.Prelude.Dict.{Dict, get, put}
use symbolic_recommendation.Metta.{Text}
use symbolic_recommendation.Quantiles.{Floats}
use symbolic_recommendation.Ranking.{Premises, PairAttrs}
use symbolic_recommendation.Ranking.Matcher.{
  Matcher, same_signature, compile_pair_rule_matcher, matching_pair_rule_premises,
}
use symbolic_recommendation.Ranking.Joined.{same_signature_sound, same_signature_self}
use symbolic_recommendation.Ranking.Features.{
  Candidate, Encoders, pair_features, bounded_pair_features,
}
use symbolic_recommendation.Ranking.Reversal.{reverse_pair_features}

-- The premises of the rules that a pair activates.
abbrev pub Activation : Type 0
Activation = List Premises

instance abbrev pub activation_keys : Eq Activation
activation_keys = record {
  beq = same_signature;
  beq_iff = λ r s. (
    same_signature_sound r s,
    λ e. subst (λ t. same_signature r t ≡ true) e (same_signature_self r),
  );
}

-- A case with its bounded facts.
abbrev pub Spec : Type 0
Spec = Text × PairAttrs

abbrev pub CaseCache : Type 0
CaseCache = Dict Activation Text

-- The laboratory, as far as pairs read it, with the digest of an activation.
pub record Lab (fl : Floats) : Type 0 where
  pub pair_rules : List Premises
  pub matcher : Option Matcher
  pub encoders : Encoders fl
  pub vocabulary : Dict Text (List Text)
  pub pair_candidate_case : Activation → Text

-- The places of `_oriented_pair_specs`.
pub record Oriented : Type 0 where
  pub forward : Spec
  pub reverse : Spec
  pub cache : CaseCache

-- `activation_case`, with the memo after it.
abbrev pub case_or : Option Text → (Activation → Text) → Activation → CaseCache → Text × CaseCache
case_or (some case) digest activation cache = (case, cache)
case_or none digest activation cache = (digest activation, put activation (digest activation) cache)

unfoldable pub activation_case : (Activation → Text) → Activation → CaseCache → Text × CaseCache
activation_case digest activation cache = case_or (get activation cache) digest activation cache

module _ (fl : Floats) where
  -- The compiled matcher of the laboratory.
  unfoldable pub compiled : Lab fl → Matcher
  compiled lab = compile_pair_rule_matcher lab.pair_rules lab.matcher

  -- `_pair_spec`
  unfoldable pub pair_spec : Lab fl → Candidate fl → Candidate fl → Result Spec
  pair_spec lab left right =
      let m = compiled lab in
      pair_features fl lab.encoders (some m.active_predicates) left right >>= λ raw.
      matching_pair_rule_premises m (bounded_pair_features lab.vocabulary raw) >>= λ activation.
      ok (lab.pair_candidate_case activation, bounded_pair_features lab.vocabulary raw)

  abbrev pub cached_specs :
      (Activation → Text) → PairAttrs → PairAttrs → Activation → Activation → CaseCache → Oriented
  cached_specs digest forward reverse forward_activation reverse_activation cache =
      let first = activation_case digest forward_activation cache in
      let second = activation_case digest reverse_activation first.1 in
      record { forward = (first.0, forward); reverse = (second.0, reverse); cache = second.1 }

  -- `_oriented_pair_specs`, with the matcher that the last compilation left.
  unfoldable pub oriented_pair_specs :
      Lab fl → Matcher → Candidate fl → Candidate fl → CaseCache → Result Oriented
  oriented_pair_specs lab m left right cache =
      pair_features fl lab.encoders (some m.active_predicates) left right >>= λ raw.
      let forward = bounded_pair_features lab.vocabulary raw in
      let reverse = bounded_pair_features lab.vocabulary (reverse_pair_features raw) in
      matching_pair_rule_premises m forward >>= λ forward_activation.
      matching_pair_rule_premises m reverse >>= λ reverse_activation. ok (
        cached_specs lab.pair_candidate_case forward reverse forward_activation reverse_activation
          cache)
