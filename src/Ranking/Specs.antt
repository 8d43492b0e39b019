-- ===== src/Ranking/Specs.antt =====
-- Both orientations from one comparison against one orientation at a time.
use symbolic_recommendation.Prelude.{
  ◌≡◌, refl, sym, ◌∙◌, some, [], elem, keep_if, all_true, ◌==◌, Bool-cases, Option-cases,
  Result-cases, inl, inr, Result, ok, ok-injective, subst, ◌>>=◌, place_keys,
}
use symbolic_recommendation.Prelude.Dict.{get, put, get-put}
use symbolic_recommendation.Metta.{Text}
use symbolic_recommendation.Quantiles.{Floats}
use symbolic_recommendation.Quantiles.Laws.{FloatLaws}
use symbolic_recommendation.Ranking.{PairAttrs}
use symbolic_recommendation.Ranking.Matcher.{matching_pair_rule_premises}
use symbolic_recommendation.Ranking.Joined.{IsCompiled, matching_premises-scan}
use symbolic_recommendation.Ranking.Features.{Candidate, pair_features, bounded_pair_features}
use symbolic_recommendation.Ranking.Reversal.{reverse_pair_features}
use symbolic_recommendation.Ranking.Turning.{bounded-IsDistinct}
use symbolic_recommendation.Ranking.Antisymmetry.{IsFitted}
use symbolic_recommendation.Ranking.Reversed.{IsNeutral, pair_features-swap}
use symbolic_recommendation.Ranking.Oriented.{
  Activation, activation_keys, Spec, CaseCache, Lab, Oriented, activation_case, compiled, pair_spec,
  cached_specs, oriented_pair_specs,
}

-- Every case of the memo is the digest of its activation.
abbrev pub IsHonest : (Activation → Text) → CaseCache → Type 0
IsHonest digest cache = (a : Activation) (case : Text) → get a cache ≡ some case → case ≡ digest a

pub empty-IsHonest : (digest : Activation → Text) → IsHonest digest []
unfolding get
empty-IsHonest digest a case e = cc e

put-IsHonest :
    (digest : Activation → Text) (a : Activation) (cache : CaseCache)
    → IsHonest digest cache
    → IsHonest digest (put a (digest a) cache)
put-IsHonest digest a cache h b case e = elim (Bool-cases (b == a)) [
  | inl same ↦ cc (get-put a b (digest a) cache, same, (activation_keys.beq_iff b a).0 same, e)
  | inr other ↦ h b case (sym (get-put a b (digest a) cache ∙ rw other refl) ∙ e)
]

activation_case-IsHonest :
    (digest : Activation → Text) (a : Activation) (cache : CaseCache)
    → IsHonest digest cache
    → ((activation_case digest a cache).0 ≡ digest a)
      × IsHonest digest (activation_case digest a cache).1
unfolding activation_case
activation_case-IsHonest digest a cache h = elim (Option-cases (get a cache)) [
  | inl new ↦ rw new (refl, put-IsHonest digest a cache h)
  | inr (case, found) ↦ rw found (h a case found, h)
]

-- The two specs of a pair, each from its own facts.
abbrev pub both_specs : Result Spec → Result Spec → Result (Spec × Spec)
both_specs forward reverse = forward >>= λ f. reverse >>= λ r. ok (f, r)

module _ (fl : Floats) where
  -- The specs that the optimized constructor returns.
  abbrev pub specs_of : Result Oriented → Result (Spec × Spec)
  specs_of oriented = oriented >>= λ o. ok (o.forward, o.reverse)

  abbrev pub KeepsHonest : (Activation → Text) → Result Oriented → Type 0
  KeepsHonest digest oriented = (o : Oriented) → oriented ≡ ok o → IsHonest digest o.cache

  -- The rest of `_pair_spec` from the facts.
  abbrev spec_from : Lab fl → PairAttrs → Result Spec
  spec_from lab raw =
      matching_pair_rule_premises (compiled fl lab) (bounded_pair_features lab.vocabulary raw)
      >>= λ activation.
          ok (lab.pair_candidate_case activation, bounded_pair_features lab.vocabulary raw)

  -- The activation by a scan.
  abbrev scanned : Lab fl → PairAttrs → Activation
  scanned lab raw =
      keep_if (all_true (λ p. elem p (bounded_pair_features lab.vocabulary raw))) lab.pair_rules

  activation-scan :
      (lab : Lab fl) (raw : PairAttrs)
      → IsCompiled lab.matcher
      → matching_pair_rule_premises (compiled fl lab) (bounded_pair_features lab.vocabulary raw)
        ≡ ok (scanned lab raw)
  unfolding compiled
  activation-scan lab raw h =
      matching_premises-scan lab.pair_rules lab.matcher (bounded_pair_features lab.vocabulary raw) h
        (bounded-IsDistinct lab.vocabulary raw)

  -- The rest of `_oriented_pair_specs` from the facts.
  abbrev oriented_from : Lab fl → PairAttrs → CaseCache → Result Oriented
  oriented_from lab raw cache =
      let forward = bounded_pair_features lab.vocabulary raw in
      let reverse = bounded_pair_features lab.vocabulary (reverse_pair_features raw) in
      matching_pair_rule_premises (compiled fl lab) forward >>= λ forward_activation.
      matching_pair_rule_premises (compiled fl lab) reverse >>= λ reverse_activation. ok (
        cached_specs fl lab.pair_candidate_case forward reverse forward_activation
          reverse_activation cache)

  oriented_from-both :
      (lab : Lab fl) (raw : PairAttrs) (cache : CaseCache)
      → IsCompiled lab.matcher
      → IsHonest lab.pair_candidate_case cache
      → (specs_of (oriented_from lab raw cache)
          ≡ both_specs (spec_from lab raw) (spec_from lab (reverse_pair_features raw)))
        × KeepsHonest lab.pair_candidate_case (oriented_from lab raw cache)
  oriented_from-both lab raw cache h honest =
      let back = reverse_pair_features raw in
      let digest = lab.pair_candidate_case in
      let first = activation_case digest (scanned lab raw) cache in
      let (same, honest') = activation_case-IsHonest digest (scanned lab raw) cache honest in
      let (same', honest'') = activation_case-IsHonest digest (scanned lab back) first.1 honest' in
      rw (activation-scan lab raw h, activation-scan lab back h)
        (
          rw (same, same') refl,
          λ o e. subst (λ r. IsHonest digest r.cache) (ok-injective e) honest'',
        )

module _ (fl : Floats) (laws : FloatLaws fl) where
  -- For a laboratory whose encoders have passed their checks and whose last matcher is that of some
  -- rules, a left candidate whose history scope is no direction, and a memo that holds digests only:
  -- `_oriented_pair_specs`, which compares the candidates once, joins through the compiled index and
  -- digests through the memo, returns what two calls of `_pair_spec` return, one for each orientation,
  -- and raises where the first of them raises; the memo still holds digests only.
  pub oriented_specs-both :
      (lab : Lab fl) (left right : Candidate fl) (cache : CaseCache)
      → IsFitted fl lab.encoders
      → IsCompiled lab.matcher
      → IsNeutral left
      → IsHonest lab.pair_candidate_case cache
      → (specs_of fl (oriented_pair_specs fl lab (compiled fl lab) left right cache)
          ≡ both_specs (pair_spec fl lab left right) (pair_spec fl lab right left))
        × KeepsHonest fl lab.pair_candidate_case
            (oriented_pair_specs fl lab (compiled fl lab) left right cache)
  unfolding oriented_pair_specs pair_spec
  oriented_specs-both lab left right cache fitted h neutral honest =
      let needed = some (compiled fl lab).active_predicates in
      rw (pair_features-swap fl laws lab.encoders needed left right fitted neutral)
        (elim (Result-cases (pair_features fl lab.encoders needed left right)) [
          | inl (raw, found) ↦ rw found (oriented_from-both fl lab raw cache h honest)
          | inr (e, raised) ↦ rw raised (refl, λ o r. cc r)
        ])
