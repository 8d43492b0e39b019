-- ===== src/Ranking/Joined.antt =====
-- The compiled join of pair rules against a scan of every premise of every rule.
use symbolic_recommendation.Prelude.{
  ℕ, ◌+◌, ◌≤◌, ◌≡◌, refl, sym, ◌∙◌, ap, Bool, true, false, Option, none, some, List, [], ◌∷◌, map,
  arith, nat_eq, length, keep_if, count_if, all_true, elem, IsDistinct, beq_self, place_keys,
  code_keys, Bool-cases, inl, inr, ok,
}
use symbolic_recommendation.Prelude.Dict.{keys}
use symbolic_recommendation.Ranking.{Token, Premises, PairAttrs}
use symbolic_recommendation.Ranking.Matcher.{
  Matcher, same_premises, same_signature, build_matcher, compile_pair_rule_matcher, no_matches,
  activated, matching_pair_rule_premises,
}
use symbolic_recommendation.Ranking.Counted.{occurrences, total, add_totals, count_tokens-totals}

-- The premises of a rule that a pair's facts hold.
abbrev held : PairAttrs → Premises → ℕ
held attrs = count_if (λ p. elem p attrs)

held-cons :
    (token : Token) (attrs : PairAttrs) (rule : Premises)
    → elem token attrs ≡ false
    → held (token ∷ attrs) rule ≡ occurrences token rule + held attrs rule
unfolding count_if occurrences
held-cons token attrs [] h = omega arith
held-cons token attrs (p ∷ rule) h =
    ground
      (arith, held-cons token attrs rule h, place_keys.beq_iff token p, place_keys.beq_iff p token)

elem-keys :
    (token : Token) (attrs : PairAttrs)
    → elem token.0 (keys attrs) ≡ false
    → elem token attrs ≡ false
elem-keys token [] h = refl
elem-keys token (t ∷ attrs) h = ground (arith, elem-keys token attrs)

held-nil : (rule : Premises) → held [] rule ≡ 0
unfolding count_if
held-nil [] = refl
held-nil (p ∷ rule) = held-nil rule

total-held :
    (attrs : PairAttrs) (rule : Premises)
    → IsDistinct (keys attrs)
    → total attrs rule ≡ held attrs rule
unfolding total
total-held [] rule h = sym (held-nil rule)
total-held (token ∷ attrs) rule h =
    omega (arith, held-cons token attrs rule (elem-keys token attrs h.0), total-held attrs rule h.1)

count_if-le : (p : Token → Bool) (rule : Premises) → count_if p rule ≤ length rule
unfolding count_if
count_if-le p [] = omega arith
count_if-le p (t ∷ rule) = ground (arith, count_if-le p rule)

count_if-all :
    (p : Token → Bool) (rule : Premises) → nat_eq (count_if p rule) (length rule) ≡ all_true p rule
unfolding count_if all_true
count_if-all p [] = refl
count_if-all p (t ∷ rule) = ground (arith, count_if-all p rule, count_if-le p rule)

activated-totals :
    (rules : List Premises) (attrs : PairAttrs)
    → IsDistinct (keys attrs)
    → activated rules (map length rules) (add_totals attrs rules (no_matches rules))
      ≡ ok (keep_if (all_true (λ p. elem p attrs)) rules)
unfolding activated no_matches add_totals keep_if
activated-totals [] attrs h = refl
activated-totals (rule ∷ rules) attrs h =
    rw (activated-totals rules attrs h, total-held attrs rule h, test) refl
  where
    test : nat_eq (0 + held attrs rule) (length rule) ≡ all_true (λ p. elem p attrs) rule
    test =
        ap (λ n. nat_eq n (length rule)) {x = 0 + held attrs rule} (omega arith)
        ∙ count_if-all (λ p. elem p attrs) rule

length-no_matches : (rules : List Premises) → length (no_matches rules) ≡ length rules
unfolding no_matches
length-no_matches [] = refl
length-no_matches (rule ∷ rules) = omega (arith, length-no_matches rules)

pub same_premises_self : (r : Premises) → same_premises r r ≡ true
unfolding same_premises
same_premises_self [] = refl
same_premises_self (p ∷ rule) = ground (arith, beq_self p, same_premises_self rule)

pub same_signature_self : (rs : List Premises) → same_signature rs rs ≡ true
unfolding same_signature
same_signature_self [] = refl
same_signature_self (r ∷ rs) = ground (arith, same_premises_self r, same_signature_self rs)

same_premises_sound : (r s : Premises) → same_premises r s ≡ true → r ≡ s
unfolding same_premises
same_premises_sound [] [] h = refl
same_premises_sound [] (q ∷ qs) h = cc
same_premises_sound (p ∷ ps) [] h = cc
same_premises_sound (p ∷ ps) (q ∷ qs) h =
    ground (arith, place_keys.beq_iff p q, same_premises_sound ps qs)

pub same_signature_sound : (rs ss : List Premises) → same_signature rs ss ≡ true → rs ≡ ss
unfolding same_signature
same_signature_sound [] [] h = refl
same_signature_sound [] (s ∷ ss) h = cc
same_signature_sound (r ∷ rs) [] h = cc
same_signature_sound (r ∷ rs) (s ∷ ss) h =
    ground (arith, same_premises_sound r s, same_signature_sound rs ss)

-- What earlier calls leave: nothing, or the matcher of some rules.
abbrev pub IsCompiled : Option Matcher → Type 0
IsCompiled none = Unit
IsCompiled (some m) = m ≡ build_matcher m.signature

pub compile_pair_rule_matcher-IsCompiled :
    (rules : List Premises) (last : Option Matcher)
    → IsCompiled last
    → compile_pair_rule_matcher rules last ≡ build_matcher rules
unfolding compile_pair_rule_matcher
compile_pair_rule_matcher-IsCompiled rules none h = refl
compile_pair_rule_matcher-IsCompiled rules (some m) h =
    elim (Bool-cases (same_signature rules m.signature)) [
      | inl same ↦
          rw same (h ∙ ap build_matcher (sym (same_signature_sound rules m.signature same)))
      | inr other ↦ rw other refl
    ]

-- From a matcher of any earlier rules, and for facts with each predicate once, as a dict has them: the
-- compiled join raises nothing and returns, in the order of the rules and as often as it occurs, the
-- premises of every rule all of whose premises are among the facts, and no others. A premise that a
-- rule repeats counts as often as it stands there.
pub matching_premises-scan :
    (rules : List Premises) (last : Option Matcher) (attrs : PairAttrs)
    → IsCompiled last
    → IsDistinct (keys attrs)
    → matching_pair_rule_premises (compile_pair_rule_matcher rules last) attrs
      ≡ ok (keep_if (all_true (λ p. elem p attrs)) rules)
unfolding matching_pair_rule_premises build_matcher
matching_premises-scan rules last attrs compiled h =
    rw
      (
        compile_pair_rule_matcher-IsCompiled rules last compiled,
        count_tokens-totals rules attrs (no_matches rules) (length-no_matches rules),
      )
      (activated-totals rules attrs h)
