-- ===== src/Ranking/Counted.antt =====
-- What the index of the pair rules counts: a premise of a rule, once for each place where it stands.
use symbolic_recommendation.Prelude.{
  ℕ, zero, suc, ◌+◌, ◌≡◌, refl, sym, ◌∙◌, ap, List, [], ◌∷◌, ◌++◌, append_assoc, append-nil, arith,
  if◌then◌else◌, length, length-append, ◌==◌, place_keys, code_keys, Bool-cases, inl, inr, ok,
}
use symbolic_recommendation.Prelude.Dict.{Dict, get, put, get-put}
use symbolic_recommendation.Ranking.{Token, Premises, PairAttrs}
use symbolic_recommendation.Ranking.Matcher.{
  rules_of, index_rule, index_rules, count_match, count_matches, count_tokens,
}

-- How often a token is a premise of a rule.
unfoldable pub occurrences : Token → Premises → ℕ
occurrences token [] = 0
occurrences token (p ∷ rule) =
    let rest = occurrences token rule in if token == p then suc rest else rest

-- An index as often as a rule contains the token, before more indices.
unfoldable copies : ℕ → ℕ → List ℕ → List ℕ
copies zero i more = more
copies (suc n) i more = i ∷ copies n i more

unfoldable positions : ℕ → Token → List Premises → List ℕ
positions i token [] = []
positions i token (rule ∷ rules) = copies (occurrences token rule) i (positions (suc i) token rules)

rules_of-put :
    (token other : Token) (found : List ℕ) (d : Dict Token (List ℕ))
    → rules_of token (put other found d) ≡ (if token == other then found else rules_of token d)
unfolding rules_of
rules_of-put token other found d = elim (Bool-cases (token == other)) [
  | inl e ↦ rw (get-put other token found d, e) refl
  | inr e ↦ rw (get-put other token found d, e) refl
]

rules_of-index_rule :
    (token : Token) (i : ℕ) (rule : Premises) (d : Dict Token (List ℕ))
    → rules_of token (index_rule i rule d)
      ≡ rules_of token d ++ copies (occurrences token rule) i []
unfolding index_rule occurrences copies
rules_of-index_rule token i [] d = sym (append-nil (rules_of token d))
rules_of-index_rule token i (p ∷ rule) d = elim (Bool-cases (token == p)) [
  | inl same ↦
      rw
        (
          rules_of-index_rule token i rule (put p (rules_of p d ++ i ∷ []) d),
          rules_of-put token p (rules_of p d ++ i ∷ []) d,
          same,
          append_assoc (rules_of p d) (i ∷ []) (copies (occurrences token rule) i []),
        )
        (ap (λ q. rules_of q d ++ i ∷ copies (occurrences token rule) i [])
          (sym ((place_keys.beq_iff token p).0 same)))
  | inr other ↦
      rw
        (
          rules_of-index_rule token i rule (put p (rules_of p d ++ i ∷ []) d),
          rules_of-put token p (rules_of p d ++ i ∷ []) d,
          other,
        )
        refl
]

copies-append : (n i : ℕ) (xs ys : List ℕ) → copies n i xs ++ ys ≡ copies n i (xs ++ ys)
unfolding copies
copies-append zero i xs ys = refl
copies-append (suc n) i xs ys = ap (λ l. i ∷ l) (copies-append n i xs ys)

rules_of-index_rules :
    (token : Token) (i : ℕ) (rules : List Premises) (d : Dict Token (List ℕ))
    → rules_of token (index_rules i rules d) ≡ rules_of token d ++ positions i token rules
unfolding index_rules positions
rules_of-index_rules token i [] d = sym (append-nil (rules_of token d))
rules_of-index_rules token i (rule ∷ rules) d =
    rules_of-index_rules token (suc i) rules (index_rule i rule d)
    ∙ ap (λ l. l ++ positions (suc i) token rules) (rules_of-index_rule token i rule d)
    ∙ append_assoc (rules_of token d) (copies (occurrences token rule) i [])
        (positions (suc i) token rules)
    ∙ ap (λ l. rules_of token d ++ l)
        (copies-append (occurrences token rule) i [] (positions (suc i) token rules))

-- The counts after one token.
unfoldable add_counts : Token → List Premises → List ℕ → List ℕ
add_counts token [] counts = counts
add_counts token (rule ∷ rules) [] = []
add_counts token (rule ∷ rules) (c ∷ counts) =
    (occurrences token rule + c) ∷ add_counts token rules counts

count_match-here :
    (before : List ℕ) (c : ℕ) (counts : List ℕ)
    → count_match (length before) (before ++ c ∷ counts) ≡ ok (before ++ suc c ∷ counts)
unfolding count_match
count_match-here [] c counts = refl
count_match-here (b ∷ before) c counts = rw (count_match-here before c counts) refl

count_matches-copies :
    (n : ℕ) (before : List ℕ) (c : ℕ) (counts more : List ℕ)
    → count_matches (copies n (length before) more) (before ++ c ∷ counts)
      ≡ count_matches more (before ++ (n + c) ∷ counts)
unfolding count_matches copies
count_matches-copies zero before c counts more =
    ap (λ k. count_matches more (before ++ k ∷ counts)) {x = c} {y = 0 + c} (omega arith)
count_matches-copies (suc n) before c counts more = rw (count_match-here before c counts) (
    count_matches-copies n before (suc c) counts more
    ∙ ap (λ k. count_matches more (before ++ k ∷ counts)) {x = n + suc c} {y = suc n + c}
        (omega arith))

count_matches-positions :
    (token : Token) (before : List ℕ) (rules : List Premises) (counts : List ℕ)
    → length counts ≡ length rules
    → count_matches (positions (length before) token rules) (before ++ counts)
      ≡ ok (before ++ add_counts token rules counts)
unfolding count_matches positions add_counts
count_matches-positions token before [] counts h = refl
count_matches-positions token before (rule ∷ rules) [] h = absurd (omega (arith, h))
count_matches-positions token before (rule ∷ rules) (c ∷ counts) h =
    let n = occurrences token rule in
    let next = before ++ (n + c) ∷ [] in
    count_matches-copies n before c counts (positions (suc (length before)) token rules)
    ∙ ap (λ k. count_matches (positions k token rules) (before ++ (n + c) ∷ counts))
        {x = suc (length before)} {y = length next}
        (omega (arith, length-append before ((n + c) ∷ [])))
    ∙ ap (λ l. count_matches (positions (length next) token rules) l)
        (sym (append_assoc before ((n + c) ∷ []) counts))
    ∙ count_matches-positions token next rules counts (omega (arith, h))
    ∙ ap ok (append_assoc before ((n + c) ∷ []) (add_counts token rules counts))

-- The count of a rule after the tokens of a pair.
unfoldable pub total : PairAttrs → Premises → ℕ
total [] rule = 0
total (token ∷ attrs) rule = occurrences token rule + total attrs rule

unfoldable pub add_totals : PairAttrs → List Premises → List ℕ → List ℕ
add_totals attrs [] counts = counts
add_totals attrs (rule ∷ rules) [] = []
add_totals attrs (rule ∷ rules) (c ∷ counts) =
    (c + total attrs rule) ∷ add_totals attrs rules counts

length-add_counts :
    (token : Token) (rules : List Premises) (counts : List ℕ)
    → length counts ≡ length rules
    → length (add_counts token rules counts) ≡ length rules
unfolding add_counts
length-add_counts token [] counts h = h
length-add_counts token (rule ∷ rules) [] h = absurd (omega (arith, h))
length-add_counts token (rule ∷ rules) (c ∷ counts) h =
    omega (arith, length-add_counts token rules counts (omega (arith, h)))

add_totals-nil :
    (rules : List Premises) (counts : List ℕ)
    → length counts ≡ length rules
    → add_totals [] rules counts ≡ counts
unfolding add_totals total
add_totals-nil [] counts h = refl
add_totals-nil (rule ∷ rules) [] h = absurd (omega (arith, h))
add_totals-nil (rule ∷ rules) (c ∷ counts) h =
    ap (λ k. k ∷ add_totals [] rules counts) {x = c + 0} {y = c} (omega arith)
    ∙ ap (λ l. c ∷ l) (add_totals-nil rules counts (omega (arith, h)))

add_totals-cons :
    (token : Token) (attrs : PairAttrs) (rules : List Premises) (counts : List ℕ)
    → add_totals attrs rules (add_counts token rules counts)
      ≡ add_totals (token ∷ attrs) rules counts
unfolding add_totals add_counts total
add_totals-cons token attrs [] counts = refl
add_totals-cons token attrs (rule ∷ rules) [] = refl
add_totals-cons token attrs (rule ∷ rules) (c ∷ counts) =
    let n = occurrences token rule in
    ap (λ k. k ∷ add_totals attrs rules (add_counts token rules counts))
      {x = (n + c) + total attrs rule} {y = c + (n + total attrs rule)} (omega arith)
    ∙ ap (λ l. (c + (n + total attrs rule)) ∷ l) (add_totals-cons token attrs rules counts)

rules_of-all :
    (token : Token) (rules : List Premises)
    → rules_of token (index_rules 0 rules []) ≡ positions 0 token rules
unfolding rules_of get
rules_of-all token rules = rules_of-index_rules token 0 rules []

pub count_tokens-totals :
    (rules : List Premises) (attrs : PairAttrs) (counts : List ℕ)
    → length counts ≡ length rules
    → count_tokens (index_rules 0 rules []) attrs counts ≡ ok (add_totals attrs rules counts)
unfolding count_tokens
count_tokens-totals rules [] counts h = ap ok (sym (add_totals-nil rules counts h))
count_tokens-totals rules (token ∷ attrs) counts h =
    rw (rules_of-all token rules, count_matches-positions token [] rules counts h)
      (count_tokens-totals rules attrs (add_counts token rules counts)
          (length-add_counts token rules counts h)
        ∙ ap ok (add_totals-cons token attrs rules counts))
