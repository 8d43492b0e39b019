-- ===== src/Metta/Tests.antt =====
-- Runs of the scanners on short texts, and the theorems at such texts.
use symbolic_recommendation.Prelude.{
  ℕ, ◌≡◌, refl, Bool, false, ◌||◌, ◌&&◌, [], ◌∷◌, ◌++◌, codes, leb, nat_eq, ok, err, value_error,
  all_true, elem, code_keys, true,
}
use symbolic_recommendation.Metta.{
  closed, is_space, lstrip, strip, advance, scan, start, single_expression_of, single_expression,
  forms_from, balanced_forms,
}
use symbolic_recommendation.Metta.Nesting.{inside, after_text}
use symbolic_recommendation.Metta.Facts.{fact_stays_inside}
use symbolic_recommendation.Metta.Forms.{
  AllFormsOf, balanced_forms-AllFormsOf, balanced_forms-finds, no_paren,
}

-- The ASCII part of `\w`.
abbrev ascii_word : ℕ → Bool
ascii_word c =
    (leb b'0' c && leb c b'9')
    || (leb b'A' c && leb c b'Z')
    || (leb b'a' c && leb c b'z')
    || nat_eq c b'_'

accepts : single_expression (codes " (topic c1 \"a ) b\") ") ≡ ok (codes "(topic c1 \"a ) b\")")
unfolding single_expression single_expression_of strip lstrip is_space advance scan
accepts = refl

refuses_two :
    single_expression (codes "(a) (b)")
    ≡ err (value_error "case fact must contain exactly one MeTTa expression")
unfolding single_expression single_expression_of strip lstrip is_space advance scan
refuses_two = refl

refuses_open :
    single_expression (codes "(a \"b)")
    ≡ err (value_error "case fact has an unterminated string or expression")
unfolding single_expression single_expression_of strip lstrip is_space advance scan
refuses_open = refl

accepts_of : single_expression_of false (codes "(a \")\")") ≡ ok (codes "(a \")\")")
unfolding single_expression_of strip lstrip is_space advance scan
accepts_of = refl

fact_stays_inside_example :
    scan (inside 1) (codes "(a \")\")" ++ codes ")")
    ≡ after_text (codes "(a \")\")") (scan (inside 1) (codes ")"))
fact_stays_inside_example =
    fact_stays_inside false (codes "(a \")\")") (codes "(a \")\")") accepts_of 0 (codes ")")

two_forms :
    balanced_forms ascii_word
      (codes "x (supportOf (a) 3) (supportOfx) (supportOf b)")
      (codes "supportOf")
    ≡ codes "(supportOf (a) 3)" ∷ codes "(supportOf b)" ∷ []
unfolding balanced_forms forms_from scan advance
two_forms = refl

balanced_forms-AllFormsOf_example :
    AllFormsOf
      (codes "x (supportOf (a) 3)")
      (balanced_forms ascii_word (codes "x (supportOf (a) 3)") (codes "supportOf"))
balanced_forms-AllFormsOf_example =
    balanced_forms-AllFormsOf ascii_word (codes "x (supportOf (a) 3)") (codes "supportOf")

plain_head : all_true no_paren (codes "supportOf") ≡ true
unfolding all_true
plain_head = refl

whole_form : scan start (codes "(supportOf b)") ≡ closed (codes "(supportOf b)") []
unfolding scan advance
whole_form = refl

balanced_forms-finds_example :
    elem (codes "(supportOf b)") (
      balanced_forms ascii_word
        (codes "x (supportOf (a) 3) " ++ (codes "(supportOf b)" ++ codes " y"))
        (codes "supportOf"))
    ≡ true
balanced_forms-finds_example =
    balanced_forms-finds ascii_word (codes "supportOf") (codes "x (supportOf (a) 3) ")
      (codes "(supportOf b)") (codes " y") plain_head whole_form refl
