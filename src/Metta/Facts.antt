-- ===== src/Metta/Facts.antt =====
-- An accepted fact cannot leave the expression that it is put into.
use symbolic_recommendation.Prelude.{
  ℕ, suc, String, text_keys, ◌==◌, ◌+◌, ◌-◌, ◌≡◌, ◌≢◌, refl, ap, sym, subst, ◌∙◌, inl, inr, Bool,
  true, false, ◌&&◌, [], ◌∷◌, ◌++◌, arith, nat_eq, Bool-cases, Result, ok, err, value_error,
  append_assoc, is_empty, all_true, reverse, reverse-append, reverse-reverse,
}
use symbolic_recommendation.Metta.{
  Text, Scan, Found, on, closed, unbalanced, unfinished, found_after, underflow, advance, scan,
  start, starts_with, strip, lstrip, is_space, check_found, single_expression_of,
}
use symbolic_recommendation.Metta.Nesting.{
  inside, after_text, close_paren-tests, Advance-cases, scan-split, scan-deeper, scan-spaces,
}

all_true-append :
    (xs ys : Text) → all_true is_space (xs ++ ys) ≡ (all_true is_space xs && all_true is_space ys)
unfolding all_true
all_true-append [] ys = refl
all_true-append (x ∷ xs) ys = ground (arith, all_true-append xs ys)

all_true-reverse : (xs : Text) → all_true is_space (reverse xs) ≡ all_true is_space xs
unfolding all_true
all_true-reverse [] = refl
all_true-reverse (x ∷ xs) =
    ap (all_true is_space) (reverse-append (x ∷ []) xs)
    ∙ all_true-append (reverse xs) (x ∷ [])
    ∙ ground (arith, all_true-reverse xs)

lstrip-nil : (xs : Text) → lstrip xs ≡ [] → all_true is_space xs ≡ true
unfolding lstrip all_true
lstrip-nil [] h = refl
lstrip-nil (x ∷ xs) h = ground (arith, lstrip-nil xs)

lstrip-spaces : (xs : Text) → all_true is_space (lstrip xs) ≡ true → all_true is_space xs ≡ true
unfolding lstrip all_true
lstrip-spaces [] h = refl
lstrip-spaces (x ∷ xs) h = ground (arith, lstrip-spaces xs)

reverse-nil : (xs : Text) → is_empty (reverse xs) ≡ true → xs ≡ []
reverse-nil xs h = sym (reverse-reverse xs) ∙ ap reverse (is_empty-nil (reverse xs) h)
  where
    is_empty-nil : (ys : Text) → is_empty ys ≡ true → ys ≡ []
    is_empty-nil [] e = refl
    is_empty-nil (y ∷ ys) e = cc

-- What strips to nothing is white space.
strip-empty : (xs : Text) → is_empty (strip xs) ≡ true → all_true is_space xs ≡ true
unfolding strip
strip-empty xs h = lstrip-spaces xs (
    sym (all_true-reverse (lstrip xs))
    ∙ lstrip-nil (reverse (lstrip xs)) (reverse-nil (lstrip (reverse (lstrip xs))) h))

check_found-ok :
    (value : Text) (f : Found) {v : Text}
    → check_found value f ≡ ok v
    → (form : Text) × (rest : Text) × (f ≡ closed form rest)
      × (all_true is_space rest ≡ true)
      × (v ≡ value)
check_found-ok value (closed form rest) h =
    (form, rest, refl, strip-empty rest (ground arith), ground arith)
check_found-ok value unbalanced h = cc
check_found-ok value unfinished h = cc

-- An accepted fact is an expression and white space.
abbrev Accepted : Text → Type 0
Accepted v =
    (form : Text) × (rest : Text) × (scan start v ≡ closed form rest)
    × (all_true is_space rest ≡ true)

single_expression_of-Accepted :
    (no_commands : Bool) (source v : Text)
    → single_expression_of no_commands source ≡ ok v
    → Accepted v
unfolding single_expression_of
single_expression_of-Accepted n source v h =
    let (form, rest, e, ws, same) =
      check_found-ok (strip source) (scan start (strip source)) {v = v} (ground arith) in
    subst Accepted (sym same) (form, rest, e, ws)

after_text-append :
    (xs ys : Text) (f : Found) → after_text (xs ++ ys) f ≡ after_text xs (after_text ys f)
after_text-append [] ys f = refl
after_text-append (x ∷ xs) ys f = ap (found_after x) (after_text-append xs ys f)

-- An accepted fact is read as a unit wherever it stands inside an expression: at any depth the
-- scanner passes over it, neither closing nor leaving the expression around it, and goes on with
-- what follows in the state in which it came.
pub fact_stays_inside :
    (no_commands : Bool) (source v : Text)
    → single_expression_of no_commands source ≡ ok v
    → (d : ℕ) (post : Text)
    → scan (inside (suc d)) (v ++ post) ≡ after_text v (scan (inside (suc d)) post)
fact_stays_inside n source v h d post =
    let (form, rest, e, ws) = single_expression_of-Accepted n source v h in
    let split : v ≡ form ++ rest = scan-split start v form rest e in
    let depths : 0 + suc d ≡ suc d = omega arith in
    subst (λ w. scan (inside (suc d)) (w ++ post) ≡ after_text w (scan (inside (suc d)) post))
      (sym split)
      (ap (scan (inside (suc d))) (append_assoc form rest post)
        ∙ ap (λ n. scan (inside n) (form ++ (rest ++ post))) (sym depths)
        ∙ scan-deeper d start v form rest refl e (rest ++ post)
        ∙ ap (after_text form) (scan-spaces (suc d) rest post ws)
        ∙ sym (after_text-append form rest (scan (inside (suc d)) post)))

on_or_closed : (s : Scan) (c d : ℕ) → s.depth ≡ suc d → advance s c ≢ underflow
unfolding advance
on_or_closed s c d h e = ground (arith, close_paren-tests s.depth s)

depth-advance :
    (s s' : Scan) (c d : ℕ) → s.depth ≡ suc d → advance s c ≡ on s' → (d' : ℕ) × (s'.depth ≡ suc d')
unfolding advance
depth-advance s s' c d h e = (s'.depth - 1, ground (arith, close_paren-tests s.depth s))

found_after-unbalanced : (c : ℕ) (f : Found) → f ≢ unbalanced → found_after c f ≡ unbalanced → ⊥
found_after-unbalanced c (closed g r) n k = cc
found_after-unbalanced c unbalanced n k = n refl
found_after-unbalanced c unfinished n k = cc

scan-ne-unbalanced : (s : Scan) (cs : Text) (d : ℕ) → s.depth ≡ suc d → scan s cs ≢ unbalanced
unfolding scan
scan-ne-unbalanced s [] d h e = cc
scan-ne-unbalanced s (c ∷ cs) d h e = elim (Advance-cases (advance s c)) [
  | inl (s', k) ↦
      let (d', deep) = depth-advance s s' c d h k in
      found_after-unbalanced c (scan s' cs) (scan-ne-unbalanced s' cs d' deep) (rw (k, scan) at e)
  | inr (inl k) ↦ let k' : closed (c ∷ []) cs ≡ unbalanced = rw (k, scan) at e in cc
  | inr (inr k) ↦ absurd (on_or_closed s c d h k)
]

no_value_error :
    (m n : String)
    → (m == n) ≡ false
    → ◌≢◌ {A = Result Text} (err (value_error m)) (err (value_error n))
no_value_error m n d e = ground (arith, text_keys.beq_iff m n)

check_found-ne-unbalanced :
    (value : Text) (f : Found)
    → f ≢ unbalanced
    → check_found value f ≢ err (value_error "case fact has unbalanced parentheses")
check_found-ne-unbalanced value (closed form rest) n e = elim (Bool-cases (is_empty (strip rest))) [
  | inl ended ↦ let k = rw ended at e in cc
  | inr more ↦
      no_value_error "case fact must contain exactly one MeTTa expression"
        "case fact has unbalanced parentheses" refl (rw more at e)
]
check_found-ne-unbalanced value unbalanced n e = n refl
check_found-ne-unbalanced value unfinished n e =
    no_value_error "case fact has an unterminated string or expression"
      "case fact has unbalanced parentheses" refl e

advance-open_paren : (c : ℕ) → nat_eq b'(' c ≡ true → advance start c ≡ on (inside 1)
unfolding advance
advance-open_paren c h = ground arith

scan-open_paren :
    (value : Text) → starts_with (b'(' ∷ []) value ≡ true → scan start value ≢ unbalanced
unfolding scan
scan-open_paren [] h e = cc
scan-open_paren (c ∷ cs) h e =
    found_after-unbalanced c (scan (inside 1) cs) (scan-ne-unbalanced (inside 1) cs 0 refl)
      (rw (advance-open_paren c (ground arith), scan) at e)

-- The error for unbalanced parentheses is never raised: a text that passes the first test opens
-- with a parenthesis, and the scanner stops where that one closes.
pub no_unbalanced_error :
    (no_commands : Bool) (source : Text)
    → single_expression_of no_commands source
      ≢ err (value_error "case fact has unbalanced parentheses")
unfolding single_expression_of
no_unbalanced_error n source e = elim (Bool-cases (starts_with (b'(' ∷ []) (strip source))) [
  | inl opens ↦
      let calm =
        check_found-ne-unbalanced (strip source) (scan start (strip source))
          (scan-open_paren (strip source) opens) in
      let other =
        no_value_error "case fact must be one parenthesized MeTTa expression"
          "case fact has unbalanced parentheses" refl in
      ground arith
  | inr not_open ↦
      no_value_error "case fact must be one parenthesized MeTTa expression"
        "case fact has unbalanced parentheses" refl (rw not_open at e)
]
