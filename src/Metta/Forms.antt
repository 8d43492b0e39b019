-- ===== src/Metta/Forms.antt =====
-- What `_balanced_forms` finds: whole expressions that stand in the text.
use symbolic_recommendation.Prelude.{
  ℕ, zero, suc, ◌-◌, ◌≡◌, refl, ap, sym, subst, ◌∙◌, inl, inr, Bool, true, List, [], ◌∷◌, ◌++◌,
  arith, Bool-cases, append-nil, length, ◌||◌, not, nat_eq, all_true, take, elem, elem-append,
  beq_self, code_keys,
}
use symbolic_recommendation.Metta.{
  Text, Scan, Found, closed, unbalanced, unfinished, found_after, advance, scan, start, form_of,
  matches_at, forms_from, balanced_forms, starts_with,
}
use symbolic_recommendation.Metta.Nesting.{Advance-cases, found_after-closed, scan-split}

-- The scanner looks no further than the parenthesis that closes.
scan-closed :
    (s : Scan) (cs form rest : Text)
    → scan s cs ≡ closed form rest
    → (post : Text) → scan s (form ++ post) ≡ closed form post
unfolding scan
scan-closed s [] form rest h post = cc
scan-closed s (c ∷ cs) form rest h post = elim (Advance-cases (advance s c)) [
  | inl (s', e) ↦
      let (form', split, h') = found_after-closed c (scan s' cs) form rest (rw (e, scan) at h) in
      rw split (rw (e, scan) (ap (found_after c) (scan-closed s' cs form' rest h' post)))
  | inr (inl e) ↦
      let k : closed (c ∷ []) cs ≡ closed form rest = rw (e, scan) at h in
      let split : form ≡ c ∷ [] = ground arith in rw split (rw (e, scan) refl)
  | inr (inr e) ↦ let k : unbalanced ≡ closed form rest = rw (e, scan) at h in cc
]

-- `form` stands in the text, and is one whole expression.
pub record IsFormOf (text form : Text) : Type 0 where
  pub before : Text
  pub behind_it : Text
  pub stands : text ≡ before ++ (form ++ behind_it)
  pub whole : scan start form ≡ closed form []

abbrev pub AllFormsOf : Text → List Text → Type 0
AllFormsOf text [] = Unit
AllFormsOf text (form ∷ forms) = IsFormOf text form × AllFormsOf text forms

AllFormsOf-append :
    (text : Text) (xs ys : List Text)
    → AllFormsOf text xs
    → AllFormsOf text ys
    → AllFormsOf text (xs ++ ys)
AllFormsOf-append text [] ys h k = k
AllFormsOf-append text (x ∷ xs) ys h k = (h.0, AllFormsOf-append text xs ys h.1 k)

AllFormsOf-later :
    (c : ℕ) (text : Text) (forms : List Text) → AllFormsOf text forms → AllFormsOf (c ∷ text) forms
AllFormsOf-later c text [] h = tt
AllFormsOf-later c text (form ∷ forms) h = (
  record {
    before = c ∷ h.0.before;
    behind_it = h.0.behind_it;
    stands = ap (λ l. c ∷ l) h.0.stands;
    whole = h.0.whole;
  },
  AllFormsOf-later c text forms h.1,
)

form_of-AllFormsOf : (text : Text) (f : Found) → scan start text ≡ f → AllFormsOf text (form_of f)
form_of-AllFormsOf text (closed form rest) e = (
  record {
    before = [];
    behind_it = rest;
    stands = scan-split start text form rest e;
    whole = ap (scan start) (sym (append-nil form)) ∙ scan-closed start text form rest e [];
  },
  tt,
)
form_of-AllFormsOf text unbalanced e = tt
form_of-AllFormsOf text unfinished e = tt

abbrev pub no_paren : ℕ → Bool
no_paren c = not (nat_eq b'(' c)

no_paren-take :
    (head rest : Text)
    → all_true no_paren head ≡ true
    → starts_with head rest ≡ true
    → all_true no_paren (take (length head) rest) ≡ true
unfolding all_true
no_paren-take [] rest plain h = refl
no_paren-take (p ∷ head) [] plain h = cc
no_paren-take (p ∷ head) (c ∷ rest) plain h = ground (arith, no_paren-take head rest)

or_true : (b : Bool) → (b || true) ≡ true
or_true b = ground arith

module _ (is_word : ℕ → Bool) where
  forms_from-AllFormsOf :
      (pattern_ : Text) (skip : ℕ) (text : Text)
      → AllFormsOf text (forms_from is_word pattern_ skip text)
  unfolding forms_from
  forms_from-AllFormsOf p skip [] = tt
  forms_from-AllFormsOf p (suc skip) (c ∷ cs) =
      AllFormsOf-later c cs _ (forms_from-AllFormsOf p skip cs)
  forms_from-AllFormsOf p zero (c ∷ cs) = elim (Bool-cases (matches_at is_word p (c ∷ cs))) [
    | inl here ↦ rw here (
        AllFormsOf-append (c ∷ cs) (form_of (scan start (c ∷ cs))) _
          (form_of-AllFormsOf (c ∷ cs) (scan start (c ∷ cs)) refl)
          (AllFormsOf-later c cs _ (forms_from-AllFormsOf p (length p - 1) cs)))
    | inr other ↦ rw other (AllFormsOf-later c cs _ (forms_from-AllFormsOf p 0 cs))
  ]

  -- Everything that `_balanced_forms` returns stands in the text and is one whole expression: the
  -- scanner that starts on it closes exactly at its end.
  pub balanced_forms-AllFormsOf :
      (text head : Text) → AllFormsOf text (balanced_forms is_word text head)
  unfolding balanced_forms
  balanced_forms-AllFormsOf text head = forms_from-AllFormsOf (b'(' ∷ head) 0 text

  -- A form that stands behind `before` is found, where the characters to skip hold no parenthesis.
  forms_from-finds :
      (head form post before : Text) (skip : ℕ)
      → all_true no_paren head ≡ true
      → scan start form ≡ closed form []
      → matches_at is_word (b'(' ∷ head) (form ++ post) ≡ true
      → all_true no_paren (take skip (before ++ (form ++ post))) ≡ true
      → elem form (forms_from is_word (b'(' ∷ head) skip (before ++ (form ++ post))) ≡ true
  unfolding forms_from scan all_true
  forms_from-finds head [] post [] skip plain whole match_ h =
      let k : unfinished ≡ closed [] [] = whole in cc
  forms_from-finds head (c ∷ cs) post [] (suc skip) plain whole match_ h = absurd (ground arith)
  forms_from-finds head (c ∷ cs) post [] zero plain whole match_ h =
      let first : scan start (c ∷ (cs ++ post)) ≡ closed (c ∷ cs) post =
        scan-closed start (c ∷ cs) (c ∷ cs) [] whole post in
      rw (match_, first, beq_self {A = Text} (c ∷ cs)) refl
  forms_from-finds head form post (b ∷ before) (suc skip) plain whole match_ h =
      forms_from-finds head form post before skip plain whole match_ (ground arith)
  forms_from-finds head form post (b ∷ before) zero plain whole match_ h =
      let rest = before ++ (form ++ post) in
      let later = forms_from-finds head form post before in
      elim (Bool-cases (matches_at is_word (b'(' ∷ head) (b ∷ rest))) [
        | inl here ↦
            let n = length (b'(' ∷ head) - 1 in
            let skipped : all_true no_paren (take n rest) ≡ true =
              subst (λ m. all_true no_paren (take m rest) ≡ true) {x = length head} {y = n}
                (omega arith) (no_paren-take head rest plain (ground arith)) in
            rw here (
              elem-append form (form_of (scan start (b ∷ rest)))
                (forms_from is_word (b'(' ∷ head) n rest)
              ∙ ap (λ x. elem form (form_of (scan start (b ∷ rest))) || x)
                  (later n plain whole match_ skipped)
              ∙ or_true (elem form (form_of (scan start (b ∷ rest)))))
        | inr other ↦ rw other (later 0 plain whole match_ refl)
      ]

  -- Wherever it stands in the text, a whole expression that begins with the head, up to a word
  -- boundary, is among what `_balanced_forms` returns; the head has no opening parenthesis.
  pub balanced_forms-finds :
      (head before form post : Text)
      → all_true no_paren head ≡ true
      → scan start form ≡ closed form []
      → matches_at is_word (b'(' ∷ head) (form ++ post) ≡ true
      → elem form (balanced_forms is_word (before ++ (form ++ post)) head) ≡ true
  unfolding balanced_forms all_true
  balanced_forms-finds head before form post plain whole match_ =
      forms_from-finds head form post before 0 plain whole match_ refl
