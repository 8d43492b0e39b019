-- ===== src/Metta/Nesting.antt =====
-- The scanner at a greater depth, and over white space.
use symbolic_recommendation.Prelude.{
  ℕ, zero, suc, ◌+◌, ◌-◌, ◌≡◌, refl, ap, ◌⊎◌, inl, inr, true, false, not, ◌||◌, [], ◌∷◌, ◌++◌,
  arith, nat_eq, if◌then◌else◌, all_true,
}
use symbolic_recommendation.Metta.{
  Text, Scan, Advance, Found, on, close, underflow, closed, unbalanced, unfinished, found_after,
  advance, scan, is_space, close_paren,
}

abbrev pub inside : ℕ → Scan
inside d = record { depth = d; quoted = false; escaped = false }

-- What the scanner has read before it goes on.
abbrev pub after_text : Text → Found → Found
after_text [] f = f
after_text (c ∷ cs) f = found_after c (after_text cs f)

abbrev pub deeper : ℕ → Scan → Scan
deeper k s = record s { depth = s.depth + k }

-- The escape flag is set in a quoted string only.
abbrev pub Tidy : Scan → Type 0
Tidy s = (s.quoted || not s.escaped) ≡ true

pub Advance-cases : (a : Advance) → ((s : Scan) × (a ≡ on s)) ⊎ ((a ≡ close) ⊎ (a ≡ underflow))
Advance-cases (on s) = inl (s, refl)
Advance-cases close = inr (inl refl)
Advance-cases underflow = inr (inr refl)

pub found_after-closed :
    (c : ℕ) (f : Found) (form rest : Text)
    → found_after c f ≡ closed form rest
    → (form' : Text) × (form ≡ c ∷ form') × (f ≡ closed form' rest)
found_after-closed c (closed g r) form rest h = (g, ground arith, ground arith)
found_after-closed c unbalanced form rest h = cc
found_after-closed c unfinished form rest h = cc

-- A closed scan has split the text.
pub scan-split : (s : Scan) (cs form rest : Text) → scan s cs ≡ closed form rest → cs ≡ form ++ rest
unfolding scan
scan-split s [] form rest h = cc
scan-split s (c ∷ cs) form rest h = elim (Advance-cases (advance s c)) [
  | inl (s', e) ↦
      let (form', split, h') = found_after-closed c (scan s' cs) form rest (rw (e, scan) at h) in
      rw split (ap (λ l. c ∷ l) (scan-split s' cs form' rest h'))
  | inr (inl e) ↦ let k : closed (c ∷ []) cs ≡ closed form rest = rw (e, scan) at h in ground arith
  | inr (inr e) ↦ let k : unbalanced ≡ closed form rest = rw (e, scan) at h in cc
]

advance-Tidy : (s s' : Scan) (c : ℕ) → Tidy s → advance s c ≡ on s' → Tidy s'
unfolding advance
advance-Tidy s s' c t h = ground arith

pub close_paren-tests :
    (d : ℕ) (s : Scan)
    → close_paren d s ≡ (
        if nat_eq d 0
        then underflow
        else if nat_eq d 1
        then close
        else on (record s { depth = d - 1 }))
close_paren-tests zero s = refl
close_paren-tests (suc zero) s = refl
close_paren-tests (suc (suc d)) s = ground arith

advance-deeper :
    (k : ℕ) (s s' : Scan) (c : ℕ)
    → advance s c ≡ on s'
    → advance (deeper (suc k) s) c ≡ on (deeper (suc k) s')
unfolding advance
advance-deeper k s s' c h =
    ground
      (arith, close_paren-tests s.depth s, close_paren-tests (s.depth + suc k) (deeper (suc k) s))

advance-close :
    (k : ℕ) (s : Scan) (c : ℕ)
    → Tidy s
    → advance s c ≡ close
    → advance (deeper (suc k) s) c ≡ on (inside (suc k))
unfolding advance
advance-close k s c t h =
    ground
      (arith, close_paren-tests s.depth s, close_paren-tests (s.depth + suc k) (deeper (suc k) s))

pub scan-deeper :
    (k : ℕ) (s : Scan) (cs form rest : Text)
    → Tidy s
    → scan s cs ≡ closed form rest
    → (post : Text)
    → scan (deeper (suc k) s) (form ++ post) ≡ after_text form (scan (inside (suc k)) post)
unfolding scan
scan-deeper k s [] form rest t h post = cc
scan-deeper k s (c ∷ cs) form rest t h post = elim (Advance-cases (advance s c)) [
  | inl (s', e) ↦
      let (form', split, h') = found_after-closed c (scan s' cs) form rest (rw (e, scan) at h) in
      rw split (
        rw (advance-deeper k s s' c e, scan)
          (ap (found_after c) (scan-deeper k s' cs form' rest (advance-Tidy s s' c t e) h' post)))
  | inr (inl e) ↦
      let k' : closed (c ∷ []) cs ≡ closed form rest = rw (e, scan) at h in
      let split : form ≡ c ∷ [] = ground arith in rw split (rw (advance-close k s c t e, scan) refl)
  | inr (inr e) ↦ let k' : unbalanced ≡ closed form rest = rw (e, scan) at h in cc
]

-- White space moves no part of the state.
advance-space : (d c : ℕ) → is_space c ≡ true → advance (inside d) c ≡ on (inside d)
unfolding advance is_space
advance-space d c h = ground arith

pub scan-spaces :
    (d : ℕ) (ws post : Text)
    → all_true is_space ws ≡ true
    → scan (inside d) (ws ++ post) ≡ after_text ws (scan (inside d) post)
unfolding scan all_true
scan-spaces d [] post h = refl
scan-spaces d (c ∷ ws) post h =
    rw (advance-space d c (ground arith), scan)
      (ap (found_after c) (scan-spaces d ws post (ground arith)))
