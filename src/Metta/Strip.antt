-- ===== src/Metta/Strip.antt =====
-- What `str.strip` leaves of a text that is not all spaces.
use symbolic_recommendation.Prelude.{
  ◌≡◌, refl, sym, ◌∙◌, ap, false, [], ◌∷◌, ◌++◌, reverse, reverse-append, arith, is_empty, all_true,
  all_true-append,
}
use symbolic_recommendation.Metta.{Text, is_space, lstrip, strip}

all_spaces-reverse : (s : Text) → all_true is_space (reverse s) ≡ all_true is_space s
unfolding all_true
all_spaces-reverse [] = refl
all_spaces-reverse (c ∷ s) =
    ap (all_true is_space) (reverse-append (c ∷ []) s)
    ∙ all_true-append is_space (reverse s) (c ∷ [])
    ∙ ground (arith, all_spaces-reverse s)

all_spaces-lstrip : (s : Text) → all_true is_space (lstrip s) ≡ all_true is_space s
unfolding all_true lstrip
all_spaces-lstrip [] = refl
all_spaces-lstrip (c ∷ s) = ground (arith, all_spaces-lstrip s)

all_spaces-strip : (s : Text) → all_true is_space (strip s) ≡ all_true is_space s
unfolding strip
all_spaces-strip s =
    all_spaces-reverse (lstrip (reverse (lstrip s)))
    ∙ all_spaces-lstrip (reverse (lstrip s))
    ∙ all_spaces-reverse (lstrip s)
    ∙ all_spaces-lstrip s

is_empty-reverse : (s : Text) → is_empty (reverse s) ≡ is_empty s
is_empty-reverse [] = refl
is_empty-reverse (c ∷ s) = ap is_empty (reverse-append (c ∷ []) s) ∙ one_more (reverse s) c
  where
    one_more : (t : Text) (c : _) → is_empty (t ++ c ∷ []) ≡ false
    one_more [] c = refl
    one_more (d ∷ t) c = refl

is_empty-lstrip : (s : Text) → is_empty (lstrip s) ≡ all_true is_space s
unfolding all_true lstrip
is_empty-lstrip [] = refl
is_empty-lstrip (c ∷ s) = ground (arith, is_empty-lstrip s)

is_empty-strip : (s : Text) → is_empty (strip s) ≡ all_true is_space s
unfolding strip
is_empty-strip s =
    is_empty-reverse (lstrip (reverse (lstrip s)))
    ∙ is_empty-lstrip (reverse (lstrip s))
    ∙ all_spaces-reverse (lstrip s)
    ∙ all_spaces-lstrip s

-- Stripping again leaves something where stripping did.
pub is_empty-strip-strip : (s : Text) → is_empty (strip (strip s)) ≡ is_empty (strip s)
is_empty-strip-strip s = is_empty-strip (strip s) ∙ all_spaces-strip s ∙ sym (is_empty-strip s)
