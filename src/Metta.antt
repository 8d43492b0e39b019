-- ===== src/Metta.antt =====
-- The scanners for MeTTa text: `_single_expression` of mining/petta_workspace.py and of
-- mining/incremental_fpminer.py, and `_balanced_forms` of mining/incremental_fpminer.py and
-- mining/rule_parser.py. A text is the list of its code points.
pub mod Strip
pub mod Nesting
pub mod Facts
pub mod Forms
mod Tests
use symbolic_recommendation.Prelude.{
  ℕ, zero, suc, ◌+◌, ◌-◌, Bool, true, false, not, ◌&&◌, ◌||◌, List, [], ◌∷◌, ◌++◌, reverse, leb,
  nat_eq, if◌then◌else◌, length, is_empty, value_error, Result, ok, err,
}

abbrev pub Text : Type 0
Text = List ℕ

-- str.isspace of one character.
unfoldable pub is_space : ℕ → Bool
is_space c =
    (leb 9 c && leb c 13)
    || (leb 28 c && leb c 32)
    || nat_eq c 0x85
    || nat_eq c 0xa0
    || nat_eq c 0x1680
    || (leb 0x2000 c && leb c 0x200a)
    || nat_eq c 0x2028
    || nat_eq c 0x2029
    || nat_eq c 0x202f
    || nat_eq c 0x205f
    || nat_eq c 0x3000

unfoldable pub lstrip : Text → Text
lstrip [] = []
lstrip (c ∷ cs) = let rest = lstrip cs in if is_space c then rest else c ∷ cs

-- str.strip
unfoldable pub strip : Text → Text
strip s = reverse (lstrip (reverse (lstrip s)))

-- The variables of the scanning loops.
pub record Scan : Type 0 where
  pub depth : ℕ
  pub quoted : Bool
  pub escaped : Bool

pub data Advance : Type 0 where
  on : Scan → Advance
  -- the depth is 0 again
  close : Advance
  -- the depth falls below 0
  underflow : Advance

abbrev pub close_paren : ℕ → Scan → Advance
close_paren zero s = underflow
close_paren (suc zero) s = close
close_paren (suc (suc d)) s = on (record s { depth = suc d })

-- The body of the loop: one character.
unfoldable pub advance : Scan → ℕ → Advance
advance s c =
    if s.quoted
    then (if s.escaped
        then on (record s { escaped = false })
        else if nat_eq c b'\\'
        then on (record s { escaped = true })
        else if nat_eq c b'"'
        then on (record s { quoted = false })
        else on s)
    else if nat_eq c b'"'
    then on (record s { quoted = true })
    else if nat_eq c b'('
    then on (record s { depth = s.depth + 1 })
    else if nat_eq c b')'
    then close_paren s.depth s
    else on s

-- How the loop ends: with the text up to the closing parenthesis and the text behind it, by the
-- error, or at the end of the text.
pub data Found : Type 0 where
  closed : Text → Text → Found
  unbalanced : Found
  unfinished : Found

abbrev pub found_after : ℕ → Found → Found
found_after c (closed form rest) = closed (c ∷ form) rest
found_after c unbalanced = unbalanced
found_after c unfinished = unfinished

unfoldable pub scan : Scan → Text → Found
scan s [] = unfinished
scan s (c ∷ cs) = elim (advance s c) [
  | on s' ↦ found_after c (scan s' cs)
  | close ↦ closed (c ∷ []) cs
  | underflow ↦ unbalanced
]

abbrev pub start : Scan
start = record { depth = 0; quoted = false; escaped = false }

abbrev pub starts_with : Text → Text → Bool
starts_with [] cs = true
starts_with (p ∷ ps) [] = false
starts_with (p ∷ ps) (c ∷ cs) = nat_eq p c && starts_with ps cs

abbrev pub check_found : Text → Found → Result Text
check_found value (closed form rest) =
    if is_empty (strip rest)
    then ok value
    else err (value_error "case fact must contain exactly one MeTTa expression")
check_found value unbalanced = err (value_error "case fact has unbalanced parentheses")
check_found value unfinished =
    err (value_error "case fact has an unterminated string or expression")

-- `_single_expression` of petta_workspace.py; with `no_commands` that of incremental_fpminer.py.
unfoldable pub single_expression_of : Bool → Text → Result Text
single_expression_of no_commands source =
    let value = strip source in
    if not (starts_with (b'(' ∷ []) value)
    then err (value_error "case fact must be one parenthesized MeTTa expression")
    else if no_commands && starts_with (b'!' ∷ b'(' ∷ []) value
    then err (value_error "case fact must be one parenthesized MeTTa expression")
    else check_found value (scan start value)

unfoldable pub single_expression : Text → Result Text
single_expression source = single_expression_of false source

unfoldable pub single_fact : Text → Result Text
single_fact source = single_expression_of true source

-- The form that a scan appends, if it closes.
abbrev pub form_of : Found → List Text
form_of (closed form rest) = form ∷ []
form_of _ = []

-- `\b` between the last character of the pattern and what follows; `is_word` is the class `\w`.
module _ (is_word : ℕ → Bool) where
  abbrev pub next_is_word : Text → Bool
  next_is_word [] = false
  next_is_word (c ∷ cs) = is_word c

  abbrev pub boundary_after : Text → Text → Bool
  boundary_after [] cs = false
  boundary_after (p ∷ []) cs = if is_word p then not (next_is_word cs) else next_is_word cs
  boundary_after (p ∷ q ∷ ps) cs = boundary_after (q ∷ ps) cs

  abbrev pub behind : Text → Text → Text
  behind [] cs = cs
  behind (p ∷ ps) [] = []
  behind (p ∷ ps) (c ∷ cs) = behind ps cs

  abbrev pub matches_at : Text → Text → Bool
  matches_at pattern_ cs = starts_with pattern_ cs && boundary_after pattern_ (behind pattern_ cs)

  -- `re.finditer` over the rest of the text, of which the first `skip` characters belong to the
  -- match before; at each match the scan of the source.
  unfoldable pub forms_from : Text → ℕ → Text → List Text
  forms_from pattern_ skip [] = []
  forms_from pattern_ (suc skip) (c ∷ cs) = forms_from pattern_ skip cs
  forms_from pattern_ zero (c ∷ cs) =
      let found = form_of (scan start (c ∷ cs)) ++ forms_from pattern_ (length pattern_ - 1) cs in
      let other = forms_from pattern_ 0 cs in if matches_at pattern_ (c ∷ cs) then found else other

  unfoldable pub balanced_forms : Text → Text → List Text
  balanced_forms text head = forms_from (b'(' ∷ head) 0 text
