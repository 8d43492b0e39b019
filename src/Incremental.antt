-- ===== src/Incremental.antt =====
-- mining/incremental_fpminer.py: exact support counts for each mining plan, kept by deltas.
-- `K` is the type of canonical premise tuples. What a query of the miner returns, parsed, is a
-- parameter: on the full space, or on a space that holds the appended cases alone.
pub mod Mine
pub mod Supports
pub mod Commit
pub mod Spaces
mod Tests
mod SpaceTests
use symbolic_recommendation.Prelude.{
  ℕ, zero, suc, ◌+◌, ◌-◌, ◌≡◌, Bool, true, false, not, ◌&&◌, ◌||◌, Option, none, some, List, [],
  ◌∷◌, ◌++◌, map, leb, ltb, nat_eq, if◌then◌else◌, length, is_empty, keep_if, count_if, any_true,
  all_true, elem, codes, ◌==◌, Eq, code_keys, Exn, Result, ok, err, ◌>>=◌, guard, value_error,
  memory_error, is_some, Scalar, int_value, pos,
}
use symbolic_recommendation.Prelude.Dict.{Dict, keys, get, put, remove, has}
use symbolic_recommendation.Metta.{Text, strip}

pub record ParsedSupport (K : Type 0) : Type 0 where
  pub premises : K
  pub support : ℕ

pub record PatternCounts (K : Type 0) : Type 0 where
  pub premises : K
  pub target : ℕ
  pub other : ℕ

pub record Shape : Type 0 where
  pub depth : ℕ
  pub features : List Text
  pub target : Text
  pub other : Text

pub record PlanState (K : Type 0) : Type 0 where
  pub shape : Shape
  pub case_hashes : Dict Text Text
  pub total_cases : ℕ
  pub target_cases : ℕ
  pub patterns : Dict K (PatternCounts K)
  pub retained_units : Option (List Text)

pub data IncrementalMode : Type 0 where
  full_seed rebuilt_full reconfigured_full retention_expired_full delta_updated reused_state :
      IncrementalMode

-- The characters of a safe MeTTa symbol, at its beginning and behind it.
abbrev pub is_letter : ℕ → Bool
is_letter ch = (leb b'a' ch && leb ch b'z') || (leb b'A' ch && leb ch b'Z')

unfoldable pub symbol_start : ℕ → Bool
symbol_start ch = is_letter ch || nat_eq ch b'_' || nat_eq ch b'$'

unfoldable pub symbol_rest : ℕ → Bool
symbol_rest ch = symbol_start ch || (leb b'0' ch && leb ch b'9') || nat_eq ch b'.' || nat_eq ch b'-'

unfoldable pub is_safe_symbol : Text → Bool
is_safe_symbol [] = false
is_safe_symbol (ch ∷ cs) = symbol_start ch && all_true symbol_rest cs

unfoldable pub has_duplicate : List Text → Bool
has_duplicate [] = false
has_duplicate (t ∷ ts) = elem t ts || has_duplicate ts

abbrev pub depth_of : Scalar → Result ℕ
depth_of (int_value (pos (suc (suc n)))) = ok (suc (suc n))
depth_of _ = err (value_error "depth must be an integer of at least two")

unfoldable pub validate_shape : List Text → Scalar → Text → Text → Result Shape
validate_shape features raw_depth target other =
    guard (is_empty features || has_duplicate features)
      (value_error "features must be non-empty and unique")
    >>= λ _.
        guard (any_true (λ f. not (is_safe_symbol f)) features)
          (value_error "features must be safe MeTTa symbols")
        >>= λ _.
            guard (elem (codes "engagement") features)
              (value_error "engagement is added by the miner and cannot be a feature")
            >>= λ _. depth_of raw_depth >>= λ depth.
                guard (ltb (length features) (depth - 1))
                  (value_error "depth requires more distinct predicates than features")
                >>= λ _.
                    guard (is_empty target || is_empty other)
                      (value_error "target and other must be non-empty strings")
                    >>= λ _.
                        guard (target == other)
                          (value_error "target and other outcomes must differ")
                        >>= λ _. ok (record {
                          depth = depth;
                          features = features;
                          target = target;
                          other = other;
                        })

abbrev pub Rows : Type 0 → Type 0
Rows K = Dict K (ParsedSupport K)

abbrev pub Patterns : Type 0 → Type 0
Patterns K = Dict K (PatternCounts K)

-- One emitted row of `_render`: the contingency from which the four numbers of its truth values
-- are computed.
pub record Contingency (K : Type 0) : Type 0 where
  pub premises : K
  pub joint : ℕ
  pub antecedent : ℕ
  pub outside_target : ℕ
  pub outside : ℕ

module _ {K : Type 0} where
  abbrev pub row_support : Option (ParsedSupport K) → ℕ
  row_support none = 0
  row_support (some r) = r.support

  abbrev pub old_target : Option (PatternCounts K) → ℕ
  old_target none = 0
  old_target (some p) = p.target

  abbrev pub old_other : Option (PatternCounts K) → ℕ
  old_other none = 0
  old_other (some p) = p.other

  -- `old.premises if old else target_rows[key].premises if key in target_rows else …`; the last
  -- case, a key in neither, does not arise.
  abbrev pub premises_of :
      Option (PatternCounts K) → Option (ParsedSupport K) → Option (ParsedSupport K) → K → K
  premises_of (some p) t o k = p.premises
  premises_of none (some t) o k = t.premises
  premises_of none none (some o) k = o.premises
  premises_of none none none k = k

module _ {K : Type 0} ⦃e : Eq K⦄ where
  -- target_rows.keys() | other_rows.keys()
  unfoldable pub union_keys : Rows K → Rows K → List K
  union_keys target_rows other_rows =
      keys target_rows ++ keep_if (λ k. not (has k target_rows)) (keys other_rows)

  -- The loop of `_merge_delta`, and of `_combine_full` from no patterns.
  unfoldable pub merge_keys : List K → Rows K → Rows K → Patterns K → Patterns K
  merge_keys [] target_rows other_rows result = result
  merge_keys (k ∷ ks) target_rows other_rows result =
      let old = get k result in
      merge_keys ks target_rows other_rows (
        put k
          (record {
            premises = premises_of old (get k target_rows) (get k other_rows) k;
            target = old_target old + row_support (get k target_rows);
            other = old_other old + row_support (get k other_rows);
          })
          result)

  unfoldable pub combine_full : Rows K → Rows K → Patterns K
  combine_full target_rows other_rows =
      merge_keys (union_keys target_rows other_rows) target_rows other_rows []

  unfoldable pub merge_delta : Patterns K → Rows K → Rows K → Patterns K
  merge_delta previous target_rows other_rows =
      merge_keys (union_keys target_rows other_rows) target_rows other_rows previous

module _ {K : Type 0} where
  unfoldable pub validate_counts : ℕ → ℕ → Patterns K → Result (Unit {0})
  validate_counts total_cases target_cases [] = ok tt
  validate_counts total_cases target_cases ((k, counts) ∷ patterns) =
      let rest = validate_counts total_cases target_cases patterns in
      if ltb target_cases counts.target
      then err (value_error "fpMiner target support exceeds the target population")
      else if ltb (total_cases - target_cases) counts.other
      then err (value_error "fpMiner other support exceeds the other population")
      else if ltb (counts.target + counts.other) 1
      then err (value_error "tracked fpMiner pattern has zero antecedent support")
      else rest

  -- The loop of `_render`, before the sort and the text. The source subtracts integers; its test
  -- for a negative difference is written out, since `-` stops at 0 here.
  unfoldable pub render_rows : ℕ → ℕ → ℕ → Patterns K → Result (List (Contingency K))
  render_rows min_support total_cases target_cases [] = ok []
  render_rows min_support total_cases target_cases ((k, counts) ∷ patterns) =
      let rest = render_rows min_support total_cases target_cases patterns in
      let row : Contingency K = record {
        premises = counts.premises;
        joint = counts.target;
        antecedent = counts.target + counts.other;
        outside_target = target_cases - counts.target;
        outside = total_cases - (counts.target + counts.other);
      } in
      if ltb counts.target min_support
      then rest
      else if leb counts.target target_cases
          && leb (counts.target + counts.other) total_cases
          && leb (target_cases - counts.target) (total_cases - (counts.target + counts.other))
      then (rest >>= λ rows. ok (row ∷ rows))
      else err (value_error "incremental contingency is internally inconsistent")
