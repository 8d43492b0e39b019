-- ===== src/Incremental/Tests.antt =====
-- Runs of the incremental miner, with one premise number as a pattern, and the theorems there.
use symbolic_recommendation.Prelude.{
  ℕ, ◌+◌, ◌≡◌, refl, Bool, true, none, some, List, [], ◌∷◌, ◌++◌, arith, codes, nat_eq, nat_keys,
  leb, count_if, Result, ok, err, foreign_error, keep_if, code_keys,
}
use symbolic_recommendation.Prelude.Dict.{Dict, get, has}
use symbolic_recommendation.Metta.{Text}
use symbolic_recommendation.Workspace.Sync.{or_no_text, changed_ids, removed_ids, fresh_ids}
use symbolic_recommendation.Incremental.{
  ParsedSupport, Rows, Patterns, Shape, PlanState, delta_updated, validate_counts, merge_delta,
  combine_full,
}
use symbolic_recommendation.Incremental.Supports.{
  IsMined, IsExact, target_of, other_of, merge_delta-IsExact, delta-eq-full,
}
use symbolic_recommendation.Incremental.Mine.{
  Limits, Request, mine, decide_mode, mine_locked, retention_of, two_passes, mine_patterns,
  check_patterns,
}
use symbolic_recommendation.Incremental.Commit.{mine_atomic, delta_keeps_cases}

-- A case is the one pattern that occurs in it; the cases below 10 have the target outcome.
abbrev occurs : ℕ → ℕ → Bool
occurs k c = nat_eq k c

abbrev is_target : ℕ → Bool
is_target c = leb c 9

abbrev row : ℕ → ℕ → ℕ × ParsedSupport ℕ
row k n = (k, record { premises = k; support = n })

IsMined-one : IsMined occurs is_target (row 3 1 ∷ []) [] (3 ∷ [])
unfolding get count_if
IsMined-one = record {
  target_once = (refl, tt);
  other_once = tt;
  target_exact = λ k. ground arith;
  other_exact = λ k. ground arith;
}

IsMined-other : IsMined occurs is_target [] (row 12 1 ∷ []) (12 ∷ [])
unfolding get count_if
IsMined-other = record {
  target_once = tt;
  other_once = (refl, tt);
  target_exact = λ k. ground arith;
  other_exact = λ k. ground arith;
}

IsMined-both : IsMined occurs is_target (row 3 1 ∷ []) (row 12 1 ∷ []) (3 ∷ 12 ∷ [])
unfolding get count_if
IsMined-both = record {
  target_once = (refl, tt);
  other_once = (refl, tt);
  target_exact = λ k. ground arith;
  other_exact = λ k. ground arith;
}

no_cases : IsExact occurs is_target [] []
unfolding get count_if
no_cases = record { target_counts = λ k. refl; other_counts = λ k. refl }

merge_delta-IsExact_example :
    IsExact occurs is_target (merge_delta [] (row 3 1 ∷ []) []) ([] ++ (3 ∷ []))
merge_delta-IsExact_example =
    merge_delta-IsExact occurs is_target [] (row 3 1 ∷ []) [] [] (3 ∷ []) no_cases IsMined-one

delta-eq-full_example :
    (target_of 3 (merge_delta (combine_full (row 3 1 ∷ []) []) [] (row 12 1 ∷ []))
      ≡ target_of 3 (combine_full (row 3 1 ∷ []) (row 12 1 ∷ [])))
    × (other_of 3 (merge_delta (combine_full (row 3 1 ∷ []) []) [] (row 12 1 ∷ []))
        ≡ other_of 3 (combine_full (row 3 1 ∷ []) (row 12 1 ∷ [])))
delta-eq-full_example =
    delta-eq-full occurs is_target (row 3 1 ∷ []) [] [] (row 12 1 ∷ []) (row 3 1 ∷ [])
      (row 12 1 ∷ []) (3 ∷ []) (12 ∷ []) IsMined-one IsMined-other IsMined-both 3

abbrev patterns : Patterns ℕ
patterns = (3, record { premises = 3; target = 2; other = 1 }) ∷ []

valid_patterns : validate_counts 5 2 patterns ≡ ok tt
unfolding validate_counts
valid_patterns = refl

abbrev limits : Limits
limits = record { max_tracked_patterns_per_plan = 5; max_cached_plans = 2; max_cases_per_plan = 9 }

abbrev shape : Shape
shape = record {
  depth = 2;
  features = codes "topic" ∷ [];
  target = codes "click";
  other = codes "skip";
}

abbrev request : Request
request = record {
  plan = codes "p";
  shape = shape;
  hashes = (codes "c1", codes "h1") ∷ [];
  targets = true ∷ [];
  min_support = 1;
  units = none;
  declared = none;
}

-- A miner that fails.
abbrev fails : ℕ → Bool → Result (Rows ℕ) × ℕ
fails w target = (err (foreign_error "PeTTa"), w + 1)

abbrev fails_delta : ℕ → List Text → Bool → Result (Rows ℕ) × ℕ
fails_delta w ids target = (err (foreign_error "PeTTa"), w + 1)

mine-fails : (mine ℕ fails fails_delta limits request [] 0).0.0 ≡ err (foreign_error "PeTTa")
unfolding mine mine_locked retention_of decide_mode mine_patterns two_passes get check_patterns
mine-fails = refl

mine_atomic_example : (mine ℕ fails fails_delta limits request [] 0).0.1 ≡ []
mine_atomic_example =
    mine_atomic ℕ fails fails_delta limits request [] 0 (foreign_error "PeTTa") refl mine-fails

abbrev previous : PlanState ℕ
previous = record {
  shape = shape;
  case_hashes = (codes "c1", codes "h1") ∷ [];
  total_cases = 1;
  target_cases = 1;
  patterns = [];
  retained_units = none;
}

abbrev more_hashes : Dict Text Text
more_hashes = (codes "c2", codes "h2") ∷ (codes "c1", codes "h1") ∷ []

chooses_delta : decide_mode (some previous) shape more_hashes none ≡ delta_updated
unfolding decide_mode changed_ids removed_ids fresh_ids keep_if get
chooses_delta = refl

delta_keeps_cases_example :
    (has (codes "c1") more_hashes ≡ true)
    × (or_no_text (get (codes "c1") more_hashes)
        ≡ or_no_text (get (codes "c1") previous.case_hashes))
delta_keeps_cases_example =
    delta_keeps_cases previous shape more_hashes none (codes "c1") chooses_delta refl
