-- ===== src/Incremental/Mine.antt =====
-- `IncrementalFpMinerCache.mine` from its normalized arguments on, `invalidate` and `plans`. The
-- cases come as their hashes and, for each, whether its outcome is the target.
use symbolic_recommendation.Prelude.{
  ℕ, Bool, true, false, not, ◌&&◌, ◌||◌, Option, none, some, List, [], ◌∷◌, leb, ltb, nat_eq,
  if◌then◌else◌, length, is_empty, keep_if, count_if, any_true, elem, ◌==◌, Eq, code_keys, Result,
  ok, err, value_error, memory_error, is_some, Scalar, int_value, bool_value, pos,
}
use symbolic_recommendation.Prelude.Dict.{Dict, get, put, remove, has}
use symbolic_recommendation.Metta.{Text}
use symbolic_recommendation.Workspace.Sync.{changed_ids, removed_ids, fresh_ids}
use symbolic_recommendation.Incremental.{
  Rows, Patterns, Shape, PlanState, IncrementalMode, full_seed, rebuilt_full, reconfigured_full,
  retention_expired_full, delta_updated, reused_state, Contingency, combine_full, merge_delta,
  validate_counts, render_rows,
}

pub record Limits : Type 0 where
  pub max_tracked_patterns_per_plan : ℕ
  pub max_cached_plans : ℕ
  pub max_cases_per_plan : ℕ

pub record Audit : Type 0 where
  pub mode : IncrementalMode
  pub total_cases : ℕ
  pub previous_cases : ℕ
  pub appended_cases : ℕ
  pub changed_cases : ℕ
  pub removed_cases : ℕ
  pub tracked_patterns : ℕ
  pub output_patterns : ℕ
  pub full_miner_calls : ℕ
  pub delta_miner_calls : ℕ
  pub researched_cases : ℕ
  pub cached_plans_after_commit : ℕ

abbrev pub same_texts : List Text → List Text → Bool
same_texts [] [] = true
same_texts [] (y ∷ ys) = false
same_texts (x ∷ xs) [] = false
same_texts (x ∷ xs) (y ∷ ys) = x == y && same_texts xs ys

abbrev pub same_shape : Shape → Shape → Bool
same_shape a b =
    nat_eq a.depth b.depth
    && same_texts a.features b.features
    && a.target == b.target
    && a.other == b.other

-- frozenset(retention_units)
unfoldable pub unit_set : List Text → List Text
unit_set [] = []
unit_set (u ∷ us) = let rest = unit_set us in if elem u rest then rest else u ∷ rest

abbrev pub equals_count : Scalar → ℕ → Bool
equals_count (int_value (pos m)) n = nat_eq m n
equals_count (bool_value true) n = nat_eq 1 n
equals_count (bool_value false) n = nat_eq 0 n
equals_count _ n = false

abbrev pub declared_of : Option Scalar → Scalar
declared_of none = Scalar.none_value
declared_of (some d) = d

-- The units of the call, and the count that its audit declares.
unfoldable pub retention_of : Option (List Text) → Option Scalar → Result (Option (List Text))
retention_of none none = ok none
retention_of none (some d) = err (value_error "retention_audit requires retention_units")
retention_of (some units) audit =
    if any_true is_empty (unit_set units)
    then err (value_error "retention unit IDs must be non-empty strings")
    else if not (is_some audit)
    then err (value_error "retention_units require retention_audit")
    else if equals_count (declared_of audit) (length (unit_set units))
    then ok (some (unit_set units))
    else err (value_error "retention audit retained-unit count disagrees with membership")

-- old_retention_units - normalized_retention_units, where both are given.
abbrev pub expired_units : Option (List Text) → Option (List Text) → List Text
expired_units (some old) (some new) = keep_if (λ u. not (elem u new)) old
expired_units _ _ = []

module _ {K : Type 0} where
  abbrev pub hashes_before : Option (PlanState K) → Dict Text Text
  hashes_before none = []
  hashes_before (some p) = p.case_hashes

  abbrev pub cases_before : Option (PlanState K) → ℕ
  cases_before none = 0
  cases_before (some p) = p.total_cases

  abbrev pub patterns_before : Option (PlanState K) → Patterns K
  patterns_before none = []
  patterns_before (some p) = p.patterns

  unfoldable pub decide_mode :
      Option (PlanState K) → Shape → Dict Text Text → Option (List Text) → IncrementalMode
  decide_mode none shape hashes units = full_seed
  decide_mode (some p) shape hashes units =
      if not (same_shape p.shape shape)
        || not (
            is_some p.retained_units && is_some units
            || not (is_some p.retained_units) && not (is_some units))
      then reconfigured_full
      else if not (is_empty (expired_units p.retained_units units))
      then retention_expired_full
      else if not (is_empty (changed_ids p.case_hashes hashes))
          || not (is_empty (removed_ids p.case_hashes hashes))
      then rebuilt_full
      else if not (is_empty (fresh_ids p.case_hashes hashes))
      then delta_updated
      else reused_state

pub record Request : Type 0 where
  pub plan : Text
  pub shape : Shape
  pub hashes : Dict Text Text
  pub targets : List Bool
  pub min_support : ℕ
  pub units : Option (List Text)
  pub declared : Option Scalar

abbrev pub target_count : Request → ℕ
target_count q = count_if (λ b. b) q.targets

module _ {K : Type 0} ⦃e : Eq K⦄ (World : Type 0)
    (query_full : World → Bool → Result (Rows K) × World)
    (query_delta : World → List Text → Bool → Result (Rows K) × World) where
  -- Two passes of the miner, for the target and for the other outcome.
  abbrev pub second_pass :
      (World → Bool → Result (Rows K) × World)
      → Result (Rows K) × World
      → Result (Rows K × Rows K) × World
  second_pass query (err x, w) = (err x, w)
  second_pass query (ok t, w) =
      let (r, w') = query w false in (elim r [ err x ↦ err x | ok o ↦ ok (t, o) ], w')

  unfoldable pub two_passes :
      (World → Bool → Result (Rows K) × World) → World → Result (Rows K × Rows K) × World
  two_passes query w = second_pass query (query w true)

  abbrev pub map_result :
      (Rows K × Rows K → Patterns K) → Result (Rows K × Rows K) → Result (Patterns K)
  map_result f (err x) = err x
  map_result f (ok rows) = ok (f rows)

  unfoldable pub mine_patterns :
      IncrementalMode → Patterns K → List Text → World → Result (Patterns K) × World
  mine_patterns delta_updated previous appended w =
      let (r, w') = two_passes (λ v target. query_delta v appended target) w in
      (map_result (λ rows. merge_delta previous rows.0 rows.1) r, w')
  mine_patterns reused_state previous appended w = (ok previous, w)
  mine_patterns _ previous appended w =
      let (r, w') = two_passes query_full w in
      (map_result (λ rows. combine_full rows.0 rows.1) r, w')

  abbrev pub full_calls : IncrementalMode → ℕ
  full_calls delta_updated = 0
  full_calls reused_state = 0
  full_calls _ = 2

  abbrev pub delta_calls : IncrementalMode → ℕ
  delta_calls delta_updated = 2
  delta_calls _ = 0

  abbrev pub researched : IncrementalMode → ℕ → ℕ → ℕ
  researched delta_updated total appended = appended
  researched reused_state total appended = 0
  researched _ total appended = total

  abbrev pub States : Type 0
  States = Dict Text (PlanState K)

  abbrev pub next_state : Request → Option (List Text) → Patterns K → PlanState K
  next_state q units patterns = record {
    shape = q.shape;
    case_hashes = q.hashes;
    total_cases = length q.hashes;
    target_cases = target_count q;
    patterns = patterns;
    retained_units = units;
  }

  abbrev pub audit_of :
      Request → Option (PlanState K) → IncrementalMode → Patterns K → ℕ → ℕ → Audit
  audit_of q previous mode patterns output plans = record {
    mode = mode;
    total_cases = length q.hashes;
    previous_cases = cases_before previous;
    appended_cases = length (fresh_ids (hashes_before previous) q.hashes);
    changed_cases = length (changed_ids (hashes_before previous) q.hashes);
    removed_cases = length (removed_ids (hashes_before previous) q.hashes);
    tracked_patterns = length patterns;
    output_patterns = output;
    full_miner_calls = full_calls mode;
    delta_miner_calls = delta_calls mode;
    researched_cases =
        researched mode (length q.hashes) (length (fresh_ids (hashes_before previous) q.hashes));
    cached_plans_after_commit = plans;
  }

  -- From the commit on: the state is assigned before the rows are rendered.
  unfoldable pub commit :
      Request
      → Option (List Text)
      → Option (PlanState K)
      → IncrementalMode
      → States
      → Patterns K
      → Result (List (Contingency K) × Audit) × States
  commit q units previous mode states patterns =
      let states' = put q.plan (next_state q units patterns) states in
      (
        elim (render_rows q.min_support (length q.hashes) (target_count q) patterns) [
          | err x ↦ err x
          | ok rows ↦ ok (rows, audit_of q previous mode patterns (length rows) (length states'))
        ],
        states',
      )

  unfoldable pub check_patterns :
      Limits
      → Request
      → Option (List Text)
      → Option (PlanState K)
      → IncrementalMode
      → States
      → Result (Patterns K)
      → Result (List (Contingency K) × Audit) × States
  check_patterns limits q units previous mode states (err x) = (err x, states)
  check_patterns limits q units previous mode states (ok patterns) =
      elim (validate_counts (length q.hashes) (target_count q) patterns) [
        | err x ↦ (err x, states)
        | ok u ↦
            if ltb limits.max_tracked_patterns_per_plan (length patterns)
            then (err (memory_error "incremental fpMiner pattern limit exceeded"), states)
            else commit q units previous mode states patterns
      ]

  -- The body under the lock.
  unfoldable pub mine_locked :
      Limits
      → Request
      → Option (List Text)
      → States
      → World
      → (Result (List (Contingency K) × Audit) × States) × World
  mine_locked limits q units states w =
      let previous = get q.plan states in
      let mode = decide_mode previous q.shape q.hashes units in
      let (r, w') =
        mine_patterns mode (patterns_before previous) (fresh_ids (hashes_before previous) q.hashes)
          w in
      if not (is_some previous) && leb limits.max_cached_plans (length states)
      then ((err (memory_error "incremental fpMiner cached-plan limit reached"), states), w)
      else (check_patterns limits q units previous mode states r, w')

  unfoldable pub mine :
      Limits → Request → States → World → (Result (List (Contingency K) × Audit) × States) × World
  mine limits q states w =
      if ltb limits.max_cases_per_plan (length q.hashes)
      then ((err (memory_error "incremental fpMiner case limit exceeded"), states), w)
      else elim (retention_of q.units q.declared) [
        | err x ↦ ((err x, states), w)
        | ok units ↦ mine_locked limits q units states w
      ]

  -- `invalidate`, for a normalized plan.
  unfoldable pub invalidate : Text → States → Bool × States
  invalidate plan states = (has plan states, remove plan states)
