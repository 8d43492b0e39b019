-- ===== src/Incremental/Commit.antt =====
-- The transaction of `mine`: what has passed the checks is rendered without an error, so a call that
-- raises leaves the states as they were; and a delta is mined only on top of unchanged cases.
use symbolic_recommendation.Prelude.{
  ℕ, ◌+◌, ◌-◌, ◌≤◌, ◌≡◌, refl, ap, sym, ◌∙◌, Bool, true, false, not, ◌&&◌, Option, some, List, [],
  ◌∷◌, arith, leb, ltb, length, is_empty, keep_if, count_if, elem, ◌==◌, Eq, code_keys, Bool-cases,
  inl, inr, Exn, Result, ok, err, Result-cases, le→leb, length-keep_if, keep_if-le, ◌≢◌,
}
use symbolic_recommendation.Prelude.Dict.{Dict, keys, get, has}
use symbolic_recommendation.Metta.{Text}
use symbolic_recommendation.Workspace.Sync.{changed_ids, removed_ids, fresh_ids, or_no_text}
use symbolic_recommendation.Incremental.{
  PatternCounts, Rows, Patterns, Shape, PlanState, IncrementalMode, delta_updated, Contingency,
  validate_counts, render_rows,
}
use symbolic_recommendation.Incremental.Mine.{
  Limits, Request, target_count, decide_mode, mine_patterns, commit, check_patterns, mine_locked,
  mine, patterns_before, hashes_before, retention_of,
}

module _ {K : Type 0} where
  validated_head :
      (total targets : ℕ) (k : K) (counts : PatternCounts K) (patterns : Patterns K)
      → validate_counts total targets ((k, counts) ∷ patterns) ≡ ok tt
      → (counts.target ≤ targets)
        × (counts.other ≤ total - targets)
        × (validate_counts total targets patterns ≡ ok tt)
  unfolding validate_counts
  validated_head total targets k counts patterns h = ground arith

  -- Patterns that pass `_validate_counts` are rendered without the error for an inconsistent
  -- contingency, at every support threshold.
  pub render_rows-returns :
      (min_support total targets : ℕ) (patterns : Patterns K)
      → targets ≤ total
      → validate_counts total targets patterns ≡ ok tt
      → (rows : List (Contingency K)) × (render_rows min_support total targets patterns ≡ ok rows)
  unfolding render_rows
  render_rows-returns m total targets [] le h = ([], refl)
  render_rows-returns m total targets ((k, counts) ∷ patterns) le h =
      let (low, high, rest_valid) = validated_head total targets k counts patterns h in
      let (rows, rendered) = render_rows-returns m total targets patterns le rest_valid in
      let first : leb counts.target targets ≡ true = omega (arith, le→leb) in
      let second : leb (counts.target + counts.other) total ≡ true = omega (arith, le→leb) in
      let third : leb (targets - counts.target) (total - (counts.target + counts.other)) ≡ true =
        omega (arith, le→leb) in
      elim (Bool-cases (ltb counts.target m)) [
        | inl few ↦ (rows, rw few rendered)
        | inr enough ↦ (
          record {
            premises = counts.premises;
            joint = counts.target;
            antecedent = counts.target + counts.other;
            outside_target = targets - counts.target;
            outside = total - (counts.target + counts.other);
          }
              ∷ rows,
          rw (enough, first, second, third, rendered),
        )
      ]

count_if-le {ℓ} : {A : Type ℓ} (p : A → Bool) (xs : List A) → count_if p xs ≤ length xs
count_if-le p xs = rw (← length-keep_if p xs) (keep_if-le p xs)

module _ {K : Type 0} ⦃e : Eq K⦄ (World : Type 0)
    (query_full : World → Bool → Result (Rows K) × World)
    (query_delta : World → List Text → Bool → Result (Rows K) × World) where
  abbrev States : Type 0
  States = Dict Text (PlanState K)

  commit-returns :
      (q : Request) (units : Option (List Text)) (previous : Option (PlanState K))
      (mode : IncrementalMode) (states : States) (patterns : Patterns K) (x : Exn)
      → target_count q ≤ length q.hashes
      → validate_counts (length q.hashes) (target_count q) patterns ≡ ok tt
      → (commit World query_full query_delta q units previous mode states patterns).0 ≢ err x
  unfolding commit
  commit-returns q units previous mode states patterns x le valid =
      let (rows, rendered) =
        render_rows-returns q.min_support (length q.hashes) (target_count q) patterns le valid in
      rw (rendered, commit) (λ h. cc)

  check_patterns-atomic :
      (limits : Limits) (q : Request) (units : Option (List Text)) (previous : Option (PlanState K))
      (mode : IncrementalMode) (states : States) (r : Result (Patterns K)) (x : Exn)
      → target_count q ≤ length q.hashes
      → (check_patterns World query_full query_delta limits q units previous mode states r).0
        ≡ err x
      → (check_patterns World query_full query_delta limits q units previous mode states r).1
        ≡ states
  unfolding check_patterns
  check_patterns-atomic limits q units previous mode states (err y) x le h = refl
  check_patterns-atomic limits q units previous mode states (ok patterns) x le h =
      elim (Result-cases (validate_counts (length q.hashes) (target_count q) patterns)) [
        | inr (y, bad) ↦ rw (bad, check_patterns) refl
        | inl (tt_, good) ↦
            let never = commit-returns q units previous mode states patterns x le good in
            ground (arith, good)
      ]

  mine_locked-atomic :
      (limits : Limits) (q : Request) (units : Option (List Text)) (states : States) (w : World)
      (x : Exn)
      → target_count q ≤ length q.hashes
      → (mine_locked World query_full query_delta limits q units states w).0.0 ≡ err x
      → (mine_locked World query_full query_delta limits q units states w).0.1 ≡ states
  unfolding mine_locked
  mine_locked-atomic limits q units states w x le h =
      let previous = get q.plan states in
      let mode = decide_mode previous q.shape q.hashes units in
      let mined =
        mine_patterns World query_full query_delta mode (patterns_before previous)
          (fresh_ids (hashes_before previous) q.hashes) w in
      ground (arith, check_patterns-atomic limits q units previous mode states mined.0 x)

  -- A call of `mine` that raises leaves the stored states of all plans as they were, whichever
  -- check or query of the miner fails, where each case has one outcome.
  pub mine_atomic :
      (limits : Limits) (q : Request) (states : States) (w : World) (x : Exn)
      → length q.targets ≡ length q.hashes
      → (mine World query_full query_delta limits q states w).0.0 ≡ err x
      → (mine World query_full query_delta limits q states w).0.1 ≡ states
  unfolding mine
  mine_atomic limits q states w x same h =
      let le : target_count q ≤ length q.hashes =
        omega (arith, count_if-le (λ b. b) q.targets, same) in
      elim (Bool-cases (ltb limits.max_cases_per_plan (length q.hashes))) [
        | inl over ↦ rw (over, mine) refl
        | inr room ↦ elim (Result-cases (retention_of q.units q.declared)) [
          | inr (y, bad) ↦ rw (room, mine) (rw (bad, mine) refl)
          | inl (units, good) ↦
              let same_run : mine World query_full query_delta limits q states w
                  ≡ mine_locked World query_full query_delta limits q units states w =
                rw (room, mine) (rw (good, mine) refl) in
              ap (λ r. r.0.1) same_run
              ∙ mine_locked-atomic limits q units states w x le (ap (λ r. r.0.0) (sym same_run) ∙ h)
        ]
      ]

keep_if-none :
    (p : Text → Bool) (ks : List Text) (k : Text)
    → is_empty (keep_if p ks) ≡ true
    → elem k ks ≡ true
    → p k ≡ false
unfolding keep_if
keep_if-none p [] k none_left h = cc
keep_if-none p (j ∷ ks) k none_left h = ground (arith, code_keys.beq_iff k j, keep_if-none p ks k)

-- A delta is mined only on top of unchanged cases: where `mine` chooses the mode `delta_updated`,
-- every case of the previous state is among the cases of the call, with the same hash.
pub delta_keeps_cases :
    {K : Type 0} (previous : PlanState K) (shape : Shape) (hashes : Dict Text Text)
    (units : Option (List Text)) (id : Text)
    → decide_mode (some previous) shape hashes units ≡ delta_updated
    → has id previous.case_hashes ≡ true
    → (has id hashes ≡ true)
      × (or_no_text (get id hashes) ≡ or_no_text (get id previous.case_hashes))
unfolding decide_mode changed_ids removed_ids
delta_keeps_cases previous shape hashes units id mode old =
    let p = previous.case_hashes in
    let changed =
      λ (k : Text). has k p && not (or_no_text (get k p) == or_no_text (get k hashes)) in
    let kept : is_empty (keep_if (λ k. not (has k hashes)) (keys p)) ≡ true = ground arith in
    let same : is_empty (keep_if changed (keys hashes)) ≡ true = ground arith in
    let there : has id hashes ≡ true =
      ground (arith, keep_if-none (λ k. not (has k hashes)) (keys p) id kept old) in
    (
      there,
      ground (
        arith,
        keep_if-none changed (keys hashes) id same there,
        code_keys.beq_iff (or_no_text (get id p)) (or_no_text (get id hashes)),
      ),
    )
