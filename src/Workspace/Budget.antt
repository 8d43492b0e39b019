-- ===== src/Workspace/Budget.antt =====
-- The number of cached plans never passes the limit.
use symbolic_recommendation.Prelude.{
  ℕ, ◌+◌, ◌≤◌, ◌≡◌, refl, ap, sym, ◌∙◌, Bool, true, false, List, [], ◌∷◌, ◌++◌, arith, length,
  is_some, code_keys, inl, inr, Result-cases, Option-cases, sort_by, codes_leb, Result, ok, err,
}
use symbolic_recommendation.Prelude.Dict.{
  Dict, get, has, length-put, length-remove-le, is_some-get, elem-put,
}
use symbolic_recommendation.Metta.{Text}
use symbolic_recommendation.Workspace.{
  Workspace, Config, Cases, validate_plan, normalize_cases, hashes_of, clear_command, bind_command,
  add_command, facts_of,
}
use symbolic_recommendation.Workspace.Sync.{
  Lab, run, append_loop, append_facts, fill, give_up, settle, sync_space, new_workspace,
  place_workspace, after_bind, create_space, sync_plan, sync, append_ids,
}

module _ (World : Type 0) (execute : World → Text → Result (Unit {0}) × World) (c : Config) where
  abbrev L : Type 0
  L = Lab World execute c

  pub run-cache : (command : Text) (s : L) → (run World execute c command s).1.cache ≡ s.cache
  unfolding run
  run-cache command s = refl

  append_loop-cache :
      (space : Text) (batch : List Text) (n : ℕ) (facts : List Text) (s : L)
      → (append_loop World execute c space batch n facts s).1.cache ≡ s.cache
  unfolding append_loop
  append_loop-cache space batch n [] s = ground (arith, run-cache (add_command space batch) s)
  append_loop-cache space batch n (fact ∷ facts) s =
      let batch' = batch ++ fact ∷ [] in
      let sent = run World execute c (add_command space batch') s in
      ground (
        arith,
        run-cache (add_command space batch') s,
        append_loop-cache space [] (n + length batch') facts sent.1,
        append_loop-cache space batch' n facts s,
      )

  pub fill-cache :
      (ws : Workspace) (canonical : Cases) (desired : Dict Text Text) (s : L)
      → (fill World execute c ws canonical desired s).1.cache ≡ s.cache
  unfolding fill append_facts
  fill-cache ws canonical desired s =
      let facts = facts_of canonical (sort_by codes_leb (append_ids ws desired)) in
      ground (
        arith,
        run-cache (clear_command ws.space) s,
        append_loop-cache ws.space [] 0 facts s,
        append_loop-cache ws.space [] 0 facts (run World execute c (clear_command ws.space) s).1,
      )

  -- The number of plans in a state.
  abbrev pub plan_count : L → ℕ
  plan_count s = length s.cache.workspaces

  settle-plans :
      (is_new : Bool) (plan : Text) (ws : Workspace) (canonical : Cases) (r : Result ℕ) (s : L)
      → has plan s.cache.workspaces ≡ true
      → plan_count (settle World execute c is_new plan ws canonical (r, s)).1 ≤ plan_count s
  unfolding settle give_up
  settle-plans is_new plan ws canonical r s h =
      let kept = record ws { case_hashes = hashes_of c.hash canonical; dirty = false } in
      ground (
        arith,
        run-cache (clear_command ws.space) s,
        length-put plan kept s.cache.workspaces,
        length-put plan (record ws { dirty = true }) s.cache.workspaces,
        length-remove-le plan s.cache.workspaces,
      )

  sync_space-plans :
      (is_new : Bool) (plan : Text) (ws : Workspace) (canonical : Cases) (s : L)
      → has plan s.cache.workspaces ≡ true
      → plan_count (sync_space World execute c is_new plan ws canonical s).1 ≤ plan_count s
  unfolding sync_space
  sync_space-plans is_new plan ws canonical s h =
      let desired = hashes_of c.hash canonical in
      let filled = fill World execute c ws canonical desired s in
      let same : filled.1.cache ≡ s.cache = fill-cache ws canonical desired s in
      omega (
        arith,
        settle-plans is_new plan ws canonical filled.0 filled.1
            (ap (λ k. has plan k.workspaces) same ∙ h),
        ap (λ k. length k.workspaces) same,
      )

  after_bind-plans :
      (plan : Text) (ws : Workspace) (canonical : Cases) (r : Result (Unit {0})) (s : L)
      → has plan s.cache.workspaces ≡ true
      → plan_count (after_bind World execute c plan ws canonical (r, s)).1 ≤ plan_count s
  unfolding after_bind
  after_bind-plans plan ws canonical (ok u) s h = sync_space-plans true plan ws canonical s h
  after_bind-plans plan ws canonical (err e) s h = length-remove-le plan s.cache.workspaces

  create_space-plans :
      (plan : Text) (canonical : Cases) (s : L)
      → plan_count s ≤ c.max_cached_plans
      → plan_count (create_space World execute c plan canonical s).1 ≤ c.max_cached_plans
  unfolding create_space run
  create_space-plans plan canonical s h =
      let ws = new_workspace World execute c plan s in
      let placed = place_workspace World execute c plan s in
      let bound = run World execute c (bind_command ws.space) placed in
      ground (
        arith,
        length-put plan ws s.cache.workspaces,
        elem-put plan plan ws s.cache.workspaces,
        code_keys.beq_iff plan plan,
        after_bind-plans plan ws canonical bound.0 bound.1,
      )

  sync_plan-plans :
      (plan : Text) (cases : Cases) (s : L)
      → plan_count s ≤ c.max_cached_plans
      → plan_count (sync_plan World execute c plan cases s).1 ≤ c.max_cached_plans
  unfolding sync_plan
  sync_plan-plans plan cases s h = elim (Result-cases (normalize_cases c cases)) [
    | inr (e, failed) ↦ rw failed (ground arith)
    | inl (canonical, normal) ↦ rw normal (elim (Option-cases (get plan s.cache.workspaces)) [
      | inl absent ↦ rw absent (ground (arith, create_space-plans plan canonical s h))
      | inr (ws, present) ↦
          let there : has plan s.cache.workspaces ≡ true =
            sym (is_some-get plan s.cache.workspaces) ∙ ap is_some present in
          rw present (ground (arith, sync_space-plans false plan ws canonical s there))
    ])
  ]

  -- However a call of `sync` ends, the number of cached plans stays within the limit.
  pub sync-plans :
      (raw_plan : Text) (cases : Cases) (s : L)
      → plan_count s ≤ c.max_cached_plans
      → plan_count (sync World execute c raw_plan cases s).1 ≤ c.max_cached_plans
  unfolding sync
  sync-plans raw_plan cases s h = elim (Result-cases (validate_plan raw_plan)) [
    | inl (plan, valid) ↦ rw (valid, sync) (sync_plan-plans plan cases s h)
    | inr (e, failed) ↦ rw (failed, sync) h
  ]
