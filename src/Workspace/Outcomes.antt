-- ===== src/Workspace/Outcomes.antt =====
-- What a call of `sync` leaves behind: the new hashes after a success, and after a failure nothing
-- that a later call would trust.
use symbolic_recommendation.Prelude.{
  ℕ, ◌≡◌, refl, Bool, true, false, not, Option, none, some, leb, ◌&&◌, length, code_keys, ◌⊎◌, inl,
  inr, Option-cases, Bool-cases, Result, ok, err,
}
use symbolic_recommendation.Prelude.Dict.{Dict, get, has, get-put, get-remove}
use symbolic_recommendation.Metta.{Text}
use symbolic_recommendation.Workspace.{
  Workspace, Config, Cases, WorkspaceSync, validate_plan, normalize_cases, hashes_of, clear_command,
  bind_command,
}
use symbolic_recommendation.Workspace.Sync.{
  Lab, run, fill, give_up, settle, new_workspace, place_workspace, after_bind, sync_space,
  create_space, sync_plan, sync,
}

-- The entry of a plan cannot be taken for the state of its space.
abbrev pub Distrusted : Option Workspace → Type 0
Distrusted none = Unit
Distrusted (some ws) = ws.dirty ≡ true

-- After a success with `staged` for the plan, whose canonical cases have the hashes `desired`.
abbrev pub Trusted : Dict Text Text → WorkspaceSync → Option Workspace → Type 0
Trusted desired staged none = ⊥
Trusted desired staged (some ws) =
    (ws.case_hashes ≡ desired) × (ws.dirty ≡ false) × (ws.space ≡ staged.space)

module _ (World : Type 0) (execute : World → Text → Result (Unit {0}) × World) (c : Config) where
  abbrev L : Type 0
  L = Lab World execute c

  abbrev pub entry : Text → L → Option Workspace
  entry plan s = get plan s.cache.workspaces

  -- What a call leaves for `plan`, by its result.
  abbrev pub Settled : Text → Dict Text Text → L → Result WorkspaceSync × L → Type 0
  Settled plan desired s (ok staged, s') =
      (staged.plan ≡ plan) × Trusted desired staged (entry plan s')
  Settled plan desired s (err e, s') = (s' ≡ s) ⊎ Distrusted (entry plan s')

  settle-Settled :
      (is_new : Bool) (plan : Text) (ws : Workspace) (canonical : Cases) (start : L)
      (r : Result ℕ × L)
      → Settled plan
          (hashes_of c.hash canonical)
          start
          (settle World execute c is_new plan ws canonical r)
  unfolding settle give_up
  settle-Settled is_new plan ws canonical start (ok added, s) =
      let kept = record ws { case_hashes = hashes_of c.hash canonical; dirty = false } in
      rw (get-put plan plan kept s.cache.workspaces, (code_keys.beq_iff plan plan).1 refl)
        (refl, (refl, refl, refl))
  settle-Settled true plan ws canonical start (err e, s) =
      let s' = (run World execute c (clear_command ws.space) s).1 in
      inr (rw (get-remove plan plan s'.cache.workspaces, (code_keys.beq_iff plan plan).1 refl) tt)
  settle-Settled false plan ws canonical start (err e, s) = inr (
      rw
        (
          get-put plan plan (record ws { dirty = true }) s.cache.workspaces,
          (code_keys.beq_iff plan plan).1 refl,
        )
        refl)

  after_bind-Settled :
      (plan : Text) (ws : Workspace) (canonical : Cases) (start : L) (r : Result (Unit {0}) × L)
      → Settled plan
          (hashes_of c.hash canonical)
          start
          (after_bind World execute c plan ws canonical r)
  unfolding after_bind sync_space
  after_bind-Settled plan ws canonical start (ok u, s) =
      settle-Settled true plan ws canonical start
        (fill World execute c ws canonical (hashes_of c.hash canonical) s)
  after_bind-Settled plan ws canonical start (err e, s) =
      inr (rw (get-remove plan plan s.cache.workspaces, (code_keys.beq_iff plan plan).1 refl) tt)

  create_space-Settled :
      (plan : Text) (canonical : Cases) (s : L)
      → Settled plan (hashes_of c.hash canonical) s (create_space World execute c plan canonical s)
  unfolding create_space
  create_space-Settled plan canonical s =
      elim (Bool-cases (leb c.max_cached_plans (length s.cache.workspaces))) [
        | inl full ↦ rw (full, create_space) (inl refl)
        | inr room ↦
            rw (room, create_space)
              (after_bind-Settled plan (new_workspace World execute c plan s) canonical s (
                run World execute c (bind_command (new_workspace World execute c plan s).space)
                  (place_workspace World execute c plan s)))
      ]

  sync_plan-Settled :
      (plan : Text) (cases canonical : Cases) (s : L)
      → normalize_cases c cases ≡ ok canonical
      → Settled plan (hashes_of c.hash canonical) s (sync_plan World execute c plan cases s)
  unfolding sync_plan sync_space
  sync_plan-Settled plan cases canonical s normal =
      elim (Bool-cases
        (not (has plan s.cache.workspaces) && leb c.max_cached_plans (length s.cache.workspaces))) [
          | inl full ↦ rw (full, sync_plan) (inl refl)
          | inr room ↦
              rw (room, sync_plan)
                (rw normal (elim (Option-cases (get plan s.cache.workspaces)) [
                  | inl absent ↦ rw absent (create_space-Settled plan canonical s)
                  | inr (ws, present) ↦ rw present (
                      settle-Settled false plan ws canonical s
                        (fill World execute c ws canonical (hashes_of c.hash canonical) s))
                ]))
        ]

  -- A call of `sync` for a valid plan and cases whose canonical form is `canonical`: a success
  -- leaves the plan's entry with exactly the hashes of those cases, not dirty, in the space that is
  -- returned; after a failure either nothing has changed, or the plan has no entry or a dirty one.
  pub sync-Settled :
      (raw_plan plan : Text) (cases canonical : Cases) (s : L)
      → validate_plan raw_plan ≡ ok plan
      → normalize_cases c cases ≡ ok canonical
      → Settled plan (hashes_of c.hash canonical) s (sync World execute c raw_plan cases s)
  unfolding sync sync_space
  sync-Settled raw_plan plan cases canonical s valid normal =
      rw (valid, sync) (sync_plan-Settled plan cases canonical s normal)
