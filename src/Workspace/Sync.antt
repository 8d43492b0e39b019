-- ===== src/Workspace/Sync.antt =====
-- The methods of `PeTTaWorkspaceCache`. What was written before a raise stays written, so the state
-- comes back beside the error too.
use symbolic_recommendation.Prelude.{
  ℕ, ◌+◌, Bool, true, false, not, ◌&&◌, ◌||◌, Option, none, some, List, [], ◌∷◌, ◌++◌, leb, nat_eq,
  if◌then◌else◌, length, is_empty, keep_if, sort_by, elem, codes_leb, ◌==◌, code_keys, Exn, Result,
  ok, err, memory_error,
}
use symbolic_recommendation.Prelude.Dict.{Dict, keys, get, put, remove, has}
use symbolic_recommendation.Metta.{Text}
use symbolic_recommendation.Workspace.{
  SyncMode, created, reused, appended, rebuilt, WorkspaceSync, Workspace, Config, Cache, Cases,
  validate_plan, normalize_cases, hashes_of, count_facts, new_space_name, bind_command,
  clear_command, add_command, facts_of,
}

abbrev pub or_no_text : Option Text → Text
or_no_text none = []
or_no_text (some t) = t

-- {id for id in old & desired if old[id] != desired[id]}
unfoldable pub changed_ids : Dict Text Text → Dict Text Text → List Text
changed_ids old desired =
    keep_if (λ id. has id old && not (or_no_text (get id old) == or_no_text (get id desired)))
      (keys desired)

-- old - desired
unfoldable pub removed_ids : Dict Text Text → Dict Text Text → List Text
removed_ids old desired = keep_if (λ id. not (has id desired)) (keys old)

-- desired - old
unfoldable pub fresh_ids : Dict Text Text → Dict Text Text → List Text
fresh_ids old desired = keep_if (λ id. not (has id old)) (keys desired)

unfoldable pub needs_rebuild : Workspace → Dict Text Text → Bool
needs_rebuild ws desired =
    ws.dirty
    || not (is_empty (changed_ids ws.case_hashes desired))
    || not (is_empty (removed_ids ws.case_hashes desired))

unfoldable pub append_ids : Workspace → Dict Text Text → List Text
append_ids ws desired =
    if needs_rebuild ws desired then keys desired else fresh_ids ws.case_hashes desired

unfoldable pub sync_mode : Bool → Workspace → Dict Text Text → SyncMode
sync_mode is_new ws desired =
    if needs_rebuild ws desired
    then rebuilt
    else if is_new
    then created
    else if is_empty (append_ids ws desired)
    then reused
    else appended

module _ (World : Type 0) (execute : World → Text → Result (Unit {0}) × World) (c : Config) where
  pub record Lab : Type 0 where
    pub cache : Cache
    pub world : World

  abbrev pub Act : Type 0 → Type 0
  Act A = Lab → Result A × Lab

  abbrev pub continue : {A B : Type 0} → Result A × Lab → (A → Act B) → Result B × Lab
  continue (ok a, s) f = f a s
  continue (err e, s) f = (err e, s)

  unfoldable pub run : Text → Act (Unit {0})
  run command s = let (r, w) = execute s.world command in (r, record s { world = w })

  abbrev pub set_workspaces : Dict Text Workspace → Lab → Lab
  set_workspaces ws s = record s { cache = record s.cache { workspaces = ws } }

  abbrev pub workspaces_of : Lab → Dict Text Workspace
  workspaces_of s = s.cache.workspaces

  -- The loops of `_append_facts` over all facts, with the current batch.
  unfoldable pub append_loop : Text → List Text → ℕ → List Text → Act ℕ
  append_loop space batch appended_ [] s =
      if is_empty batch
      then (ok appended_, s)
      else continue (run (add_command space batch) s) (λ _ s'. (ok (appended_ + length batch), s'))
  append_loop space batch appended_ (fact ∷ facts) s =
      let batch' = batch ++ fact ∷ [] in
      let send =
        continue (run (add_command space batch') s)
          (λ _ s'. append_loop space [] (appended_ + length batch') facts s') in
      let wait = append_loop space batch' appended_ facts s in
      if nat_eq (length batch') c.batch_size then send else wait

  unfoldable pub append_facts : Text → List Text → Cases → Act ℕ
  append_facts space ids cases s = append_loop space [] 0 (facts_of cases (sort_by codes_leb ids)) s

  -- The mutation of the space: clear it for a rebuild, then append.
  unfoldable pub fill : Workspace → Cases → Dict Text Text → Act ℕ
  fill ws canonical desired s =
      let add = append_facts ws.space (append_ids ws desired) canonical in
      if needs_rebuild ws desired
      then continue (run (clear_command ws.space) s) (λ _ s'. add s')
      else add s

  -- After a failed mutation: forget a new workspace, and trust no old one until it is rebuilt.
  unfoldable pub give_up : Bool → Text → Workspace → Lab → Lab
  give_up is_new plan ws s =
      if is_new
      then (let s' = (run (clear_command ws.space) s).1 in
          set_workspaces (remove plan s'.cache.workspaces) s')
      else set_workspaces (put plan (record ws { dirty = true }) s.cache.workspaces) s

  abbrev pub sync_result : Bool → Text → Workspace → Cases → Dict Text Text → ℕ → ℕ → WorkspaceSync
  sync_result is_new plan ws canonical desired added plans = record {
    plan = plan;
    space = ws.space;
    mode = sync_mode is_new ws desired;
    reused_cases = if needs_rebuild ws desired then 0 else length ws.case_hashes;
    appended_cases = length (append_ids ws desired);
    total = length desired;
    removed = length (removed_ids ws.case_hashes desired);
    changed = length (changed_ids ws.case_hashes desired);
    appended_facts = added;
    total_facts = count_facts canonical;
    case_limit = c.max_cases_per_plan;
    fact_limit = c.max_facts_per_plan;
    cached_plan_limit = c.max_cached_plans;
    cached_plans_after_commit = plans;
  }

  -- What follows the mutation of the space: the except branch, or the commit.
  unfoldable pub settle :
      Bool → Text → Workspace → Cases → Result ℕ × Lab → Result WorkspaceSync × Lab
  settle is_new plan ws canonical (err e, s) = (err e, give_up is_new plan ws s)
  settle is_new plan ws canonical (ok added, s) =
      let desired = hashes_of c.hash canonical in
      let kept = put plan (record ws { case_hashes = desired; dirty = false }) s.cache.workspaces in
      (ok (sync_result is_new plan ws canonical desired added (length kept)), set_workspaces kept s)

  -- The part of `sync` from the comparison of the hashes on.
  unfoldable pub sync_space : Bool → Text → Workspace → Cases → Act WorkspaceSync
  sync_space is_new plan ws canonical s =
      settle is_new plan ws canonical (fill ws canonical (hashes_of c.hash canonical) s)

  abbrev pub plan_limit : Exn
  plan_limit = memory_error "PeTTa workspace cached-plan limit reached"

  abbrev pub new_workspace : Text → Lab → Workspace
  new_workspace plan s = record {
    space = new_space_name c (s.cache.sequence + 1) plan;
    case_hashes = [];
    dirty = false;
  }

  abbrev pub place_workspace : Text → Lab → Lab
  place_workspace plan s = record s {
    cache = record {
      workspaces = put plan (new_workspace plan s) s.cache.workspaces;
      sequence = s.cache.sequence + 1;
    };
  }

  -- What follows the binding of a new space.
  unfoldable pub after_bind :
      Text → Workspace → Cases → Result (Unit {0}) × Lab → Result WorkspaceSync × Lab
  after_bind plan ws canonical (err e, s) =
      (err e, set_workspaces (remove plan s.cache.workspaces) s)
  after_bind plan ws canonical (ok u, s) = sync_space true plan ws canonical s

  -- A new plan gets a space, which is bound before it is filled.
  unfoldable pub create_space : Text → Cases → Act WorkspaceSync
  create_space plan canonical s =
      if leb c.max_cached_plans (length s.cache.workspaces)
      then (err plan_limit, s)
      else after_bind plan (new_workspace plan s) canonical
          (run (bind_command (new_workspace plan s).space) (place_workspace plan s))

  unfoldable pub sync_plan : Text → Cases → Act WorkspaceSync
  sync_plan plan cases s =
      if not (has plan s.cache.workspaces) && leb c.max_cached_plans (length s.cache.workspaces)
      then (err plan_limit, s)
      else elim (normalize_cases c cases) [
        | err e ↦ (err e, s)
        | ok canonical ↦ elim (get plan s.cache.workspaces) [
          | none ↦ create_space plan canonical s
          | some ws ↦ sync_space false plan ws canonical s
        ]
      ]

  unfoldable pub sync : Text → Cases → Act WorkspaceSync
  sync raw_plan cases s = elim (validate_plan raw_plan) [
    | err e ↦ (err e, s)
    | ok plan ↦ sync_plan plan cases s
  ]

  -- The clearing of one plan's space; a failure marks it dirty.
  unfoldable pub clear_plan : Text → Workspace → Act (Unit {0})
  clear_plan plan ws s =
      let (r, s') = run (clear_command ws.space) s in
      elim r [
        | err e ↦
            (err e, set_workspaces (put plan (record ws { dirty = true }) s'.cache.workspaces) s')
        | ok u ↦ (ok tt, s')
      ]

  abbrev pub forget : Text → Act (Unit {0})
  forget plan s = (ok tt, set_workspaces (remove plan s.cache.workspaces) s)

  abbrev pub is_expected : Option Text → Text → Bool
  is_expected none space = true
  is_expected (some expected) space = expected == space

  unfoldable pub discard_found : Text → Option Text → Workspace → Act Bool
  discard_found plan expected ws s =
      if is_expected expected ws.space
      then continue (clear_plan plan ws s)
          (λ _ s1. continue (forget plan s1) (λ _ s2. (ok true, s2)))
      else (ok false, s)

  unfoldable pub discard : Text → Option Text → Act Bool
  discard raw_plan expected s = elim (validate_plan raw_plan) [
    | err e ↦ (err e, s)
    | ok plan ↦ elim (get plan s.cache.workspaces) [
      | none ↦ (ok false, s)
      | some ws ↦ discard_found plan expected ws s
    ]
  ]

  unfoldable pub rollback : WorkspaceSync → Act Bool
  rollback staged = discard staged.plan (some staged.space)

  unfoldable pub clear_found : Text → Workspace → Act ℕ
  clear_found plan ws s = continue (clear_plan plan ws s) (λ _ s'. (
    ok (length ws.case_hashes),
    set_workspaces (put plan (record ws { case_hashes = []; dirty = false }) s'.cache.workspaces)
        s',
  ))

  unfoldable pub clear : Text → Act ℕ
  clear raw_plan s = elim (validate_plan raw_plan) [
    | err e ↦ (err e, s)
    | ok plan ↦ elim (get plan s.cache.workspaces) [
      | none ↦ (ok 0, s)
      | some ws ↦ clear_found plan ws s
    ]
  ]

  unfoldable pub keep_set : List Text → Result (List Text)
  keep_set [] = ok []
  keep_set (raw ∷ raws) = elim (validate_plan raw) [
    | err e ↦ err e
    | ok plan ↦ elim (keep_set raws) [ err e ↦ err e | ok plans ↦ ok (plan ∷ plans) ]
  ]

  -- The loop of `prune` over the plans to forget, with those forgotten so far.
  unfoldable pub prune_loop : List Text → List Text → Act (List Text)
  prune_loop [] gone s = (ok gone, s)
  prune_loop (plan ∷ plans) gone s = elim (get plan s.cache.workspaces) [
    | none ↦ prune_loop plans gone s
    | some ws ↦
        continue (clear_plan plan ws s)
          (λ _ s1. continue (forget plan s1) (λ _ s2. prune_loop plans (gone ++ plan ∷ []) s2))
  ]

  unfoldable pub prune : List Text → Act (List Text)
  prune keep s = elim (keep_set keep) [
    | err e ↦ (err e, s)
    | ok kept ↦
        prune_loop (sort_by codes_leb (keep_if (λ p. not (elem p kept)) (keys s.cache.workspaces)))
          [] s
  ]

  unfoldable pub space_for : Text → Lab → Result (Option Text)
  space_for raw_plan s = elim (validate_plan raw_plan) [
    | err e ↦ err e
    | ok plan ↦ ok (elim (get plan s.cache.workspaces) [ none ↦ none | some ws ↦ some ws.space ])
  ]

-- The cached plans, sorted.
unfoldable pub plans : Cache → List Text
plans cache = sort_by codes_leb (keys cache.workspaces)
