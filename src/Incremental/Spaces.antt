-- ===== src/Incremental/Spaces.antt =====
-- The delta spaces of `IncrementalFpMinerCache`: `_new_delta_space`, `_prepare_delta_space` and
-- `prune`. A raise leaves what was written before it, so the state comes back beside the error.
use symbolic_recommendation.Prelude.{
  ℕ, ◌+◌, ◌≡◌, refl, ◌∙◌, ap, Bool, true, false, not, ◌||◌, Option, none, some, List, [], ◌∷◌, ◌++◌,
  arith, keep_if, sort_by, elem, codes, codes_leb, code_keys, if◌then◌else◌, Exn, Result, ok, err,
  ◌⊎◌, inl, inr, ok-injective,
}
use symbolic_recommendation.Prelude.Dict.{Dict, keys, get, put, remove, has, get-put}
use symbolic_recommendation.Metta.{Text}
use symbolic_recommendation.Workspace.{
  Config, Cases, empty_cache, bind_command, clear_command, facts_of,
}
use symbolic_recommendation.Workspace.Sync.{append_loop, keep_set}
use symbolic_recommendation.Incremental.{PlanState}

pub record DeltaSpace : Type 0 where
  pub name : Text
  pub populated : Bool
  pub dirty : Bool

unfoldable pub delta_space_name : Config → ℕ → Text → Text
delta_space_name c sequence plan =
    codes "&rec_inc_"
    ++ (c.namespace ++ codes "_" ++ c.instance_id ++ codes "_")
    ++ (c.show sequence ++ (codes "_" ++ c.digest plan))

module _ (World : Type 0) (execute : World → Text → Result (Unit {0}) × World) (c : Config) where
  pub record Spaces : Type 0 where
    pub delta_spaces : Dict Text DeltaSpace
    pub sequence : ℕ
    pub world : World

  abbrev pub set_space : Text → DeltaSpace → World → Spaces → Spaces
  set_space plan delta w s = record s { delta_spaces = put plan delta s.delta_spaces; world = w }

  abbrev pub fresh_space : Text → Spaces → DeltaSpace
  fresh_space plan s = record {
    name = delta_space_name c (s.sequence + 1) plan;
    populated = false;
    dirty = false;
  }

  abbrev pub bound :
      Text → DeltaSpace → Spaces → Result (Unit {0}) × World → Result DeltaSpace × Spaces
  bound plan delta s (err x, w) = (err x, record s { sequence = s.sequence + 1; world = w })
  bound plan delta s (ok u, w) =
      (ok delta, set_space plan delta w (record s { sequence = s.sequence + 1 }))

  unfoldable pub new_delta_space : Text → Spaces → Result DeltaSpace × Spaces
  new_delta_space plan s =
      let delta = fresh_space plan s in
      bound plan delta s (execute s.world (bind_command delta.name))

  -- The batches of added facts, as the workspace cache sends them.
  abbrev pub add_facts : Text → List Text → World → Result ℕ × World
  add_facts space facts w =
      let (r, s) =
        append_loop World execute c space [] 0 facts (record { cache = empty_cache; world = w }) in
      (r, s.world)

  abbrev pub after_clear : Text → List Text → Result (Unit {0}) × World → Result ℕ × World
  after_clear space facts (err x, w) = (err x, w)
  after_clear space facts (ok u, w) = add_facts space facts w

  unfoldable pub fill_delta : DeltaSpace → List Text → World → Result ℕ × World
  fill_delta delta facts w =
      if delta.populated || delta.dirty
      then after_clear delta.name facts (execute w (clear_command delta.name))
      else add_facts delta.name facts w

  abbrev pub prepared : Text → DeltaSpace → Spaces → Result ℕ × World → Result Text × Spaces
  prepared plan delta s (err x, w) = (err x, set_space plan (record delta { dirty = true }) w s)
  prepared plan delta s (ok n, w) =
      (ok delta.name, set_space plan (record delta { populated = true; dirty = false }) w s)

  abbrev pub prepare_found : Text → List Text → Result DeltaSpace × Spaces → Result Text × Spaces
  prepare_found plan facts (err x, s) = (err x, s)
  prepare_found plan facts (ok delta, s) = prepared plan delta s (fill_delta delta facts s.world)

  abbrev pub find_delta_space : Text → Option DeltaSpace → Spaces → Result DeltaSpace × Spaces
  find_delta_space plan none s = new_delta_space plan s
  find_delta_space plan (some delta) s = (ok delta, s)

  unfoldable pub prepare_delta_space : Text → List Text → Cases → Spaces → Result Text × Spaces
  prepare_delta_space plan ids cases s =
      prepare_found plan (facts_of cases (sort_by codes_leb ids))
        (find_delta_space plan (get plan s.delta_spaces) s)

  -- A preparation that succeeds leaves a populated, clean entry under the returned name; one that
  -- fails leaves no entry or a dirty one.
  abbrev pub Prepared : Text → Result Text × Spaces → Type 0
  Prepared plan p =
      ((space : Text)
        → p.0 ≡ ok space
        → get plan p.1.delta_spaces
          ≡ some (record { name = space; populated = true; dirty = false }))
      × ((x : Exn)
          → p.0 ≡ err x
          → (get plan p.1.delta_spaces ≡ none)
            ⊎ ((delta : DeltaSpace) × (get plan p.1.delta_spaces ≡ some delta)
                × (delta.dirty ≡ true)))

  get-put_same :
      (plan : Text) (delta : DeltaSpace) (d : Dict Text DeltaSpace)
      → get plan (put plan delta d) ≡ some delta
  get-put_same plan delta d = ground (arith, get-put plan plan delta d, code_keys.beq_iff plan plan)

  prepared-Prepared :
      (plan : Text) (delta : DeltaSpace) (s : Spaces) (r : Result ℕ) (w : World)
      → Prepared plan (prepared plan delta s (r, w))
  prepared-Prepared plan delta s (err x) w = (
    λ space h. cc,
    λ y h. inr (_, get-put_same plan (record delta { dirty = true }) s.delta_spaces, refl),
  )
  prepared-Prepared plan delta s (ok n) w = (
    λ space h.
        get-put_same plan (record delta { populated = true; dirty = false }) s.delta_spaces
        ∙ ap (λ t. some (record { name = t; populated = true; dirty = false })) (ok-injective h),
    λ y h. cc,
  )

  prepare_bound-Prepared :
      (plan : Text) (facts : List Text) (delta : DeltaSpace) (s : Spaces) (r : Result (Unit {0}))
      (w : World)
      → get plan s.delta_spaces ≡ none
      → Prepared plan (prepare_found plan facts (bound plan delta s (r, w)))
  prepare_bound-Prepared plan facts delta s (err x) w absent = (λ space h. cc, λ y h. inl absent)
  prepare_bound-Prepared plan facts delta s (ok u) w absent =
      let s' = set_space plan delta w (record s { sequence = s.sequence + 1 }) in
      prepared-Prepared plan delta s' (fill_delta delta facts w).0 (fill_delta delta facts w).1

  prepare_found-Prepared :
      (plan : Text) (facts : List Text) (o : Option DeltaSpace) (s : Spaces)
      → get plan s.delta_spaces ≡ o
      → Prepared plan (prepare_found plan facts (find_delta_space plan o s))
  unfolding new_delta_space
  prepare_found-Prepared plan facts none s absent =
      let delta = fresh_space plan s in
      let p = execute s.world (bind_command delta.name) in
      prepare_bound-Prepared plan facts delta s p.0 p.1 absent
  prepare_found-Prepared plan facts (some delta) s there =
      let p = fill_delta delta facts s.world in prepared-Prepared plan delta s p.0 p.1

  -- However PeTTa answers: a preparation of a plan's delta space that returns a name leaves the
  -- plan's entry with that name, populated and clean, and one that raises leaves no entry or a dirty
  -- one.
  pub prepare_delta_space-Prepared :
      (plan : Text) (ids : List Text) (cases : Cases) (s : Spaces)
      → Prepared plan (prepare_delta_space plan ids cases s)
  unfolding prepare_delta_space
  prepare_delta_space-Prepared plan ids cases s =
      prepare_found-Prepared plan (facts_of cases (sort_by codes_leb ids)) (get plan s.delta_spaces)
        s refl

  abbrev pub must_clear : Option DeltaSpace → Bool
  must_clear none = false
  must_clear (some delta) = delta.populated

  abbrev pub clear_delta : Text → Option DeltaSpace → Spaces → Result (Unit {0}) × Spaces
  clear_delta plan none s = (ok tt, s)
  clear_delta plan (some delta) s =
      let (r, w) = execute s.world (clear_command delta.name) in
      (
        r,
        elim r [
          | ok u ↦ record s { world = w }
          | err x ↦ set_space plan (record delta { dirty = true }) w s
        ],
      )

  -- The loop of `prune`: each plan's populated delta space is cleared, and its states forgotten.
  module _ {K : Type 0} where
    abbrev pub prune_with :
        Text
        → Result (Unit {0}) × Spaces
        → (Spaces → (Result (List Text) × Dict Text (PlanState K)) × Spaces)
        → Dict Text (PlanState K)
        → (Result (List Text) × Dict Text (PlanState K)) × Spaces
    prune_with plan (err x, s) rest states = ((err x, states), s)
    prune_with plan (ok u, s) rest states =
        rest (record s { delta_spaces = remove plan s.delta_spaces })

    unfoldable pub prune_plans :
        List Text
        → List Text
        → Dict Text (PlanState K)
        → Spaces
        → (Result (List Text) × Dict Text (PlanState K)) × Spaces
    prune_plans [] gone states s = ((ok gone, states), s)
    prune_plans (plan ∷ plans) gone states s =
        let found = get plan s.delta_spaces in
        prune_with plan (if must_clear found then clear_delta plan found s else (ok tt, s))
          (prune_plans plans (gone ++ plan ∷ []) (remove plan states)) states

    unfoldable pub prune_deltas :
        List Text
        → Dict Text (PlanState K)
        → Spaces
        → (Result (List Text) × Dict Text (PlanState K)) × Spaces
    prune_deltas keep states s = elim (keep_set World execute c keep) [
      | err x ↦ ((err x, states), s)
      | ok kept ↦
          prune_plans
            (sort_by codes_leb (
              keep_if (λ p. not (elem p kept))
                (keys states ++ keep_if (λ p. not (has p states)) (keys s.delta_spaces))))
            [] states s
    ]
