-- ===== src/Ranking/Margins.antt =====
-- What the proofs of a pair say: `_proof_dependency_margins`, `_pair_rule_family` and the clusters of
-- rules. A proof is what the source's regular expressions read of its text.
use symbolic_recommendation.Prelude.{
  ℕ, zero, suc, Bool, false, not, ◌||◌, Option, none, some, List, [], ◌∷◌, ◌++◌, if◌then◌else◌,
  any_true, sort_by, elem, ◌==◌, code_keys, codes, codes_leb, Result, ok, err, ◌>>=◌, index_error,
  runtime_error, map, leb, length, text_list_keys,
}
use symbolic_recommendation.Prelude.Dict.{Dict, get, put, has}
use symbolic_recommendation.Metta.{Text, starts_with}
use symbolic_recommendation.Quantiles.{Floats}
use symbolic_recommendation.Ranking.{Premises}

-- list[index] = f(list[index])
unfoldable pub update_at {ℓ} : {A : Type ℓ} → (A → A) → ℕ → List A → Result (List A)
update_at f i [] = err (index_error "list index out of range")
update_at f zero (x ∷ xs) = ok (f x ∷ xs)
update_at f (suc i) (x ∷ xs) = update_at f i xs >>= λ rest. ok (x ∷ rest)

unfoldable pub repeat {ℓ} : {A : Type ℓ} → A → ℕ → List A
repeat x zero = []
repeat x (suc n) = x ∷ repeat x n

abbrev pub or_else {ℓ} : {A : Type ℓ} → A → Option A → A
or_else x none = x
or_else x (some y) = y

-- A set as the list of its members in the order of insertion.
unfoldable pub distinct_texts : List Text → List Text → List Text
distinct_texts seen [] = seen
distinct_texts seen (t ∷ ts) = distinct_texts (if elem t seen then seen else seen ++ t ∷ []) ts

-- sorted(set(...))
abbrev pub sorted_texts : List Text → List Text
sorted_texts ts = sort_by codes_leb (distinct_texts [] ts)

module _ (fl : Floats) where
  pub record Proof : Type 0 where
    pub proof_text : Text
    -- `proof_tv`
    pub strength : fl.F
    pub confidence : fl.F
    -- the evidence sources: its origin, that of a direct reconstruction, or its clusters; a direct
    -- reconstruction that cannot be read raises
    pub dependencies : Result (List Text)
    pub mined_ids : List Text
    -- the live negative rules that it cites
    pub feedback_ids : List Text

  -- A mined rule for pairs, with its `proof_` figures where it has them.
  pub record PairRule : Type 0 where
    pub rule_id : Text
    pub dependency_id : Option Text
    pub categorical_fact_family : Option Text
    pub dependency_owner : Option Text
    pub premises : Premises
    pub confidence : fl.F
    pub strength : fl.F

  abbrev pub max_of : fl.F → fl.F → fl.F
  max_of x y = if fl.lt x y then y else x

  abbrev pub min_of : fl.F → fl.F → fl.F
  min_of x y = if fl.lt y x then y else x

  abbrev pub half : fl.F
  half = fl.literal 5 1

  -- 0.5 + confidence * (strength - 0.5)
  unfoldable pub posterior_of : fl.F → fl.F → fl.F
  posterior_of confidence strength = fl.add half (fl.mul confidence (fl.sub strength half))

  unfoldable pub log_odds : fl.F → fl.F
  log_odds posterior =
      let e = fl.literal 1 9 in
      let bounded = max_of e (min_of (fl.sub fl.one_ e) posterior) in
      fl.log (fl.div bounded (fl.sub fl.one_ bounded))

  -- Of the margins of one evidence source, the first largest.
  abbrev pub dominant : fl.F → Option fl.F → fl.F
  dominant margin none = margin
  dominant margin (some previous) =
      if fl.lt (fl.abs previous) (fl.abs margin) then margin else previous

  unfoldable pub note_margin : fl.F → List Text → Dict Text fl.F → Dict Text fl.F
  note_margin margin [] margins = margins
  note_margin margin (d ∷ dependencies) margins =
      note_margin margin dependencies (put d (dominant margin (get d margins)) margins)

  unfoldable pub margins_from : List Proof → Dict Text fl.F → Result (Dict Text fl.F)
  margins_from [] margins = ok margins
  margins_from (p ∷ proofs) margins = p.dependencies >>= λ dependencies.
      margins_from proofs
        (note_margin (log_odds (posterior_of p.confidence p.strength)) dependencies margins)

  -- `_pair_margin_cache`, with `version` and the limit `max_proof_cache_entries`
  pub record MarginCache : Type 0 where
    pub version : ℕ
    pub limit : ℕ
    pub margins : Dict (List Text) (Dict Text fl.F)

  -- ("dependencies", version, case, tuple(proofs))
  abbrev pub cache_key : ℕ → Text → List Proof → List Text
  cache_key version case proofs = (version ∷ []) ∷ case ∷ map (λ (p : Proof). p.proof_text) proofs

  abbrev pub remember_margins :
      MarginCache
      → List Text
      → List Proof
      → Option (Dict Text fl.F)
      → Result (Dict Text fl.F × MarginCache)
  remember_margins cache key proofs (some margins) = ok (margins, cache)
  remember_margins cache key proofs none =
      if leb cache.limit (length cache.margins)
      then err (runtime_error "pair margin cache limit exceeded; promote a fresh rule snapshot")
      else (margins_from proofs [] >>= λ margins.
          ok (margins, record cache { margins = put key margins cache.margins }))

  -- `_proof_dependency_margins`, with the cache that it leaves
  unfoldable pub proof_dependency_margins :
      MarginCache → Text → List Proof → Result (Dict Text fl.F × MarginCache)
  proof_dependency_margins cache case [] = ok ([], cache)
  proof_dependency_margins cache case (p ∷ proofs) =
      let key = cache_key cache.version case (p ∷ proofs) in
      remember_margins cache key (p ∷ proofs) (get key cache.margins)

  abbrev pub is_text : Option Text → Text → Bool
  is_text none text = false
  is_text (some t) text = t == text

  abbrev pub is_text_predicate : Text → Bool
  is_text_predicate predicate =
      starts_with (codes "pair_text_semantic_") predicate
      || starts_with (codes "pair_llm_") predicate
      || predicate == codes "pair_rel_concept_continuity_scope"

  -- `_pair_rule_family`
  unfoldable pub pair_rule_family : PairRule → Text
  pair_rule_family r =
      if is_text r.categorical_fact_family (codes "llm_format")
        || is_text r.dependency_owner (codes "pair_text_semantic_top3_mean")
      then codes "text_semantic"
      else if any_true (λ p. is_text_predicate p.0) r.premises
      then codes "text_semantic"
      else codes "structured_symbolic"

  -- `dependency_families` and `cluster_weights`
  pub record Clusters : Type 0 where
    pub families : Dict Text Text
    pub weights : Dict Text fl.F

  abbrev pub add_cluster : PairRule → Clusters → Clusters
  add_cluster r c =
      let dependency = or_else r.rule_id r.dependency_id in
      let family = pair_rule_family r in
      let margin = fl.abs (log_odds (posterior_of r.confidence r.strength)) in
      record {
        families =
            if family == codes "text_semantic" || not (has dependency c.families)
            then put dependency family c.families
            else c.families;
        weights =
            put dependency (max_of (or_else fl.zero_ (get dependency c.weights)) margin) c.weights;
      }

  unfoldable pub clusters_from : List PairRule → Clusters → Clusters
  clusters_from [] c = c
  clusters_from (r ∷ rules) c = clusters_from rules (add_cluster r c)

  abbrev pub clusters_of : List PairRule → Clusters
  clusters_of rules = clusters_from rules (record { families = []; weights = [] })

  abbrev pub family_of : Dict Text Text → Text → Text
  family_of families dependency = or_else (codes "structured_symbolic") (get dependency families)
