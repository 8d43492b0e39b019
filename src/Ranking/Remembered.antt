-- ===== src/Ranking/Remembered.antt =====
-- The cache of `_proof_dependency_margins`: while it has room, the margins of readable proofs are returned.
use symbolic_recommendation.Prelude.{
  ℕ, suc, ◌+◌, ◌≤◌, ◌≡◌, refl, Option, none, some, List, [], ◌∷◌, arith, leb, false, length, Result,
  ok, text_list_keys,
}
use symbolic_recommendation.Prelude.Dict.{Dict, get, put, length-put}
use symbolic_recommendation.Metta.{Text}
use symbolic_recommendation.Quantiles.{Floats}
use symbolic_recommendation.Ranking.Margins.{
  Proof, MarginCache, cache_key, margins_from, note_margin, log_odds, posterior_of,
  remember_margins, proof_dependency_margins,
}

module _ (fl : Floats) where
  -- The evidence sources of every proof can be read.
  abbrev pub AreReadable : List (Proof fl) → Type 0
  AreReadable [] = Unit
  AreReadable (p ∷ proofs) =
      ((dependencies : List Text) × (p.dependencies ≡ ok dependencies)) × AreReadable proofs

  -- There is room for more entries.
  abbrev pub HasRoom : ℕ → MarginCache fl → Type 0
  HasRoom more cache = length cache.margins + more ≤ cache.limit

  margins_from-returns :
      (proofs : List (Proof fl)) (margins : Dict Text fl.F)
      → AreReadable proofs
      → (found : Dict Text fl.F) × (margins_from fl proofs margins ≡ ok found)
  unfolding margins_from
  margins_from-returns [] margins h = (margins, refl)
  margins_from-returns (p ∷ proofs) margins ((dependencies, reads), h) =
      let margin = log_odds fl (posterior_of fl p.confidence p.strength) in
      let (found, loops) =
        margins_from-returns proofs (note_margin fl margin dependencies margins) h in
      (found, rw (reads, loops) refl)

  -- What is remembered is returned, and leaves the cache with room for the calls to come.
  abbrev pub Remembers : ℕ → Result (Dict Text fl.F × MarginCache fl) → Type 0
  Remembers more r =
      (margins : Dict Text fl.F) × (cache : MarginCache fl) × (r ≡ ok (margins, cache))
      × HasRoom more cache

  remember_margins-returns :
      (more : ℕ) (cache : MarginCache fl) (key : List Text) (proofs : List (Proof fl))
      (o : Option (Dict Text fl.F))
      → AreReadable proofs
      → HasRoom (suc more) cache
      → Remembers more (remember_margins fl cache key proofs o)
  remember_margins-returns more cache key proofs (some margins) h room =
      (margins, cache, refl, omega (arith, room))
  remember_margins-returns more cache key proofs none h room =
      let (margins, found) = margins_from-returns proofs [] h in
      let space : leb cache.limit (length cache.margins) ≡ false = ground (arith, room) in
      (
        margins,
        record cache { margins = put key margins cache.margins },
        rw (space, found) refl,
        ground (arith, room, length-put key margins cache.margins),
      )

  pub proof_dependency_margins-returns :
      (more : ℕ) (cache : MarginCache fl) (case : Text) (proofs : List (Proof fl))
      → AreReadable proofs
      → HasRoom (suc more) cache
      → Remembers more (proof_dependency_margins fl cache case proofs)
  unfolding proof_dependency_margins
  proof_dependency_margins-returns more cache case [] h room =
      ([], cache, refl, omega (arith, room))
  proof_dependency_margins-returns more cache case (p ∷ proofs) h room =
      let key = cache_key fl cache.version case (p ∷ proofs) in
      remember_margins-returns more cache key (p ∷ proofs) (get key cache.margins) h room
