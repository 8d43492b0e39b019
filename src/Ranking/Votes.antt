-- ===== src/Ranking/Votes.antt =====
-- The totals of `_pairwise_rank` over the comparisons of a slate.
use symbolic_recommendation.Prelude.{
  ℕ, suc, Bool, true, not, ◌||◌, Option, none, some, List, [], ◌∷◌, ◌++◌, if◌then◌else◌, is_empty,
  code_keys, Result, ok, err, ◌>>=◌, key_error,
}
use symbolic_recommendation.Prelude.Dict.{Dict, get, put, keys}
use symbolic_recommendation.Metta.{Text}
use symbolic_recommendation.Quantiles.{Floats}
use symbolic_recommendation.Ranking.Plan.{Duel}
use symbolic_recommendation.Ranking.Margins.{
  update_at, repeat, or_else, sorted_texts, Proof, MarginCache, proof_dependency_margins, Clusters,
  family_of,
}

module _ (fl : Floats) where
  -- The variables of the loop over the comparisons, for a slate.
  pub record Totals : Type 0 where
    pub pair_totals : List fl.F
    pub comparison_counts : List ℕ
    pub covered : List ℕ
    pub directional_covered : List ℕ
    pub family_totals : Dict Text (List fl.F)
    pub margin_cache : MarginCache fl

  unfoldable pub empty_families : ℕ → List Text → Dict Text (List fl.F) → Dict Text (List fl.F)
  empty_families count [] totals = totals
  empty_families count (family ∷ families) totals =
      empty_families count families (put family (repeat fl.zero_ count) totals)

  abbrev pub dict_values : Dict Text Text → List Text
  dict_values [] = []
  dict_values ((k, v) ∷ d) = v ∷ dict_values d

  abbrev pub no_totals : ℕ → Clusters fl → MarginCache fl → Totals
  no_totals count c cache = record {
    pair_totals = repeat fl.zero_ count;
    comparison_counts = repeat 0 count;
    covered = repeat 0 count;
    directional_covered = repeat 0 count;
    family_totals = empty_families count (sorted_texts (dict_values c.families)) [];
    margin_cache = cache;
  }

  -- What the left row gains, the right row loses.
  unfoldable pub transfer : ℕ → ℕ → fl.F → List fl.F → Result (List fl.F)
  transfer left right margin totals = update_at (λ x. fl.add x margin) left totals >>= λ gained.
      update_at (λ x. fl.sub x margin) right gained

  -- The loop over the dependencies, with the total so far.
  unfoldable pub vote_each :
      ℕ
      → ℕ
      → ℕ
      → Clusters fl
      → Dict Text fl.F
      → Dict Text fl.F
      → List Text
      → fl.F
      → Dict Text (List fl.F)
      → Result (fl.F × Dict Text (List fl.F))
  vote_each count left right c forward reverse [] total families = ok (total, families)
  vote_each count left right c forward reverse (d ∷ dependencies) total families =
      let margin = fl.sub (or_else fl.zero_ (get d forward)) (or_else fl.zero_ (get d reverse)) in
      let family = family_of fl c.families d in
      transfer left right margin (or_else (repeat fl.zero_ count) (get family families)) >>= λ row.
      vote_each count left right c forward reverse dependencies (fl.add total margin)
        (put family row families)

  abbrev pub count_up : Bool → ℕ → List ℕ → Result (List ℕ)
  count_up counted i counts = update_at (λ n. if counted then suc n else n) i counts

  -- Both rows of a comparison.
  abbrev pub count_both : Bool → Bool → Duel → List ℕ → Result (List ℕ)
  count_both first second d counts =
      count_up first d.left counts >>= λ next. count_up second d.right next

  abbrev pub find_proofs : Option (List (Proof fl)) → Result (List (Proof fl))
  find_proofs none = err (key_error "case")
  find_proofs (some proofs) = ok proofs

  -- What the margins of a comparison change, where there are proofs for its orientations.
  unfoldable pub count_margins :
      ℕ
      → Clusters fl
      → Duel
      → Bool
      → Bool
      → Dict Text fl.F
      → Dict Text fl.F
      → Totals
      → Result Totals
  count_margins count c d some_forward some_reverse forward reverse t =
      let any_proof = some_forward || some_reverse in
      vote_each count d.left d.right c forward reverse (sorted_texts (keys forward ++ keys reverse))
        fl.zero_ t.family_totals
      >>= λ voted. transfer d.left d.right voted.0 t.pair_totals >>= λ pair_totals.
          count_both true true d t.comparison_counts >>= λ counts.
          count_both any_proof any_proof d t.covered >>= λ covered.
          count_both some_forward some_reverse d t.directional_covered >>= λ directional.
          ok (record t {
            pair_totals = pair_totals;
            comparison_counts = counts;
            covered = covered;
            directional_covered = directional;
            family_totals = voted.1;
          })

  -- The body of the loop over the comparisons.
  unfoldable pub vote :
      ℕ → Clusters fl → Dict Text (List (Proof fl)) → Duel → Totals → Result Totals
  vote count c proof_map d t = find_proofs (get d.forward_case proof_map) >>= λ forward_proofs.
      find_proofs (get d.reverse_case proof_map) >>= λ reverse_proofs.
      proof_dependency_margins fl t.margin_cache d.forward_case forward_proofs >>= λ forward.
      proof_dependency_margins fl forward.1 d.reverse_case reverse_proofs >>= λ reverse.
      count_margins count c d (not (is_empty forward_proofs)) (not (is_empty reverse_proofs))
        forward.0 reverse.0 (record t { margin_cache = reverse.1 })

  unfoldable pub vote_all :
      ℕ → Clusters fl → Dict Text (List (Proof fl)) → List Duel → Totals → Result Totals
  vote_all count c proof_map [] t = ok t
  vote_all count c proof_map (d ∷ duels) t =
      vote count c proof_map d t >>= λ next. vote_all count c proof_map duels next
