-- ===== src/Ranking/Returns.antt =====
-- The tournament of a slate returns: its indices are in range, and it asks for proofs that are there.
use symbolic_recommendation.Prelude.{
  ℕ, suc, ◌+◌, subst, ◌<◌, ◌≡◌, refl, sym, ◌∙◌, Bool, true, not, ◌&&◌, ◌||◌, List, [], ◌∷◌, ◌++◌,
  map, length-map, arith, ltb, if◌then◌else◌, length, is_empty, all_true, code_keys, Option-cases,
  inl, inr, ok,
}
use symbolic_recommendation.Prelude.Dict.{
  Dict, get, put, has, keys, is_some-get, put-AllValues, get-AllValues, AllValues,
}
use symbolic_recommendation.Metta.{Text}
use symbolic_recommendation.Quantiles.{Floats}
use symbolic_recommendation.Ranking.Plan.{Duel}
use symbolic_recommendation.Ranking.Margins.{
  Proof, MarginCache, Clusters, half, max_of, sorted_texts,
}
use symbolic_recommendation.Ranking.Remembered.{
  AreReadable, HasRoom, proof_dependency_margins-returns,
}
use symbolic_recommendation.Ranking.Votes.{
  Totals, count_both, find_proofs, no_totals, count_margins, vote, vote_all, dict_values,
}
use symbolic_recommendation.Ranking.Tournament.{
  averages, family_weight, FamilyScores, score_families,
}
use symbolic_recommendation.Ranking.Sized.{
  Gives, update_at-Gives, length-repeat, midrank_scores-Gives, transfer-Gives, OfLength,
  vote_each-returns, empty_families-OfLength,
}

module _ (fl : Floats) where
  -- The totals of a slate of a size.
  pub record Fits (count : ℕ) (t : Totals fl) : Type 0 where
    pub totals_fit : length t.pair_totals ≡ count
    pub counts_fit : length t.comparison_counts ≡ count
    pub covered_fit : length t.covered ≡ count
    pub directional_fit : length t.directional_covered ≡ count
    pub families_fit : OfLength fl count t.family_totals

  -- A comparison of two places of the slate, whose cases have been asked for proofs.
  abbrev pub is_ready : ℕ → Dict Text (List (Proof fl)) → Duel → Bool
  is_ready count proof_map d =
      ltb d.left count
      && ltb d.right count
      && has d.forward_case proof_map
      && has d.reverse_case proof_map

  count_both-Gives :
      (first second : Bool) (d : Duel) (counts : List ℕ)
      → d.left < length counts
      → d.right < length counts
      → Gives (length counts) (count_both fl first second d counts)
  count_both-Gives first second d counts l r =
      let (next, found, same) = update_at-Gives (λ n. if first then suc n else n) d.left counts l in
      let (final, found', same') =
        update_at-Gives (λ n. if second then suc n else n) d.right next (omega (arith, same)) in
      (final, rw found found', same' ∙ same)

  found_proofs :
      (case : Text) (proof_map : Dict Text (List (Proof fl)))
      → has case proof_map ≡ true
      → AllValues (AreReadable fl) proof_map
      → (proofs : List (Proof fl)) × (find_proofs fl (get case proof_map) ≡ ok proofs)
        × AreReadable fl proofs
  found_proofs case proof_map h readable = elim (Option-cases (get case proof_map)) [
    | inl absent ↦ cc (is_some-get case proof_map, absent, h)
    | inr (proofs, there) ↦
        (proofs, rw there refl, get-AllValues (AreReadable fl) case proofs proof_map readable there)
  ]

  count_margins-Fits :
      (count : ℕ) (c : Clusters fl) (d : Duel) (some_forward some_reverse : Bool)
      (forward reverse : Dict Text fl.F) (t : Totals fl)
      → d.left < count
      → d.right < count
      → Fits count t
      → (next : Totals fl) × (count_margins fl count c d some_forward some_reverse forward reverse t
          ≡ ok next)
        × Fits count next
        × (next.margin_cache ≡ t.margin_cache)
  unfolding count_margins
  count_margins-Fits count c d some_forward some_reverse forward reverse t l r fits =
      let any_proof = some_forward || some_reverse in
      let (sum, voted, votes, of_length) =
        vote_each-returns fl count d.left d.right c forward reverse
          (sorted_texts (keys forward ++ keys reverse)) fl.zero_ t.family_totals l r
          fits.families_fit in
      let (totals, moved, same) =
        transfer-Gives fl d.left d.right sum t.pair_totals (omega (arith, l, fits.totals_fit))
          (omega (arith, r, fits.totals_fit)) in
      let (counts, counted, same1) =
        count_both-Gives true true d t.comparison_counts (omega (arith, l, fits.counts_fit))
          (omega (arith, r, fits.counts_fit)) in
      let (covered, covers, same2) =
        count_both-Gives any_proof any_proof d t.covered (omega (arith, l, fits.covered_fit))
          (omega (arith, r, fits.covered_fit)) in
      let (directional, directs, same3) =
        count_both-Gives some_forward some_reverse d t.directional_covered
          (omega (arith, l, fits.directional_fit)) (omega (arith, r, fits.directional_fit)) in
      (
        record t {
          pair_totals = totals;
          comparison_counts = counts;
          covered = covered;
          directional_covered = directional;
          family_totals = voted;
        },
        rw (votes, moved, counted, covers, directs) refl,
        record {
          totals_fit = same ∙ fits.totals_fit;
          counts_fit = same1 ∙ fits.counts_fit;
          covered_fit = same2 ∙ fits.covered_fit;
          directional_fit = same3 ∙ fits.directional_fit;
          families_fit = of_length;
        },
        refl,
      )

  vote-Fits :
      (count more : ℕ) (c : Clusters fl) (proof_map : Dict Text (List (Proof fl))) (d : Duel)
      (t : Totals fl)
      → is_ready count proof_map d ≡ true
      → AllValues (AreReadable fl) proof_map
      → HasRoom fl (suc (suc more)) t.margin_cache
      → Fits count t
      → (next : Totals fl) × (vote fl count c proof_map d t ≡ ok next)
        × Fits count next
        × HasRoom fl more next.margin_cache
  unfolding vote
  vote-Fits count more c proof_map d t h readable room fits =
      let (fp, at_forward, f_reads) =
        found_proofs d.forward_case proof_map (ground arith) readable in
      let (rp, at_reverse, r_reads) =
        found_proofs d.reverse_case proof_map (ground arith) readable in
      let (forward, half_way, remembers, room1) =
        proof_dependency_margins-returns fl (suc more) t.margin_cache d.forward_case fp f_reads
          room in
      let (reverse, cache, remembers1, room2) =
        proof_dependency_margins-returns fl more half_way d.reverse_case rp r_reads room1 in
      let (next, counted, fits', same) =
        count_margins-Fits count c d (not (is_empty fp)) (not (is_empty rp)) forward reverse
          (record t { margin_cache = cache }) (ground arith) (ground arith)
          (record {
            totals_fit = fits.totals_fit;
            counts_fit = fits.counts_fit;
            covered_fit = fits.covered_fit;
            directional_fit = fits.directional_fit;
            families_fit = fits.families_fit;
          }) in
      (
        next,
        rw (at_forward, at_reverse, remembers, remembers1) counted,
        fits',
        subst (HasRoom fl more) (sym same) room2,
      )

  pub vote_all-Fits :
      (count : ℕ) (c : Clusters fl) (proof_map : Dict Text (List (Proof fl))) (duels : List Duel)
      (t : Totals fl)
      → all_true (is_ready count proof_map) duels ≡ true
      → AllValues (AreReadable fl) proof_map
      → HasRoom fl (length duels + length duels) t.margin_cache
      → Fits count t
      → (next : Totals fl) × (vote_all fl count c proof_map duels t ≡ ok next) × Fits count next
  unfolding vote_all all_true
  vote_all-Fits count c proof_map [] t h readable room fits = (t, refl, fits)
  vote_all-Fits count c proof_map (d ∷ duels) t h readable room fits =
      let more = length duels + length duels in
      let (next, votes, fits', room') =
        vote-Fits count more c proof_map d t (ground arith) readable (omega (arith, room)) fits in
      let (final, loops, fits'') =
        vote_all-Fits count c proof_map duels next (ground arith) readable room' fits' in
      (final, rw votes loops, fits'')

  pub no_totals-Fits :
      (count : ℕ) (c : Clusters fl) (cache : MarginCache fl)
      → Fits count (no_totals fl count c cache)
  no_totals-Fits count c cache = record {
    totals_fit = length-repeat fl.zero_ count;
    counts_fit = length-repeat 0 count;
    covered_fit = length-repeat 0 count;
    directional_fit = length-repeat 0 count;
    families_fit =
        empty_families-OfLength fl count (sorted_texts (dict_values fl c.families)) [] tt;
  }

  pub length-averages :
      (totals : List fl.F) (counts : List ℕ)
      → length totals ≡ length counts
      → length (averages fl totals counts) ≡ length totals
  unfolding averages
  length-averages [] counts h = refl
  length-averages (t ∷ totals) [] h = absurd (omega (arith, h))
  length-averages (t ∷ totals) (n ∷ counts) h =
      omega (arith, length-averages totals counts (omega (arith, h)))

  -- The scores of every family are over the slate.
  pub record FamiliesFit (count : ℕ) (f : FamilyScores fl) : Type 0 where
    pub values_fit : OfLength fl count f.pair_values
    pub ranks_fit : OfLength fl count f.rank_scores

  pub score_families-Fit :
      (count : ℕ) (c : Clusters fl) (counts : List ℕ) (totals : Dict Text (List fl.F))
      (f : FamilyScores fl)
      → length counts ≡ count
      → OfLength fl count totals
      → FamiliesFit count f
      → (final : FamilyScores fl) × (score_families fl c counts totals f ≡ ok final)
        × FamiliesFit count final
  unfolding score_families
  score_families-Fit count c counts [] f n h fits = (f, refl, fits)
  score_families-Fit count c counts ((family, row) ∷ totals) f n h fits =
      let raw = averages fl row counts in
      let full : length raw ≡ count = length-averages row counts (h.0 ∙ sym n) ∙ h.0 in
      let weight = family_weight fl c.families family c.weights fl.zero_ in
      let family_max = max_of fl (fl.literal 1 12) weight in
      let value = λ (v : fl.F). fl.add (half fl) (fl.div (fl.mul (half fl) v) family_max) in
      let fit = λ (row : List fl.F). length row ≡ count in
      let (ranks, ranked, same) = midrank_scores-Gives fl raw in
      let (final, loops, fits') =
        score_families-Fit count c counts totals
          (record {
            pair_values = put family (map value raw) f.pair_values;
            rank_scores = put family ranks f.rank_scores;
          })
          n h.1
          (record {
            values_fit =
                put-AllValues fit family (map value raw) f.pair_values fits.values_fit
                  (length-map value raw ∙ full);
            ranks_fit = put-AllValues fit family ranks f.rank_scores fits.ranks_fit (same ∙ full);
          }) in
      (final, rw ranked loops, fits')
