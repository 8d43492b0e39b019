-- ===== src/Quantiles/Restore.antt =====
-- An encoder comes back from its metadata as it was.
use symbolic_recommendation.Prelude.{
  ℕ, ◌+◌, ◌≡◌, refl, sym, ap, true, false, not, ◌||◌, some, List, [], ◌∷◌, ◌++◌, map, arith, ltb,
  nat_eq, length, is_empty, all_true, any_true, Bool-cases, inl, inr, code_keys, ok, if_err-eq-ok,
}
use symbolic_recommendation.Metta.{strip}
use symbolic_recommendation.Quantiles.{Floats}
use symbolic_recommendation.Quantiles.Laws.{FloatLaws}
use symbolic_recommendation.Quantiles.Encoder.{
  reads, Encoder, finite_number, positive_zero, falls_back, bad_number, post_init, check_fields,
}
use symbolic_recommendation.Quantiles.Metadata.{
  cuts_data, to_metadata, finite_items, validated_thresholds, match_counts, restore, from_metadata,
}

module _ (fl : Floats) (laws : FloatLaws fl) where
  any_true-none :
      (xs ys : List fl.F)
      → any_true (λ x. not (fl.is_finite x)) (xs ++ ys) ≡ false
      → (all_true fl.is_finite xs ≡ true) × (all_true fl.is_finite ys ≡ true)
  unfolding any_true all_true
  any_true-none [] [] h = (refl, refl)
  any_true-none [] (y ∷ ys) h = (refl, ground (arith, any_true-none [] ys))
  any_true-none (x ∷ xs) ys h =
      (ground (arith, any_true-none xs ys), (any_true-none xs ys (ground arith)).1)

  positive_zero-same : (x : fl.F) → positive_zero fl x ≡ x
  positive_zero-same x = elim (Bool-cases (fl.eq x fl.zero_)) [
    | inl here ↦ rw here (sym (laws.one_zero x here))
    | inr other ↦ rw other refl
  ]

  finite_items-same :
      (xs : List fl.F)
      → all_true fl.is_finite xs ≡ true
      → finite_items fl (map (λ x. reads (some x)) xs) ≡ ok xs
  unfolding finite_items finite_number all_true
  finite_items-same [] h = refl
  finite_items-same (x ∷ xs) h =
      let fine : fl.is_finite x ≡ true = ground arith in
      let rest = finite_items-same xs (ground arith) in
      rw (fine, rest) (ap (λ y. ok (y ∷ xs)) (positive_zero-same x))

  validated_thresholds-same :
      (xs : List fl.F) (count : ℕ)
      → all_true fl.is_finite xs ≡ true
      → falls_back fl xs ≡ false
      → validated_thresholds fl (cuts_data fl xs count).thresholds ≡ ok xs
  unfolding validated_thresholds
  validated_thresholds-same xs count f h = rw (finite_items-same xs f, h) refl

  -- What the checks of an encoder say of its thresholds.
  post_init-thresholds :
      (e : Encoder fl)
      → post_init fl e ≡ ok e
      → (all_true fl.is_finite e.scalar_thresholds ≡ true)
        × (all_true fl.is_finite e.delta_thresholds ≡ true)
        × (falls_back fl e.scalar_thresholds ≡ false)
        × (falls_back fl e.delta_thresholds ≡ false)
  unfolding check_fields
  post_init-thresholds e h =
      let (_, h1) = if_err-eq-ok (is_empty (strip e.feature)) _ _ h in
      let (_, h2) = if_err-eq-ok (ltb e.requested_bins 1) _ _ h1 in
      let (_, h3) = if_err-eq-ok (bad_number fl e.training_scale) _ _ h2 in
      let (_, h4) = if_err-eq-ok (bad_number fl e.relative_tolerance) _ _ h3 in
      let (_, h5) = if_err-eq-ok (bad_number fl e.scale_tolerance) _ _ h4 in
      let (finite, h6) =
        if_err-eq-ok
          (any_true (λ x. not (fl.is_finite x)) (e.scalar_thresholds ++ e.delta_thresholds)) _ _
          h5 in
      let (rising, h7) =
        if_err-eq-ok (falls_back fl e.scalar_thresholds || falls_back fl e.delta_thresholds) _ _
          h6 in
      let (fs, fd) = any_true-none e.scalar_thresholds e.delta_thresholds finite in
      (fs, fd, ground (arith, rising), ground (arith, rising))

  match_counts-same :
      (e : Encoder fl)
      → match_counts fl
          (cuts_data fl e.scalar_thresholds e.scalar_sample_count)
          (cuts_data fl e.delta_thresholds e.delta_sample_count)
          e
        ≡ ok e
  match_counts-same e =
      let s = length e.scalar_thresholds + 1 in
      let d = length e.delta_thresholds + 1 in
      let same_s : nat_eq s s ≡ true = ground arith in
      let same_d : nat_eq d d ≡ true = ground arith in rw (same_s, same_d) refl

  -- The metadata of an encoder that has passed its checks gives back that encoder.
  pub from_metadata-to_metadata :
      (e : Encoder fl) → post_init fl e ≡ ok e → from_metadata fl (to_metadata fl e) ≡ ok e
  unfolding from_metadata to_metadata restore
  from_metadata-to_metadata e h =
      let (fs, fd, rs, rd) = post_init-thresholds e h in
      rw
        (
          validated_thresholds-same e.scalar_thresholds e.scalar_sample_count fs rs,
          validated_thresholds-same e.delta_thresholds e.delta_sample_count fd rd,
          h,
        )
        (match_counts-same e)
