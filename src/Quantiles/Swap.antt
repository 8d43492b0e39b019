-- ===== src/Quantiles/Swap.antt =====
-- The symbol of a pair says which of the two is which: swapping the pair swaps the sides of the symbol.
use symbolic_recommendation.Prelude.{
  ◌≡◌, refl, sym, ◌∙◌, ap, true, false, some, arith, ltb, is_empty, Bool-cases, Option-cases, inl,
  inr, ok, if_err-eq-ok,
}
use symbolic_recommendation.Metta.{strip}
use symbolic_recommendation.Quantiles.{Floats}
use symbolic_recommendation.Quantiles.Laws.{FloatLaws}
use symbolic_recommendation.Quantiles.Sound.{
  finite_number-finite, scale_relative_tolerance-positive,
}
use symbolic_recommendation.Quantiles.Encoder.{
  Raw, Encoder, finite_number, absolute_delta, or_largest, bad_number, post_init, check_fields,
  PairLabel, unknown_pair, left_known, right_known, equal, left_bucket, right_bucket,
  absolute_tolerance, label_pair, encode_pair,
}

module _ (fl : Floats) where
  -- The symbol with left for right.
  abbrev pub other_way : PairLabel fl → PairLabel fl
  other_way unknown_pair = unknown_pair
  other_way left_known = right_known
  other_way right_known = left_known
  other_way equal = equal
  other_way (left_bucket n) = right_bucket n
  other_way (right_bucket n) = left_bucket n

module _ (fl : Floats) (laws : FloatLaws fl) where
  -- What the checks of an encoder say of its tolerances.
  post_init-good :
      (e : Encoder fl)
      → post_init fl e ≡ ok e
      → (bad_number fl e.training_scale ≡ false)
        × (bad_number fl e.relative_tolerance ≡ false)
        × (bad_number fl e.scale_tolerance ≡ false)
  unfolding check_fields
  post_init-good e h =
      let (_, h1) = if_err-eq-ok (is_empty (strip e.feature)) _ _ h in
      let (_, h2) = if_err-eq-ok (ltb e.requested_bins 1) _ _ h1 in
      let (scale, h3) = if_err-eq-ok (bad_number fl e.training_scale) _ _ h2 in
      let (relative, h4) = if_err-eq-ok (bad_number fl e.relative_tolerance) _ _ h3 in
      let (fraction, h5) = if_err-eq-ok (bad_number fl e.scale_tolerance) _ _ h4 in
      (scale, relative, fraction)

  absolute_delta-swap :
      (l r : fl.F)
      → fl.is_finite l ≡ true
      → fl.is_finite r ≡ true
      → absolute_delta fl r l ≡ absolute_delta fl l r
  unfolding absolute_delta
  absolute_delta-swap l r f g = ap (or_largest fl) (laws.size_swap r l g f)

  label_pair-swap :
      (e : Encoder fl) (l r : fl.F)
      → fl.is_finite l ≡ true
      → fl.is_finite r ≡ true
      → fl.lt e.relative_tolerance fl.zero_ ≡ false
      → fl.lt (absolute_tolerance fl e) fl.zero_ ≡ false
      → label_pair fl e (some r) (some l) ≡ other_way fl (label_pair fl e (some l) (some r))
  label_pair-swap e l r f g relative absolute =
      elim (Bool-cases (fl.is_close e.relative_tolerance (absolute_tolerance fl e) l r)) [
        | inl close ↦
            rw
              (
                close,
                sym (laws.close_swap e.relative_tolerance (absolute_tolerance fl e) l r) ∙ close,
              )
              refl
        | inr far ↦
            let far' =
              sym (laws.close_swap e.relative_tolerance (absolute_tolerance fl e) l r) ∙ far in
            let same = absolute_delta-swap l r f g in
            elim (Bool-cases (fl.lt l r)) [
              | inl up ↦ rw (far, far', up, laws.asymmetric l r up, same) refl
              | inr level ↦ elim (Bool-cases (fl.lt r l)) [
                | inl down ↦ rw (far, far', level, down, same) refl
                | inr level' ↦ cc (
                  laws.equal_close e.relative_tolerance (absolute_tolerance fl e) l r relative
                      absolute f g level level',
                  far,
                )
              ]
            ]
      ]

  -- For an encoder that has passed its checks and any two values, missing ones and what is not a number
  -- included: the symbol of the swapped pair is the symbol of the pair with left and right exchanged,
  -- the number of the bucket being the same.
  pub encode_pair-swap :
      (e : Encoder fl) (left right : Raw fl)
      → post_init fl e ≡ ok e
      → encode_pair fl e right left ≡ other_way fl (encode_pair fl e left right)
  unfolding encode_pair absolute_tolerance
  encode_pair-swap e left right h =
      let (scale, relative, fraction) = post_init-good e h in
      elim (Option-cases (finite_number fl left)) [
        | inl no_left ↦ elim (Option-cases (finite_number fl right)) [
          | inl no_right ↦ rw (no_left, no_right) refl
          | inr (r, read) ↦ rw (no_left, read) refl
        ]
        | inr (l, read) ↦ elim (Option-cases (finite_number fl right)) [
          | inl no_right ↦ rw (read, no_right) refl
          | inr (r, read') ↦
              rw (read, read')
                (label_pair-swap e l r (finite_number-finite fl laws left l read)
                  (finite_number-finite fl laws right r read') (ground (arith, relative))
                  (scale_relative_tolerance-positive fl laws e.scale_tolerance e.training_scale
                    (ground (arith, fraction)) (ground (arith, scale))))
        ]
      ]
