-- ===== src/Quantiles/Sound.antt =====
-- The numbers that `fit` reads are finite, and so are what it computes from them; no tolerance or
-- scale is negative.
use symbolic_recommendation.Prelude.{
  ◌≡◌, refl, ◌∙◌, subst, Bool, true, false, ◌&&◌, Option, none, some, List, [], ◌∷◌, arith,
  if◌then◌else◌, all_true, all_true-append, Option-cases, Bool-cases, inl, inr, ok, >>=-eq-ok,
  if_err-eq-ok, ok-injective,
}
use symbolic_recommendation.Quantiles.{Floats}
use symbolic_recommendation.Quantiles.Laws.{FloatLaws}
use symbolic_recommendation.Quantiles.Encoder.{
  Raw, missing, flag, reads, RawPair, text_pair, wrong_size, pair, Complete, finite_number,
  or_largest, absolute_delta, maximum, minimum, training_scale_of, scale_relative_tolerance,
  bad_number, finite_numbers, weigh, complete_pair, read_pair, complete_pairs, endpoints, deltas,
}

module _ (fl : Floats) (laws : FloatLaws fl) where
  pub irreflexive : (a : fl.F) → fl.lt a a ≡ false
  irreflexive a = elim (Bool-cases (fl.lt a a)) [
    | inl above ↦ laws.asymmetric a a above
    | inr level ↦ level
  ]

  or_largest-finite : (x : fl.F) → fl.is_finite (or_largest fl x) ≡ true
  or_largest-finite x = ground (arith, laws.largest_finite)

  pub finite_number-finite :
      (r : Raw fl) (x : fl.F) → finite_number fl r ≡ some x → fl.is_finite x ≡ true
  unfolding finite_number
  finite_number-finite missing x h = cc
  finite_number-finite flag x h = cc
  finite_number-finite (reads none) x h = cc
  finite_number-finite (reads (some y)) x h = elim (Bool-cases (fl.is_finite y)) [
    | inl good ↦
        let made : some (if fl.eq y fl.zero_ then fl.zero_ else y) ≡ some x = rw good at h in
        ground (arith, laws.zero_finite)
    | inr bad ↦ cc (rw bad at h)
  ]

  abbrev pub both_finite : Complete fl → Bool
  both_finite c = fl.is_finite c.left && fl.is_finite c.right

  pub finite_numbers-finite :
      (raws : List (Raw fl)) → all_true fl.is_finite (finite_numbers fl raws) ≡ true
  unfolding finite_numbers all_true
  finite_numbers-finite [] = refl
  finite_numbers-finite (r ∷ raws) = elim (Option-cases (finite_number fl r)) [
    | inr (x, read) ↦
        rw read (ground (arith, finite_number-finite r x read, finite_numbers-finite raws))
    | inl nothing ↦ rw nothing (finite_numbers-finite raws)
  ]

  maximum-above :
      (best : fl.F) (xs : List fl.F)
      → fl.is_finite best ≡ true
      → all_true fl.is_finite xs ≡ true
      → (fl.is_finite (maximum fl best xs) ≡ true) × (fl.lt (maximum fl best xs) best ≡ false)
  unfolding maximum all_true
  maximum-above best [] f h = (f, irreflexive best)
  maximum-above best (x ∷ xs) f h = elim (Bool-cases (fl.lt best x)) [
    | inl up ↦
        let (fin, above) = maximum-above x xs (ground arith) (ground arith) in
        rw up (
          fin,
          laws.through best x (maximum fl x xs) f (ground arith) fin (laws.asymmetric best x up)
              above,
        )
    | inr down ↦ rw down (maximum-above best xs f (ground arith))
  ]

  minimum-below :
      (best : fl.F) (xs : List fl.F)
      → fl.is_finite best ≡ true
      → all_true fl.is_finite xs ≡ true
      → (fl.is_finite (minimum fl best xs) ≡ true) × (fl.lt best (minimum fl best xs) ≡ false)
  unfolding minimum all_true
  minimum-below best [] f h = (f, irreflexive best)
  minimum-below best (x ∷ xs) f h = elim (Bool-cases (fl.lt x best)) [
    | inl down ↦
        let (fin, below) = minimum-below x xs (ground arith) (ground arith) in
        rw down (
          fin,
          laws.through (minimum fl x xs) x best fin (ground arith) f below
              (laws.asymmetric x best down),
        )
    | inr up ↦ rw up (minimum-below best xs f (ground arith))
  ]

  -- The scale is finite and not negative.
  pub training_scale_of-good :
      (xs : List fl.F)
      → all_true fl.is_finite xs ≡ true
      → bad_number fl (training_scale_of fl xs) ≡ false
  unfolding training_scale_of all_true
  training_scale_of-good [] h = ground (arith, laws.zero_finite, irreflexive fl.zero_)
  training_scale_of-good (x ∷ []) h = ground (arith, laws.zero_finite, irreflexive fl.zero_)
  training_scale_of-good (x ∷ y ∷ ys) h =
      let fx : fl.is_finite x ≡ true = ground arith in
      let rest : all_true fl.is_finite (y ∷ ys) ≡ true = ground arith in
      let (fmax, above) = maximum-above x (y ∷ ys) fx rest in
      let (fmin, below) = minimum-below x (y ∷ ys) fx rest in
      let top = maximum fl x (y ∷ ys) in
      let bottom = minimum fl x (y ∷ ys) in
      ground (
        arith,
        laws.largest_finite,
        laws.largest_positive,
        laws.difference_positive top bottom fmax fmin
            (laws.through bottom x top fmin fx fmax below above),
      )

  pub scale_relative_tolerance-positive :
      (fraction scale : fl.F)
      → fl.lt fraction fl.zero_ ≡ false
      → fl.lt scale fl.zero_ ≡ false
      → fl.lt (scale_relative_tolerance fl fraction scale) fl.zero_ ≡ false
  unfolding scale_relative_tolerance
  scale_relative_tolerance-positive fraction scale f s =
      ground (
        arith,
        irreflexive fl.zero_,
        laws.largest_positive,
        laws.product_positive fraction scale f s,
      )

  weigh-finite :
      (l r : fl.F) (w : Option fl.F) (cs : List (Complete fl))
      → fl.is_finite l ≡ true
      → fl.is_finite r ≡ true
      → weigh fl l r w ≡ ok cs
      → all_true both_finite cs ≡ true
  unfolding all_true
  weigh-finite l r none cs fl_ fr h = cc
  weigh-finite l r (some w) cs fl_ fr h =
      let (_, h1) = if_err-eq-ok (fl.lt w fl.zero_) _ _ h in
      elim (Bool-cases (fl.eq w fl.zero_)) [
        | inl none_ ↦
            subst (λ xs. all_true both_finite xs ≡ true) (ok-injective (rw none_ at h1)) refl
        | inr one ↦
            subst (λ xs. all_true both_finite xs ≡ true) (ok-injective (rw one at h1))
              (ground (arith, fl_, fr))
      ]

  complete_pair-finite :
      (l r : Raw fl) (w : Raw fl) (cs : List (Complete fl))
      → complete_pair fl (finite_number fl l) (finite_number fl r) w ≡ ok cs
      → all_true both_finite cs ≡ true
  unfolding all_true
  complete_pair-finite l r w cs h = elim (Option-cases (finite_number fl l)) [
    | inl nothing ↦
        subst (λ xs. all_true both_finite xs ≡ true) (ok-injective (rw nothing at h)) refl
    | inr (x, left) ↦ elim (Option-cases (finite_number fl r)) [
      | inl nothing ↦
          subst (λ xs. all_true both_finite xs ≡ true) (ok-injective (rw (left, nothing) at h)) refl
      | inr (y, right) ↦
          weigh-finite x y (finite_number fl w) cs (finite_number-finite l x left)
            (finite_number-finite r y right) (rw (left, right) at h)
    ]
  ]

  read_pair-finite :
      (p : RawPair fl) (w : Raw fl) (cs : List (Complete fl))
      → read_pair fl p w ≡ ok cs
      → all_true both_finite cs ≡ true
  read_pair-finite text_pair w cs h = cc
  read_pair-finite wrong_size w cs h = cc
  read_pair-finite (pair l r) w cs h = complete_pair-finite l r w cs h

  pub complete_pairs-finite :
      (pairs : List (RawPair fl)) (weights : List (Raw fl)) (cs : List (Complete fl))
      → complete_pairs fl pairs weights ≡ ok cs
      → all_true both_finite cs ≡ true
  unfolding complete_pairs all_true
  complete_pairs-finite [] weights cs h =
      subst (λ xs. all_true both_finite xs ≡ true) (ok-injective h) refl
  complete_pairs-finite (p ∷ pairs) [] cs h =
      subst (λ xs. all_true both_finite xs ≡ true) (ok-injective h) refl
  complete_pairs-finite (p ∷ pairs) (w ∷ weights) cs h =
      let (c, first, h1) = >>=-eq-ok (read_pair fl p w) _ h in
      let (rest, others, h2) = >>=-eq-ok (complete_pairs fl pairs weights) _ h1 in
      subst (λ xs. all_true both_finite xs ≡ true) (ok-injective h2)
        (all_true-append both_finite c rest
          ∙ ground (
            arith,
            read_pair-finite p w c first,
            complete_pairs-finite pairs weights rest others,
          ))

  pub endpoints-finite :
      (cs : List (Complete fl))
      → all_true both_finite cs ≡ true
      → all_true fl.is_finite (endpoints fl cs) ≡ true
  unfolding endpoints all_true
  endpoints-finite [] h = refl
  endpoints-finite (c ∷ cs) h = ground (arith, endpoints-finite cs)

  pub deltas-finite : (cs : List (Complete fl)) → all_true fl.is_finite (deltas fl cs) ≡ true
  unfolding absolute_delta all_true
  deltas-finite [] = refl
  deltas-finite (c ∷ cs) =
      ground (arith, or_largest-finite (fl.abs (fl.sub c.left c.right)), deltas-finite cs)
