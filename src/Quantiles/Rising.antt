-- ===== src/Quantiles/Rising.antt =====
-- `_distinct_quantile_thresholds` always returns: thresholds that rise, fewer than the bins.
use symbolic_recommendation.Prelude.{
  ℕ, suc, ◌-◌, ◌≤◌, ◌<◌, ◌≡◌, refl, sym, ◌∙◌, ap, subst, true, false, ◌||◌, Option, List, [], ◌∷◌,
  arith, ltb, leb, nat_eq, length, is_empty, elem, nat_keys, IsDistinct, all_true, all_true-sort_by,
  sort_by, IsOrdered, elem-sort_by, sort_by-IsOrdered, sort_by-IsDistinct, sort_by_within-IsOrdered,
  length-sort_by, Bool-cases, inl, inr, ok,
}
use symbolic_recommendation.Quantiles.{
  Floats, item_at, not_above, zip_weights, eligible, accumulate, last_of, values_at, cut, ones,
  weights_of, distinct_quantile_thresholds,
}
use symbolic_recommendation.Quantiles.Laws.{
  FloatLaws, item_at-below, all_true-item_at, all_true-elem, elem-apart, item_at-IsOrdered,
}
use symbolic_recommendation.Quantiles.Cuts.{
  Cut, Selected, all_finite, eligible-apart, select_cuts-Selected,
}

module _ (fl : Floats) where
  -- Thresholds of at most `bins` bins.
  pub record Thresholds (bins : ℕ) (cuts : List fl.F) : Type 0 where
    pub finite : all_true fl.is_finite cuts ≡ true
    pub rising : IsOrdered fl.lt cuts
    pub few : length cuts < bins

  record ReadsCuts (ordered : List (fl.F × fl.F)) (indices : List ℕ) (cuts : List fl.F)
      : Type 0 where
    reads : values_at fl ordered indices ≡ ok cuts
    as_many : length cuts ≡ length indices
    all_are_finite : all_true fl.is_finite cuts ≡ true
    all_above :
        (x : fl.F)
        → ((k : ℕ) (c : fl.F × fl.F)
            → elem k indices ≡ true
            → item_at ordered k ≡ ok c
            → fl.lt x c.0 ≡ true)
        → all_true (fl.lt x) cuts ≡ true
    rise : IsOrdered fl.lt cuts

  length-accumulate :
      (running : fl.F) (ordered : List (fl.F × fl.F))
      → length (accumulate fl running ordered) ≡ length ordered
  unfolding accumulate
  length-accumulate running [] = refl
  length-accumulate running (p ∷ rest) = omega (arith, length-accumulate (fl.add running p.1) rest)

  length-zip_weights :
      (values weights : List fl.F) → length (zip_weights fl values weights) ≤ length values
  unfolding zip_weights
  length-zip_weights [] weights = omega arith
  length-zip_weights (v ∷ values) [] = omega arith
  length-zip_weights (v ∷ values) (w ∷ weights) = omega (arith, length-zip_weights values weights)

  all_finite-zip_weights :
      (values weights : List fl.F)
      → all_true fl.is_finite values ≡ true
      → all_finite fl (zip_weights fl values weights) ≡ true
  unfolding zip_weights all_true
  all_finite-zip_weights [] weights h = refl
  all_finite-zip_weights (v ∷ values) [] h = refl
  all_finite-zip_weights (v ∷ values) (w ∷ weights) h =
      ground (arith, all_finite-zip_weights values weights)

  pub length-ones : (values : List fl.F) → length (ones fl values) ≡ length values
  unfolding ones
  length-ones [] = refl
  length-ones (v ∷ values) = omega (arith, length-ones values)

module _ (fl : Floats) (laws : FloatLaws fl) where
  empty-Thresholds : (bins : ℕ) → 0 < bins → Thresholds fl bins []
  unfolding all_true
  empty-Thresholds bins h = record { finite = refl; rising = tt; few = h }

  leb_total : (a b : ℕ) → leb a b ≡ false → leb b a ≡ true
  leb_total a b h = ground arith

  leb_through : (a b c : ℕ) → leb a b ≡ true → leb b c ≡ true → leb a c ≡ true
  leb_through a b c h g = ground arith

  empty-Selected : {indices : List ℕ} → Selected indices 0 []
  empty-Selected = record { distinct = tt; among = λ i h. cc; few = omega arith }

  -- a ≤ b < c
  above_through :
      (a b c : fl.F)
      → fl.is_finite a ≡ true
      → fl.is_finite b ≡ true
      → fl.is_finite c ≡ true
      → fl.lt b a ≡ false
      → fl.lt b c ≡ true
      → fl.lt a c ≡ true
  above_through a b c fa fb fc h g = elim (Bool-cases (fl.lt a c)) [
    | inl up ↦ up
    | inr down ↦ cc (laws.through c a b fc fa fb down h)
  ]

  module _ (ordered : List (fl.F × fl.F)) (sorted : IsOrdered (not_above fl) ordered)
      (finite : all_finite fl ordered ≡ true) where
    finite_at : (i : ℕ) (a : fl.F × fl.F) → item_at ordered i ≡ ok a → fl.is_finite a.0 ≡ true
    finite_at i a e = all_true-item_at (λ p. fl.is_finite p.0) ordered i a finite e

    -- The value at a later cut is above that at an earlier one.
    cuts_rise :
        (j k : ℕ) (a c : fl.F × fl.F)
        → Cut fl ordered k
        → j < k
        → item_at ordered j ≡ ok a
        → item_at ordered k ≡ ok c
        → fl.lt a.0 c.0 ≡ true
    cuts_rise j k a c cut h e f =
        let same : cut.high ≡ c = cc (cut.at_j, f) in
        let up : fl.lt cut.low.0 c.0 ≡ true =
          subst (λ p. fl.lt cut.low.0 p.0 ≡ true) same cut.rising in
        elim (Bool-cases (ltb j cut.before)) [
          | inl far ↦
              above_through a.0 cut.low.0 c.0 (finite_at j a e)
                (finite_at cut.before cut.low cut.at_before) (finite_at k c f)
                (let n =
                    item_at-IsOrdered (not_above fl) ordered j cut.before a cut.low sorted
                      (ground (arith, far)) e cut.at_before in
                  ground (arith, n))
                up
          | inr near ↦
              let here : j ≡ cut.before = ground (arith, near, cut.after) in
              let there : item_at ordered cut.before ≡ ok a = ap (item_at ordered) (sym here) ∙ e in
              let equal_ : cut.low ≡ a = cc (cut.at_before, there) in
              subst (λ p. fl.lt p.0 c.0 ≡ true) equal_ up
        ]

    values_at-ReadsCuts :
        (indices : List ℕ)
        → IsOrdered leb indices
        → IsDistinct indices
        → ((k : ℕ) → elem k indices ≡ true → Cut fl ordered k)
        → (cuts : List fl.F) × ReadsCuts fl ordered indices cuts
    unfolding values_at all_true
    values_at-ReadsCuts [] o d h = (
      [],
      record {
        reads = refl;
        as_many = refl;
        all_are_finite = refl;
        all_above = λ x g. refl;
        rise = tt;
      },
    )
    values_at-ReadsCuts (j ∷ indices) o d h =
        let cut = h j (ground arith) in
        let (cuts, v) = values_at-ReadsCuts indices o.1 d.1 (λ k m. h k (ground arith)) in
        (
          cut.high.0 ∷ cuts,
          record {
            reads = rw (cut.at_j, v.reads) refl;
            as_many = omega (arith, v.as_many);
            all_are_finite = ground (arith, finite_at j cut.high cut.at_j, v.all_are_finite);
            all_above = λ x g. ground (
              arith,
              g j cut.high (ground arith) cut.at_j,
              v.all_above x (λ k c m e. g k c (ground arith) e),
            );
            rise = (
              v.all_above cut.high.0 (λ k c m e.
                  cuts_rise j k cut.high c (h k (ground arith))
                    (let le_ = all_true-elem (leb j) indices k o.0 m in
                      let apart : nat_eq j k ≡ false = elem-apart j k indices d.0 m in
                      ground (arith, le_, apart))
                    cut.at_j e),
              v.rise,
            );
          },
        )

    -- Where the tolerances are not negative, the values rise at every eligible index.
    eligible-Cut :
        (relative absolute : fl.F) (j : ℕ)
        → fl.lt relative fl.zero_ ≡ false
        → fl.lt absolute fl.zero_ ≡ false
        → elem j (eligible fl relative absolute ordered) ≡ true
        → Cut fl ordered j
    eligible-Cut relative absolute j r t h =
        let (m, a, b, after, at_m, at_next, far) =
          eligible-apart fl relative absolute j ordered h in
        let down =
          item_at-IsOrdered (not_above fl) ordered m (suc m) a b sorted (omega arith) at_m
            at_next in
        elim (Bool-cases (fl.lt a.0 b.0)) [
          | inl up ↦ record {
            before = m;
            after = after;
            low = a;
            high = b;
            at_before = at_m;
            at_j = ap (item_at ordered) after ∙ at_next;
            rising = up;
          }
          | inr level ↦ cc (
            laws.equal_close relative absolute a.0 b.0 r t (finite_at m a at_m)
                (finite_at (suc m) b at_next) level (ground (arith, down)),
            far,
          )
        ]

    eligible-in_range :
        (relative absolute : fl.F) (j : ℕ)
        → elem j (eligible fl relative absolute ordered) ≡ true
        → j - 1 < length (accumulate fl fl.zero_ ordered)
    eligible-in_range relative absolute j h =
        let (m, a, b, after, at_m, at_next, far) =
          eligible-apart fl relative absolute j ordered h in
        omega (arith, after, item_at-below ordered m a at_m, length-accumulate fl fl.zero_ ordered)

    cut-Thresholds :
        (relative absolute : fl.F) (bins : ℕ)
        → 0 < bins
        → fl.lt relative fl.zero_ ≡ false
        → fl.lt absolute fl.zero_ ≡ false
        → (cuts : List fl.F) × (cut fl relative absolute bins ordered ≡ ok cuts)
          × Thresholds fl bins cuts
    unfolding cut
    cut-Thresholds relative absolute bins one r t =
        let indices = eligible fl relative absolute ordered in
        let cumulative = accumulate fl fl.zero_ ordered in
        let total = last_of fl fl.zero_ cumulative in
        elim (Bool-cases (is_empty indices)) [
          | inl bare ↦ ([], rw bare refl, empty-Thresholds bins one)
          | inr some_ ↦ elim (Bool-cases (fl.le total fl.zero_)) [
            | inl weightless ↦ ([], rw (some_, weightless) refl, empty-Thresholds bins one)
            | inr weighted ↦
                let (selected, chosen, s) =
                  select_cuts-Selected fl cumulative indices total bins (bins - 1) 0 [] some_
                    (λ j. eligible-in_range relative absolute j) empty-Selected in
                let (cuts, v) =
                  values_at-ReadsCuts (sort_by leb selected)
                    (sort_by-IsOrdered leb leb_total leb_through selected)
                    (sort_by-IsDistinct leb selected s.distinct)
                    (λ k m.
                      eligible-Cut relative absolute k r t
                        (s.among k (sym (elem-sort_by leb k selected) ∙ m))) in
                (
                  cuts,
                  rw (some_, weighted, chosen) v.reads,
                  record {
                    finite = v.all_are_finite;
                    rising = v.rise;
                    few = omega (arith, v.as_many, length-sort_by leb selected, s.few);
                  },
                )
          ]
        ]

  -- Of finite values, with tolerances that are not negative and as many weights as values, one or more
  -- bins: the cuts are found, whatever the weights, and are finite, rise and are fewer than the bins.
  pub distinct_quantile_thresholds-Thresholds :
      (values : List fl.F) (bins : ℕ) (weights : Option (List fl.F)) (relative absolute : fl.F)
      → all_true fl.is_finite values ≡ true
      → length (weights_of fl values weights) ≡ length values
      → 0 < bins
      → fl.lt relative fl.zero_ ≡ false
      → fl.lt absolute fl.zero_ ≡ false
      → (cuts : List fl.F) × (distinct_quantile_thresholds fl values bins weights relative absolute
          ≡ ok cuts)
        × Thresholds fl bins cuts
  unfolding distinct_quantile_thresholds
  distinct_quantile_thresholds-Thresholds values bins weights relative absolute f l one r t =
      let given = weights_of fl values weights in
      let rows = zip_weights fl values given in
      let ordered = sort_by (not_above fl) rows in
      let finite = all_finite-zip_weights fl values given f in
      let same : nat_eq (length given) (length values) ≡ true = ground (arith, l) in
      elim (Bool-cases (ltb (length ordered) 2 || leb bins 1)) [
        | inl few ↦ ([], rw (same, few) refl, empty-Thresholds bins one)
        | inr many ↦
            let (cuts, found, h) =
              cut-Thresholds ordered
                (sort_by_within-IsOrdered (not_above fl) (λ p. fl.is_finite p.0)
                  (λ a b fa fb h. ground (arith, laws.asymmetric a.0 b.0, laws.asymmetric b.0 a.0))
                  (λ a b c fa fb fc h g. ground (arith, laws.through a.0 b.0 c.0 fa fb fc)) rows
                  finite)
                (all_true-sort_by (λ (p : fl.F × fl.F). fl.is_finite p.0) (not_above fl) rows
                  ∙ finite)
                relative absolute bins one r t in
            (cuts, rw (same, many) found, h)
      ]
