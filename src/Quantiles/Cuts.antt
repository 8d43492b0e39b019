-- ===== src/Quantiles/Cuts.antt =====
-- The cuts of a training split: no cut parts equal values, each is above the one before it, and there
-- are fewer of them than bins.
use symbolic_recommendation.Prelude.{
  ℕ, zero, suc, ◌+◌, ◌-◌, ◌≤◌, ◌<◌, ◌≡◌, refl, subst, Bool, true, false, ◌||◌, List, [], ◌∷◌, arith,
  nat_eq, length, length-append, is_empty, elem, elem-append, ◌==◌, nat_keys, IsDistinct,
  IsDistinct-append_one, all_true, Bool-cases, ◌⊎◌, inl, inr, ok,
}
use symbolic_recommendation.Quantiles.{
  Floats, item_at, eligible_from, eligible, comes_before, better, nearest_from, nearest, add_index,
  select_cuts,
}
use symbolic_recommendation.Quantiles.Laws.{item_at-in_range}

-- What the loop over the quantiles selects.
pub record Selected (indices : List ℕ) (most : ℕ) (selected : List ℕ) : Type 0 where
  pub distinct : IsDistinct selected
  pub among : (i : ℕ) → elem i selected ≡ true → elem i indices ≡ true
  pub few : length selected ≤ most

add_index-Selected :
    (indices : List ℕ) (most i : ℕ) (selected : List ℕ)
    → elem i indices ≡ true
    → Selected indices most selected
    → Selected indices (suc most) (add_index i selected)
add_index-Selected indices most i selected m s = elim (Bool-cases (elem i selected)) [
  | inl old ↦ rw old (record { distinct = s.distinct; among = s.among; few = omega (arith, s.few) })
  | inr new ↦ rw new (record {
    distinct = IsDistinct-append_one i selected new s.distinct;
    among = λ k h. ground (arith, elem-append k selected (i ∷ []), s.among k);
    few = omega (arith, s.few, length-append selected (i ∷ []));
  })
]

module _ (fl : Floats) where
  -- Before the index `j`, the values rise.
  pub record Cut (ordered : List (fl.F × fl.F)) (j : ℕ) : Type 0 where
    pub before : ℕ
    pub after : j ≡ suc before
    pub low : fl.F × fl.F
    pub high : fl.F × fl.F
    pub at_before : item_at ordered before ≡ ok low
    pub at_j : item_at ordered j ≡ ok high
    pub rising : fl.lt low.0 high.0 ≡ true

  -- An eligible index is one of the list, after an element that is not close.
  eligible_from-apart :
      (relative absolute : fl.F) (i j : ℕ) (p : fl.F × fl.F) (rest : List (fl.F × fl.F))
      → elem j (eligible_from fl relative absolute i p.0 rest) ≡ true
      → (m : ℕ) × (a : fl.F × fl.F) × (b : fl.F × fl.F) × (j ≡ i + m)
        × (item_at (p ∷ rest) m ≡ ok a)
        × (item_at rest m ≡ ok b)
        × (fl.is_close relative absolute a.0 b.0 ≡ false)
  unfolding eligible_from item_at
  eligible_from-apart relative absolute i j p [] h = cc
  eligible_from-apart relative absolute i j p (x ∷ rest) h =
      elim (Bool-cases (fl.is_close relative absolute p.0 x.0)) [
        | inl close ↦
            let (m, a, b, e, low, high, far) =
              eligible_from-apart relative absolute (suc i) j x rest (rw close at h) in
            (suc m, a, b, omega (arith, e), low, high, far)
        | inr far ↦ elim (Bool-cases (nat_eq j i)) [
          | inl here ↦ (zero, p, x, ground arith, refl, refl, far)
          | inr there ↦
              let (m, a, b, e, low, high, far') =
                eligible_from-apart relative absolute (suc i) j x rest (ground arith) in
              (suc m, a, b, omega (arith, e), low, high, far')
        ]
      ]

  pub eligible-apart :
      (relative absolute : fl.F) (j : ℕ) (ordered : List (fl.F × fl.F))
      → elem j (eligible fl relative absolute ordered) ≡ true
      → (m : ℕ) × (a : fl.F × fl.F) × (b : fl.F × fl.F) × (j ≡ suc m)
        × (item_at ordered m ≡ ok a)
        × (item_at ordered (suc m) ≡ ok b)
        × (fl.is_close relative absolute a.0 b.0 ≡ false)
  unfolding item_at
  eligible-apart relative absolute j [] h = cc
  eligible-apart relative absolute j (p ∷ rest) h =
      let (m, a, b, after, at_m, at_next, far) =
        eligible_from-apart relative absolute 1 j p rest h in
      (m, a, b, omega (arith, after), at_m, at_next, far)

  abbrev pub all_finite : List (fl.F × fl.F) → Bool
  all_finite = all_true (λ p. fl.is_finite p.0)

  better-one : (best p : fl.F × ℕ) → ((better fl best p).1 ≡ best.1) ⊎ ((better fl best p).1 ≡ p.1)
  better-one best p = elim (Bool-cases (comes_before fl p best)) [
    | inl first ↦ inr (rw first refl)
    | inr later ↦ inl (rw later refl)
  ]

  -- Every choice is among the eligible indices, and there is one.
  nearest_from-elem :
      (cumulative : List fl.F) (target : fl.F) (best : fl.F × ℕ) (indices : List ℕ)
      → ((i : ℕ) → elem i indices ≡ true → i - 1 < length cumulative)
      → (i : ℕ) × (nearest_from fl cumulative target best indices ≡ ok i)
        × ((i == best.1 || elem i indices) ≡ true)
  unfolding nearest_from
  nearest_from-elem cumulative target best [] h = (best.1, refl, ground arith)
  nearest_from-elem cumulative target best (j ∷ indices) h =
      let (c, found) = item_at-in_range cumulative (j - 1) (h j (ground arith)) in
      let d = fl.abs (fl.sub c target) in
      let (i, chosen, e) =
        nearest_from-elem cumulative target (better fl best (d, j)) indices
          (λ k m. h k (ground arith)) in
      (i, rw found chosen, ground (arith, better-one best (d, j)))

  nearest-elem :
      (cumulative : List fl.F) (target : fl.F) (indices : List ℕ)
      → is_empty indices ≡ false
      → ((i : ℕ) → elem i indices ≡ true → i - 1 < length cumulative)
      → (i : ℕ) × (nearest fl cumulative target indices ≡ ok i) × (elem i indices ≡ true)
  unfolding nearest
  nearest-elem cumulative target [] some_ h = cc
  nearest-elem cumulative target (j ∷ indices) some_ h =
      let (c, found) = item_at-in_range cumulative (j - 1) (h j (ground arith)) in
      let (i, chosen, e) =
        nearest_from-elem cumulative target (fl.abs (fl.sub c target), j) indices
          (λ k m. h k (ground arith)) in
      (i, rw found chosen, e)

  pub select_cuts-Selected :
      (cumulative : List fl.F) (indices : List ℕ) (total : fl.F) (bins left most : ℕ)
      (selected : List ℕ)
      → is_empty indices ≡ false
      → ((i : ℕ) → elem i indices ≡ true → i - 1 < length cumulative)
      → Selected indices most selected
      → (chosen : List ℕ) × (select_cuts fl cumulative indices total bins left selected ≡ ok chosen)
        × Selected indices (most + left) chosen
  unfolding select_cuts
  select_cuts-Selected cumulative indices total bins zero most selected some_ h s = (
    selected,
    refl,
    subst (λ n. Selected indices n selected) {x = most} {y = most + 0} (omega arith) s,
  )
  select_cuts-Selected cumulative indices total bins (suc left) most selected some_ h s =
      let target = fl.div (fl.mul (fl.of_nat (bins - suc left)) total) (fl.of_nat bins) in
      let (i, found, m) = nearest-elem cumulative target indices some_ h in
      let (chosen, loops, c) =
        select_cuts-Selected cumulative indices total bins left (suc most) (add_index i selected)
          some_ h (add_index-Selected indices most i selected m s) in
      (
        chosen,
        rw found loops,
        subst (λ n. Selected indices n chosen) {x = suc most + left} {y = most + suc left}
            (omega arith) c,
      )
