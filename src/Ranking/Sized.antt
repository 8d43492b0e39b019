-- ===== src/Ranking/Sized.antt =====
-- The loops of the tournament keep to the places of the slate, so that no index is out of range: ranks
-- and totals.
use symbolic_recommendation.Prelude.{
  ℕ, zero, suc, ◌+◌, ◌-◌, ◌≤◌, ◌<◌, ◌≡◌, refl, ◌∙◌, ap, Bool, true, List, [], ◌∷◌, map, length-map,
  arith, ltb, length, take, drop, all_true, all_true-sort_by, sort_by, code_keys, Option-cases, inl,
  inr, Result, ok,
}
use symbolic_recommendation.Prelude.Dict.{Dict, get, put, AllValues, get-AllValues, put-AllValues}
use symbolic_recommendation.Metta.{Text}
use symbolic_recommendation.Quantiles.{Floats}
use symbolic_recommendation.Ranking.Margins.{update_at, repeat, or_else, Clusters, family_of}
use symbolic_recommendation.Ranking.Votes.{transfer, vote_each, empty_families}
use symbolic_recommendation.Ranking.Midranks.{
  leading_equal, midrank, place_all, midrank_groups, at_least_one, numbered, value_order,
  midrank_scores,
}

-- A call that returns a list of a length.
abbrev pub Gives {ℓ} : {A : Type ℓ} → ℕ → Result (List A) → Type ℓ
Gives {A = A} n r = (xs : List A) × (r ≡ ok xs) × (length xs ≡ n)

pub update_at-Gives {ℓ} :
    {A : Type ℓ} (f : A → A) (i : ℕ) (xs : List A)
    → i < length xs
    → Gives (length xs) (update_at f i xs)
unfolding update_at
update_at-Gives f i [] h = absurd (omega arith)
update_at-Gives f zero (x ∷ xs) h = (f x ∷ xs, refl, refl)
update_at-Gives f (suc i) (x ∷ xs) h =
    let (ys, found, same) = update_at-Gives f i xs (omega arith) in
    (x ∷ ys, rw found refl, omega (arith, same))

pub length-repeat {ℓ} : {A : Type ℓ} (x : A) (n : ℕ) → length (repeat x n) ≡ n
unfolding repeat
length-repeat x zero = refl
length-repeat x (suc n) = omega (arith, length-repeat x n)

all_true-take {ℓ} :
    {A : Type ℓ} (p : A → Bool) (n : ℕ) (xs : List A)
    → all_true p xs ≡ true
    → all_true p (take n xs) ≡ true
unfolding all_true
all_true-take p zero xs h = refl
all_true-take p (suc n) [] h = refl
all_true-take p (suc n) (x ∷ xs) h = ground (arith, all_true-take p n xs)

all_true-drop {ℓ} :
    {A : Type ℓ} (p : A → Bool) (n : ℕ) (xs : List A)
    → all_true p xs ≡ true
    → all_true p (drop n xs) ≡ true
unfolding all_true
all_true-drop p zero xs h = h
all_true-drop p (suc n) [] h = refl
all_true-drop p (suc n) (x ∷ xs) h = all_true-drop p n xs (ground arith)

module _ (fl : Floats) where
  abbrev in_range : ℕ → ℕ × fl.F → Bool
  in_range n p = ltb p.0 n

  place_all-Gives :
      (rank_score : fl.F) (group : List (ℕ × fl.F)) (scores : List fl.F)
      → all_true (in_range (length scores)) group ≡ true
      → Gives (length scores) (place_all fl rank_score group scores)
  unfolding place_all all_true
  place_all-Gives rank_score [] scores h = (scores, refl, refl)
  place_all-Gives rank_score (p ∷ group) scores h =
      let (next, found, same) = update_at-Gives (λ x. rank_score) p.0 scores (ground arith) in
      let (final, placed, same') =
        place_all-Gives rank_score group next
          (ap (λ n. all_true (in_range n) group) same ∙ ground arith) in
      (final, rw found placed, same' ∙ same)

  midrank_groups-Gives :
      (fuel denominator position : ℕ) (ordered : List (ℕ × fl.F)) (scores : List fl.F)
      → all_true (in_range (length scores)) ordered ≡ true
      → Gives (length scores) (midrank_groups fl fuel denominator position ordered scores)
  unfolding midrank_groups
  midrank_groups-Gives zero denominator position ordered scores h = (scores, refl, refl)
  midrank_groups-Gives (suc fuel) denominator position [] scores h = (scores, refl, refl)
  midrank_groups-Gives (suc fuel) denominator position (p ∷ rest) scores h =
      let size = suc (leading_equal fl (λ v. fl.eq v p.1) rest) in
      let p_in = in_range (length scores) in
      let (next, found, same) =
        place_all-Gives (midrank fl denominator position (position + size)) (take size (p ∷ rest))
          scores (all_true-take p_in size (p ∷ rest) h) in
      let (final, placed, same') =
        midrank_groups-Gives fuel denominator (position + size) (drop size (p ∷ rest)) next (
          ap (λ n. all_true (in_range n) (drop size (p ∷ rest))) same
          ∙ all_true-drop p_in size (p ∷ rest) h) in
      (final, rw found placed, same' ∙ same)

  numbered-in_range :
      (i n : ℕ) (values : List fl.F)
      → i + length values ≤ n
      → all_true (in_range n) (numbered fl i values) ≡ true
  unfolding numbered all_true
  numbered-in_range i n [] h = refl
  numbered-in_range i n (v ∷ values) h =
      ground (arith, numbered-in_range (suc i) n values (omega arith))

  pub midrank_scores-Gives : (given : List fl.F) → Gives (length given) (midrank_scores fl given)
  unfolding midrank_scores
  midrank_scores-Gives given =
      let values = map (λ v. fl.round v 12) given in
      let n = length values in
      let start = repeat fl.zero_ n in
      let full = length-repeat fl.zero_ n in
      let (scores, found, same) =
        midrank_groups-Gives n (at_least_one (n - 1)) 0
          (sort_by (value_order fl) (numbered fl 0 values)) start
          (all_true-sort_by (in_range (length start)) (value_order fl) (numbered fl 0 values)
            ∙ numbered-in_range 0 (length start) values (omega (arith, full))) in
      (scores, found, same ∙ full ∙ length-map (λ v. fl.round v 12) given)

  pub transfer-Gives :
      (left right : ℕ) (margin : fl.F) (totals : List fl.F)
      → left < length totals
      → right < length totals
      → Gives (length totals) (transfer fl left right margin totals)
  unfolding transfer
  transfer-Gives left right margin totals l r =
      let (gained, found, same) = update_at-Gives (λ x. fl.add x margin) left totals l in
      let (moved, found', same') =
        update_at-Gives (λ x. fl.sub x margin) right gained (omega (arith, same)) in
      (moved, rw found found', same' ∙ same)

  -- Rows of one length for every family.
  abbrev pub OfLength : ℕ → Dict Text (List fl.F) → Type 0
  OfLength count families = AllValues (λ (row : List fl.F). length row ≡ count) families

  row-OfLength :
      (count : ℕ) (family : Text) (families : Dict Text (List fl.F))
      → OfLength count families
      → length (or_else (repeat fl.zero_ count) (get family families)) ≡ count
  row-OfLength count family families h = elim (Option-cases (get family families)) [
    | inl absent ↦ rw absent (length-repeat fl.zero_ count)
    | inr (row, there) ↦
        rw there
          (get-AllValues (λ (row : List fl.F). length row ≡ count) family row families h there)
  ]

  pub vote_each-returns :
      (count left right : ℕ) (c : Clusters fl) (forward reverse : Dict Text fl.F)
      (dependencies : List Text) (total : fl.F) (families : Dict Text (List fl.F))
      → left < count
      → right < count
      → OfLength count families
      → (sum : fl.F) × (voted : Dict Text (List fl.F)) × (vote_each fl count left right c forward
            reverse dependencies total families
          ≡ ok (sum, voted))
        × OfLength count voted
  unfolding vote_each
  vote_each-returns count left right c forward reverse [] total families l r h =
      (total, families, refl, h)
  vote_each-returns count left right c forward reverse (d ∷ dependencies) total families l r h =
      let margin = fl.sub (or_else fl.zero_ (get d forward)) (or_else fl.zero_ (get d reverse)) in
      let family = family_of fl c.families d in
      let before = or_else (repeat fl.zero_ count) (get family families) in
      let full = row-OfLength count family families h in
      let (row, moved, same) =
        transfer-Gives left right margin before (omega (arith, full)) (omega (arith, full)) in
      let (sum, voted, loops, h') =
        vote_each-returns count left right c forward reverse dependencies (fl.add total margin)
          (put family row families) l r
          (put-AllValues (λ (row : List fl.F). length row ≡ count) family row families h
            (same ∙ full)) in
      (sum, voted, rw moved loops, h')

  pub empty_families-OfLength :
      (count : ℕ) (families : List Text) (totals : Dict Text (List fl.F))
      → OfLength count totals
      → OfLength count (empty_families fl count families totals)
  unfolding empty_families
  empty_families-OfLength count [] totals h = h
  empty_families-OfLength count (family ∷ families) totals h =
      empty_families-OfLength count families (put family (repeat fl.zero_ count) totals) (
        put-AllValues (λ (row : List fl.F). length row ≡ count) family (repeat fl.zero_ count)
          totals h (length-repeat fl.zero_ count))
