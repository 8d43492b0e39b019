-- ===== src/Ranking/Exhaustive.antt =====
-- The plan of a slate compares every two of its rows once, and as one orientation at a time would.
use symbolic_recommendation.Prelude.{
  ℕ, zero, suc, ◌+◌, ◌-◌, ◌*◌, ◌≤◌, ◌≡◌, refl, sym, ◌∙◌, ap, ◌&&◌, List, [], ◌∷◌, ◌++◌, arith, ltb,
  leb, nat_eq, length, length-append, elem, elem-append, append-IsDistinct, IsDistinct, nat_keys,
  Eq, pair_eq, pair_eq_iff, subst, ok, ok-injective, >>=-eq-ok, if_err-eq-ok,
}
use symbolic_recommendation.Prelude.Dict.{Dict}
use symbolic_recommendation.Metta.{Text}
use symbolic_recommendation.Quantiles.{Floats}
use symbolic_recommendation.Ranking.Plan.{
  Duel, Plan, range_from, pairs_with, index_pairs_from, index_pairs, exhaustive_count, by_article,
  candidate_at, plan_pairs, pairwise_plan,
}
use symbolic_recommendation.Ranking.Matcher.{Matcher}
use symbolic_recommendation.Ranking.Features.{Candidate}
use symbolic_recommendation.Ranking.Oriented.{CaseCache, Lab, compiled, oriented_pair_specs}

instance abbrev pub place_pair_keys : Eq (ℕ × ℕ)
place_pair_keys = record { beq = pair_eq; beq_iff = pair_eq_iff }

length-range_from : (start count : ℕ) → length (range_from start count) ≡ count
unfolding range_from
length-range_from start zero = refl
length-range_from start (suc count) = omega (arith, length-range_from (suc start) count)

length-pairs_with : (left : ℕ) (rights : List ℕ) → length (pairs_with left rights) ≡ length rights
unfolding pairs_with
length-pairs_with left [] = refl
length-pairs_with left (right ∷ rights) = omega (arith, length-pairs_with left rights)

triangle_step : (k : ℕ) → 2 * suc k + suc k * k ≡ suc (suc k) * suc k
triangle_step k = omega arith

twice-length : (left count : ℕ) → 2 * length (index_pairs_from left count) ≡ count * (count - 1)
unfolding index_pairs_from pairs_with range_from
twice-length left zero = omega arith
twice-length left (suc zero) = omega arith
twice-length left (suc (suc k)) =
    let firsts = pairs_with left (range_from (suc left) (suc k)) in
    let rest = index_pairs_from (suc left) (suc k) in
    let sum : 2 * length (firsts ++ rest) ≡ 2 * suc k + suc k * (suc k - 1) = omega (
      arith,
      length-append firsts rest,
      length-pairs_with left (range_from (suc left) (suc k)),
      length-range_from (suc left) (suc k),
      twice-length (suc left) (suc k),
    ) in
    sum
    ∙ ap (λ n. 2 * suc k + suc k * n) {x = suc k - 1} {y = k} (omega arith)
    ∙ triangle_step k
    ∙ ap (λ n. suc (suc k) * n) {x = suc k} {y = suc (suc k) - 1} (omega arith)

elem-range_from :
    (j start count : ℕ) → elem j (range_from start count) ≡ (leb start j && ltb j (start + count))
unfolding range_from
elem-range_from j start zero = ground arith
elem-range_from j start (suc count) = ground (arith, elem-range_from j (suc start) count)

elem-pairs_with :
    (i j left : ℕ) (rights : List ℕ)
    → elem (i, j) (pairs_with left rights) ≡ (nat_eq i left && elem j rights)
unfolding pairs_with
elem-pairs_with i j left [] = ground arith
elem-pairs_with i j left (right ∷ rights) = ground (arith, elem-pairs_with i j left rights)

elem-index_pairs_from :
    (i j left count : ℕ)
    → elem (i, j) (index_pairs_from left count) ≡ (leb left i && (ltb i j && ltb j (left + count)))
unfolding index_pairs_from
elem-index_pairs_from i j left zero = ground arith
elem-index_pairs_from i j left (suc count) = ground (
  arith,
  elem-index_pairs_from i j (suc left) count,
  elem-append (i, j) (pairs_with left (range_from (suc left) count))
      (index_pairs_from (suc left) count),
  elem-pairs_with i j left (range_from (suc left) count),
  elem-range_from j (suc left) count,
)

range_from-IsDistinct : (start count : ℕ) → IsDistinct (range_from start count)
unfolding range_from
range_from-IsDistinct start zero = tt
range_from-IsDistinct start (suc count) = (
  ground (arith, elem-range_from start (suc start) count),
  range_from-IsDistinct (suc start) count,
)

pairs_with-IsDistinct :
    (left : ℕ) (rights : List ℕ) → IsDistinct rights → IsDistinct (pairs_with left rights)
unfolding pairs_with
pairs_with-IsDistinct left [] h = tt
pairs_with-IsDistinct left (right ∷ rights) h = (
  ground (arith, elem-pairs_with left right left rights, h.0),
  pairs_with-IsDistinct left rights h.1,
)

elem-index_pairs : (i j n : ℕ) → elem (i, j) (index_pairs n) ≡ (ltb i j && ltb j n)
unfolding index_pairs
elem-index_pairs i j n = ground (arith, elem-index_pairs_from i j 0 n)

index_pairs_from-IsDistinct : (left count : ℕ) → IsDistinct (index_pairs_from left count)
unfolding index_pairs_from
index_pairs_from-IsDistinct left zero = tt
index_pairs_from-IsDistinct left (suc count) =
    let rights = range_from (suc left) count in
    append-IsDistinct (pairs_with left rights) (index_pairs_from (suc left) count)
      (pairs_with-IsDistinct left rights (range_from-IsDistinct (suc left) count))
      (index_pairs_from-IsDistinct (suc left) count)
      (λ (i, j) h.
        ground (arith, elem-pairs_with i j left rights, elem-index_pairs_from i j (suc left) count))

index_pairs-IsDistinct : (n : ℕ) → IsDistinct (index_pairs n)
unfolding index_pairs
index_pairs-IsDistinct n = index_pairs_from-IsDistinct 0 n

length-index_pairs : (n : ℕ) → length (index_pairs n) ≡ exhaustive_count n
unfolding index_pairs
length-index_pairs n = omega (arith, twice-length 0 n)

-- The places that are compared.
unfoldable pub places : List Duel → List (ℕ × ℕ)
places [] = []
places (d ∷ duels) = (d.left, d.right) ∷ places duels

length-places : (duels : List Duel) → length (places duels) ≡ length duels
unfolding places
length-places [] = refl
length-places (d ∷ duels) = omega (arith, length-places duels)

-- Every two places of a slate of n, the lower first, and no other, each once, within the limit.
pub record IsComplete (n limit : ℕ) (duels : List Duel) : Type 0 where
  pub each : (i j : ℕ) → elem (i, j) (places duels) ≡ (ltb i j && ltb j n)
  pub once : IsDistinct (places duels)
  pub many : length duels ≡ exhaustive_count n
  pub within : length duels ≤ limit

module _ (fl : Floats) where
  plan_pairs-places :
      (lab : Lab fl) (m : Matcher) (ids : List Text) (raw : Dict Text (Candidate fl))
      (pairs : List (ℕ × ℕ)) (cache : CaseCache) {plan : Plan}
      → plan_pairs fl lab m ids raw pairs cache ≡ ok plan
      → places plan.comparisons ≡ pairs
  unfolding plan_pairs places
  plan_pairs-places lab m ids raw [] cache e =
      ap (λ (p : Plan). places p.comparisons) (sym (ok-injective e))
  plan_pairs-places lab m ids raw ((i, j) ∷ pairs) cache e =
      let (left, _, e1) = >>=-eq-ok (candidate_at fl ids raw i) _ e in
      let (right, _, e2) = >>=-eq-ok (candidate_at fl ids raw j) _ e1 in
      let (o, _, e3) = >>=-eq-ok (oriented_pair_specs fl lab m left right cache) _ e2 in
      let (rest, found, e4) = >>=-eq-ok (plan_pairs fl lab m ids raw pairs o.cache) _ e3 in
      ap (λ (p : Plan). places p.comparisons) (sym (ok-injective e4))
      ∙ ap (λ l. (i, j) ∷ l) (plan_pairs-places lab m ids raw pairs o.cache found)

  -- For any list of articles, a plan that `_pairwise_plan` returns compares every two places of the list
  -- exactly once, the lower place as the left one, and nothing else; it has n(n - 1)/2 comparisons, at
  -- most `max_pair_comparisons`.
  pub pairwise_plan-IsComplete :
      (lab : Lab fl) (limit : ℕ) (ids : List Text) (specs : List (Text × Candidate fl))
      {plan : Plan}
      → pairwise_plan fl lab limit ids specs ≡ ok plan
      → IsComplete (length ids) limit plan.comparisons
  unfolding pairwise_plan
  pairwise_plan-IsComplete lab limit ids specs {plan} e =
      let n = length ids in
      let (small, e') = if_err-eq-ok (ltb limit (exhaustive_count n)) _ _ e in
      let same =
        plan_pairs-places lab (compiled fl lab) ids (by_article fl specs []) (index_pairs n) []
          e' in
      let many : length plan.comparisons ≡ exhaustive_count n =
        sym (length-places plan.comparisons) ∙ ap length same ∙ length-index_pairs n in
      record {
        each = λ i j. ap (elem (i, j)) same ∙ elem-index_pairs i j n;
        once = subst IsDistinct (sym same) (index_pairs-IsDistinct n);
        many = many;
        within = ground (arith, many, small);
      }
