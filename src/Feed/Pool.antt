-- ===== src/Feed/Pool.antt =====
-- The pool of a new session: no article twice, and none that the user has seen.
use symbolic_recommendation.Prelude.{
  ◌≤◌, ◌<◌, ◌≡◌, refl, ◌∙◌, Bool, true, false, not, ◌&&◌, ◌||◌, List, [], ◌∷◌, arith, count_if,
  keep_if, elem, elem-append, elem-keep_if, keep_if-IsDistinct, append-IsDistinct, ◌==◌, code_keys,
  IsDistinct, Bool-cases, inl, inr,
}
use symbolic_recommendation.Metta.{Text}
use symbolic_recommendation.Feed.Pages.{pool_candidates, feed_pool}
use symbolic_recommendation.Feed.Stream.{times}
use symbolic_recommendation.Feed.Offers.{times_none, times-le}

times_some : (a : Text) (xs : List Text) → elem a xs ≡ true → 0 < times a xs
unfolding count_if
times_some a [] h = cc
times_some a (x ∷ xs) h = ground (arith, times_some a xs)

-- What is in a list at most once is so in every order.
pub IsDistinct-times : (xs : List Text) → ((a : Text) → times a xs ≤ 1) → IsDistinct xs
unfolding count_if
IsDistinct-times [] h = tt
IsDistinct-times (x ∷ xs) h =
    let self : (x == x) ≡ true = (code_keys.beq_iff x x).1 refl in
    let once : times x (x ∷ xs) ≤ 1 = h x in
    (
      elim (Bool-cases (elem x xs)) [
        | inl again ↦ absurd (ground (arith, self, once, times_some x xs again))
        | inr no_more ↦ no_more
      ],
      IsDistinct-times xs (λ a. ground (arith, h a)),
    )

elem-pool_candidates :
    (a : Text) (previously_seen seen candidates : List Text)
    → (elem a seen || elem a previously_seen) ≡ true
    → elem a (pool_candidates previously_seen seen candidates) ≡ false
unfolding pool_candidates
elem-pool_candidates a previously_seen seen [] h = refl
elem-pool_candidates a previously_seen seen (c ∷ candidates) h = ground (
  arith,
  code_keys.beq_iff a c,
  elem-pool_candidates a previously_seen seen candidates,
  elem-pool_candidates a previously_seen (c ∷ seen) candidates,
)

pool_candidates-IsDistinct :
    (previously_seen seen candidates : List Text)
    → IsDistinct (pool_candidates previously_seen seen candidates)
unfolding pool_candidates
pool_candidates-IsDistinct previously_seen seen [] = tt
pool_candidates-IsDistinct previously_seen seen (c ∷ candidates) =
    elim (Bool-cases (elem c seen || elem c previously_seen)) [
      | inl known ↦ rw known (pool_candidates-IsDistinct previously_seen seen candidates)
      | inr new ↦ rw new (
        elem-pool_candidates c previously_seen (c ∷ seen) candidates
            (ground (arith, (code_keys.beq_iff c c).1 refl)),
        pool_candidates-IsDistinct previously_seen (c ∷ seen) candidates,
      )
    ]

module _ (shuffle : List Text → List Text)
    (reorders : (a : Text) (xs : List Text) → times a (shuffle xs) ≡ times a xs) where
  elem-shuffle : (a : Text) (xs : List Text) → elem a xs ≡ false → elem a (shuffle xs) ≡ false
  elem-shuffle a xs h = elim (Bool-cases (elem a (shuffle xs))) [
    | inl there ↦
        absurd (omega (arith, times_some a (shuffle xs) there, reorders a xs, times_none a xs h))
    | inr gone ↦ gone
  ]

  -- What is new in the corpus: neither in the pool of the cases nor seen.
  abbrev is_new : List Text → List Text → Text → Bool
  is_new pool previously_seen a = not (elem a pool) && not (elem a previously_seen)

  -- Of a corpus that names each article once, and a shuffle that only reorders: the pool of a user
  -- names each article once.
  pub feed_pool-IsDistinct :
      (candidates previously_seen articles : List Text)
      → IsDistinct articles
      → IsDistinct (feed_pool shuffle candidates previously_seen articles)
  unfolding feed_pool
  feed_pool-IsDistinct candidates previously_seen articles d =
      let pool = pool_candidates previously_seen [] candidates in
      let rest = keep_if (is_new pool previously_seen) articles in
      let rest_distinct = keep_if-IsDistinct (is_new pool previously_seen) articles d in
      append-IsDistinct pool (shuffle rest)
        (pool_candidates-IsDistinct previously_seen [] candidates)
        (IsDistinct-times (shuffle rest)
          (λ a. omega (arith, reorders a rest, times-le a rest rest_distinct)))
        (λ a h.
          elem-shuffle a rest
            (elem-keep_if (is_new pool previously_seen) a articles ∙ (ground (arith, h))))

  -- The pool has no article that the user has seen.
  pub feed_pool-unseen :
      (a : Text) (candidates previously_seen articles : List Text)
      → elem a previously_seen ≡ true
      → elem a (feed_pool shuffle candidates previously_seen articles) ≡ false
  unfolding feed_pool
  feed_pool-unseen a candidates previously_seen articles h =
      let pool = pool_candidates previously_seen [] candidates in
      let rest = keep_if (is_new pool previously_seen) articles in
      elem-append a pool (shuffle rest)
      ∙ ground (
        arith,
        elem-pool_candidates a previously_seen [] candidates (ground arith),
        elem-shuffle a rest
            (elem-keep_if (is_new pool previously_seen) a articles ∙ (ground (arith, h))),
      )
