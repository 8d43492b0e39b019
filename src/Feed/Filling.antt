-- ===== src/Feed/Filling.antt =====
-- Ranking a window moves its items into the queue, each as often, for a scorer that ranks all that
-- it is given; the loop over the windows ends with a full page or at the end of the items.
use symbolic_recommendation.Prelude.{
  ℕ, zero, suc, ◌+◌, ◌-◌, ◌≤◌, ◌<◌, ◌≡◌, refl, ◌∙◌, ap, false, List, [], ◌∷◌, map, arith, length,
  take, drop, drop-drop, take-append-drop, count_if, count_if-append, Bool-cases, inl, inr, ◌==◌,
  code_keys, IsDistinct, elem, Result, ok, err,
}
use symbolic_recommendation.Metta.{Text}
use symbolic_recommendation.Feed.{Row, FeedSession}
use symbolic_recommendation.Feed.Queue.{
  queue_window, window_end, window_items, ranked_row, arrive, impression_of, is_hungry, then_again,
  fill_queue,
}
use symbolic_recommendation.Feed.Stream.{times, times_ranked, times_row, Tracks}

-- What is relied on of `score`, called without a limit: over distinct candidates it returns a row for each, and no other row.
abbrev pub RanksAll : {C : Type 0} → (Text → List Text → Result (List (Text × C))) → Type 0
RanksAll {C} rank =
    (user : Text) (candidates : List Text) (ranked : List (Text × C))
    → IsDistinct candidates
    → rank user candidates ≡ ok ranked
    → (a : Text) → times_ranked a ranked ≡ times a candidates

IsDistinct-drop : (n : ℕ) (xs : List Text) → IsDistinct xs → IsDistinct (drop n xs)
IsDistinct-drop zero xs d = d
IsDistinct-drop (suc n) [] d = tt
IsDistinct-drop (suc n) (x ∷ xs) d = IsDistinct-drop n xs d.1

elem-take : (a : Text) (n : ℕ) (xs : List Text) → elem a xs ≡ false → elem a (take n xs) ≡ false
elem-take a zero xs h = refl
elem-take a (suc n) [] h = refl
elem-take a (suc n) (x ∷ xs) h = ground (arith, elem-take a n xs)

IsDistinct-take : (n : ℕ) (xs : List Text) → IsDistinct xs → IsDistinct (take n xs)
IsDistinct-take zero xs d = tt
IsDistinct-take (suc n) [] d = tt
IsDistinct-take (suc n) (x ∷ xs) d = (elem-take x n xs d.0, IsDistinct-take n xs d.1)

module _ {C : Type 0} where
  pub times_row-ranked :
      (a impression : Text) (revision : ℕ) (ranked : List (Text × C))
      → times_row a (map (ranked_row impression revision) ranked) ≡ times_ranked a ranked
  unfolding count_if
  times_row-ranked a impression revision [] = refl
  times_row-ranked a impression revision ((b, c) ∷ ranked) =
      ground (arith, times_row-ranked a impression revision ranked)

  window_end-le :
      (window : ℕ) (s : FeedSession C)
      → s.source_position ≤ length s.items
      → (s.source_position ≤ window_end window s) × (window_end window s ≤ length s.items)
  window_end-le window s h = ground arith

  window-conserved :
      (window : ℕ) (s : FeedSession C)
      → s.source_position ≤ length s.items
      → (a : Text)
      → times a (window_items window s) + times a (drop (window_end window s) s.items)
        ≡ times a (drop s.source_position s.items)
  window-conserved window s h a =
      let end_ = window_end window s in
      let n = end_ - s.source_position in
      let rest = drop s.source_position s.items in
      let behind : drop n rest ≡ drop end_ s.items =
        drop-drop n s.source_position s.items
        ∙ ap (λ k. drop k s.items) {x = s.source_position + n}
            (omega (arith, window_end-le window s h)) in
      omega (
        arith,
        count_if-append (λ x. a == x) (take n rest) (drop n rest),
        ap (times a) (take-append-drop n rest),
        ap (times a) behind,
      )

  queue_window-Tracks :
      (show : ℕ → Text) (id : Text) (window : ℕ) (r : Result (List (Text × C))) (s : FeedSession C)
      (shown : List (Row C))
      → Tracks s shown
      → ((ranked : List (Text × C))
          → r ≡ ok ranked
          → (a : Text) → times_ranked a ranked ≡ times a (window_items window s))
      → Tracks (queue_window show id (window_end window s) r s).1 shown
  queue_window-Tracks show id window (err x) s shown t law = t
  queue_window-Tracks show id window (ok ranked) s shown t law = record {
    counted = t.counted;
    older = t.older;
    split = t.split;
    chain = t.chain;
    distinct = t.distinct;
    in_stock = (window_end-le window s t.in_stock).1;
    conserved = λ a.
        let impression = impression_of show id s.source_position (window_end window s) in
        let fresh = map (ranked_row impression s.queue_revision) ranked in
        omega (
          arith,
          count_if-append (λ (r : Row C). a == r.article) s.queue fresh,
          times_row-ranked a impression s.queue_revision ranked,
          law ranked refl a,
          window-conserved window s t.in_stock a,
          t.conserved a,
        );
  }

module _ {C : Type 0} (rank : Text → List Text → Result (List (Text × C)))
    (all : RanksAll rank) where
  arrive-Tracks :
      (show : ℕ → Text) (id : Text) (window : ℕ) (s : FeedSession C) (shown : List (Row C))
      → Tracks s shown
      → Tracks (arrive rank show id window s).1 shown
  arrive-Tracks show id window s shown t =
      queue_window-Tracks show id window (rank s.user (window_items window s)) s shown t
        (λ ranked e.
          all s.user (window_items window s) ranked
            (IsDistinct-take (window_end window s - s.source_position)
              (drop s.source_position s.items)
              (IsDistinct-drop s.source_position s.items t.distinct))
            e)

  then_again-Tracks :
      (p : Result (Unit {0}) × FeedSession C)
      (again : FeedSession C → Result (Unit {0}) × FeedSession C) (shown : List (Row C))
      → Tracks p.1 shown
      → ((s : FeedSession C) → Tracks s shown → Tracks (again s).1 shown)
      → Tracks (then_again p again).1 shown
  then_again-Tracks (err x, s) again shown t f = t
  then_again-Tracks (ok u, s) again shown t f = f s t

  -- Whether the scorer answers or raises, filling the queue keeps what was shown.
  pub fill_queue-Tracks :
      (show : ℕ → Text) (id : Text) (window page_size fuel : ℕ) (s : FeedSession C)
      (shown : List (Row C))
      → Tracks s shown
      → Tracks (fill_queue rank show id window page_size fuel s).1 shown
  unfolding fill_queue
  fill_queue-Tracks show id window page_size zero s shown t = t
  fill_queue-Tracks show id window page_size (suc fuel) s shown t =
      elim (Bool-cases (is_hungry page_size s)) [
        | inl hungry ↦ rw hungry (
            then_again-Tracks (arrive rank show id window s) _ shown
              (arrive-Tracks show id window s shown t)
              (λ s' t'. fill_queue-Tracks show id window page_size fuel s' shown t'))
        | inr fed ↦ rw fed t
      ]

module _ {C : Type 0} (rank : Text → List Text → Result (List (Text × C))) where
  -- No error, so there is nothing left to do.
  abbrev pub IsDone : ℕ → Result (Unit {0}) × FeedSession C → Type 0
  IsDone page_size p = p.0 ≡ ok tt → is_hungry page_size p.1 ≡ false

  then_again-IsDone :
      (show : ℕ → Text) (id : Text) (window page_size : ℕ) (r : Result (List (Text × C)))
      (s : FeedSession C) (again : FeedSession C → Result (Unit {0}) × FeedSession C)
      → ((s' : FeedSession C)
          → s'.items ≡ s.items
          → s'.source_position ≡ window_end window s
          → IsDone page_size (again s'))
      → IsDone page_size (then_again (queue_window show id (window_end window s) r s) again)
  then_again-IsDone show id window page_size (err x) s again f = λ h. cc
  then_again-IsDone show id window page_size (ok ranked) s again f = f _ refl refl

  fill_queue-IsDone :
      (show : ℕ → Text) (id : Text) (window page_size fuel : ℕ) (s : FeedSession C)
      → 0 < window
      → length s.items ≤ s.source_position + fuel
      → IsDone page_size (fill_queue rank show id window page_size fuel s)
  unfolding fill_queue
  fill_queue-IsDone show id window page_size zero s w f = λ h. ground arith
  fill_queue-IsDone show id window page_size (suc fuel) s w f =
      elim (Bool-cases (is_hungry page_size s)) [
        | inl hungry ↦ rw hungry (
            then_again-IsDone show id window page_size (rank s.user (window_items window s)) s
              (λ s'. fill_queue rank show id window page_size fuel s')
              (λ s' same moved. fill_queue-IsDone show id window page_size fuel s' w (
                let one_more : length s.items ≤ window_end window s + fuel = ground arith in
                omega (arith, ap length same, moved, one_more))))
        | inr fed ↦ rw fed (λ h. fed)
      ]

  -- With a window of one item or more and fuel for every item that is not ranked yet, the loop over the
  -- windows ends, where the scorer has not raised, because a page is queued or every item is ranked:
  -- the fuel does not end it.
  pub fill_queue-ends :
      (show : ℕ → Text) (id : Text) (window page_size fuel : ℕ) (s : FeedSession C)
      → 0 < window
      → length s.items ≤ s.source_position + fuel
      → (fill_queue rank show id window page_size fuel s).0 ≡ ok tt
      → is_hungry page_size (fill_queue rank show id window page_size fuel s).1 ≡ false
  fill_queue-ends show id window page_size fuel s w f h =
      fill_queue-IsDone show id window page_size fuel s w f h
