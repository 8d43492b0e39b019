-- ===== src/Feed/Identity.antt =====
-- Nothing that happens to a session changes its user or its items.
use symbolic_recommendation.Prelude.{
  ℕ, zero, suc, ◌+◌, ◌≡◌, refl, List, [], ◌∷◌, is_empty, take, Bool-cases, inl, inr, Result, ok,
  err,
}
use symbolic_recommendation.Metta.{Text}
use symbolic_recommendation.Feed.{Row, FeedSession, DeliveryLimits, put_back, record_delivery}
use symbolic_recommendation.Feed.Queue.{
  serve_rows, queue_window, window_end, window_items, is_hungry, then_again, fill_queue,
  rerank_queue, requeue, reranked,
}

module _ {C : Type 0} where
  -- Whose session it is, and over what.
  abbrev pub SameFeed : FeedSession C → FeedSession C → Type 0
  SameFeed s s' = (s'.user ≡ s.user) × (s'.items ≡ s.items)

  record_delivery-SameFeed :
      (l : DeliveryLimits) (a b : ℕ) (rows : List (Row C)) (s : FeedSession C)
      → SameFeed s (record_delivery l a b rows s)
  unfolding record_delivery
  record_delivery-SameFeed l a b [] s = (refl, refl)
  record_delivery-SameFeed l a b (r ∷ rows) s = (refl, refl)

  pub serve_rows-SameFeed :
      (l : DeliveryLimits) (page_size now : ℕ) (s : FeedSession C)
      → SameFeed s (serve_rows l page_size now s).1
  unfolding serve_rows
  serve_rows-SameFeed l page_size now s =
      record_delivery-SameFeed l s.position _ (take page_size s.queue) _

  pub put_back-SameFeed :
      (p : ℕ) (rows : List (Row C)) (s : FeedSession C) → SameFeed s (put_back p rows s)
  put_back-SameFeed p [] s = (refl, refl)
  put_back-SameFeed p (r ∷ rows) s = (refl, refl)

  requeue-SameFeed :
      (impression : Text) (r : Result (List (Text × C))) (s : FeedSession C)
      → SameFeed s (requeue impression r s).1
  requeue-SameFeed impression (err x) s = (refl, refl)
  requeue-SameFeed impression (ok ranked) s = (refl, refl)

  reranked-SameFeed :
      (now version : ℕ) (p : Result (Unit {0}) × FeedSession C) (s : FeedSession C)
      → SameFeed s p.1
      → SameFeed s (reranked now version p).1
  reranked-SameFeed now version (err x, t) s h = h
  reranked-SameFeed now version (ok u, t) s h = h

  pub rerank_queue-SameFeed :
      (show : ℕ → Text) (id : Text) (now version : ℕ) (r : Result (List (Text × C)))
      (s : FeedSession C)
      → SameFeed s (rerank_queue show id now version r s).1
  unfolding rerank_queue
  rerank_queue-SameFeed show id now version r s =
      let begun = record s { queue_revision = s.queue_revision + 1 } in
      elim (Bool-cases (is_empty s.queue)) [
        | inl bare ↦ rw bare (reranked-SameFeed now version (ok tt, begun) s (refl, refl))
        | inr some_ ↦
            rw some_
              (reranked-SameFeed now version (requeue _ r begun) s (requeue-SameFeed _ r begun))
      ]

module _ {C : Type 0} (rank : Text → List Text → Result (List (Text × C))) where
  then_again-SameFeed :
      (show : ℕ → Text) (id : Text) (window : ℕ) (r : Result (List (Text × C))) (s : FeedSession C)
      (again : FeedSession C → Result (Unit {0}) × FeedSession C)
      → ((s' : FeedSession C) → SameFeed s' (again s').1)
      → SameFeed s (then_again (queue_window show id (window_end window s) r s) again).1
  then_again-SameFeed show id window (err x) s again f = (refl, refl)
  then_again-SameFeed show id window (ok ranked) s again f = f _

  pub fill_queue-SameFeed :
      (show : ℕ → Text) (id : Text) (window page_size fuel : ℕ) (s : FeedSession C)
      → SameFeed s (fill_queue rank show id window page_size fuel s).1
  unfolding fill_queue
  fill_queue-SameFeed show id window page_size zero s = (refl, refl)
  fill_queue-SameFeed show id window page_size (suc fuel) s =
      elim (Bool-cases (is_hungry page_size s)) [
        | inl hungry ↦ rw hungry (
            then_again-SameFeed show id window (rank s.user (window_items window s)) s
              (λ s'. fill_queue rank show id window page_size fuel s')
              (λ s'. fill_queue-SameFeed show id window page_size fuel s'))
        | inr fed ↦ rw fed (refl, refl)
      ]
