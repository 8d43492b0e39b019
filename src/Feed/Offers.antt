-- ===== src/Feed/Offers.antt =====
-- What a feed session promises, without queue, windows and pages: a stock of articles, from which
-- some are shown and into which the last ones may be taken back; and that a session keeps it.
use symbolic_recommendation.Prelude.{
  ℕ, zero, suc, ◌+◌, ◌≤◌, ◌≡◌, refl, ap, Bool, true, false, not, ◌||◌, List, [], ◌∷◌, ◌++◌, arith,
  length, is_empty, count_if, take, drop, elem, code_keys, IsDistinct,
}
use symbolic_recommendation.Metta.{Text}
use symbolic_recommendation.Feed.{Row, FeedSession}
use symbolic_recommendation.Feed.Requests.{has_more_rows}
use symbolic_recommendation.Feed.Stream.{times, times_row, Tracks}

-- The abstract state: the articles shown, in order, and how often each is in stock.
pub record Offer : Type 0 where
  pub shown : List Text
  pub stock : Text → ℕ

pub data Offers (o p : Offer) : Type 0 where
  shows :
      (articles : List Text)
      → p.shown ≡ o.shown ++ articles
      → ((a : Text) → p.stock a + times a articles ≡ o.stock a)
      → Offers o p
  takes_back :
      (n : ℕ)
      → p.shown ≡ take n o.shown
      → ((a : Text) → p.stock a ≡ o.stock a + times a (drop n o.shown))
      → Offers o p
  keeps : p.shown ≡ o.shown → ((a : Text) → p.stock a ≡ o.stock a) → Offers o p

pub times_none : (a : Text) (xs : List Text) → elem a xs ≡ false → times a xs ≡ 0
unfolding count_if
times_none a [] h = refl
times_none a (x ∷ xs) h = ground (arith, times_none a xs)

pub times-le : (a : Text) (xs : List Text) → IsDistinct xs → times a xs ≤ 1
unfolding count_if
times-le a [] d = omega arith
times-le a (x ∷ xs) d = ground (arith, code_keys.beq_iff a x, times-le a xs d.1, times_none a xs)

times_one : (a : Text) (xs : List Text) → IsDistinct xs → elem a xs ≡ true → times a xs ≡ 1
unfolding count_if
times_one a [] d h = cc
times_one a (x ∷ xs) d h =
    ground (arith, code_keys.beq_iff a x, times_one a xs d.1, times_none a xs)

drop_all {ℓ} : {A : Type ℓ} (n : ℕ) (xs : List A) → length xs ≤ n → drop n xs ≡ []
drop_all zero [] h = refl
drop_all zero (x ∷ xs) h = absurd (omega arith)
drop_all (suc n) [] h = refl
drop_all (suc n) (x ∷ xs) h = drop_all n xs (omega arith)

or_false : (a b : Bool) → (a || b) ≡ false → (a ≡ false) × (b ≡ false)
or_false a b h = ground arith

module _ {C : Type 0} where
  abbrev pub articles_of : List (Row C) → List Text
  articles_of [] = []
  articles_of (r ∷ rows) = r.article ∷ articles_of rows

  times-articles_of :
      (a : Text) (rows : List (Row C)) → times a (articles_of rows) ≡ times_row a rows
  unfolding count_if
  times-articles_of a [] = refl
  times-articles_of a (r ∷ rows) = ground (arith, times-articles_of a rows)

  pub articles_of-append :
      (xs ys : List (Row C)) → articles_of (xs ++ ys) ≡ articles_of xs ++ articles_of ys
  articles_of-append [] ys = refl
  articles_of-append (x ∷ xs) ys = ap (λ rest. x.article ∷ rest) (articles_of-append xs ys)

  pub articles_of-take :
      (n : ℕ) (rows : List (Row C)) → articles_of (take n rows) ≡ take n (articles_of rows)
  articles_of-take zero rows = refl
  articles_of-take (suc n) [] = refl
  articles_of-take (suc n) (r ∷ rows) = ap (λ rest. r.article ∷ rest) (articles_of-take n rows)

  articles_of-drop :
      (n : ℕ) (rows : List (Row C)) → articles_of (drop n rows) ≡ drop n (articles_of rows)
  articles_of-drop zero rows = refl
  articles_of-drop (suc n) [] = refl
  articles_of-drop (suc n) (r ∷ rows) = articles_of-drop n rows

  -- The abstract state of a session.
  abbrev pub offer_of : FeedSession C → List (Row C) → Offer
  offer_of s shown = record {
    shown = articles_of shown;
    stock = λ a. times_row a s.queue + times a (drop s.source_position s.items);
  }

  -- In a session that tracks what it has shown, no article has been shown twice.
  pub shown_once :
      (s : FeedSession C) (shown : List (Row C)) (a : Text) → Tracks s shown → times_row a shown ≤ 1
  shown_once s shown a t = omega (arith, t.conserved a, times-le a s.items t.distinct)

  none_queued :
      (a : Text) (rows : List (Row C)) → not (is_empty rows) ≡ false → times_row a rows ≡ 0
  unfolding count_if
  none_queued a [] h = refl
  none_queued a (r ∷ rows) h = cc

  -- Where the feed of a session that tracks what it has shown says that there are no more rows, every
  -- item of the session has been shown exactly once.
  pub shown_all :
      (s : FeedSession C) (shown : List (Row C)) (a : Text)
      → Tracks s shown
      → has_more_rows s ≡ false
      → elem a s.items ≡ true
      → times_row a shown ≡ 1
  shown_all s shown a t h i =
      let (no_queue, no_rest) = or_false (not (is_empty s.queue)) _ h in
      let all_ranked : length s.items ≤ s.source_position = ground (arith, no_rest) in
      omega (
        arith,
        t.conserved a,
        none_queued a s.queue no_queue,
        times_none a [] refl,
        ap (times a) (drop_all s.source_position s.items all_ranked),
        times_one a s.items t.distinct i,
      )

  -- The stock is what the items have and is not shown.
  pub stock_is :
      (s : FeedSession C) (shown : List (Row C)) (a : Text)
      → Tracks s shown
      → times a (articles_of shown) + (offer_of s shown).stock a ≡ times a s.items
  stock_is s shown a t = omega (arith, times-articles_of a shown, t.conserved a)
