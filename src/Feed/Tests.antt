-- ===== src/Feed/Tests.antt =====
-- A feed of three articles, two to a window and one to a page.
use symbolic_recommendation.Prelude.{
  ℕ, zero, suc, ◌≡◌, refl, sym, ap, ◌∙◌, false, none, List, [], ◌∷◌, arith, codes, length, keep_if,
  count_if, code_keys, IsDistinct, pos, int_value, Result, ok, ok-injective,
}
use symbolic_recommendation.Metta.{Text}
use symbolic_recommendation.Feed.{
  Row, FeedSession, DeliveryLimits, non_negative, acknowledge_deliveries, trim_deliveries,
  record_delivery, collect_rows, put_back, recover_at, recover_deliveries,
}
use symbolic_recommendation.Feed.Pages.{no_cursor, PageRequest, FeedLab, new_session}
use symbolic_recommendation.Feed.Queue.{
  fill_queue, is_hungry, serve_rows, note_contexts, note_positions,
}
use symbolic_recommendation.Feed.Requests.{feed_page, has_more_rows}
use symbolic_recommendation.Feed.Stream.{times, times_ranked, Tracks, serve_rows-Tracks}
use symbolic_recommendation.Feed.Filling.{RanksAll, fill_queue-Tracks, fill_queue-ends}
use symbolic_recommendation.Feed.Sessions.{new_session-Tracks}
use symbolic_recommendation.Feed.Offers.{Offers, offer_of}
use symbolic_recommendation.Feed.Steps.{serves, FeedStep-Offers}
use symbolic_recommendation.Feed.RoundTrip.{Back, serve_rows-Back}
use symbolic_recommendation.Feed.Isolation.{Isolated, feed_page-Isolated}

abbrev digits : ℕ → Text
digits zero = []
digits (suc n) = b'i' ∷ digits n

-- The scorer: every candidate, with its number of letters.
abbrev sized : List Text → List (Text × ℕ)
sized [] = []
sized (a ∷ candidates) = (a, length a) ∷ sized candidates

abbrev rank : Text → List Text → Result (List (Text × ℕ))
rank user candidates = ok (sized candidates)

times_ranked-sized :
    (a : Text) (candidates : List Text) → times_ranked a (sized candidates) ≡ times a candidates
unfolding count_if
times_ranked-sized a [] = refl
times_ranked-sized a (b ∷ candidates) = ground (arith, times_ranked-sized a candidates)

rank-RanksAll : RanksAll rank
rank-RanksAll user candidates ranked d h a =
    ap (times_ranked a) (sym (ok-injective h)) ∙ times_ranked-sized a candidates

abbrev items : List Text
items = codes "n1" ∷ codes "n2" ∷ codes "n3" ∷ []

items-IsDistinct : IsDistinct items
items-IsDistinct = (refl, (refl, (refl, tt)))

abbrev limits : DeliveryLimits
limits = record { history_limit = 2; row_limit = 4 }

abbrev opened : FeedSession ℕ
opened = new_session (codes "u") items 10 1

abbrev filled : ℕ → FeedSession ℕ
filled page_size = (fill_queue rank digits (codes "s") 2 page_size 3 opened).1

abbrev page_of : ℕ → List (Row ℕ)
page_of page_size = (serve_rows limits page_size 11 (filled page_size)).0

abbrev served : ℕ → FeedSession ℕ
served page_size = (serve_rows limits page_size 11 (filled page_size)).1

filled-Tracks : (page_size : ℕ) → Tracks (filled page_size) []
filled-Tracks page_size =
    fill_queue-Tracks rank rank-RanksAll digits (codes "s") 2 page_size 3 opened []
      (new_session-Tracks (codes "u") items 10 1 items-IsDistinct)

served-Tracks : (page_size : ℕ) → Tracks (served page_size) (page_of page_size)
served-Tracks page_size =
    serve_rows-Tracks limits page_size 11 (filled page_size) [] (filled-Tracks page_size)

FeedStep-Offers_example : Offers (offer_of (filled 1) []) (offer_of (served 1) (page_of 1))
FeedStep-Offers_example =
    FeedStep-Offers rank rank-RanksAll {s = filled 1} {s' = served 1} {shown = []}
      {shown' = page_of 1} (serves limits 1 11) (filled-Tracks 1)

serve_rows-Back_example : Back (filled 1) (served 1) (page_of 1)
serve_rows-Back_example = serve_rows-Back limits 1 11 (filled 1) [] (filled-Tracks 1)

nothing_left : has_more_rows (served 3) ≡ false
unfolding fill_queue serve_rows new_session record_delivery note_contexts note_positions
    trim_deliveries
nothing_left = refl

fill_queue_ok : (fill_queue rank digits (codes "s") 2 3 3 opened).0 ≡ ok tt
unfolding fill_queue new_session
fill_queue_ok = refl

fill_queue-ends_example : is_hungry 3 (fill_queue rank digits (codes "s") 2 3 3 opened).1 ≡ false
unfolding new_session
fill_queue-ends_example =
    fill_queue-ends rank digits (codes "s") 2 3 3 opened (omega arith) (omega arith) fill_queue_ok

abbrev after_recovery : FeedSession ℕ
after_recovery = put_back 0 (page_of 1) (served 1)

recovers :
    recover_deliveries (int_value (pos 0)) (int_value (pos 0)) (served 1)
    ≡ ok (
      record { accepted_position = 0; server_position_before_recovery = 1; recovered_rows = 1 },
      after_recovery,
    )
unfolding recover_deliveries recover_at non_negative fill_queue serve_rows new_session
    record_delivery note_contexts note_positions trim_deliveries acknowledge_deliveries collect_rows
    keep_if
recovers = refl

abbrev lab : FeedLab
lab = record {
  users = codes "u" ∷ [];
  top_k = 1;
  feed_window = 2;
  lab_version = 1;
  articles = items;
  candidates_of = λ user. codes "n2" ∷ [];
  seen_of = λ user. codes "n3" ∷ [];
  shuffle = λ user articles. articles;
  limits = limits;
  show = digits;
}

abbrev request : PageRequest
request = record {
  user = codes "u";
  cursor_given = no_cursor;
  session = none;
  limit = none;
  now = 10;
  fresh_id = codes "s";
}

feed_page-Isolated_example : Isolated (codes "u") [] (feed_page rank lab request []).1
feed_page-Isolated_example = feed_page-Isolated rank lab request []
