-- ===== src/Feed/RoundTrip.antt =====
-- A page that the client did not accept is taken back by a recovery at the position before it: the
-- queue and the position are what they were.
use symbolic_recommendation.Prelude.{
  ℕ, ◌+◌, ◌≤◌, ◌<◌, ◌≡◌, refl, sym, ◌∙◌, ap, subst, true, false, not, ◌&&◌, ◌||◌, List, [], ◌∷◌,
  ◌++◌, append-nil, arith, ltb, nat_eq, length, is_empty, take, drop-length-take, take-append-drop,
  keep_if, Bool-cases, inl, inr, pos, int_value, ok,
}
use symbolic_recommendation.Feed.{
  Row, Delivery, FeedSession, DeliveryLimits, Recovered, non_negative, acknowledge_deliveries,
  row_count, trim_deliveries, record_delivery, collect_rows, put_back, recover_at,
  recover_deliveries,
}
use symbolic_recommendation.Feed.Queue.{serve_rows}
use symbolic_recommendation.Feed.Recovery.{Chain, Chain-le, acknowledge-late}
use symbolic_recommendation.Feed.Stream.{Tracks}

module _ {C : Type 0} where
  -- Where the retained pages behind an accepted position lead to the session's, a recovery succeeds.
  pub recover_at-collected :
      (accepted : ℕ) (rows : List (Row C)) (s : FeedSession C)
      → accepted ≤ s.position
      → collect_rows s.queue_revision accepted (acknowledge_deliveries accepted s.deliveries)
        ≡ ok (rows, s.position)
      → recover_at accepted s.queue_revision s
        ≡ ok (
          record {
            accepted_position = accepted;
            server_position_before_recovery = s.position;
            recovered_rows = length rows;
          },
          put_back accepted rows s,
        )
  unfolding recover_at
  recover_at-collected accepted rows s h found =
      let current : nat_eq s.queue_revision s.queue_revision ≡ true = ground arith in
      let within : ltb s.position accepted ≡ false = ground arith in
      let whole : nat_eq s.position s.position ≡ true = ground arith in
      rw (current, within, found, whole) refl

  acknowledge-last :
      (p a : ℕ) (ds : List (Delivery C)) (page : Delivery C)
      → Chain a ds p
      → p < page.end_position
      → acknowledge_deliveries p (ds ++ page ∷ []) ≡ page ∷ []
  unfolding acknowledge_deliveries keep_if
  acknowledge-last p a [] page c h = ground arith
  acknowledge-last p a (d ∷ ds) page c h =
      ground
        (arith, Chain-le d.end_position p ds c.3, acknowledge-last p d.end_position ds page c.3 h)

  -- The last page is never forgotten.
  trim_deliveries-last :
      (l : DeliveryLimits) (p a : ℕ) (ds : List (Delivery C)) (page : Delivery C)
      → Chain a ds p
      → p < page.end_position
      → acknowledge_deliveries p (trim_deliveries l (ds ++ page ∷ [])) ≡ page ∷ []
  unfolding trim_deliveries
  trim_deliveries-last l p a [] page c h = acknowledge-last p a [] page c h
  trim_deliveries-last l p a (d ∷ ds) page c h =
      let all = ds ++ page ∷ [] in
      let too_many =
        not (is_empty all)
        && (ltb l.history_limit (length (d ∷ all)) || ltb l.row_limit (row_count (d ∷ all))) in
      elim (Bool-cases too_many) [
        | inl over ↦ rw over (trim_deliveries-last l p d.end_position ds page c.3 h)
        | inr within ↦ rw within (acknowledge-last p a (d ∷ ds) page c h)
      ]

  record_delivery-collected :
      (l : DeliveryLimits) (a p : ℕ) (rows : List (Row C)) (s : FeedSession C)
      → Chain a s.deliveries p
      → s.position ≡ p + length rows
      → collect_rows s.queue_revision p
          (acknowledge_deliveries p (record_delivery l p s.position rows s).deliveries)
        ≡ ok (rows, s.position)
  unfolding record_delivery collect_rows
  record_delivery-collected l a p [] s c e =
      rw (acknowledge-late p a p s.deliveries c (omega arith))
        (ap (λ n. ok ([], n)) {x = p} {y = s.position} (omega (arith, e)))
  record_delivery-collected l a p (r ∷ rows) s c e =
      let page : Delivery C = record {
        start_position = p;
        end_position = s.position;
        delivery_revision = s.queue_revision;
        rows = r ∷ rows;
      } in
      let here : nat_eq p p ≡ true = ground arith in
      let now : nat_eq s.queue_revision s.queue_revision ≡ true = ground arith in
      rw (trim_deliveries-last l p a s.deliveries page c (omega (arith, e)))
        (rw (here, now) (ap (λ rs. ok (rs, s.position)) (append-nil (r ∷ rows))))

  record_delivery-back :
      (l : DeliveryLimits) (p e : ℕ) (rows : List (Row C)) (s : FeedSession C)
      → s.position ≡ p + length rows
      → ((put_back p rows (record_delivery l p e rows s)).queue ≡ rows ++ s.queue)
        × ((put_back p rows (record_delivery l p e rows s)).position ≡ p)
        × ((record_delivery l p e rows s).position ≡ s.position)
        × ((record_delivery l p e rows s).queue_revision ≡ s.queue_revision)
  unfolding record_delivery
  record_delivery-back l p e [] s h = (refl, omega (arith, h), refl, refl)
  record_delivery-back l p e (r ∷ rows) s h = (refl, refl, refl, refl)

  -- What a recovery at the position of `s` gives from the session `served`.
  pub record Back (s served : FeedSession C) (page : List (Row C)) : Type 0 where
    pub report : Recovered
    pub restored : FeedSession C
    pub recovers :
        recover_deliveries (int_value (pos s.position)) (int_value (pos s.queue_revision)) served
        ≡ ok (report, restored)
    pub same_queue : restored.queue ≡ s.queue
    pub same_position : restored.position ≡ s.position
    pub counts : report.recovered_rows ≡ length page

  record_delivery-Back :
      (l : DeliveryLimits) (a : ℕ) (s m : FeedSession C) (rows : List (Row C))
      → Chain a m.deliveries s.position
      → m.position ≡ s.position + length rows
      → m.queue_revision ≡ s.queue_revision
      → rows ++ m.queue ≡ s.queue
      → Back s (record_delivery l s.position m.position rows m) rows
  unfolding recover_deliveries non_negative
  record_delivery-Back l a s m rows c moved same whole =
      let served = record_delivery l s.position m.position rows m in
      let (queue_back, back, at_, revision) =
        record_delivery-back l s.position m.position rows m moved in
      let report : Recovered = record {
        accepted_position = s.position;
        server_position_before_recovery = served.position;
        recovered_rows = length rows;
      } in
      let recovers = recover_at-collected s.position rows served (omega (arith, at_, moved)) (
        subst
          (λ r.
            collect_rows r s.position (acknowledge_deliveries s.position served.deliveries)
            ≡ ok (rows, served.position))
          (sym revision)
          (record_delivery-collected l a s.position rows m c moved
            ∙ ap (λ n. ok (rows, n)) (sym at_))) in
      record {
        report = report;
        restored = put_back s.position rows served;
        recovers =
            subst
              (λ r. recover_at s.position r served ≡ ok (report, put_back s.position rows served))
              (revision ∙ same) recovers;
        same_queue = queue_back ∙ whole;
        same_position = back;
        counts = refl;
      }

  -- After a page has been served from a session that tracks what it has shown, whatever the limits on
  -- retained pages, a recovery at the position and the queue revision from before the page succeeds:
  -- it puts the rows of the page back in front of the queue, so that queue and position are those
  -- from before the page, and reports how many rows these were.
  pub serve_rows-Back :
      (l : DeliveryLimits) (page_size now : ℕ) (s : FeedSession C) (shown : List (Row C))
      → Tracks s shown
      → Back s (serve_rows l page_size now s).1 (serve_rows l page_size now s).0
  unfolding serve_rows
  serve_rows-Back l page_size now s shown t =
      record_delivery-Back l (length t.older) s _ (take page_size s.queue) t.chain refl refl (
        ap (λ rest. take page_size s.queue ++ rest) (drop-length-take page_size s.queue)
        ∙ take-append-drop page_size s.queue)
