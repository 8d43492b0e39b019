-- ===== src/Feed/Stream.antt =====
-- What a session has shown, has queued and has still to rank are together its items, each as often.
-- `shown` is the rows of the pages that were served and not taken back.
use symbolic_recommendation.Prelude.{
  ℕ, ◌+◌, ◌≤◌, ◌≡◌, refl, sym, ◌∙◌, ap, subst, not, ◌&&◌, ◌||◌, List, [], ◌∷◌, ◌++◌, append_assoc,
  append-nil, arith, ltb, length, length-append, take, drop, drop-length-take, take-append-drop,
  is_empty, count_if, count_if-append, Bool-cases, inl, inr, ◌==◌, code_keys, IsDistinct,
}
use symbolic_recommendation.Metta.{Text}
use symbolic_recommendation.Feed.{
  Row, Delivery, FeedSession, DeliveryLimits, row_count, trim_deliveries, record_delivery,
}
use symbolic_recommendation.Feed.Queue.{serve_rows}
use symbolic_recommendation.Feed.Recovery.{delivered, Chain, Chain-append}

abbrev pub times : Text → List Text → ℕ
times a xs = count_if (λ x. a == x) xs

abbrev pub times_ranked {ℓ} : {C : Type ℓ} → Text → List (Text × C) → ℕ
times_ranked a ranked = count_if (λ p. a == p.0) ranked

module _ {C : Type 0} where
  abbrev pub times_row : Text → List (Row C) → ℕ
  times_row a rows = count_if (λ r. a == r.article) rows

  pub record Tracks (s : FeedSession C) (shown : List (Row C)) : Type 0 where
    pub counted : length shown ≡ s.position
    pub older : List (Row C)
    pub split : shown ≡ older ++ delivered s.deliveries
    pub chain : Chain (length older) s.deliveries s.position
    pub distinct : IsDistinct s.items
    pub in_stock : s.source_position ≤ length s.items
    pub conserved :
        (a : Text)
        → times_row a shown + times_row a s.queue + times a (drop s.source_position s.items)
          ≡ times a s.items

  delivered-append :
      (ds : List (Delivery C)) (d : Delivery C) → delivered (ds ++ d ∷ []) ≡ delivered ds ++ d.rows
  delivered-append [] d = append-nil d.rows
  delivered-append (x ∷ ds) d =
      ap (λ rs. x.rows ++ rs) (delivered-append ds d)
      ∙ sym (append_assoc x.rows (delivered ds) d.rows)

  -- Forgetting old pages leaves a chain behind more rows.
  trim_deliveries-Chain :
      (l : DeliveryLimits) (b : ℕ) (older : List (Row C)) (ds : List (Delivery C))
      → Chain (length older) ds b
      → (older' : List (Row C)) × (older ++ delivered ds
          ≡ older' ++ delivered (trim_deliveries l ds))
        × Chain (length older') (trim_deliveries l ds) b
  unfolding trim_deliveries
  trim_deliveries-Chain l b older [] c = (older, refl, c)
  trim_deliveries-Chain l b older (d ∷ ds) c =
      let too_many =
        not (is_empty ds)
        && (ltb l.history_limit (length (d ∷ ds)) || ltb l.row_limit (row_count (d ∷ ds))) in
      let reach : d.end_position ≡ length (older ++ d.rows) =
        omega (arith, c.1, length-append older d.rows) in
      let (older', same, rest) =
        trim_deliveries-Chain l b (older ++ d.rows) ds (subst (λ n. Chain n ds b) reach c.3) in
      elim (Bool-cases too_many) [
        | inl over ↦ rw over (older', sym (append_assoc older d.rows (delivered ds)) ∙ same, rest)
        | inr within ↦ rw within (older, refl, c)
      ]

  serve-conserved :
      (n : ℕ) (a : Text) (shown queue : List (Row C))
      → times_row a (shown ++ take n queue) + times_row a (drop (length (take n queue)) queue)
        ≡ times_row a shown + times_row a queue
  serve-conserved n a shown queue =
      let whole : times_row a (take n queue ++ drop n queue) ≡ times_row a queue =
        ap (times_row a) (take-append-drop n queue) in
      rw (drop-length-take n queue) (
        omega (
          arith,
          whole,
          count_if-append (λ (r : Row C). a == r.article) shown (take n queue),
          count_if-append (λ (r : Row C). a == r.article) (take n queue) (drop n queue),
        ))

  record_delivery-Tracks :
      (l : DeliveryLimits) (rows : List (Row C)) (s : FeedSession C) (shown : List (Row C))
      (before : ℕ)
      → before + length rows ≡ s.position
      → (older : List (Row C)) → shown ≡ older ++ delivered s.deliveries
      → Chain (length older) s.deliveries before
      → length (shown ++ rows) ≡ s.position
      → IsDistinct s.items
      → s.source_position ≤ length s.items
      → ((a : Text)
          → times_row a (shown ++ rows)
              + times_row a s.queue
              + times a (drop s.source_position s.items)
            ≡ times a s.items)
      → Tracks (record_delivery l before s.position rows s) (shown ++ rows)
  unfolding record_delivery
  record_delivery-Tracks l [] s shown before e older split c n d i k = record {
    counted = n;
    older = older;
    split = append-nil shown ∙ split;
    chain = subst (λ m. Chain (length older) s.deliveries m) {x = before} (omega (arith, e)) c;
    distinct = d;
    in_stock = i;
    conserved = k;
  }
  record_delivery-Tracks l (r ∷ rows) s shown before e older split c n d i k =
      let page : Delivery C = record {
        start_position = before;
        end_position = s.position;
        delivery_revision = s.queue_revision;
        rows = r ∷ rows;
      } in
      let (older', same, rest) =
        trim_deliveries-Chain l s.position older (s.deliveries ++ page ∷ []) (
          Chain-append (length older) before s.position s.deliveries page c refl refl
            (omega (arith, e)) (omega arith)) in
      record {
        counted = n;
        older = older';
        split =
            ap (λ rs. rs ++ r ∷ rows) split
            ∙ append_assoc older (delivered s.deliveries) (r ∷ rows)
            ∙ ap (λ rs. older ++ rs) (sym (delivered-append s.deliveries page))
            ∙ same;
        chain = rest;
        distinct = d;
        in_stock = i;
        conserved = k;
      }

  -- Serving a page shows its rows.
  pub serve_rows-Tracks :
      (l : DeliveryLimits) (page_size now : ℕ) (s : FeedSession C) (shown : List (Row C))
      → Tracks s shown
      → Tracks (serve_rows l page_size now s).1 (shown ++ (serve_rows l page_size now s).0)
  unfolding serve_rows
  serve_rows-Tracks l page_size now s shown t =
      record_delivery-Tracks l (take page_size s.queue) _ shown s.position refl t.older t.split
        t.chain (omega (arith, length-append shown (take page_size s.queue), t.counted)) t.distinct
        t.in_stock (λ a. omega (arith, serve-conserved page_size a shown s.queue, t.conserved a))
