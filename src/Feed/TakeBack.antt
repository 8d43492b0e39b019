-- ===== src/Feed/TakeBack.antt =====
-- Acknowledging, recovering and reranking: the retained pages are forgotten, taken back into the
-- queue, or the queue is put into another order.
use symbolic_recommendation.Prelude.{
  ℕ, ◌+◌, ◌≤◌, ◌≡◌, refl, sym, ◌∙◌, ap, subst, false, not, List, [], ◌∷◌, ◌++◌, append-nil, arith,
  ltb, nat_eq, length, length-take, take, drop, take-append-drop, is_empty, count_if-append,
  Bool-cases, inl, inr, ◌==◌, code_keys, Result, ok, err, >>=-eq-ok, if_err-eq-ok, if_ok-eq-ok,
  Scalar,
}
use symbolic_recommendation.Metta.{Text}
use symbolic_recommendation.Feed.{
  Row, FeedSession, acknowledge_deliveries, collect_rows, put_back, recover_rows, recover_at,
  recover_deliveries, non_negative, Recovered,
}
use symbolic_recommendation.Feed.Queue.{rerank_queue, requeue, reranked}
use symbolic_recommendation.Feed.Recovery.{delivered, Chain, acknowledge-late, collect_rows-drop}
use symbolic_recommendation.Feed.Stream.{times_ranked, times_row, Tracks}
use symbolic_recommendation.Feed.Filling.{times_row-ranked}

module _ {C : Type 0} where
  -- A client that has accepted everything: the retained pages are forgotten.
  pub acknowledged-Tracks :
      (s : FeedSession C) (shown : List (Row C))
      → Tracks s shown
      → Tracks (record s { deliveries = acknowledge_deliveries s.position s.deliveries }) shown
  acknowledged-Tracks s shown t =
      let gone =
        acknowledge-late s.position (length t.older) s.position s.deliveries t.chain
          (omega arith) in
      record {
        counted = t.counted;
        older = shown;
        split = sym (append-nil shown) ∙ ap (λ ds. shown ++ delivered ds) (sym gone);
        chain = subst (λ ds. Chain (length shown) ds s.position) (sym gone) t.counted;
        distinct = t.distinct;
        in_stock = t.in_stock;
        conserved = t.conserved;
      }

  put_back-Tracks :
      (p : ℕ) (rows : List (Row C)) (s : FeedSession C) (shown : List (Row C))
      → Tracks s shown
      → p ≤ s.position
      → rows ≡ drop p shown
      → Tracks (put_back p rows s) (take p shown)
  put_back-Tracks p [] s shown t h e =
      let same : shown ≡ take p shown =
        sym (take-append-drop p shown)
        ∙ ap (λ rs. take p shown ++ rs) (sym e)
        ∙ append-nil (take p shown) in
      subst (λ rs. Tracks (record s { deliveries = [] }) rs) same
        (record {
          counted = t.counted;
          older = shown;
          split = sym (append-nil shown);
          chain = t.counted;
          distinct = t.distinct;
          in_stock = t.in_stock;
          conserved = t.conserved;
        })
  put_back-Tracks p (r ∷ rows) s shown t h e =
      let short = length-take p shown (omega (arith, t.counted)) in
      record {
        counted = short;
        older = take p shown;
        split = sym (append-nil (take p shown));
        chain = short;
        distinct = t.distinct;
        in_stock = t.in_stock;
        conserved = λ a. omega (
          arith,
          count_if-append (λ (r : Row C). a == r.article) (r ∷ rows) s.queue,
          count_if-append (λ (r : Row C). a == r.article) (take p shown) (drop p shown),
          ap (times_row a) (take-append-drop p shown),
          ap (times_row a) e,
          t.conserved a,
        );
      }

  -- What a successful recovery has found.
  abbrev pub TakenBack : FeedSession C → Recovered → FeedSession C → Type 0
  TakenBack s report s' =
      (rows : List (Row C)) × (report.accepted_position ≤ s.position)
      × (collect_rows s.queue_revision report.accepted_position
            (acknowledge_deliveries report.accepted_position s.deliveries)
          ≡ ok (rows, s.position))
      × (s' ≡ put_back report.accepted_position rows s)

  recover_rows-TakenBack :
      (accepted : ℕ) (s s' : FeedSession C) (report : Recovered) (rows : List (Row C)) (end_ : ℕ)
      → ltb s.position accepted ≡ false
      → collect_rows s.queue_revision accepted (acknowledge_deliveries accepted s.deliveries)
        ≡ ok (rows, end_)
      → recover_rows accepted s (rows, end_) ≡ ok (report, s')
      → TakenBack s report s'
  recover_rows-TakenBack accepted s s' report rows end_ within collected h =
      let (whole, made) = if_ok-eq-ok (nat_eq end_ s.position) _ _ h in
      let same : report.accepted_position ≡ accepted = cc made in
      let at_end : end_ ≡ s.position = ground arith in
      (
        rows,
        ground arith,
        subst
            (λ p.
              collect_rows s.queue_revision p (acknowledge_deliveries p s.deliveries)
              ≡ ok (rows, s.position))
            (sym same) (collected ∙ ap (λ n. ok (rows, n)) at_end),
        sym (ap (λ p. p.1) made) ∙ ap (λ p. put_back p rows s) (sym same),
      )

  recover_at-TakenBack :
      (accepted revision : ℕ) (s s' : FeedSession C) (report : Recovered)
      → recover_at accepted revision s ≡ ok (report, s')
      → TakenBack s report s'
  unfolding recover_at
  recover_at-TakenBack accepted revision s s' report h =
      let (current, h1) = if_err-eq-ok (not (nat_eq revision s.queue_revision)) _ _ h in
      let (within, h2) = if_err-eq-ok (ltb s.position accepted) _ _ h1 in
      let (found, collected, h3) =
        >>=-eq-ok (collect_rows revision accepted (acknowledge_deliveries accepted s.deliveries))
          (λ found. recover_rows accepted s found) h2 in
      let same : revision ≡ s.queue_revision = ground (arith, current) in
      recover_rows-TakenBack accepted s s' report found.0 found.1 within
        (subst
          (λ r. collect_rows r accepted (acknowledge_deliveries accepted s.deliveries) ≡ ok found)
          same collected)
        h3

  pub recover_deliveries-TakenBack :
      (accepted_position accepted_revision : Scalar) (s s' : FeedSession C) (report : Recovered)
      → recover_deliveries accepted_position accepted_revision s ≡ ok (report, s')
      → TakenBack s report s'
  unfolding recover_deliveries
  recover_deliveries-TakenBack accepted_position accepted_revision s s' report h =
      let (accepted, _, h1) = >>=-eq-ok (non_negative _ accepted_position) _ h in
      let (revision, _, h2) =
        >>=-eq-ok (non_negative _ accepted_revision) (λ revision. recover_at accepted revision s)
          h1 in
      recover_at-TakenBack accepted revision s s' report h2

  -- A recovery takes back exactly the rows behind the accepted position.
  pub recover_deliveries-Tracks :
      (accepted_position accepted_revision : Scalar) (s s' : FeedSession C) (report : Recovered)
      (shown : List (Row C))
      → Tracks s shown
      → recover_deliveries accepted_position accepted_revision s ≡ ok (report, s')
      → Tracks s' (take report.accepted_position shown)
  recover_deliveries-Tracks accepted_position accepted_revision s s' report shown t h =
      let (rows, le, found, made) =
        recover_deliveries-TakenBack accepted_position accepted_revision s s' report h in
      let p = report.accepted_position in
      let behind : rows ≡ drop p shown =
        collect_rows-drop s.queue_revision p (length t.older) s.position t.older s.deliveries rows
          refl t.chain found
        ∙ ap (drop p) (sym t.split) in
      subst (λ s. Tracks s (take p shown)) (sym made) (put_back-Tracks p rows s shown t le behind)

  requeue-Tracks :
      (impression : Text) (r : Result (List (Text × C))) (s : FeedSession C) (shown : List (Row C))
      → Tracks s shown
      → ((ranked : List (Text × C))
          → r ≡ ok ranked
          → (a : Text) → times_ranked a ranked ≡ times_row a s.queue)
      → Tracks (requeue impression r s).1 shown
  requeue-Tracks impression (err x) s shown t law = t
  requeue-Tracks impression (ok ranked) s shown t law = record {
    counted = t.counted;
    older = t.older;
    split = t.split;
    chain = t.chain;
    distinct = t.distinct;
    in_stock = t.in_stock;
    conserved = λ a. omega (
      arith,
      times_row-ranked a impression s.queue_revision ranked,
      law ranked refl a,
      t.conserved a,
    );
  }

  reranked-Tracks :
      (now version : ℕ) (p : Result (Unit {0}) × FeedSession C) (shown : List (Row C))
      → Tracks p.1 shown
      → Tracks (reranked now version p).1 shown
  reranked-Tracks now version (err x, s) shown t = t
  reranked-Tracks now version (ok u, s) shown t = record {
    counted = t.counted;
    older = t.older;
    split = t.split;
    chain = t.chain;
    distinct = t.distinct;
    in_stock = t.in_stock;
    conserved = t.conserved;
  }

  begun-Tracks :
      (s : FeedSession C) (shown : List (Row C))
      → Tracks s shown
      → Tracks (record s { queue_revision = s.queue_revision + 1 }) shown
  begun-Tracks s shown t = record {
    counted = t.counted;
    older = t.older;
    split = t.split;
    chain = t.chain;
    distinct = t.distinct;
    in_stock = t.in_stock;
    conserved = t.conserved;
  }

  -- A new order of the queue shows nothing and takes nothing back.
  pub rerank_queue-Tracks :
      (show : ℕ → Text) (id : Text) (now version : ℕ) (r : Result (List (Text × C)))
      (s : FeedSession C) (shown : List (Row C))
      → Tracks s shown
      → ((ranked : List (Text × C))
          → r ≡ ok ranked
          → (a : Text) → times_ranked a ranked ≡ times_row a s.queue)
      → Tracks (rerank_queue show id now version r s).1 shown
  unfolding rerank_queue
  rerank_queue-Tracks show id now version r s shown t law =
      let begun = record s { queue_revision = s.queue_revision + 1 } in
      elim (Bool-cases (is_empty s.queue)) [
        | inl bare ↦
            rw bare (reranked-Tracks now version (ok tt, begun) shown (begun-Tracks s shown t))
        | inr some_ ↦ rw some_ (
            reranked-Tracks now version (requeue _ r begun) shown
              (requeue-Tracks _ r begun shown (begun-Tracks s shown t) law))
      ]
