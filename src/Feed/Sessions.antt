-- ===== src/Feed/Sessions.antt =====
-- Every session keeps its items: whatever requests come for whatever users, a page shows rows of its
-- own session only, and no session shows an article twice.
use symbolic_recommendation.Prelude.{
  ℕ, ◌≡◌, refl, sym, ◌∙◌, ap, subst, Bool, true, false, not, Option, none, some, List, [], ◌∷◌,
  ◌++◌, arith, ltb, if◌then◌else◌, length, keep_if, elem, ◌==◌, code_keys, IsDistinct, ℤ,
  Bool-cases, inl, inr, Result, ok, err, count_if, if_err-eq-ok, ok-injective,
}
use symbolic_recommendation.Prelude.Dict.{Dict, keys, get, put, remove, get-put, get-remove}
use symbolic_recommendation.Metta.{Text}
use symbolic_recommendation.Feed.{Row, FeedSession}
use symbolic_recommendation.Feed.Pages.{
  pool_of, PageRequest, Page, FeedLab, int_is, page_size_of, resolve_cursor, remove_all, is_expired,
  prune_sessions, find_session, owned_by, session_for_user, new_session,
}
use symbolic_recommendation.Feed.Queue.{fill_queue, serve_rows}
use symbolic_recommendation.Feed.Stream.{times, Tracks, serve_rows-Tracks}
use symbolic_recommendation.Feed.Filling.{RanksAll, fill_queue-Tracks}
use symbolic_recommendation.Feed.TakeBack.{acknowledged-Tracks}
use symbolic_recommendation.Feed.Pool.{feed_pool-IsDistinct}
use symbolic_recommendation.Feed.Requests.{
  larger, needs_reset, follow_cursor, page_result, finish_page, serve_session, start_session,
  continue_session, page_of_session, page_of_found, page_of_target, feed_page,
}

module _ {C : Type 0} where
  -- `f` says which rows each session has shown.
  pub record AllTrack (d : Dict Text (FeedSession C)) (f : Text → List (Row C)) : Type 0 where
    pub each : (id : Text) (s : FeedSession C) → get id d ≡ some s → Tracks s (f id)

  -- What the sessions have shown after a page, and after an error.
  abbrev pub after_page : Result (Page C) → (Text → List (Row C)) → Text → List (Row C)
  after_page (err x) f id = f id
  after_page (ok page) f id = if id == page.page_session then f id ++ page.feed else f id

  get-remove_all :
      (id : Text) (s : FeedSession C) (gone : List Text) (d : Dict Text (FeedSession C))
      → get id (remove_all gone d) ≡ some s
      → get id d ≡ some s
  unfolding remove_all
  get-remove_all id s [] d h = h
  get-remove_all id s (k ∷ ks) d h =
      let found = get-remove_all id s ks (remove k d) h in ground (arith, get-remove k id d)

  pub get-prune_sessions :
      (now : ℕ) (id : Text) (s : FeedSession C) (d : Dict Text (FeedSession C))
      → get id (prune_sessions now d) ≡ some s
      → get id d ≡ some s
  unfolding prune_sessions
  get-prune_sessions now id s d h =
      let kept = remove_all (keep_if (is_expired now d) (keys d)) d in
      elim (Bool-cases (ltb 128 (length kept))) [
        | inl many ↦
            get-remove_all id s (keep_if (is_expired now d) (keys d)) d
              (get-remove_all id s _ kept (rw many at h))
        | inr few ↦ get-remove_all id s (keep_if (is_expired now d) (keys d)) d (rw few at h)
      ]

  prune_sessions-AllTrack :
      (now : ℕ) (d : Dict Text (FeedSession C)) (f : Text → List (Row C))
      → AllTrack d f
      → AllTrack (prune_sessions now d) f
  prune_sessions-AllTrack now d f t = record {
    each = λ id s h. t.each id s (get-prune_sessions now id s d h);
  }

  put-AllTrack :
      (id : Text) (s : FeedSession C) (d : Dict Text (FeedSession C)) (f g : Text → List (Row C))
      → AllTrack d f
      → Tracks s (g id)
      → ((other : Text) → (other == id) ≡ false → g other ≡ f other)
      → AllTrack (put id s d) g
  put-AllTrack id s d f g t new same = record {
    each = λ other v h. elim (Bool-cases (other == id)) [
      | inl here ↦
          let e : other ≡ id = (code_keys.beq_iff other id).0 here in
          let v_is : s ≡ v = ground (arith, get-put id other s d) in
          subst (λ k. Tracks v (g k)) (sym e) (subst (λ u. Tracks u (g id)) v_is new)
      | inr there ↦
          let h' : get other d ≡ some v = ground (arith, get-put id other s d) in
          subst (λ rows. Tracks v rows) (sym (same other there)) (t.each other v h')
    ];
  }

  follow_cursor-Tracks :
      (at : Option (ℤ × ℤ)) (s s' : FeedSession C) (shown : List (Row C))
      → Tracks s shown
      → follow_cursor at s ≡ ok s'
      → Tracks s' shown
  unfolding follow_cursor
  follow_cursor-Tracks none s s' shown t h = subst (λ u. Tracks u shown) (ok-injective h) t
  follow_cursor-Tracks (some (position, revision)) s s' shown t h =
      let (_, h1) = if_err-eq-ok (not (int_is position s.position)) _ _ h in
      let (_, h2) = if_err-eq-ok (not (int_is revision s.queue_revision)) _ _ h1 in
      subst (λ u. Tracks u shown) (ok-injective h2) (acknowledged-Tracks s shown t)

  pub new_session-Tracks :
      (user : Text) (pool : List Text) (now version : ℕ)
      → IsDistinct pool
      → Tracks {C = C} (new_session user pool now version) []
  unfolding new_session count_if
  new_session-Tracks user pool now version d = record {
    counted = refl;
    older = [];
    split = refl;
    chain = refl;
    distinct = d;
    in_stock = omega arith;
    conserved = λ a. omega arith;
  }

  owned_by-some :
      (user : Text) (o : Option (FeedSession C)) (s : FeedSession C)
      → owned_by user o ≡ ok (some s)
      → (o ≡ some s) × (s.user ≡ user)
  owned_by-some user none s h = cc
  owned_by-some user (some v) s h =
      let (own, same) = if_err-eq-ok (not (v.user == user)) _ _ h in
      let e : v ≡ s = cc same in
      let mine : v.user ≡ user = (code_keys.beq_iff v.user user).0 (ground (arith, own)) in
      (ap some e, sym (ap (λ (u : FeedSession C). u.user) e) ∙ mine)

  find_session-get :
      (id : Text) (d : Dict Text (FeedSession C)) (s : FeedSession C)
      → find_session (some id) d ≡ some s
      → get id d ≡ some s
  find_session-get id d s h = ground arith

  -- A session that is found is the user's own.
  pub session_for_user-get :
      (id user : Text) (d : Dict Text (FeedSession C)) (s : FeedSession C)
      → session_for_user (some id) user d ≡ ok (some s)
      → (get id d ≡ some s) × (s.user ≡ user)
  unfolding session_for_user
  session_for_user-get id user d s h =
      let (found, own) = owned_by-some user (find_session (some id) d) s h in
      (find_session-get id d s found, own)

module _ {C : Type 0} (rank : Text → List Text → Result (List (Text × C))) (all : RanksAll rank)
    (lab : FeedLab) (q : PageRequest) where
  finish_page-AllTrack :
      (id : Text) (reset : Bool) (size : ℕ) (d : Dict Text (FeedSession C))
      (f : Text → List (Row C)) (r : Result (Unit {0})) (s : FeedSession C)
      → AllTrack d f
      → Tracks s (f id)
      → AllTrack
          (finish_page rank lab q id reset size d (r, s)).1
          (after_page (finish_page rank lab q id reset size d (r, s)).0 f)
  finish_page-AllTrack id reset size d f (err x) s t new =
      put-AllTrack id s d f f t new (λ other h. refl)
  finish_page-AllTrack id reset size d f (ok u) s t new =
      let served = serve_rows lab.limits size q.now s in
      let page = page_result id reset lab.lab_version served.0 served.1 in
      put-AllTrack id served.1 d f (after_page (ok page) f) t
        (rw ((code_keys.beq_iff id id).1 refl)
          (serve_rows-Tracks lab.limits size q.now s (f id) new))
        (λ other h. rw h)

  serve_session-AllTrack :
      (id : Text) (reset : Bool) (size : ℕ) (d : Dict Text (FeedSession C))
      (f : Text → List (Row C)) (s : FeedSession C)
      → AllTrack d f
      → Tracks s (f id)
      → AllTrack
          (serve_session rank lab q id reset size d s).1
          (after_page (serve_session rank lab q id reset size d s).0 f)
  unfolding serve_session
  serve_session-AllTrack id reset size d f s t new =
      let p = fill_queue rank lab.show id (larger size lab.feed_window) size (length s.items) s in
      finish_page-AllTrack id reset size d f p.0 p.1 t (
        fill_queue-Tracks rank all lab.show id (larger size lab.feed_window) size (length s.items) s
          (f id) new)

  module _ (f : Text → List (Row C)) (corpus : IsDistinct lab.articles)
      (reorders : (a : Text) (xs : List Text) → times a (lab.shuffle q.user xs) ≡ times a xs)
      (unused : f q.fresh_id ≡ []) where
    start_session-AllTrack :
        (reset : Bool) (size : ℕ) (d : Dict Text (FeedSession C))
        → AllTrack d f
        → AllTrack
            (start_session rank lab q reset size d).1
            (after_page (start_session rank lab q reset size d).0 f)
    unfolding start_session
    start_session-AllTrack reset size d t =
        let s = new_session q.user (pool_of lab q.user) q.now lab.lab_version in
        serve_session-AllTrack q.fresh_id reset size d f s t (
          subst (λ rows. Tracks s rows) (sym unused)
            (new_session-Tracks q.user (pool_of lab q.user) q.now lab.lab_version (
              feed_pool-IsDistinct (lab.shuffle q.user) reorders (lab.candidates_of q.user)
                (lab.seen_of q.user) lab.articles corpus)))

    continue_session-AllTrack :
        (id : Text) (size : ℕ) (d : Dict Text (FeedSession C)) (r : Result (FeedSession C))
        → AllTrack d f
        → ((s : FeedSession C) → r ≡ ok s → Tracks s (f id))
        → AllTrack
            (continue_session rank lab q id size d r).1
            (after_page (continue_session rank lab q id size d r).0 f)
    continue_session-AllTrack id size d (err x) t new = t
    continue_session-AllTrack id size d (ok s) t new =
        serve_session-AllTrack id false size d f s t (new s refl)

    page_of_session-AllTrack :
        (size : ℕ) (at : Option (ℤ × ℤ)) (d : Dict Text (FeedSession C)) (id : Option Text)
        (found : Option (FeedSession C))
        → AllTrack d f
        → session_for_user id q.user d ≡ ok found
        → AllTrack
            (page_of_session rank lab q size at d id found).1
            (after_page (page_of_session rank lab q size at d id found).0 f)
    page_of_session-AllTrack size at d none found t h = start_session-AllTrack false size d t
    page_of_session-AllTrack size at d (some id) none t h = t
    page_of_session-AllTrack size at d (some id) (some s) t h =
        continue_session-AllTrack id size d (follow_cursor at s) t (λ s' followed.
          let (there, own) = session_for_user-get id q.user d s h in
          follow_cursor-Tracks at s s' (f id) (t.each id s there) followed)

    page_of_found-AllTrack :
        (size : ℕ) (id : Option Text) (at : Option (ℤ × ℤ)) (d : Dict Text (FeedSession C))
        (r : Result (Option (FeedSession C)))
        → AllTrack d f
        → session_for_user id q.user d ≡ r
        → AllTrack
            (page_of_found rank lab q size id at d r).1
            (after_page (page_of_found rank lab q size id at d r).0 f)
    page_of_found-AllTrack size id at d (err x) t h = t
    page_of_found-AllTrack size id at d (ok found) t h =
        elim (Bool-cases (needs_reset lab.lab_version at found)) [
          | inl stale ↦ rw stale (start_session-AllTrack true size d t)
          | inr current ↦ rw current (page_of_session-AllTrack size at d id found t h)
        ]

    page_of_target-AllTrack :
        (d : Dict Text (FeedSession C)) (size : Result ℕ)
        (target : Result (Option Text × Option (ℤ × ℤ)))
        → AllTrack d f
        → AllTrack
            (page_of_target rank lab q d size target).1
            (after_page (page_of_target rank lab q d size target).0 f)
    page_of_target-AllTrack d (err x) target t = t
    page_of_target-AllTrack d (ok size) (err x) t = t
    page_of_target-AllTrack d (ok size) (ok (id, at)) t =
        let pruned = prune_sessions q.now d in
        page_of_found-AllTrack size id at pruned (session_for_user id q.user pruned)
          (prune_sessions-AllTrack q.now d f t) refl

    -- Where the scorer ranks all that it is given, the corpus names each article once, the shuffle only
    -- reorders and the fresh ID names no session that has shown anything: after a call of `feed_page`, whatever the request and
    -- however it ends, every session that is kept has shown what it had, followed by the rows of the
    -- page where the page is the session's, and these with its queue and its unranked items are
    -- exactly the items of the session.
    pub feed_page-AllTrack :
        (d : Dict Text (FeedSession C))
        → AllTrack d f
        → AllTrack (feed_page rank lab q d).1 (after_page (feed_page rank lab q d).0 f)
    unfolding feed_page
    feed_page-AllTrack d t = elim (Bool-cases (elem q.user lab.users)) [
      | inl known ↦ rw known (
          page_of_target-AllTrack d (page_size_of lab.top_k q.limit)
            (resolve_cursor q.cursor_given q.session) t)
      | inr unknown ↦ rw unknown t
    ]
