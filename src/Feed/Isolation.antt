-- ===== src/Feed/Isolation.antt =====
-- A request for a page leaves the sessions of other users as they are, or forgets them.
use symbolic_recommendation.Prelude.{
  ℕ, ◌≡◌, refl, sym, ◌∙◌, ap, Bool, true, false, not, Option, none, some, List, arith, length, elem,
  ◌==◌, code_keys, ℤ, Bool-cases, ◌⊎◌, inl, inr, Result, ok, err, if_err-eq-ok, ok-injective,
}
use symbolic_recommendation.Prelude.Dict.{Dict, get, put, get-put}
use symbolic_recommendation.Metta.{Text}
use symbolic_recommendation.Feed.{FeedSession}
use symbolic_recommendation.Feed.Pages.{
  pool_of, PageRequest, FeedLab, int_is, page_size_of, resolve_cursor, prune_sessions,
  session_for_user, new_session,
}
use symbolic_recommendation.Feed.Queue.{fill_queue, serve_rows}
use symbolic_recommendation.Feed.Identity.{serve_rows-SameFeed, fill_queue-SameFeed}
use symbolic_recommendation.Feed.Sessions.{get-prune_sessions, session_for_user-get}
use symbolic_recommendation.Feed.Requests.{
  larger, needs_reset, follow_cursor, finish_page, serve_session, start_session, continue_session,
  page_of_session, page_of_found, page_of_target, feed_page,
}

module _ {C : Type 0} where
  -- Every session of `d'` is the user's, or stands in `d` as it is.
  pub record Isolated (user : Text) (d d' : Dict Text (FeedSession C)) : Type 0 where
    pub each :
        (id : Text) (s : FeedSession C) → get id d' ≡ some s → (s.user ≡ user) ⊎ (get id d ≡ some s)

  same-Isolated : (user : Text) (d : Dict Text (FeedSession C)) → Isolated user d d
  same-Isolated user d = record { each = λ id s h. inr h }

  put-Isolated :
      (user id : Text) (s : FeedSession C) (d : Dict Text (FeedSession C))
      → s.user ≡ user
      → Isolated user d (put id s d)
  put-Isolated user id s d own = record {
    each = λ other v h. elim (Bool-cases (other == id)) [
      | inl here ↦
          let v_is : s ≡ v = ground (arith, get-put id other s d) in
          inl (ap (λ (u : FeedSession C). u.user) (sym v_is) ∙ own)
      | inr there ↦ inr (ground (arith, get-put id other s d))
    ];
  }

  prune_sessions-Isolated :
      (user : Text) (now : ℕ) (d d' : Dict Text (FeedSession C))
      → Isolated user (prune_sessions now d) d'
      → Isolated user d d'
  prune_sessions-Isolated user now d d' i = record {
    each = λ id s h. elim (i.each id s h) [
      | inl own ↦ inl own
      | inr kept ↦ inr (get-prune_sessions now id s d kept)
    ];
  }

  follow_cursor-user :
      (at : Option (ℤ × ℤ)) (s s' : FeedSession C) → follow_cursor at s ≡ ok s' → s'.user ≡ s.user
  unfolding follow_cursor
  follow_cursor-user none s s' h = ap (λ (u : FeedSession C). u.user) (sym (ok-injective h))
  follow_cursor-user (some (position, revision)) s s' h =
      let (_, h1) = if_err-eq-ok (not (int_is position s.position)) _ _ h in
      let (_, h2) = if_err-eq-ok (not (int_is revision s.queue_revision)) _ _ h1 in
      ap (λ (u : FeedSession C). u.user) (sym (ok-injective h2))

module _ {C : Type 0} (rank : Text → List Text → Result (List (Text × C))) (lab : FeedLab)
    (q : PageRequest) where
  finish_page-Isolated :
      (id : Text) (reset : Bool) (size : ℕ) (d : Dict Text (FeedSession C)) (r : Result (Unit {0}))
      (s : FeedSession C)
      → s.user ≡ q.user
      → Isolated q.user d (finish_page rank lab q id reset size d (r, s)).1
  finish_page-Isolated id reset size d (err x) s own = put-Isolated q.user id s d own
  finish_page-Isolated id reset size d (ok u) s own =
      put-Isolated q.user id (serve_rows lab.limits size q.now s).1 d
        ((serve_rows-SameFeed lab.limits size q.now s).0 ∙ own)

  serve_session-Isolated :
      (id : Text) (reset : Bool) (size : ℕ) (d : Dict Text (FeedSession C)) (s : FeedSession C)
      → s.user ≡ q.user
      → Isolated q.user d (serve_session rank lab q id reset size d s).1
  unfolding serve_session
  serve_session-Isolated id reset size d s own =
      let window = larger size lab.feed_window in
      let p = fill_queue rank lab.show id window size (length s.items) s in
      finish_page-Isolated id reset size d p.0 p.1
        ((fill_queue-SameFeed rank lab.show id window size (length s.items) s).0 ∙ own)

  start_session-Isolated :
      (reset : Bool) (size : ℕ) (d : Dict Text (FeedSession C))
      → Isolated q.user d (start_session rank lab q reset size d).1
  unfolding start_session new_session
  start_session-Isolated reset size d =
      serve_session-Isolated q.fresh_id reset size d
        (new_session q.user (pool_of lab q.user) q.now lab.lab_version) refl

  continue_session-Isolated :
      (id : Text) (size : ℕ) (d : Dict Text (FeedSession C)) (r : Result (FeedSession C))
      → ((s : FeedSession C) → r ≡ ok s → s.user ≡ q.user)
      → Isolated q.user d (continue_session rank lab q id size d r).1
  continue_session-Isolated id size d (err x) own = same-Isolated q.user d
  continue_session-Isolated id size d (ok s) own =
      serve_session-Isolated id false size d s (own s refl)

  page_of_session-Isolated :
      (size : ℕ) (at : Option (ℤ × ℤ)) (d : Dict Text (FeedSession C)) (id : Option Text)
      (found : Option (FeedSession C))
      → session_for_user id q.user d ≡ ok found
      → Isolated q.user d (page_of_session rank lab q size at d id found).1
  page_of_session-Isolated size at d none found h = start_session-Isolated false size d
  page_of_session-Isolated size at d (some id) none h = same-Isolated q.user d
  page_of_session-Isolated size at d (some id) (some s) h =
      continue_session-Isolated id size d (follow_cursor at s) (λ s' followed.
        follow_cursor-user at s s' followed ∙ (session_for_user-get id q.user d s h).1)

  page_of_found-Isolated :
      (size : ℕ) (id : Option Text) (at : Option (ℤ × ℤ)) (d : Dict Text (FeedSession C))
      (r : Result (Option (FeedSession C)))
      → session_for_user id q.user d ≡ r
      → Isolated q.user d (page_of_found rank lab q size id at d r).1
  page_of_found-Isolated size id at d (err x) h = same-Isolated q.user d
  page_of_found-Isolated size id at d (ok found) h =
      elim (Bool-cases (needs_reset lab.lab_version at found)) [
        | inl stale ↦ rw stale (start_session-Isolated true size d)
        | inr current ↦ rw current (page_of_session-Isolated size at d id found h)
      ]

  page_of_target-Isolated :
      (d : Dict Text (FeedSession C)) (size : Result ℕ)
      (target : Result (Option Text × Option (ℤ × ℤ)))
      → Isolated q.user d (page_of_target rank lab q d size target).1
  page_of_target-Isolated d (err x) target = same-Isolated q.user d
  page_of_target-Isolated d (ok size) (err x) = same-Isolated q.user d
  page_of_target-Isolated d (ok size) (ok (id, at)) =
      let pruned = prune_sessions q.now d in
      prune_sessions-Isolated q.user q.now d _
        (page_of_found-Isolated size id at pruned (session_for_user id q.user pruned) refl)

  -- Whatever a request for a page holds, and however it ends, every session after it belongs to the
  -- user of the request or is, unchanged, a session from before it.
  pub feed_page-Isolated :
      (d : Dict Text (FeedSession C)) → Isolated q.user d (feed_page rank lab q d).1
  unfolding feed_page
  feed_page-Isolated d = elim (Bool-cases (elem q.user lab.users)) [
    | inl known ↦ rw known (
        page_of_target-Isolated d (page_size_of lab.top_k q.limit)
          (resolve_cursor q.cursor_given q.session))
    | inr unknown ↦ rw unknown (same-Isolated q.user d)
  ]
