-- ===== src/Feed/Recovery.antt =====
-- The retained pages stand end to end behind one another up to the session's position, and what is
-- recovered is exactly what was delivered behind the accepted position.
use symbolic_recommendation.Prelude.{
  ℕ, ◌+◌, ◌≤◌, ◌<◌, ◌≡◌, refl, sym, ◌∙◌, ap, subst, true, false, ◌&&◌, List, [], ◌∷◌, ◌++◌,
  append_assoc, arith, ltb, nat_eq, length, length-append, drop, drop-length-append, keep_if,
  Bool-cases, inl, inr, ok, >>=-eq-ok,
}
use symbolic_recommendation.Feed.{Row, Delivery, acknowledge_deliveries, collect_rows}

module _ {C : Type 0} where
  abbrev pub delivered : List (Delivery C) → List (Row C)
  delivered [] = []
  delivered (d ∷ ds) = d.rows ++ delivered ds

  -- The pages `ds` lead from position `a` to position `b`, and none is empty.
  abbrev pub Chain : ℕ → List (Delivery C) → ℕ → Type 0
  Chain a [] b = a ≡ b
  Chain a (d ∷ ds) b =
      (d.start_position ≡ a)
      × (d.end_position ≡ a + length d.rows)
      × (0 < length d.rows)
      × Chain d.end_position ds b

  pub Chain-le : (a b : ℕ) (ds : List (Delivery C)) → Chain a ds b → a ≤ b
  Chain-le a b [] c = omega arith
  Chain-le a b (d ∷ ds) c = omega (arith, Chain-le d.end_position b ds c.3)

  pub Chain-append :
      (a b m : ℕ) (ds : List (Delivery C)) (d : Delivery C)
      → Chain a ds b
      → d.start_position ≡ b
      → d.end_position ≡ m
      → m ≡ b + length d.rows
      → 0 < length d.rows
      → Chain a (ds ++ d ∷ []) m
  Chain-append a b m [] d c s e f n = (s ∙ sym c, omega arith, n, e)
  Chain-append a b m (x ∷ ds) d c s e f n =
      (c.0, c.1, c.2, Chain-append x.end_position b m ds d c.3 s e f n)

  -- Every page is behind a position before the first.
  acknowledge-early :
      (p a b : ℕ) (ds : List (Delivery C)) → Chain a ds b → p ≤ a → acknowledge_deliveries p ds ≡ ds
  unfolding acknowledge_deliveries keep_if
  acknowledge-early p a b [] c h = refl
  acknowledge-early p a b (d ∷ ds) c h = ground (arith, acknowledge-early p d.end_position b ds c.3)

  -- No page is behind the last position.
  pub acknowledge-late :
      (p a b : ℕ) (ds : List (Delivery C)) → Chain a ds b → b ≤ p → acknowledge_deliveries p ds ≡ []
  unfolding acknowledge_deliveries keep_if
  acknowledge-late p a b [] c h = refl
  acknowledge-late p a b (d ∷ ds) c h =
      ground (arith, Chain-le d.end_position b ds c.3, acknowledge-late p d.end_position b ds c.3)

  collect_rows-step :
      (revision a q : ℕ) (d : Delivery C) (ds : List (Delivery C)) (rows : List (Row C))
      → collect_rows revision a (d ∷ ds) ≡ ok (rows, q)
      → (p : List (Row C) × ℕ) × (d.start_position ≡ a)
        × (collect_rows revision d.end_position ds ≡ ok p)
        × (rows ≡ d.rows ++ p.0)
  unfolding collect_rows
  collect_rows-step revision a q d ds rows h =
      elim (Bool-cases (nat_eq d.start_position a && nat_eq d.delivery_revision revision)) [
        | inl fits ↦
            let (p, found, made) =
              >>=-eq-ok (collect_rows revision d.end_position ds) (λ p. ok (d.rows ++ p.0, p.1))
                (rw fits at h) in
            (p, ground arith, found, ground arith)
        | inr other ↦ cc (rw other at h)
      ]

  collect_rows-all :
      (revision a b q : ℕ) (ds : List (Delivery C)) (rows : List (Row C))
      → Chain a ds b
      → collect_rows revision a ds ≡ ok (rows, q)
      → rows ≡ delivered ds
  unfolding collect_rows
  collect_rows-all revision a b q [] rows c h = ground arith
  collect_rows-all revision a b q (d ∷ ds) rows c h =
      let (p, start_, found, made) = collect_rows-step revision a q d ds rows h in
      made
      ∙ ap (λ rs. d.rows ++ rs) (collect_rows-all revision d.end_position b p.1 ds p.0 c.3 found)

  collect_rows-nil :
      (revision p b : ℕ) (rows : List (Row C))
      → collect_rows revision p [] ≡ ok (rows, b)
      → (rows ≡ []) × (p ≡ b)
  unfolding collect_rows
  collect_rows-nil revision p b rows h = ground arith

  acknowledge-ahead :
      (p a b : ℕ) (d : Delivery C) (ds : List (Delivery C))
      → Chain a (d ∷ ds) b
      → ltb p d.end_position ≡ true
      → acknowledge_deliveries p (d ∷ ds) ≡ d ∷ ds
  unfolding acknowledge_deliveries keep_if
  acknowledge-ahead p a b d ds c h = ground (arith, acknowledge-early p d.end_position b ds c.3)

  acknowledge-behind :
      (p : ℕ) (d : Delivery C) (ds : List (Delivery C))
      → ltb p d.end_position ≡ false
      → acknowledge_deliveries p (d ∷ ds) ≡ acknowledge_deliveries p ds
  unfolding acknowledge_deliveries keep_if
  acknowledge-behind p d ds h = rw h

  -- The rows of the pages behind an accepted position, where these follow one another from it, are
  -- those that were delivered behind it.
  pub collect_rows-drop :
      (revision p a b : ℕ) (older : List (Row C)) (ds : List (Delivery C)) (rows : List (Row C))
      → length older ≡ a
      → Chain a ds b
      → collect_rows revision p (acknowledge_deliveries p ds) ≡ ok (rows, b)
      → rows ≡ drop p (older ++ delivered ds)
  unfolding acknowledge_deliveries keep_if
  collect_rows-drop revision p a b older [] rows l c h =
      let (none_left, at_end) = collect_rows-nil revision p b rows h in
      none_left
      ∙ sym (
          ap (λ n. drop n (older ++ [])) {y = length older} (omega (arith, at_end))
          ∙ drop-length-append older [])
  collect_rows-drop revision p a b older (d ∷ ds) rows l c h =
      elim (Bool-cases (ltb p d.end_position)) [
        | inl ahead ↦
            let h' : collect_rows revision p (d ∷ ds) ≡ ok (rows, b) =
              subst (λ l. collect_rows revision p l ≡ ok (rows, b))
                (acknowledge-ahead p a b d ds c ahead) h in
            let start_ = (collect_rows-step revision p b d ds rows h').1 in
            collect_rows-all revision p b b (d ∷ ds) rows
              (start_, omega (arith, c.0, c.1, start_), c.2, c.3) h'
            ∙ sym (
                ap (λ n. drop n (older ++ delivered (d ∷ ds))) {y = length older}
                  (omega (arith, c.0, start_))
                ∙ drop-length-append older (delivered (d ∷ ds)))
        | inr behind ↦
            collect_rows-drop revision p d.end_position b (older ++ d.rows) ds rows
              (omega (arith, length-append older d.rows, c.1)) c.3
              (subst (λ l. collect_rows revision p l ≡ ok (rows, b))
                (acknowledge-behind p d ds behind) h)
            ∙ ap (drop p) (append_assoc older d.rows (delivered ds))
      ]
