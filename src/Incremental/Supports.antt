-- ===== src/Incremental/Supports.antt =====
-- The counts of merged and of combined patterns, and that adding the supports of appended cases
-- gives what mining all cases afresh gives.
use symbolic_recommendation.Prelude.{
  ℕ, ◌+◌, ◌≡◌, refl, sym, ◌∙◌, Bool, false, not, ◌&&◌, ◌||◌, List, [], ◌∷◌, ◌++◌, arith,
  if◌then◌else◌, keep_if, count_if, count_if-append, elem, elem-append, elem-keep_if,
  keep_if-IsDistinct, append-IsDistinct, IsDistinct, Eq,
}
use symbolic_recommendation.Prelude.Dict.{keys, get, put, has, get-put, is_some-get}
use symbolic_recommendation.Incremental.{
  PatternCounts, Rows, Patterns, row_support, old_target, old_other, premises_of, union_keys,
  merge_keys, combine_full, merge_delta,
}

module _ {K : Type 0} ⦃e : Eq K⦄ where
  abbrev pub target_of : K → Patterns K → ℕ
  target_of k patterns = old_target (get k patterns)

  abbrev pub other_of : K → Patterns K → ℕ
  other_of k patterns = old_other (get k patterns)

  abbrev pub support_of : K → Rows K → ℕ
  support_of k rows = row_support (get k rows)

  union_keys-IsDistinct :
      (t o : Rows K) → IsDistinct (keys t) → IsDistinct (keys o) → IsDistinct (union_keys t o)
  unfolding union_keys
  union_keys-IsDistinct t o d d' =
      append-IsDistinct (keys t) (keep_if (λ k. not (has k t)) (keys o)) d
        (keep_if-IsDistinct (λ k. not (has k t)) (keys o) d')
        (λ k h. ground (arith, elem-keep_if (λ j. not (has j t)) k (keys o)))

  elem-union_keys : (k : K) (t o : Rows K) → elem k (union_keys t o) ≡ (has k t || has k o)
  unfolding union_keys
  elem-union_keys k t o = ground (
    arith,
    elem-append k (keys t) (keep_if (λ j. not (has j t)) (keys o)),
    elem-keep_if (λ j. not (has j t)) k (keys o),
  )

  support-absent : (k : K) (rows : Rows K) → has k rows ≡ false → support_of k rows ≡ 0
  support-absent k rows h = ground (arith, is_some-get k rows)

  -- What the loop adds to the counts of a key.
  merge_keys-counts :
      (ks : List K) (t o : Rows K) (result : Patterns K) (k : K)
      → IsDistinct ks
      → (target_of k (merge_keys ks t o result)
          ≡ target_of k result + (if elem k ks then support_of k t else 0))
        × (other_of k (merge_keys ks t o result)
            ≡ other_of k result + (if elem k ks then support_of k o else 0))
  unfolding merge_keys
  merge_keys-counts [] t o result k d = (omega arith, omega arith)
  merge_keys-counts (j ∷ ks) t o result k d =
      let old = get j result in
      let row : PatternCounts K = record {
        premises = premises_of old (get j t) (get j o) j;
        target = old_target old + row_support (get j t);
        other = old_other old + row_support (get j o);
      } in
      ground (
        arith,
        e.beq_iff k j,
        get-put j k row result,
        merge_keys-counts ks t o (put j row result) k d.1,
      )

  merge_delta-counts :
      (p : Patterns K) (t o : Rows K) (k : K)
      → IsDistinct (keys t)
      → IsDistinct (keys o)
      → (target_of k (merge_delta p t o) ≡ target_of k p + support_of k t)
        × (other_of k (merge_delta p t o) ≡ other_of k p + support_of k o)
  unfolding merge_delta
  merge_delta-counts p t o k d d' = ground (
    arith,
    merge_keys-counts (union_keys t o) t o p k (union_keys-IsDistinct t o d d'),
    elem-union_keys k t o,
    support-absent k t,
    support-absent k o,
  )

  combine_full-merge : (t o : Rows K) → combine_full t o ≡ merge_delta [] t o
  unfolding combine_full merge_delta
  combine_full-merge t o = refl

-- `C` is the type of closed cases; each has the target outcome or the other one.
module _ {K C : Type 0} ⦃e : Eq K⦄ (occurs : K → C → Bool) (is_target : C → Bool) where
  abbrev pub target_support : K → List C → ℕ
  target_support k cases = count_if (λ c. occurs k c && is_target c) cases

  abbrev pub other_support : K → List C → ℕ
  other_support k cases = count_if (λ c. occurs k c && not (is_target c)) cases

  -- What the miner documents of the two passes at support one over `cases`: each pattern once, with
  -- the number of cases of the outcome in which it occurs, and no pattern that occurs left out.
  pub record IsMined (t o : Rows K) (cases : List C) : Type 0 where
    pub target_once : IsDistinct (keys t)
    pub other_once : IsDistinct (keys o)
    pub target_exact : (k : K) → support_of k t ≡ target_support k cases
    pub other_exact : (k : K) → support_of k o ≡ other_support k cases

  -- The stored counts are the supports in `cases`.
  pub record IsExact (patterns : Patterns K) (cases : List C) : Type 0 where
    pub target_counts : (k : K) → target_of k patterns ≡ target_support k cases
    pub other_counts : (k : K) → other_of k patterns ≡ other_support k cases

  -- Where the passes over the appended cases return each pattern once with its exact support in them:
  -- adding these supports to counts that are exact for the old cases gives counts that are exact for
  -- all cases.
  pub merge_delta-IsExact :
      (p : Patterns K) (t o : Rows K) (old appended : List C)
      → IsExact p old
      → IsMined t o appended
      → IsExact (merge_delta p t o) (old ++ appended)
  merge_delta-IsExact p t o old appended x m = record {
    target_counts = λ k. omega (
      arith,
      (merge_delta-counts p t o k m.target_once m.other_once).0,
      x.target_counts k,
      m.target_exact k,
      count_if-append (λ c. occurs k c && is_target c) old appended,
    );
    other_counts = λ k. omega (
      arith,
      (merge_delta-counts p t o k m.target_once m.other_once).1,
      x.other_counts k,
      m.other_exact k,
      count_if-append (λ c. occurs k c && not (is_target c)) old appended,
    );
  }

  no_patterns-IsExact : IsExact [] []
  unfolding get count_if
  no_patterns-IsExact = record { target_counts = λ k. refl; other_counts = λ k. refl }

  -- A full pass stores the exact counts of its cases.
  pub combine_full-IsExact :
      (t o : Rows K) (cases : List C) → IsMined t o cases → IsExact (combine_full t o) cases
  combine_full-IsExact t o cases m =
      rw (combine_full-merge t o) (merge_delta-IsExact [] t o [] cases no_patterns-IsExact m)

  -- Where every pass of the miner returns each pattern once with its exact support in the cases it
  -- reads: mining some cases in full and then the appended ones alone gives every pattern the counts
  -- that a full pass over all the cases gives it.
  pub delta-eq-full :
      (t o t1 o1 t2 o2 : Rows K) (old appended : List C)
      → IsMined t o old
      → IsMined t1 o1 appended
      → IsMined t2 o2 (old ++ appended)
      → (k : K)
      → (target_of k (merge_delta (combine_full t o) t1 o1) ≡ target_of k (combine_full t2 o2))
        × (other_of k (merge_delta (combine_full t o) t1 o1) ≡ other_of k (combine_full t2 o2))
  delta-eq-full t o t1 o1 t2 o2 old appended m m1 m2 k =
      let by_delta =
        merge_delta-IsExact (combine_full t o) t1 o1 old appended (combine_full-IsExact t o old m)
          m1 in
      let afresh = combine_full-IsExact t2 o2 (old ++ appended) m2 in
      (
        by_delta.target_counts k ∙ sym (afresh.target_counts k),
        by_delta.other_counts k ∙ sym (afresh.other_counts k),
      )
