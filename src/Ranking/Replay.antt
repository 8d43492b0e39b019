-- ===== src/Ranking/Replay.antt =====
-- `_pairwise_replay_plan`, and of `_rerank_unserved_queue` of app/lab_serving.py what ranks the queue
-- again: from the proved pairs where they cover it, else by `score`. Which rows a feedback changes is
-- a parameter.
use symbolic_recommendation.Prelude.{
  ℕ, suc, Bool, true, false, not, ◌&&◌, Option, none, some, List, [], ◌∷◌, map, nat_eq,
  if◌then◌else◌, length, all_true, keep_if, sort_by, code_keys, Result, ok, err, ◌>>=◌, type_error,
}
use symbolic_recommendation.Prelude.Dict.{Dict, get, put, has}
use symbolic_recommendation.Metta.{Text}
use symbolic_recommendation.Quantiles.{Floats}
use symbolic_recommendation.Ranking.Plan.{Duel, exhaustive_count}
use symbolic_recommendation.Ranking.Margins.{Proof, or_else}
use symbolic_recommendation.Ranking.Rows.{Pairing, paired, RankedRow, point_key, in_order}
use symbolic_recommendation.Ranking.Tournament.{pairwise_rank}
use symbolic_recommendation.Ranking.Score.{Scorer}
use symbolic_recommendation.Ranking.Scoring.{row_ids, score}

-- The articles of a comparison, with the case of each orientation.
pub record Edge : Type 0 where
  pub left_id : Text
  pub right_id : Text
  pub forward : Text
  pub reverse : Text

unfoldable pub positions_from : ℕ → List Text → Dict Text ℕ → Dict Text ℕ
positions_from i [] positions = positions
positions_from i (aid ∷ ids) positions = positions_from (suc i) ids (put aid i positions)

-- The comparison of an edge, where both of its articles have a place.
abbrev pub replayed : Edge → Option ℕ → Option ℕ → List Duel → List Duel
replayed e (some left) (some right) rest =
    record { left = left; right = right; forward_case = e.forward; reverse_case = e.reverse } ∷ rest
replayed e _ _ rest = rest

unfoldable pub replay_edges : Dict Text ℕ → List Edge → List Duel
replay_edges positions [] = []
replay_edges positions (e ∷ edges) =
    replayed e (get e.left_id positions) (get e.right_id positions) (replay_edges positions edges)

module _ (fl : Floats) where
  -- `_last_pair_replay`
  pub record Replay : Type 0 where
    pub version : ℕ
    pub edges : List Edge
    pub proof_map : Dict Text (List (Proof fl))

  abbrev pub proved : Dict Text (List (Proof fl)) → Duel → Bool
  proved proof_map d = has d.forward_case proof_map && has d.reverse_case proof_map

  abbrev pub replay_found : ℕ → List Text → Replay → Option (List Duel)
  replay_found version ids replay =
      let comparisons = replay_edges (positions_from 0 ids []) replay.edges in
      if not (nat_eq replay.version version)
      then none
      else if not (nat_eq (length comparisons) (exhaustive_count (length ids)))
      then none
      else if all_true (proved replay.proof_map) comparisons
      then some comparisons
      else none

  -- `_pairwise_replay_plan`, of the articles of the rows
  unfoldable pub pairwise_replay_plan : ℕ → List Text → Option Replay → Option (List Duel)
  pairwise_replay_plan version ids none = none
  pairwise_replay_plan version ids (some replay) = replay_found version ids replay

  abbrev pub proofs_of : Option Replay → Dict Text (List (Proof fl))
  proofs_of none = []
  proofs_of (some replay) = replay.proof_map

  abbrev pub has_pairs : Pairing fl → Bool
  has_pairs (paired s) = true
  has_pairs _ = false

  unfoldable pub by_id : List (RankedRow fl) → Dict Text (RankedRow fl) → Dict Text (RankedRow fl)
  by_id [] d = d
  by_id (r ∷ rows) d = by_id rows (put r.article r d)

  -- The rows, with those that have been scored again in place.
  abbrev pub renew : Dict Text (RankedRow fl) → List (RankedRow fl) → List (RankedRow fl)
  renew d = map (λ (r : RankedRow fl). or_else r (get r.article d))

  abbrev pub rank_replayed :
      Scorer fl
      → Option Replay
      → List (RankedRow fl)
      → Option (List Duel)
      → Result (List (RankedRow fl))
  rank_replayed sc replay rows none = err (type_error "cannot unpack non-iterable NoneType object")
  rank_replayed sc replay rows (some comparisons) =
      pairwise_rank fl (sc.pair_margins (row_ids fl rows)) sc.pair_rules rows
        (ok (record { comparisons = comparisons; pair_specs = [] }))
        (λ specs. ok (proofs_of replay))

  abbrev pub score_changed : Scorer fl → Text → List Text → Result (List (RankedRow fl))
  score_changed sc user [] = ok []
  score_changed sc user (aid ∷ ids) = score fl sc user (some (aid ∷ ids)) (some 0) false

  -- The pairs are reused, and the points of the changed rows alone are computed again; `revised` is the
  -- scorer with their revised contexts.
  unfoldable pub rerank_incrementally :
      Scorer fl
      → Scorer fl
      → ℕ
      → Text
      → (Text → Bool)
      → Option Replay
      → List (RankedRow fl)
      → Result (List (RankedRow fl))
  rerank_incrementally sc revised version user changed replay rows =
      score_changed revised user (keep_if changed (row_ids fl rows)) >>= λ again.
      let renewed = sort_by (in_order fl (point_key fl)) (renew (by_id again []) rows) in
      rank_replayed sc replay renewed (pairwise_replay_plan version (row_ids fl renewed) replay)

  abbrev pub can_replay : Option (List Duel) → Bool
  can_replay none = false
  can_replay (some comparisons) = true

  -- The new order of a queue that is not empty; `skip` says whether the action is a skip.
  unfoldable pub rerank_rows :
      Scorer fl
      → Scorer fl
      → ℕ
      → Text
      → Bool
      → (Text → Bool)
      → Option Replay
      → List (RankedRow fl)
      → Result (List (RankedRow fl))
  rerank_rows sc revised version user skip changed replay rows =
      if (skip && all_true (λ (r : RankedRow fl). has_pairs r.pairing) rows)
        && can_replay (pairwise_replay_plan version (row_ids fl rows) replay)
      then rerank_incrementally sc revised version user changed replay rows
      else score fl sc user (some (row_ids fl rows)) (some 0) true
