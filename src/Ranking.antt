-- ===== src/Ranking.antt =====
-- ranking/lab_pairwise.py, with the pair features of mining/lab_lifecycle.py and their tables in
-- app/server.py: the comparison of two candidates by the rules that were mined for pairs. Here, what
-- the parts share.
pub mod Matcher
pub mod Counted
pub mod Joined
pub mod Comparisons
pub mod Features
pub mod Reversal
pub mod Turning
pub mod Antisymmetry
pub mod Reversed
pub mod Oriented
pub mod Specs
pub mod Plan
pub mod Exhaustive
pub mod Planned
pub mod Margins
pub mod Votes
pub mod Rows
pub mod Midranks
pub mod Tournament
pub mod Score
pub mod Scoring
pub mod Ranked
pub mod Order
pub mod Scored
pub mod Sized
pub mod Remembered
pub mod Returns
pub mod Ended
pub mod Groups
pub mod Middles
pub mod Placed
pub mod Midranked
pub mod Replay
mod Tests
mod ScoreTests
mod MidrankTests
mod RerankTests
use symbolic_recommendation.Prelude.{ℕ, List}
use symbolic_recommendation.Prelude.Dict.{Dict}
use symbolic_recommendation.Metta.{Text}

-- A predicate with a value.
abbrev pub Token : Type 0
Token = Text × Text

-- The premises of a rule, in its order.
abbrev pub Premises : Type 0
Premises = List Token

-- The facts of an ordered pair of candidates.
abbrev pub PairAttrs : Type 0
PairAttrs = Dict Text Text
