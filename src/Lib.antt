-- ===== src/Lib.antt =====
-- The mining core of the recommendation lab, its live feed and the gateway before its scorers.
--
-- The lab records closed cases of user behaviour as MeTTa facts, mines frequent patterns from them
-- with PeTTa, and serves recommendations. The parts that are modelled here keep what is mined
-- bounded, current and consistent, and send each request to its scorer:
--
-- * Retention (mining/retention.py): `retain_complete_units` keeps the newest whole units of a
--   stream of records within a bound on units and one on records. The tally of records, the order
--   of the units, the selection loop and the audit are `tally`, `order_units`, `select_units` and
--   `retained_window`. A raw unit ID is a text or another value, as in the source.
-- * AsyncMining (app/async_mining.py): the `AsyncMiningCoordinator`. Its fields are the record
--   `Coordinator`; the worker thread is a place in `_run`, and a step goes to the next lock or
--   call. `schedule` and `close` may come between any two steps, so every interleaving of the
--   lock's owners is a sequence of steps. The callbacks may answer anything or raise.
-- * Metta (mining/petta_workspace.py, mining/incremental_fpminer.py, mining/rule_parser.py): the
--   scanners that accept one parenthesized fact and that cut forms out of the miner's output, over
--   lists of code points.
-- * Workspace (mining/petta_workspace.py): `PeTTaWorkspaceCache`, one AtomSpace for each plan,
--   filled by commands to PeTTa. A call that raises leaves what was written before.
-- * Incremental (mining/incremental_fpminer.py): `IncrementalFpMinerCache`, exact supports for
--   each plan, updated by a pass over the appended cases alone where that is allowed, and the
--   delta spaces that such a pass reads.
-- * Gateway (app/production_pool.py): the session routes, the shard of a request and the admission
--   of requests.
-- * Reasoner (app/reasoner.py): `IsolatedPeTTaChainer`, the scorer in a worker process, with the
--   journal of acknowledged mutations and the restart after a missed deadline.
-- * Feed (app/lab_serving.py): the sessions of the live feed. `feed_page`, with the pool, the
--   pruning and the ownership of sessions, is Feed/Pages, Feed/Queue and Feed/Requests; the
--   retained deliveries and `_recover_unaccepted_feed_deliveries` are Feed. A session walks
--   through its items in windows, which the scorer ranks into its queue, and serves the queue page
--   by page. Feed/Stream says what such a session tracks and Feed/Offers what it promises.
--   Feed/Feedback is what `event` of app/server.py does to the session of a served row.
-- * Quantiles (core/symbolic.py): `QuantileNumericEvidence`, which turns numbers and pairs of
--   numbers into the symbols of mined facts, over the cuts of a training split. The floats are an
--   interface, `Floats`, with the laws of IEEE 754 that are used in `FloatLaws`.
-- * Ranking (ranking/lab_pairwise.py, and `_pair_features` of mining/lab_lifecycle.py over the
--   tables of app/server.py): how two candidates are compared. Ranking/Comparisons and
--   Ranking/Features are the facts of a pair, Ranking/Reversal the facts of the pair the other way
--   round, Ranking/Matcher the compiled index from facts to the pair rules, Ranking/Oriented the
--   case of a pair for one orientation and for both, with the memo of cases, and Ranking/Plan the
--   comparisons of a slate. The quantile symbols are Quantiles' encoders. `plan_each` in
--   Ranking/Planned is the plan without the reversal, the index and the memo. Ranking/Margins,
--   Ranking/Votes, Ranking/Midranks and Ranking/Tournament are `_pairwise_rank`: the margins of the
--   proofs, the totals of the evidence families, the ranks and the order of the rows. The cache of
--   margins, with its limit, goes from comparison to comparison; a ranking starts from any cache,
--   and what it leaves there is not carried to the next one, for which any cache may be given
--   again. Ranking/Score and Ranking/Scoring are `_rank` and `score`, which Feed/Scored puts into
--   the live feed; a row's context in the queue is the row that the scorer returned. Ranking/Replay
--   is the rerank of a queue from the proved pairs, and Feed/Reranked puts it into the feedback on
--   a row. Ranking/Middles and Ranking/Groups compare the loop of `_midrank_scores` with a count.
--
-- Workspace and Incremental use Metta's scanners and stripping; Incremental compares the hashes of
-- cases with the same functions as Workspace. Retention's units are those that Incremental compares
-- to find expired ones. Prelude holds what they share: Boolean tests, lists, keys with a decidable
-- equality, dictionaries in insertion order, exceptions as values, and sorting.
--
-- Numbers are the natural numbers: the source's integers have no width. Where the source subtracts,
-- its test for a negative difference is written out. Loops are recursion on the list they walk over;
-- the eviction loop of the gateway has the number of routes as fuel, which is one step for each
-- entry that it can forget; the loop over the windows of a feed has the number of items, of which
-- each round takes one or more. A lock is not modelled where one call holds it throughout.
--
-- Parameters stand for what is not in the repository: the PeTTa process, the PeTTaChainer runtime,
-- pipes and processes, the passes of the miner, the callbacks of the coordinator, SHA-256 and
-- BLAKE2s digests, UTF-8, which refuses a lone surrogate, floats, fresh session IDs, the clock, the
-- shuffle of the corpus, `str` of a number and the word characters of regular expressions. The
-- scorer of the feed is a parameter of the files under Feed, with the hypothesis that it ranks each
-- of its candidates once (`RanksAll`); Feed/Scored discharges it. The proofs of points and of
-- pairs, which PeTTaChainer finds, are given as what the source's regular expressions read of them.
-- A sum of floats is repeated addition.
--
-- Not modelled: the rest of lab serving (contexts, proof ledgers, and of a rerank which rows a
-- feedback changes and the report), the HTTP application but for the feedback on a served row, the
-- lab's life cycle but for the facts of pairs, the proof channels, the caches of proofs and of feeds,
-- features other than the quantile encoder, evaluation, pipelines, the command line and the data
-- sets, and of the modelled files the arithmetic on floats, the texts of messages and reports, and
-- input and output.
mod Prelude
pub mod Retention
pub mod AsyncMining
pub mod Metta
pub mod Workspace
pub mod Incremental
pub mod Gateway
pub mod Reasoner
pub mod Feed
pub mod Quantiles
pub mod Ranking
