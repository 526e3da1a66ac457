-- ===== src/Lib.antt =====
-- A verification library of liangxiang: a community vote in which installations earn sticks of incense by
-- the tokens their agent uses, spend them on a daily case, and see the ratio of the votes as a tier.
--
-- The parts, and the files that model them:
--   Domain/     src/domain: pure rules. Errors (errors.ts); Incense (tokens.ts, incense.ts: tokens to sticks,
--               and spends); Liangzi (liangzi.ts: the tiers of an up ratio); GlobalState (global-state.ts:
--               the aggregate and the public snapshot); Vote (vote.ts); VoteBudget (vote-budget.ts: refill
--               and clamp); LocalIncense and LocalEpithet (local-incense.ts, local-epithet.ts: the host's own
--               counters); IncenseWeight (incense-weight.ts: model weights); Presentation (presentation.ts);
--               Calendar (dates as texts and the days of the language's `Date`), Case (case.ts) and Archive
--               (archive.ts: weeks, months and what they sum).
--   Backend/    src/backend: the authority. Rows and Store (schema.ts, store.ts: the tables and one function for
--               each statement that a vote runs); VoteReplay and Vote (service.ts: `vote` and what it calls);
--               VoteRateLimit, AdmissionRateLimit, IdentityRateLimit (the files of those names); VotePath (http.ts:
--               the limiter, the vote and the charge in one request); TokenClaim (service.ts: the
--               tokens that an installation claims); Admission (service.ts and store.ts: the
--               tickets that let it in) and Archives (the same files: the finished days, weeks
--               and months).
--   Host/       src/host and src/compat/dsh: RequestUsageSettler (settled-usage.ts: the state machine that turns
--               a session's events into settled requests) and UsageLedger (usage-ledger.ts: watermarks, and
--               the credit of batches of settled requests); UsageProjection (usage-projection.ts: marks and
--               days in memory, with the store behind them); DayEnd (day-end-service.ts with the types of
--               src/shared/day-end.ts: the votes that a timer casts, with their saved intents).
--   Shared/     src/shared: BusinessDate (business-date.ts: the search for the end of a business day).
--   Prelude     shared helpers: tests on numbers, lists as tables, results and guards, JavaScript numbers.
--
-- How they interact. The host settles a session's usage by RequestUsageSettler and credits it by
-- UsageLedger and IncenseWeight, in the maps of UsageProjection, which gives the claim. The backend stores
-- claims in the rows that Store holds, and a vote clamps the request by VoteBudget, spends by a guarded
-- UPDATE, adds to the day's counters and publishes a snapshot, in one transaction. The rate limiters stand
-- before it: VotePath asks the limiter, runs the vote under what it allows, and charges it. The snapshot's
-- tier is Liangzi's. Archives sums a day's counters when the day is over, by the weeks and months of
-- Archive, whose temporary periods add today to the days that are archived. DayEnd sends votes to the
-- authority before the day ends, at the instant that BusinessDate finds, and counts what was accepted by
-- LocalIncense.
--
-- How the code is written here. Names are the source's, in lower case with underscores. A function that
-- throws gives back a `Result`; a transaction is a function on the database whose error holds no database,
-- which is the rollback. A table is a list of rows, a statement is a search or an update of it by the test
-- of its WHERE clause, and a unique index is the test that INSERT makes. An in-memory limiter is a record
-- that each call gives back. JavaScript numbers are a data type with the cases that the guards tell apart;
-- after a guard, counts are natural numbers, which the guards keep below 2^53. Ratios are exact fractions,
-- and the budget's tokens are counted in parts of 1/60,000, where the source computes with doubles:
-- rounding is left out. An asynchronous routine is a machine whose phases are the points where it awaits,
-- and whose events are what may happen there, in any order. Recursion is on lists and numbers, and the
-- search for the end of a day is recursive on the width of its interval, by well-founded recursion. Only
-- `decimal` has fuel: 16 digits, which a safe integer does not exceed.
--
-- Not modelled: HTTP but for the order of calls of a vote, the command line, clocks and signatures (I/O);
-- texts of log lines and messages; the parsers of the wire formats; the case bank and the opening of
-- cases, and the rekeying of identities at the backend; the listing of tickets and the history response;
-- the personal state and the snapshot that a vote's response adds; the tables' CHECKs beyond what the
-- statements keep, such as the bounds of a stored count; manual votes beside the day-end votes, which the
-- moments of a run stand for; the data of a session's events beyond what the settler's checks leave; the
-- client. The active case of a vote is an argument, as is the date of an instant for the usage ledger and
-- for the search for the end of a day.
mod Prelude
pub mod Domain
pub mod Backend
pub mod Host
pub mod Shared
