-- ===== src/Backend/VotePath.antt =====
-- The vote path of src/backend/http.ts, from a parsed intent on: the limiter is asked first, the vote runs under
-- what it allows, and what was spent is taken from the bucket. Status codes other than 429, and texts, are
-- left out; a request that throws is answered by its error.
pub mod Budget
mod Examples
use dsh_liangxiang.Prelude.{
  ℕ, ◌-◌, ◌/◌, ◌<◌, max, String, Bool, true, false, not, ◌||◌, Option, none, some, List, [], ◌∷◌,
  str_eq, Number, nat, fraction, negative, infinite, negative_infinite, nan, Result, ok, err, ltb,
  ◌==◌, if◌then◌else◌,
}
use dsh_liangxiang.Backend.Store.{CaseRow, VoteRow, Db, StoreError, vote_request_by_request_id}
use dsh_liangxiang.Backend.Vote.{V1VoteRequest, V1VoteResult, accepted, rejected, Config, vote}
use dsh_liangxiang.Backend.VoteRateLimit.{VoteRateLimiter, VoteRateLimitReason, inspect, consume}

-- SELECT MAX(created_at) FROM liang_vote WHERE installation_id = ?
abbrev pub later : ℕ → Option ℕ → ℕ
later a none = a
later a (some b) = max a b

pub last_in : String → List VoteRow → Option ℕ
last_in installation_id [] = none
last_in installation_id (v ∷ votes) =
    let rest = last_in installation_id votes in
    if str_eq v.installation_id installation_id then some (later v.created_at rest) else rest

pub last_accepted_vote_at : Db → String → Option ℕ
unfolding last_in
last_accepted_vote_at db installation_id = last_in installation_id db.votes

pub data VoteAnswer : Type 0 where
  -- 429, with the limiter's reason
  limited : Option VoteRateLimitReason → VoteAnswer
  answered : Result StoreError V1VoteResult → VoteAnswer

pub record Server : Type 0 where
  pub limiter : VoteRateLimiter
  pub db : Db

-- decision.available <= 0
abbrev pub is_empty : Number → Bool
is_empty (nat n) = n == 0
is_empty (fraction n) = false
is_empty infinite = false
is_empty negative = true
is_empty negative_infinite = true
is_empty nan = false

-- What the limiter is charged after the vote, by whether the request had a receipt before.
pub charge :
    VoteRateLimiter
    → String
    → Result StoreError V1VoteResult
    → Bool
    → ℕ
    → Option ℕ
    → VoteRateLimiter
charge limiter installation_id (ok (accepted v used remaining spent original false)) had_receipt now
      last =
    if ltb 0 spent then (consume limiter installation_id (nat spent) now last).1 else limiter
charge limiter installation_id (ok (accepted v used remaining spent original true)) had_receipt now
      last =
    limiter
charge limiter installation_id (ok (rejected reason)) had_receipt now last =
    if had_receipt then limiter else (consume limiter installation_id (nat 1) now last).1
charge limiter installation_id (err e) had_receipt now last = limiter

pub run_vote :
    Config
    → VoteRateLimiter
    → Db
    → String
    → V1VoteRequest
    → CaseRow
    → ℕ
    → ℕ
    → Number
    → Bool
    → VoteAnswer × Server
unfolding charge last_accepted_vote_at
run_vote config limiter db installation_id intent active_case now limiter_now available
      had_receipt =
    let (outcome, db') = vote config db installation_id intent active_case now available in
    (
      answered outcome,
      record {
        limiter =
            charge limiter installation_id outcome had_receipt limiter_now
              (last_accepted_vote_at db installation_id);
        db = db';
      },
    )

-- `now` is the service's clock, `limiter_now` the wall clock.
pub post_vote : Config → Server → String → V1VoteRequest → CaseRow → ℕ → ℕ → VoteAnswer × Server
unfolding run_vote
post_vote config server installation_id intent active_case now limiter_now =
    elim (vote_request_by_request_id server.db installation_id intent.request_id) [
      | some stored ↦
          run_vote config server.limiter server.db installation_id intent active_case now
            limiter_now infinite true
      | none ↦
          let (decision, looked) =
            inspect server.limiter installation_id limiter_now
              (last_accepted_vote_at server.db installation_id) in
          if not decision.allowed || is_empty decision.available
          then (limited decision.reason, record server { limiter = looked })
          else run_vote config looked server.db installation_id intent active_case now limiter_now
              decision.available false
    ]
