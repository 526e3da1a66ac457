-- ===== src/Backend/VotePath/Budget.antt =====
-- A vote that src/backend/http.ts lets through is paid for by the installation's bucket.
use dsh_liangxiang.Prelude.{
  ℕ, ◌-◌, ◌*◌, ◌≤◌, ◌<◌, String, ◌≡◌, refl, sym, ap, ◌∙◌, inl, inr, Bool, true, false, not, ◌||◌,
  Option, none, some, List, [], ◌∷◌, arith, str_eq, Number, nat, infinite, is_finite, floor_or_zero,
  Result, ok, leb, lt→ltb, le→leb, le→ltb_false, ne_test, Bool-cases, length, find,
  find-keep_where-none,
}
use text.Mathlib.TextEquality.{eq_iff as text_eq_iff}
use dsh_liangxiang.Prelude.Division.{mul-le_of_le_div}
use dsh_liangxiang.Domain.Vote.{VoteType}
use dsh_liangxiang.Domain.VoteBudget.{vote_budget_window_ms}
use dsh_liangxiang.Backend.Store.{
  CaseRow, Db, StoreError, VoteRequestRow, vote_request_by_request_id,
}
use dsh_liangxiang.Backend.Vote.{V1VoteRequest, V1VoteResult, accepted, Config, vote}
use dsh_liangxiang.Backend.Vote.Fresh.{vote-FreshEnd}
use dsh_liangxiang.Backend.Vote.Commits.{is_fresh}
use dsh_liangxiang.Backend.Vote.Solvency.{IsSolvent}
use dsh_liangxiang.Backend.Vote.Spend.{accepted-Charged}
use dsh_liangxiang.Backend.VoteRateLimit.{
  Bucket, VoteRateLimiter, has_key, set_bucket, evict_expired, make_room, is_full, tokens_now,
  whole, inspect, consume_parts, consume,
}
use dsh_liangxiang.Backend.VotePath.{
  answered, Server, last_accepted_vote_at, is_empty, charge, run_vote, post_vote,
}

find-put :
    (b : Bucket) (ws : List Bucket) → find (has_key b.installation_id) (set_bucket b ws) ≡ some b
find-put b [] = rw ((text_eq_iff b.installation_id b.installation_id).1 refl) refl
find-put b (c ∷ ws) = elim (Bool-cases (str_eq c.installation_id b.installation_id)) [
  | inl same ↦ rw same (rw ((text_eq_iff b.installation_id b.installation_id).1 refl) refl)
  | inr other ↦ rw other (rw other (find-put b ws))
]

module _ (limiter : VoteRateLimiter) (id : String) (now : ℕ) where
  -- The key's bucket, the map after `inspect`, and the limiter that it leaves.
  abbrev pub bucket_of : Option Bucket
  bucket_of = find (has_key id) limiter.windows

  abbrev pub room_now : List Bucket
  room_now = make_room limiter bucket_of now

  abbrev pub looked_at : VoteRateLimiter
  looked_at = record limiter { windows = room_now }

  room-kept :
      (existing : Option Bucket)
      → bucket_of ≡ existing
      → find (has_key id) (make_room limiter existing now) ≡ existing
  unfolding make_room evict_expired
  room-kept (some b) e = e
  room-kept none e = elim (Bool-cases (leb limiter.max_active_keys (length limiter.windows))) [
    | inl full ↦ rw full (find-keep_where-none _ _ limiter.windows e)
    | inr room ↦ rw room e
  ]

  room-again :
      (existing : Option Bucket)
      → is_full limiter existing (make_room limiter existing now) ≡ false
      → make_room (record limiter { windows = make_room limiter existing now }) existing now
        ≡ make_room limiter existing now
  unfolding make_room
  room-again (some b) room = refl
  room-again none room = rw room refl

  inspect-allowed :
      (last : Option ℕ)
      → 0 < limiter.work_units_per_minute
      → (inspect limiter id now last).0.allowed ≡ true
      → (is_full limiter bucket_of room_now ≡ false)
        × ((inspect limiter id now last).0.available
            ≡ nat (whole (tokens_now limiter bucket_of now last)))
        × ((inspect limiter id now last).1 ≡ looked_at)
  unfolding inspect
  inspect-allowed last rate h =
      let on = ne_test limiter.work_units_per_minute 0 (omega (arith, rate)) in
      elim (Bool-cases (is_full limiter bucket_of room_now)) [
        | inl full ↦ cc (rw (on, full, inspect) at h)
        | inr room ↦ (room, rw (on, room, inspect) refl, rw (on, room, inspect) refl)
      ]

  tokens-looked :
      (existing : Option Bucket) (last : Option ℕ)
      → tokens_now looked_at existing now last ≡ tokens_now limiter existing now last
  unfolding tokens_now
  tokens-looked (some b) last = refl
  tokens-looked none none = refl
  tokens-looked none (some at) = refl

  -- What the tokens cover is paid, on the limiter as `inspect` has left it.
  consume-pays :
      (spent : ℕ) (last : Option ℕ)
      → 0 < limiter.work_units_per_minute
      → 1 ≤ spent
      → is_full limiter bucket_of room_now ≡ false
      → spent * vote_budget_window_ms ≤ tokens_now limiter bucket_of now last
      → find (has_key id) (consume looked_at id (nat spent) now last).1.windows
        ≡ some (record {
          installation_id = id;
          tokens = tokens_now limiter bucket_of now last - spent * vote_budget_window_ms;
          updated_at = now;
        })
  unfolding consume consume_parts tokens_now
  consume-pays spent last rate pos room enough =
      rw
        (
          ne_test limiter.work_units_per_minute 0 (omega (arith, rate)),
          le→leb 1 spent pos,
          room-kept bucket_of refl,
          room-again bucket_of room,
          room,
          tokens-looked bucket_of last,
          le→ltb_false (tokens_now limiter bucket_of now last) (spent * vote_budget_window_ms)
              enough,
          consume,
        )
        (find-put
          (record {
            installation_id = id;
            tokens = tokens_now limiter bucket_of now last - spent * vote_budget_window_ms;
            updated_at = now;
          })
          room_now)

answered-eq : {a b : Result StoreError V1VoteResult} → answered a ≡ answered b → a ≡ b
answered-eq h = cc

-- A vote under the whole tokens of a bucket spends no more than its tokens.
within_tokens :
    (config : Config) (db : Db) (inst : String) (intent : V1VoteRequest) (active : CaseRow)
    (now : ℕ) (v : VoteType) (used : ℕ) (remaining : Number) (spent : ℕ) (original : Option ℕ)
    (tokens : ℕ) (available : Number)
    → IsSolvent db
    → available ≡ nat (whole tokens)
    → (vote config db inst intent active now available).0
      ≡ ok (accepted v used remaining spent original false)
    → (1 ≤ spent) × (spent * vote_budget_window_ms ≤ tokens)
within_tokens config db inst intent active now v used remaining spent original tokens available
      solvent e h =
    let (vote_is, original_is, target, case_is, active_is, charged) =
      accepted-Charged config db inst intent active now available v used remaining spent original
        solvent h in
    let within : spent ≤ floor_or_zero available = charged.within_budget (ap is_finite e) in
    (
      charged.positive,
      mul-le_of_le_div spent tokens vote_budget_window_ms (omega arith)
          (omega (arith, within, ap floor_or_zero e)),
    )

-- Where the database is solvent and the limiter has a rate, a vote that is answered by an acceptance and is no
-- replay spends no more than the tokens that the limiter gives the installation at that time, and leaves
-- its bucket with those tokens less the sticks spent.
pub post_vote-pays :
    (config : Config) (server : Server) (inst : String) (intent : V1VoteRequest) (active : CaseRow)
    (now limiter_now : ℕ) (v : VoteType) (used : ℕ) (remaining : Number) (spent : ℕ)
    (original : Option ℕ)
    → IsSolvent server.db
    → 0 < server.limiter.work_units_per_minute
    → (post_vote config server inst intent active now limiter_now).0
      ≡ answered (ok (accepted v used remaining spent original false))
    → let last = last_accepted_vote_at server.db inst in
      let tokens =
        tokens_now server.limiter (find (has_key inst) server.limiter.windows) limiter_now last in
      (spent * vote_budget_window_ms ≤ tokens)
      × (find
            (has_key inst)
            (post_vote config server inst intent active now limiter_now).1.limiter.windows
          ≡ some (record {
            installation_id = inst;
            tokens = tokens - spent * vote_budget_window_ms;
            updated_at = limiter_now;
          }))
unfolding post_vote run_vote charge
post_vote-pays config server inst intent active now limiter_now v used remaining spent original
      solvent rate h =
    by_receipt (vote_request_by_request_id server.db inst intent.request_id) refl
  where
    not_refused : (a b : Bool) → (not a || b) ≡ false → a ≡ true
    not_refused a b h = ground arith

    by_receipt :
        (o : Option VoteRequestRow)
        → vote_request_by_request_id server.db inst intent.request_id ≡ o
        → let last = last_accepted_vote_at server.db inst in
          let tokens =
            tokens_now server.limiter
              (find (has_key inst) server.limiter.windows)
              limiter_now
              last in
          (spent * vote_budget_window_ms ≤ tokens)
          × (find
                (has_key inst)
                (post_vote config server inst intent active now limiter_now).1.limiter.windows
              ≡ some (record {
                installation_id = inst;
                tokens = tokens - spent * vote_budget_window_ms;
                updated_at = limiter_now;
              }))
    by_receipt (some stored) e =
        let outcome = answered-eq (rw (e, post_vote, run_vote) at h) in
        let (out, end, outcome_is, kept, rows) =
          vote-FreshEnd config server.db inst intent active now infinite (ap is_fresh outcome) in
        cc (sym e ∙ end.absent)
    by_receipt none e =
        let last = last_accepted_vote_at server.db inst in
        let looked = inspect server.limiter inst limiter_now last in
        elim (Bool-cases (not looked.0.allowed || is_empty looked.0.available)) [
          | inl refused ↦ cc (rw (refused, post_vote) at (rw (e, post_vote) at h))
          | inr let_in ↦
              let outcome =
                answered-eq (rw (let_in, post_vote, run_vote) at (rw (e, post_vote) at h)) in
              let (room, available, left) =
                inspect-allowed server.limiter inst limiter_now last rate
                  (not_refused looked.0.allowed (is_empty looked.0.available) let_in) in
              let (pos, paid) =
                within_tokens config server.db inst intent active now v used remaining spent
                  original
                  (tokens_now server.limiter (find (has_key inst) server.limiter.windows)
                    limiter_now last)
                  looked.0.available solvent available outcome in
              (
                paid,
                rw (e, post_vote)
                    (rw (let_in, run_vote)
                      (rw (outcome, charge)
                        (rw (lt→ltb 0 spent pos, left)
                          (consume-pays server.limiter inst limiter_now spent last rate pos room
                            paid)))),
              )
        ]
