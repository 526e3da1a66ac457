-- ===== src/Backend/VoteRateLimit.antt =====
-- src/backend/vote-rate-limit.ts. Tokens are counted in parts of 1/60,000 as in Domain/VoteBudget, so that
-- the doubles of the source are exact here; the map of buckets is a list, one entry for each key.
pub mod Capacity
pub mod Spending
mod Examples
use dsh_liangxiang.Prelude.{
  ℕ, ◌+◌, ◌-◌, ◌*◌, ◌/◌, max, String, Bool, true, false, not, ◌&&◌, Option, none, some, List, [],
  ◌∷◌, map, str_eq, Number, nat, infinite, is_finite, floor_or_zero, ltb, leb, ◌==◌, if◌then◌else◌,
  length, find, keep_where, is_some,
}
use dsh_liangxiang.Domain.VoteBudget.{
  Available, unlimited, parts, vote_budget_available, vote_budget_window_ms,
}

pub record Bucket : Type 0 where
  pub installation_id : String
  pub tokens : ℕ
  pub updated_at : ℕ

pub data VoteRateLimitReason : Type 0 where
  per_installation active_key_capacity : VoteRateLimitReason

pub record VoteRateDecision : Type 0 where
  pub allowed : Bool
  pub reason : Option VoteRateLimitReason
  pub retry_after_ms : ℕ
  pub available : Number

pub record VoteRateLimiter : Type 0 where
  pub work_units_per_minute : ℕ
  pub max_active_keys : ℕ
  pub windows : List Bucket

abbrev pub has_key : String → Bucket → Bool
has_key id b = str_eq b.installation_id id

-- Map.set
abbrev pub set_bucket : Bucket → List Bucket → List Bucket
set_bucket b [] = b ∷ []
set_bucket b (c ∷ cs) =
    let rest = set_bucket b cs in
    if str_eq c.installation_id b.installation_id then b ∷ cs else c ∷ rest

unfoldable pub evict_expired : ℕ → List Bucket → List Bucket
evict_expired now windows = keep_where (λ b. ltb (now - b.updated_at) vote_budget_window_ms) windows

-- The parts of an `Available` that is limited.
abbrev pub parts_of : Available → ℕ
parts_of unlimited = 0
parts_of (parts n) = n

abbrev pub whole : ℕ → ℕ
whole n = n / vote_budget_window_ms

abbrev pub unlimited_decision : VoteRateDecision
unlimited_decision = record {
  allowed = true;
  reason = none;
  retry_after_ms = 0;
  available = infinite;
}

abbrev pub full_decision : VoteRateDecision
full_decision = record {
  allowed = false;
  reason = some active_key_capacity;
  retry_after_ms = vote_budget_window_ms;
  available = nat 0;
}

-- Math.max(1, Math.ceil(need / workUnitsPerMinute * 60000)), with `need` in parts
pub retry_after_ms : ℕ → ℕ → ℕ → ℕ
retry_after_ms work_units tokens want =
    if leb want tokens then 1 else max 1 ((want - tokens + (work_units - 1)) / work_units)

-- The parts that a key has now: those of its bucket, or those that an idle refill since the last vote
-- gives, or those of one minute for an installation without a vote.
unfoldable pub tokens_now : VoteRateLimiter → Option Bucket → ℕ → Option ℕ → ℕ
tokens_now limiter existing now last_vote_at = elim existing [
  | some b ↦
      parts_of (vote_budget_available b.tokens b.updated_at now limiter.work_units_per_minute)
  | none ↦ elim last_vote_at [
    | none ↦ limiter.work_units_per_minute * vote_budget_window_ms
    | some at ↦ parts_of (vote_budget_available 0 at now limiter.work_units_per_minute)
  ]
]

-- The map after the eviction that a new key at the limit asks for.
unfoldable pub make_room : VoteRateLimiter → Option Bucket → ℕ → List Bucket
unfolding evict_expired
make_room limiter existing now = elim existing [
  | some b ↦ limiter.windows
  | none ↦
      if leb limiter.max_active_keys (length limiter.windows)
      then evict_expired now limiter.windows
      else limiter.windows
]

-- A new key, and no room for it after the eviction.
abbrev pub is_full : VoteRateLimiter → Option Bucket → List Bucket → Bool
is_full limiter existing windows = elim existing [
  | some b ↦ false
  | none ↦ leb limiter.max_active_keys (length windows)
]

abbrev pub decide : ℕ → ℕ → VoteRateDecision
decide work_units available = record {
  allowed = leb 1 available;
  reason = if leb 1 available then none else some per_installation;
  retry_after_ms =
      if leb 1 available
      then 0
      else retry_after_ms work_units (available * vote_budget_window_ms) vote_budget_window_ms;
  available = nat available;
}

unfoldable pub inspect :
    VoteRateLimiter → String → ℕ → Option ℕ → VoteRateDecision × VoteRateLimiter
unfolding make_room tokens_now
inspect limiter installation_id now last_vote_at =
    if limiter.work_units_per_minute == 0
    then (unlimited_decision, limiter)
    else (let existing = find (has_key installation_id) limiter.windows in
        let windows = make_room limiter existing now in
        let left = record limiter { windows = windows } in
        if is_full limiter existing windows then (full_decision, left) else (
          decide limiter.work_units_per_minute
              (whole (tokens_now limiter existing now last_vote_at)),
          left,
        ))

-- A count of at least 1, with the map already looked up.
unfoldable pub consume_parts :
    VoteRateLimiter → String → ℕ → ℕ → ℕ → Bool → List Bucket → VoteRateDecision × VoteRateLimiter
unfolding retry_after_ms
consume_parts limiter installation_id want now tokens has_bucket windows =
    let wanted = want * vote_budget_window_ms in
    let put : ℕ → VoteRateLimiter = λ n. record limiter {
      windows =
          set_bucket (record { installation_id = installation_id; tokens = n; updated_at = now })
            windows;
    } in
    if ltb tokens wanted
    then (
      record {
        allowed = false;
        reason = some per_installation;
        retry_after_ms = retry_after_ms limiter.work_units_per_minute tokens wanted;
        available = nat (whole tokens);
      },
      if has_bucket then put tokens else record limiter { windows = windows },
    )
    else (
      record {
        allowed = true;
        reason = none;
        retry_after_ms = 0;
        available = nat (whole (tokens - wanted));
      },
      put (tokens - wanted),
    )

unfoldable pub consume :
    VoteRateLimiter → String → Number → ℕ → Option ℕ → VoteRateDecision × VoteRateLimiter
unfolding inspect consume_parts make_room tokens_now
consume limiter installation_id count now last_vote_at =
    if limiter.work_units_per_minute == 0
    then (unlimited_decision, limiter)
    else (let want = floor_or_zero count in
        if not (is_finite count && leb 1 want)
        then (let (looked, left) = inspect limiter installation_id now none in
            (
              record {
                allowed = true;
                reason = none;
                retry_after_ms = 0;
                available = looked.available;
              },
              left,
            ))
        else (let existing = find (has_key installation_id) limiter.windows in
            let windows = make_room limiter existing now in
            if is_full limiter existing windows
            then (full_decision, record limiter { windows = windows })
            else consume_parts limiter installation_id want now
                (tokens_now limiter existing now last_vote_at) (is_some existing) windows))

-- check, reset and activeKeys
unfoldable pub check : VoteRateLimiter → String → ℕ → VoteRateDecision × VoteRateLimiter
unfolding consume
check limiter installation_id now = consume limiter installation_id (nat 1) now none

abbrev pub reset : VoteRateLimiter → VoteRateLimiter
reset limiter = record limiter { windows = [] }

abbrev pub active_keys : VoteRateLimiter → ℕ
active_keys limiter = length limiter.windows
