-- ===== src/Domain/VoteBudget.antt =====
-- src/domain/vote-budget.ts. A bucket's tokens are doubles in the source; here they are counted in
-- parts of 1/60,000, since one millisecond refills `refillPerMinute` such parts, and so the sums are exact.
pub mod Clamp
pub mod Refill
mod Examples
use dsh_liangxiang.Prelude.{
  ℕ, ◌+◌, ◌-◌, ◌*◌, ◌/◌, ◌<◌, min, max, Bool, not, ◌&&◌, Number, is_finite, floor_or_zero, Result,
  ok, ◌>>=◌, ◌>>◌, guard, leb, ◌==◌, if◌then◌else◌,
}
use dsh_liangxiang.Domain.Errors.{DomainErrorCode, assert_count, invalid_incense_count}
use dsh_liangxiang.Domain.Vote.{vote_count_min, vote_count_max}

abbrev pub vote_refill_per_minute : ℕ
vote_refill_per_minute = 50

-- Also the number of parts in a token.
abbrev pub vote_budget_window_ms : ℕ
vote_budget_window_ms = 60000

abbrev pub vote_burst_minutes : ℕ
vote_burst_minutes = 10

-- A refill that is not positive gives 0 in the source too.
pub vote_burst_cap : ℕ → ℕ
vote_burst_cap refill_per_minute =
    if refill_per_minute == 0 then 0 else refill_per_minute * vote_burst_minutes

pub data Available : Type 0 where
  -- Number.POSITIVE_INFINITY: no limit is configured
  unlimited : Available
  -- in parts of a token
  parts : ℕ → Available

unfoldable pub vote_budget_available : ℕ → ℕ → ℕ → ℕ → Available
unfolding vote_burst_cap
vote_budget_available tokens updated_at now refill_per_minute =
    if refill_per_minute == 0
    then unlimited
    else parts (
        min (vote_burst_cap refill_per_minute * vote_budget_window_ms)
          (tokens + (now - updated_at) * refill_per_minute))

-- Number.isFinite(available) ? Math.max(0, Math.floor(available)) : want
abbrev pub room_of : Number → ℕ → ℕ
room_of available want = if is_finite available then floor_or_zero available else want

-- `requested < 1`, or not finite
abbrev pub is_spendable : Number → Bool
is_spendable requested = is_finite requested && leb vote_count_min (floor_or_zero requested)

unfoldable pub clamp_vote_spend : Number → Number → Number → Result DomainErrorCode ℕ
clamp_vote_spend requested remaining available = do
  remaining ← assert_count remaining invalid_incense_count
  guard (is_spendable requested) invalid_incense_count
  let want = min (floor_or_zero requested) vote_count_max
  ok (min (min want remaining) (room_of available want))
