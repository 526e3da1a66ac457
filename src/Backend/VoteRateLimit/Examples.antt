-- ===== src/Backend/VoteRateLimit/Examples.antt =====
-- The limiter at concrete inputs.
use dsh_liangxiang.Prelude.{◌+◌, ◌-◌, ◌*◌, ◌≤◌, ◌≡◌, refl, none, [], ◌∷◌, arith, nat}
use dsh_liangxiang.Backend.VoteRateLimit.{Bucket, VoteRateLimiter, consume, active_keys}
use dsh_liangxiang.Backend.VoteRateLimit.Capacity.{consume-le}
use dsh_liangxiang.Backend.VoteRateLimit.Spending.{granted, granted-le}

-- One installation with ten tokens.
abbrev ten : Bucket
ten = record { installation_id = "lx-1"; tokens = 600000; updated_at = 1000 }

abbrev limiter : VoteRateLimiter
limiter = record { work_units_per_minute = 50; max_active_keys = 2; windows = ten ∷ [] }

ten_at_once : granted limiter "lx-1" 1000 ((0, 8) ∷ (0, 8) ∷ (6000, 7) ∷ []) ≡ 15
unfolding granted dsh_liangxiang.Domain.VoteBudget.vote_budget_available
ten_at_once = refl

consume-le_example : active_keys (consume limiter "lx-2" (nat 3) 1000 none).1 ≤ 2
consume-le_example = consume-le limiter "lx-2" (nat 3) 1000 none (omega arith)

granted-le_example :
    granted limiter "lx-1" 1000 ((0, 8) ∷ (0, 8) ∷ (6000, 7) ∷ []) * 60000
    ≤ 600000 + (1000 + 6000 - 1000) * 50
granted-le_example =
    granted-le limiter "lx-1" ten 1000 ((0, 8) ∷ (0, 8) ∷ (6000, 7) ∷ []) (omega arith) refl
      (omega arith)
