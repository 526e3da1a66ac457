-- ===== src/Backend/AdmissionRateLimit/Examples.antt =====
-- The admission window at concrete inputs.
use dsh_liangxiang.Prelude.{◌≤◌, ◌≡◌, refl, [], ◌∷◌, arith}
use dsh_liangxiang.Backend.AdmissionRateLimit.{AdmissionRateLimiter}
use dsh_liangxiang.Backend.AdmissionRateLimit.Windows.{admitted, room, admitted-le}

abbrev two_a_minute : AdmissionRateLimiter
two_a_minute = record { per_minute = 2; window_started_at = 1000; used = 1 }

three_of_five : admitted two_a_minute 1000 (5 ∷ 5 ∷ 60000 ∷ 5 ∷ 5 ∷ []) ≡ 3
unfolding admitted
three_of_five = refl

admitted-le_example :
    admitted two_a_minute 1000 (5 ∷ 5 ∷ 60000 ∷ 5 ∷ 5 ∷ []) ≤ room two_a_minute 61020
admitted-le_example =
    admitted-le two_a_minute 1000 (5 ∷ 5 ∷ 60000 ∷ 5 ∷ 5 ∷ []) (omega arith) (omega arith)
      (omega arith)
