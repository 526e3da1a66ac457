-- ===== src/Backend/AdmissionRateLimit/Windows.antt =====
-- How many claims src/backend/admission-rate-limit.ts lets through in a run of calls.
use dsh_liangxiang.Prelude.{
  ℕ, ◌+◌, ◌-◌, ◌*◌, ◌/◌, ◌≤◌, ◌<◌, ◌≡◌, ap, inl, inr, List, [], ◌∷◌, arith, leb, if◌then◌else◌,
  leb→le, lt→leb_false, leb_false→lt, ne_test, Bool-cases,
}
use native.Mathlib.Nat.{mul-le-mul_right}
use dsh_liangxiang.Backend.AdmissionRateLimit.{AdmissionRateLimiter, window_ms, enter_window, check}

-- The run is given by the waits between its calls.
abbrev pub waited : List ℕ → ℕ
waited [] = 0
waited (wait ∷ waits) = wait + waited waits

unfoldable pub admitted : AdmissionRateLimiter → ℕ → List ℕ → ℕ
unfolding check
admitted limiter clock [] = 0
admitted limiter clock (wait ∷ waits) =
    let (decision, left) = check limiter (clock + wait) in
    (if decision.0 then 1 else 0) + admitted left (clock + wait) waits

-- The room that is left in the current window, and a full one for each window that can follow until `last`.
abbrev pub room : AdmissionRateLimiter → ℕ → ℕ
room limiter last =
    limiter.per_minute
    - limiter.used
    + (last - limiter.window_started_at) / window_ms * limiter.per_minute

check-room :
    (limiter : AdmissionRateLimiter) (now last : ℕ)
    → 0 < limiter.per_minute
    → 0 < limiter.window_started_at
    → limiter.window_started_at ≤ now
    → now ≤ last
    → let (decision, left) = check limiter now in
      (0 < left.per_minute)
      × (0 < left.window_started_at)
      × (left.window_started_at ≤ now)
      × ((if decision.0 then 1 else 0) + room left last ≤ room limiter last)
unfolding check enter_window
check-room limiter now last p s a b =
    elim (Bool-cases (leb window_ms (now - limiter.window_started_at))) [
      | inl fresh ↦
          rw
            (
              ne_test limiter.per_minute 0 (omega arith),
              ne_test limiter.window_started_at 0 (omega arith),
              fresh,
              check,
              enter_window,
            )
            (rw (lt→leb_false limiter.per_minute 0 p) (
              p,
              omega arith,
              omega arith,
              next_window limiter.per_minute limiter.used ((last - now) / window_ms)
                  ((last - limiter.window_started_at) / window_ms) p
                  (omega (arith, leb→le window_ms (now - limiter.window_started_at) fresh)),
            ))
      | inr same ↦ elim (Bool-cases (leb limiter.per_minute limiter.used)) [
        | inl spent ↦
            rw
              (
                ne_test limiter.per_minute 0 (omega arith),
                ne_test limiter.window_started_at 0 (omega arith),
                same,
                check,
                enter_window,
              )
              (rw spent (p, s, a, omega arith))
        | inr open_yet ↦
            rw
              (
                ne_test limiter.per_minute 0 (omega arith),
                ne_test limiter.window_started_at 0 (omega arith),
                same,
                check,
                enter_window,
              )
              (rw open_yet (
                p,
                s,
                a,
                one_more limiter.per_minute limiter.used
                    ((last - limiter.window_started_at) / window_ms * limiter.per_minute)
                    (leb_false→lt limiter.per_minute limiter.used open_yet),
              ))
      ]
    ]
  where
    next_window :
        (per used next all : ℕ)
        → 0 < per
        → next + 1 ≤ all
        → 1 + (per - 1 + next * per) ≤ per - used + all * per
    next_window per used next all p h = omega (arith, p, mul-le-mul_right per h)

    one_more : (per used x : ℕ) → used < per → 1 + (per - (used + 1) + x) ≤ per - used + x
    one_more per used x h = omega arith

-- Where the limiter has a rate and its window has begun by the time the clock shows, a run of calls admits no
-- more claims than are left in that window and a full rate for each whole minute since it began.
pub admitted-le :
    (limiter : AdmissionRateLimiter) (clock : ℕ) (waits : List ℕ)
    → 0 < limiter.per_minute
    → 0 < limiter.window_started_at
    → limiter.window_started_at ≤ clock
    → admitted limiter clock waits ≤ room limiter (clock + waited waits)
unfolding admitted
admitted-le limiter clock [] p s a = omega arith
admitted-le limiter clock (wait ∷ waits) p s a =
    let now = clock + wait in
    let (p', s', a', le) =
      check-room limiter now (now + waited waits) p s (omega arith) (omega arith) in
    let rest = admitted-le (check limiter now).1 now waits p' s' a' in
    omega (arith, le, rest, ap (λ t. room limiter t) (reassociate clock wait (waited waits)))
  where
    reassociate : (a b c : ℕ) → a + b + c ≡ a + (b + c)
    reassociate a b c = omega arith
