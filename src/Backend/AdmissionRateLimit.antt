-- ===== src/Backend/AdmissionRateLimit.antt =====
-- src/backend/admission-rate-limit.ts: one fixed window for the whole server.
pub mod Windows
mod Examples
use dsh_liangxiang.Prelude.{
  ℕ, ◌+◌, ◌-◌, ◌/◌, max, Bool, true, false, ◌||◌, leb, ◌==◌, if◌then◌else◌,
}

abbrev pub window_ms : ℕ
window_ms = 60000

pub record AdmissionRateLimiter : Type 0 where
  pub per_minute : ℕ
  pub window_started_at : ℕ
  pub used : ℕ

-- The window that a call at `now` falls into.
pub enter_window : AdmissionRateLimiter → ℕ → AdmissionRateLimiter
enter_window limiter now =
    if limiter.window_started_at == 0 || leb window_ms (now - limiter.window_started_at)
    then record limiter { window_started_at = now; used = 0 }
    else limiter

-- Whether the claim is allowed, and the milliseconds to wait.
unfoldable pub check : AdmissionRateLimiter → ℕ → (Bool × ℕ) × AdmissionRateLimiter
unfolding enter_window
check limiter now =
    if limiter.per_minute == 0
    then ((true, 0), limiter)
    else (let entered = enter_window limiter now in
        if leb entered.per_minute entered.used
        then ((false, max 1 (window_ms + entered.window_started_at - now)), entered)
        else ((true, 0), record entered { used = entered.used + 1 }))

abbrev pub reset : AdmissionRateLimiter → AdmissionRateLimiter
reset limiter = record limiter { window_started_at = 0; used = 0 }
