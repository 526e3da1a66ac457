-- ===== src/Backend/VoteRateLimit/Spending.antt =====
-- Over any run of calls for one key, src/backend/vote-rate-limit.ts grants no more than the bucket held and the
-- refill of the time that has passed.
use dsh_liangxiang.Prelude.{
  ℕ, zero, suc, ◌+◌, ◌-◌, ◌*◌, ◌≤◌, ◌<◌, String, ◌≡◌, refl, ap, inl, inr, true, none, some, List,
  [], ◌∷◌, arith, str_eq, nat, ltb, if◌then◌else◌, le→leb, ltb_false→le, ne_test, Bool-cases, find,
}
use dsh_liangxiang.Domain.VoteBudget.{vote_budget_available, vote_budget_window_ms}
use dsh_liangxiang.Backend.VoteRateLimit.{
  Bucket, VoteRateDecision, VoteRateLimiter, has_key, set_bucket, make_room, tokens_now, inspect,
  consume_parts, consume,
}
use text.Mathlib.TextEquality.{eq_iff as text_eq_iff}

-- A run: each call comes `wait` milliseconds after the one before it and asks for `count`.
abbrev pub waited : List (ℕ × ℕ) → ℕ
waited [] = 0
waited ((wait, count) ∷ calls) = wait + waited calls

unfoldable pub granted : VoteRateLimiter → String → ℕ → List (ℕ × ℕ) → ℕ
unfolding consume
granted limiter id clock [] = 0
granted limiter id clock ((wait, count) ∷ calls) =
    let (decision, left) = consume limiter id (nat count) (clock + wait) none in
    (if decision.allowed then count else 0) + granted left id (clock + wait) calls

find-set_bucket :
    (b c : Bucket) (ws : List Bucket)
    → find (has_key b.installation_id) ws ≡ some c
    → find (has_key b.installation_id) (set_bucket b ws) ≡ some b
find-set_bucket b c [] h = cc
find-set_bucket b c (w ∷ ws) h = elim (Bool-cases (str_eq w.installation_id b.installation_id)) [
  | inl same ↦ rw same (rw ((text_eq_iff b.installation_id b.installation_id).1 refl) refl)
  | inr other ↦ rw other (rw other (find-set_bucket b c ws (rw other at h)))
]

-- What an answer to one call leaves for its key: the sticks that it grants are taken from the bucket
-- and its refill.
pub record Paid (limiter : VoteRateLimiter) (id : String) (b : Bucket) (count now : ℕ)
    (answer : VoteRateDecision × VoteRateLimiter) : Type 0 where
  pub next : Bucket
  pub there : find (has_key id) answer.1.windows ≡ some next
  pub rate_kept : answer.1.work_units_per_minute ≡ limiter.work_units_per_minute
  pub forward : b.updated_at ≤ next.updated_at
  pub next_time : next.updated_at ≤ now
  pub taken :
      next.tokens + (if answer.0.allowed then count else 0) * vote_budget_window_ms
      ≤ b.tokens + (next.updated_at - b.updated_at) * limiter.work_units_per_minute

tokens_now-le :
    (limiter : VoteRateLimiter) (b : Bucket) (now : ℕ)
    → tokens_now limiter (some b) now none
      ≤ b.tokens + (now - b.updated_at) * limiter.work_units_per_minute
unfolding tokens_now vote_budget_available
tokens_now-le limiter b now = ground arith

consume_parts-Paid :
    (limiter : VoteRateLimiter) (id : String) (b : Bucket) (want now tokens : ℕ)
    → find (has_key id) limiter.windows ≡ some b
    → b.updated_at ≤ now
    → tokens ≤ b.tokens + (now - b.updated_at) * limiter.work_units_per_minute
    → Paid limiter id b want now (consume_parts limiter id want now tokens true limiter.windows)
unfolding consume_parts
consume_parts-Paid limiter id b want now tokens e t le =
    elim (Bool-cases (ltb tokens (want * vote_budget_window_ms))) [
      | inl short ↦ rw short (record {
        next = at tokens;
        there = find-set_bucket (at tokens) b limiter.windows e;
        rate_kept = refl;
        forward = t;
        next_time = omega arith;
        taken = omega (arith, le);
      })
      | inr enough ↦ rw enough (record {
        next = at (tokens - want * vote_budget_window_ms);
        there = find-set_bucket (at (tokens - want * vote_budget_window_ms)) b limiter.windows e;
        rate_kept = refl;
        forward = t;
        next_time = omega arith;
        taken = omega (arith, le, ltb_false→le tokens (want * vote_budget_window_ms) enough);
      })
    ]
  where
    at : ℕ → Bucket
    at n = record { installation_id = id; tokens = n; updated_at = now }

consume-Paid :
    (limiter : VoteRateLimiter) (id : String) (b : Bucket) (count now : ℕ)
    → 0 < limiter.work_units_per_minute
    → find (has_key id) limiter.windows ≡ some b
    → b.updated_at ≤ now
    → Paid limiter id b count now (consume limiter id (nat count) now none)
unfolding consume inspect make_room
consume-Paid limiter id b zero now rate e t =
    rw (ne_test limiter.work_units_per_minute 0 (omega arith), e, consume, inspect, make_room)
      (record {
        next = b;
        there = e;
        rate_kept = refl;
        forward = omega arith;
        next_time = t;
        taken = omega arith;
      })
consume-Paid limiter id b (suc n) now rate e t =
    rw
      (
        ne_test limiter.work_units_per_minute 0 (omega arith),
        le→leb 1 (suc n) (omega arith),
        e,
        consume,
        make_room,
      )
      (consume_parts-Paid limiter id b (suc n) now (tokens_now limiter (some b) now none) e t
        (tokens_now-le limiter b now))

run_step :
    (first rest next held rate written later last : ℕ)
    → written ≤ later
    → later ≤ last
    → next + first * vote_budget_window_ms ≤ held + (later - written) * rate
    → rest * vote_budget_window_ms ≤ next + (last - later) * rate
    → (first + rest) * vote_budget_window_ms ≤ held + (last - written) * rate
run_step first rest next held rate written later last a b taken after =
    let e : last - written ≡ (later - written) + (last - later) = omega arith in
    omega (arith, ap (λ (t : ℕ). t * rate) e, taken, after)

-- Where the limiter has a rate and the key has a bucket that was written no later than the clock stands, the
-- sticks that a run of calls is granted are worth no more than the bucket's tokens and the refill from when
-- it was written to the end of the run, whatever is asked and whenever.
pub granted-le :
    (limiter : VoteRateLimiter) (id : String) (b : Bucket) (clock : ℕ) (calls : List (ℕ × ℕ))
    → 0 < limiter.work_units_per_minute
    → find (has_key id) limiter.windows ≡ some b
    → b.updated_at ≤ clock
    → granted limiter id clock calls * vote_budget_window_ms
      ≤ b.tokens + (clock + waited calls - b.updated_at) * limiter.work_units_per_minute
unfolding granted
granted-le limiter id b clock [] rate e t = omega arith
granted-le limiter id b clock ((wait, count) ∷ calls) rate e t =
    let now = clock + wait in
    let r = consume limiter id (nat count) now none in
    let paid = consume-Paid limiter id b count now rate e (omega arith) in
    let rest =
      granted-le r.1 id paid.next now calls (rw paid.rate_kept rate) paid.there paid.next_time in
    run_step (if r.0.allowed then count else 0) (granted r.1 id now calls) paid.next.tokens b.tokens
      limiter.work_units_per_minute b.updated_at paid.next.updated_at
      (clock + (wait + waited calls)) paid.forward (omega (arith, paid.next_time)) paid.taken
      (later_rest paid.next.tokens r.1.work_units_per_minute limiter.work_units_per_minute
        paid.next.updated_at paid.rate_kept rest)
  where
    later_rest :
        (tokens rate' rate updated : ℕ) {g : ℕ}
        → rate' ≡ rate
        → g ≤ tokens + (clock + wait + waited calls - updated) * rate'
        → g ≤ tokens + (clock + (wait + waited calls) - updated) * rate
    later_rest tokens rate' rate updated {g} same h =
        let e : clock + wait + waited calls - updated ≡ clock + (wait + waited calls) - updated =
          omega arith in
        omega (
          arith,
          h,
          ap (λ (r : ℕ). (clock + wait + waited calls - updated) * r) same,
          ap (λ (t : ℕ). t * rate) e,
        )
