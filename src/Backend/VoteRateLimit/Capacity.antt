-- ===== src/Backend/VoteRateLimit/Capacity.antt =====
-- The map of src/backend/vote-rate-limit.ts keeps to its number of keys.
use dsh_liangxiang.Prelude.{
  ℕ, ◌+◌, ◌-◌, ◌*◌, ◌≤◌, ◌<◌, String, ◌≡◌, refl, ◌⊎◌, inl, inr, Bool, true, false, ◌&&◌, Option,
  none, some, List, [], ◌∷◌, arith, Number, is_finite, floor_or_zero, ltb, leb, ◌==◌, if◌then◌else◌,
  leb_false→lt, Bool-cases, length, find, length-keep_where-le, is_some,
}
use dsh_liangxiang.Domain.VoteBudget.{vote_budget_window_ms}
use dsh_liangxiang.Backend.VoteRateLimit.{
  Bucket, VoteRateLimiter, has_key, set_bucket, evict_expired, make_room, is_full, tokens_now,
  inspect, consume_parts, consume, active_keys,
}

-- A key that is there is replaced in place.
pub length-set_bucket :
    (b : Bucket) (ws : List Bucket)
    → length (set_bucket b ws)
      ≡ (if is_some (find (has_key b.installation_id) ws) then length ws else length ws + 1)
length-set_bucket b [] = refl
length-set_bucket b (c ∷ cs) = ground (arith, length-set_bucket b cs)

make_room-le :
    (limiter : VoteRateLimiter) (existing : Option Bucket) (now : ℕ)
    → length (make_room limiter existing now) ≤ active_keys limiter
unfolding make_room evict_expired
make_room-le limiter (some b) now = omega arith
make_room-le limiter none now = ground (
  arith,
  length-keep_where-le (λ (b : Bucket). ltb (now - b.updated_at) vote_budget_window_ms)
      limiter.windows,
)

-- A bucket is put where it has its key already, or where there is room for one more.
set_bucket-le :
    (b : Bucket) (ws : List Bucket) (most : ℕ)
    → length ws ≤ most
    → (is_some (find (has_key b.installation_id) ws) ≡ true) ⊎ (length ws < most)
    → length (set_bucket b ws) ≤ most
set_bucket-le b ws most h (inl there) = ground (arith, length-set_bucket b ws)
set_bucket-le b ws most h (inr room) = ground (arith, length-set_bucket b ws)

consume_parts-le :
    (limiter : VoteRateLimiter) (id : String) (want now tokens : ℕ) (has_bucket : Bool)
    (ws : List Bucket)
    → length ws ≤ limiter.max_active_keys
    → (is_some (find (has_key id) ws) ≡ true) ⊎ (length ws < limiter.max_active_keys)
    → active_keys (consume_parts limiter id want now tokens has_bucket ws).1
      ≤ limiter.max_active_keys
unfolding consume_parts
consume_parts-le limiter id want now tokens has_bucket ws h fits =
    let put : (n : ℕ)
        → length (set_bucket (record { installation_id = id; tokens = n; updated_at = now }) ws)
          ≤ limiter.max_active_keys =
      λ n.
        set_bucket-le (record { installation_id = id; tokens = n; updated_at = now }) ws
          limiter.max_active_keys h fits in
    elim (Bool-cases (ltb tokens (want * vote_budget_window_ms))) [
      | inl short ↦ elim (Bool-cases has_bucket) [
        | inl b ↦ rw (short, b) (put tokens)
        | inr b ↦ rw (short, b) h
      ]
      | inr enough ↦ rw enough (put (tokens - want * vote_budget_window_ms))
    ]

-- What `consume` has when it goes on after the eviction.
room-fits :
    (limiter : VoteRateLimiter) (id : String) (now : ℕ) (existing : Option Bucket)
    → find (has_key id) limiter.windows ≡ existing
    → is_full limiter existing (make_room limiter existing now) ≡ false
    → (is_some (find (has_key id) (make_room limiter existing now)) ≡ true)
      ⊎ (length (make_room limiter existing now) < limiter.max_active_keys)
unfolding make_room
room-fits limiter id now (some b) e room = inl (rw e refl)
room-fits limiter id now none e room =
    inr (leb_false→lt limiter.max_active_keys (length (make_room limiter none now)) room)

inspect-le :
    (limiter : VoteRateLimiter) (id : String) (now : ℕ) (last_vote_at : Option ℕ)
    → active_keys limiter ≤ limiter.max_active_keys
    → active_keys (inspect limiter id now last_vote_at).1 ≤ limiter.max_active_keys
unfolding inspect
inspect-le limiter id now last_vote_at h =
    let existing = find (has_key id) limiter.windows in
    let kept = make_room-le limiter existing now in
    elim (Bool-cases (limiter.work_units_per_minute == 0)) [
      | inl off ↦ rw (off, inspect) h
      | inr on ↦ elim (Bool-cases (is_full limiter existing (make_room limiter existing now))) [
        | inl full ↦ rw (on, full, inspect) omega (arith, kept)
        | inr room ↦ rw (on, room, inspect) omega (arith, kept)
      ]
    ]

-- Where no more keys than the limit are active, there are no more after a call of `consume` with any
-- count, time and last vote, granted or not.
pub consume-le :
    (limiter : VoteRateLimiter) (id : String) (count : Number) (now : ℕ) (last_vote_at : Option ℕ)
    → active_keys limiter ≤ limiter.max_active_keys
    → active_keys (consume limiter id count now last_vote_at).1 ≤ limiter.max_active_keys
unfolding consume
consume-le limiter id count now last_vote_at h =
    let existing = find (has_key id) limiter.windows in
    let kept = make_room-le limiter existing now in
    elim (Bool-cases (limiter.work_units_per_minute == 0)) [
      | inl off ↦ rw (off, consume) h
      | inr on ↦ elim (Bool-cases (is_finite count && leb 1 (floor_or_zero count))) [
        | inr nothing ↦
            rw (on, nothing, consume) (rw (on, inspect) at (inspect-le limiter id now none h))
        | inl asks ↦ elim (Bool-cases (is_full limiter existing (make_room limiter existing now))) [
          | inl full ↦ rw (on, asks, full, consume) omega (arith, kept)
          | inr room ↦
              rw (on, asks, room, consume)
                (consume_parts-le limiter id (floor_or_zero count) now
                  (tokens_now limiter existing now last_vote_at) (is_some existing)
                  (make_room limiter existing now) (omega (arith, kept))
                  (room-fits limiter id now existing refl room))
        ]
      ]
    ]
