-- ===== src/Domain/IncenseWeight/Scaling.antt =====
-- Fractional weights lose no token: what is not yet credited is carried.
use dsh_liangxiang.Prelude.{ℕ, zero, suc, ◌+◌, ◌*◌, ◌/◌, ◌≤◌, ◌<◌, ◌≡◌, refl, ap, arith, ne_test}
use native.Mathlib.Nat.{div-add-mod}
use dsh_liangxiang.Prelude.Division.{div-lt_of_lt_mul, quotient_bounds}
use dsh_liangxiang.Domain.IncenseWeight.{
  incense_weight_scale, scale_tokens_by_weight_bps, split_scaled_tokens,
}

-- Scaled tokens and the carry left make up the weighted count and the old carry, in 1/10,000 of a token,
-- and the carry left is below a token.
pub scale_lem :
    (raw bps carry : ℕ)
    → let (scaled, left) = scale_tokens_by_weight_bps raw bps carry in
      (scaled * incense_weight_scale + left ≡ raw * bps + carry) × (left < incense_weight_scale)
unfolding scale_tokens_by_weight_bps
scale_lem raw bps carry =
    let whole = ap (λ (t : ℕ). t * bps) (div-add-mod raw incense_weight_scale) in
    (omega (arith, whole), omega arith)

-- Scaling in two steps credits as much as scaling once.
pub scale_split :
    (a b bps carry : ℕ)
    → let (first, carried) = scale_tokens_by_weight_bps a bps carry in
      let (second, left) = scale_tokens_by_weight_bps b bps carried in
      let (whole, left') = scale_tokens_by_weight_bps (a + b) bps carry in
      (first + second ≡ whole) × (left ≡ left')
scale_split a b bps carry = omega (
  arith,
  scale_lem a bps carry,
  scale_lem b bps (scale_tokens_by_weight_bps a bps carry).1,
  scale_lem (a + b) bps carry,
)

input-le : (n input output : ℕ) → 0 < input + output → suc n * input / (input + output) ≤ suc n
input-le n input output h =
    omega (arith, div-lt_of_lt_mul (suc (suc n)) (suc n * input) (input + output) h (grind arith))

-- Of at least one raw token: the two halves add up to the scaled total, and the input half is the
-- input's share of it, rounded down.
pub split_lem :
    (scaled input output : ℕ)
    → 0 < input + output
    → let (i, o) = split_scaled_tokens scaled input output in
      (i + o ≡ scaled)
      × (i * (input + output) ≤ scaled * input)
      × (scaled * input < (i + 1) * (input + output))
unfolding split_scaled_tokens
split_lem zero input output h = (refl, omega arith, omega arith)
split_lem (suc n) input output h =
    let (low, high) = quotient_bounds (suc n * input) (input + output) h in
    rw (ne_test (suc n) 0 (omega arith), ne_test (input + output) 0 (omega arith))
      (omega (arith, input-le n input output h), low, high)
