-- ===== src/Domain/Presentation/Percents.antt =====
-- The displayed percentages are truncated, so they never stand on the wrong side of a threshold.
use dsh_liangxiang.Prelude.{
  ℕ, zero, suc, ◌+◌, ◌-◌, ◌*◌, ◌/◌, ◌^◌, ◌≤◌, ◌<◌, ◌≡◌, ◌∙◌, inl, inr, arith, nat, max_safe_integer,
  ok, ltb, ltb→lt, lt→ltb, ltb_false→le, le→ltb_false, ne_test, Bool-cases,
}
use native.Mathlib.Nat.{mul-le-mul_right, pow-suc}
use dsh_liangxiang.Domain.Errors.{assert_count-nat, invalid_vote_count}
use dsh_liangxiang.Domain.Liangzi.{ratio_ltb, percent}
use dsh_liangxiang.Prelude.Division.{le-div_of_mul_le, div-lt_of_lt_mul, quotient_bounds}
use dsh_liangxiang.Domain.Presentation.{percents, format_ratio_percents}

pub record IsTruncated (up down scale shown_up shown_down : ℕ) : Type 0 where
  pub complement : shown_up + shown_down ≡ 100 * scale
  pub from_below : shown_up * (up + down) ≤ up * 100 * scale
  pub last_digit : up * 100 * scale < (shown_up + 1) * (up + down)
  -- A whole percentage is shown as reached exactly when it is.
  pub same_side :
      (b : ℕ)
      → ltb shown_up (b * scale) ≡ ratio_ltb (record { num = up; den = up + down }) (percent b)

div-lt_iff : (a total b : ℕ) → 0 < total → ltb (a / total) b ≡ ltb a (b * total)
div-lt_iff a total b h = elim (Bool-cases (ltb a (b * total))) [
  | inl lt ↦ rw lt (lt→ltb _ _ (div-lt_of_lt_mul b a total h (ltb→lt _ _ lt)))
  | inr ge ↦ rw ge (le→ltb_false _ _ (le-div_of_mul_le b a total h (ltb_false→le _ _ ge)))
]

scale_out :
    (up total scale b : ℕ)
    → 0 < scale
    → ltb (up * 100 * scale) (b * scale * total) ≡ ltb (up * 100) (b * total)
scale_out up total scale b h = elim (Bool-cases (ltb (up * 100) (b * total))) [
  | inl lt ↦ rw lt (lt→ltb _ _ (scaled_lt (ltb→lt _ _ lt)))
  | inr ge ↦ rw ge (le→ltb_false _ _ (scaled_le (ltb_false→le _ _ ge)))
]
  where
    scaled_lt : up * 100 < b * total → up * 100 * scale < b * scale * total
    scaled_lt lt = omega (arith, mul-le-mul_right scale lt)

    scaled_le : b * total ≤ up * 100 → b * scale * total ≤ up * 100 * scale
    scaled_le le = omega (arith, mul-le-mul_right scale le)

shown-le : (up down scale : ℕ) → 0 < up + down → up * 100 * scale / (up + down) ≤ 100 * scale
shown-le up down scale h =
    omega (arith, div-lt_of_lt_mul (100 * scale + 1) (up * 100 * scale) (up + down) h (grind arith))

pow_pos : (d : ℕ) → 0 < 10 ^ d
pow_pos zero = omega arith
pow_pos (suc d) = rw (pow-suc 10 d) (omega (arith, pow_pos d))

-- On safe counts with at least one vote, at any number of decimals, the two numbers add up to 100
-- percent, the first is the exact share cut after the last digit, and it reaches a whole
-- percentage exactly when the share itself does.
pub format_ratio-IsTruncated :
    (up down decimals : ℕ)
    → up ≤ max_safe_integer
    → down ≤ max_safe_integer
    → decimals ≤ max_safe_integer
    → 0 < up + down
    → (shown_up shown_down : ℕ) × (format_ratio_percents (nat up) (nat down) (nat decimals)
        ≡ ok (percents shown_up shown_down (10 ^ decimals)))
      × IsTruncated up down (10 ^ decimals) shown_up shown_down
unfolding format_ratio_percents
format_ratio-IsTruncated up down decimals a b c pos =
    let scale = 10 ^ decimals in
    let shown = up * 100 * scale / (up + down) in
    let (low, high) = quotient_bounds (up * 100 * scale) (up + down) pos in
    (
      shown,
      100 * scale - shown,
      rw (
        assert_count-nat up invalid_vote_count a,
        assert_count-nat down invalid_vote_count b,
        assert_count-nat decimals invalid_vote_count c,
        ne_test (up + down) 0 (omega arith),
      ),
      record {
        complement = omega (arith, shown-le up down scale pos);
        from_below = low;
        last_digit = high;
        same_side = λ b.
            div-lt_iff (up * 100 * scale) (up + down) (b * scale) pos
            ∙ scale_out up (up + down) scale b (pow_pos decimals);
      },
    )
