-- ===== src/Domain/Presentation/Compact.antt =====
-- A compact count is within half a step of the count, and never shows a thousand of its unit.
use dsh_liangxiang.Prelude.{
  ℕ, ◌+◌, ◌*◌, ◌/◌, ◌≤◌, ◌<◌, String, ◌≡◌, ◌⊎◌, inl, inr, arith, str_eq, nat, max_safe_integer, ok,
  if◌then◌else◌,
}
use dsh_liangxiang.Domain.Errors.{assert_count-nat, invalid_token_count}
use dsh_liangxiang.Domain.Presentation.{
  CompactCount, exact, rounded, one_of, compact_of, format_compact_count,
}

abbrev pub unit_of : String → ℕ
unit_of suffix =
    if str_eq suffix "K" then 1000 else if str_eq suffix "M" then 1000000 else 1000000000

-- `2 * factor` times the count differs from that of the shown value by at most one unit. Below a
-- billion the rounded number stays below a thousand units, and a rollover stands for a count that
-- is at most half a step below the next unit.
abbrev pub Shows : ℕ → ℕ → CompactCount → Type 0
Shows n factor (exact m) = (m ≡ n) × (n < 1000)
Shows n factor (rounded r f suffix) =
    (f ≡ factor)
    × (2 * (r * unit_of suffix) ≤ 2 * n * factor + unit_of suffix)
    × (2 * n * factor ≤ 2 * (r * unit_of suffix) + unit_of suffix)
    × (n < 1000000000 → r < 1000 * factor)
Shows n factor (one_of suffix) =
    (n < unit_of suffix) × (2 * unit_of suffix * factor ≤ 2 * n * factor + unit_of suffix / 1000)

tenths-Shows : (n : ℕ) → Shows n 10 (compact_of n 10)
unfolding compact_of
tenths-Shows n = ground arith

whole-Shows : (n : ℕ) → Shows n 1 (compact_of n 1)
unfolding compact_of
whole-Shows n = ground arith

-- On every safe count, at one decimal or at none.
pub format_compact-Shows :
    (n factor : ℕ)
    → n ≤ max_safe_integer
    → (factor ≡ 1) ⊎ (factor ≡ 10)
    → (c : CompactCount) × (format_compact_count (nat n) factor ≡ ok c) × Shows n factor c
format_compact-Shows n factor safe f = (
  compact_of n factor,
  unfold format_compact_count in rw (assert_count-nat n invalid_token_count safe),
  elim f [ inl one ↦ rw one (whole-Shows n) | inr ten ↦ rw ten (tenths-Shows n) ],
)
