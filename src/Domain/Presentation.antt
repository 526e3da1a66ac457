-- ===== src/Domain/Presentation.antt =====
-- src/domain/presentation.ts, where it computes on integers: place values and the displayed percentages.
-- A percentage is kept as its scaled integer: the text is `scaled / scale` with `decimals` digits.
-- `10 ** decimals` is exact up to 22 decimals; the program asks for 0 and 6. A compact count is kept
-- as its rounded number of tenths or of whole units, with its suffix; the source rounds the double
-- `n / unit * factor`, the model the exact quotient, half up.
pub mod Percents
pub mod Places
pub mod Compact
mod Examples
use dsh_liangxiang.Prelude.{
  ℕ, ◌+◌, ◌-◌, ◌*◌, ◌/◌, ◌%◌, ◌^◌, String, Option, none, some, Number, Result, ok, ◌>>=◌, ◌>>◌,
  guard, ltb, leb, ◌==◌, if◌then◌else◌,
}
use dsh_liangxiang.Domain.Errors.{
  DomainErrorCode, assert_count, invalid_vote_count, invalid_incense_count, invalid_token_count,
}

pub record IncensePlaceValue : Type 0 where
  pub ones : ℕ
  pub tens : ℕ
  pub hundreds : ℕ
  pub overflow : ℕ

pub incense_place_value : Number → Result DomainErrorCode IncensePlaceValue
incense_place_value remaining_incense = do
  n ← assert_count remaining_incense invalid_incense_count
  if leb 1000 n
      then ok (record { ones = 0; tens = 0; hundreds = 0; overflow = n })
      else ok (record { ones = n % 10; tens = n / 10 % 10; hundreds = n / 100 % 10; overflow = 0 })

-- `waiting` is the text "--"; `percents` holds the two scaled integers and their scale.
pub data RatioPercentPair : Type 0 where
  waiting : RatioPercentPair
  percents : ℕ → ℕ → ℕ → RatioPercentPair

unfoldable pub format_ratio_percents :
    Number → Number → Number → Result DomainErrorCode RatioPercentPair
format_ratio_percents up_votes down_votes decimals = do
  up ← assert_count up_votes invalid_vote_count
  down ← assert_count down_votes invalid_vote_count
  places ← assert_count decimals invalid_vote_count
  let total = up + down
  let scale = 10 ^ places
  let scaled_up = up * 100 * scale / total
  if total == 0 then ok waiting else ok (percents scaled_up (100 * scale - scaled_up) scale)

abbrev pub liang_position_decimals : ℕ
liang_position_decimals = 6

pub data CompactCount : Type 0 where
  exact : ℕ → CompactCount
  -- `rounded / factor` units, and the suffix of the unit
  rounded : ℕ → ℕ → String → CompactCount
  -- "1" and the suffix of the next unit
  one_of : String → CompactCount

-- Math.round(n / unit * factor)
pub round_units : ℕ → ℕ → ℕ → ℕ
round_units n unit factor = (2 * n * factor + unit) / (2 * unit)

-- `next_unit` is none for the source's POSITIVE_INFINITY with an empty suffix.
pub format_scaled : ℕ → ℕ → String → Option (ℕ × String) → ℕ → CompactCount
unfolding round_units
format_scaled n unit suffix none factor = rounded (round_units n unit factor) factor suffix
format_scaled n unit suffix (some (next_unit, next_suffix)) factor =
    let r = round_units n unit factor in
    if leb (next_unit * factor) (r * unit) then one_of next_suffix else rounded r factor suffix

-- The value of a count that has passed the guard; `factor` is 10 ** fractionDigits: 1 or 10.
pub compact_of : ℕ → ℕ → CompactCount
unfolding format_scaled
compact_of n factor =
    if ltb n 1000
    then exact n
    else if ltb n 1000000
    then format_scaled n 1000 "K" (some (1000000, "M")) factor
    else if ltb n 1000000000
    then format_scaled n 1000000 "M" (some (1000000000, "B")) factor
    else format_scaled n 1000000000 "B" none factor

pub format_compact_count : Number → ℕ → Result DomainErrorCode CompactCount
unfolding compact_of
format_compact_count value factor = do
  n ← assert_count value invalid_token_count
  ok (compact_of n factor)

pub format_zh_compact_count : Number → Result DomainErrorCode CompactCount
unfolding format_scaled
format_zh_compact_count value = do
  n ← assert_count value invalid_token_count
  ok (
      if ltb n 10000
      then exact n
      else if ltb n 1000000
      then format_scaled n 10000 "万" (some (1000000, "百万")) 10
      else if ltb n 100000000
      then format_scaled n 1000000 "百万" (some (100000000, "亿")) 10
      else format_scaled n 100000000 "亿" none 10)
