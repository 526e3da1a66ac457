-- ===== src/Domain/Case.antt =====
-- src/domain/case.ts. A business date is the list of its characters' codes; a field whose type the source
-- tests at run time is none where it has another type.
pub mod Dates
pub mod Order
mod Examples
use dsh_liangxiang.Prelude.{
  ℕ, ◌+◌, ◌-◌, ◌/◌, Bool, true, false, ◌&&◌, Option, none, some, [], ◌∷◌, Number, Result, ◌>>=◌,
  ◌>>◌, guard, ◌==◌, length, is_some,
}
use dsh_liangxiang.Domain.Errors.{DomainErrorCode, invalid_policy, invalid_business_date}
use dsh_liangxiang.Domain.Incense.{assert_token_per_incense}
use dsh_liangxiang.Domain.Calendar.{era, Civil, civil_of, utc_day}
use dsh_liangxiang.Domain.Calendar.Text.{Text, read_date}

-- The comparison of the three parts with the Date's.
abbrev pub is_day_of : ℕ × ℕ × ℕ → Civil → Bool
is_day_of (year, month, day) c = c.year == era + year && (c.month == month && c.day == day)

unfoldable pub is_business_date : Text → Bool
unfolding read_date civil_of utc_day
is_business_date value = elim (read_date value) [
  | none ↦ false
  | some (year, month, day) ↦ is_day_of (year, month, day) (civil_of (utc_day year month day))
]

unfoldable pub assert_business_date : Text → Result DomainErrorCode (Unit {0})
unfolding is_business_date
assert_business_date value = guard (is_business_date value) invalid_business_date

pub data CaseStatus : Type 0 where
  scheduled active closed : CaseStatus

pub record DailyLiangCase : Type 0 where
  pub id : Option Text
  pub business_date : Text
  pub title : Option Text
  pub status : Option CaseStatus
  pub token_per_incense : Number

-- `typeof value === 'string' && value.length > 0`
abbrev pub is_filled : Option Text → Bool
is_filled none = false
is_filled (some []) = false
is_filled (some (c ∷ cs)) = true

pub assert_valid_case : DailyLiangCase → Result DomainErrorCode ℕ
unfolding assert_business_date
assert_valid_case value = do
  guard (is_filled value.id) invalid_policy
  assert_business_date value.business_date
  guard (is_filled value.title) invalid_policy
  guard (is_some value.status) invalid_policy
  assert_token_per_incense value.token_per_incense
