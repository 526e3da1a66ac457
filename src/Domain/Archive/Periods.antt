-- ===== src/Domain/Archive/Periods.antt =====
-- The calendar part of src/domain/archive.ts: business days added, ISO weeks and months. A Date is its day
-- number, since each is at midnight.
use dsh_liangxiang.Prelude.{
  ℕ, zero, suc, ◌+◌, ◌-◌, ◌/◌, ◌%◌, Bool, true, false, not, none, some, [], ◌∷◌, ◌++◌, Result, ok,
  err, ◌>>=◌, ◌>>◌, guard, ltb, leb, ◌==◌, if◌then◌else◌,
}
use dsh_liangxiang.Domain.Errors.{DomainErrorCode, invalid_policy, invalid_business_date}
use dsh_liangxiang.Domain.Calendar.{era, civil_of, utc_day, is_date, week_day}
use dsh_liangxiang.Domain.Calendar.Text.{Text, pad, read_date, write_date}
use dsh_liangxiang.Domain.Case.{is_business_date}

pub data ArchiveError : Type 0 where
  domain : DomainErrorCode → ArchiveError
  -- the RangeError of toISOString on an invalid Date
  range_error : ArchiveError

-- The split comes after the assertion, so it finds three numbers.
unfoldable pub date_parts : Text → Result ArchiveError (ℕ × ℕ × ℕ)
date_parts date = elim (read_date date) [
  | none ↦ err (domain invalid_business_date)
  | some parts ↦ if is_business_date date then ok parts else err (domain invalid_business_date)
]

-- toISOString().slice(0, 10): a year past four digits is written with a sign and six.
unfoldable pub date_from_utc : ℕ → Result ArchiveError Text
date_from_utc instant =
    let c = civil_of instant in
    if not (is_date instant)
    then err range_error
    else if ltb c.year era
    then ok (b'-' ∷ (pad 6 (era - c.year) ++ (b'-' ∷ pad 2 c.month)))
    else if ltb (era + 9999) c.year
    then ok (b'+' ∷ (pad 6 (c.year - era) ++ (b'-' ∷ pad 2 c.month)))
    else ok (write_date (c.year - era) c.month c.day)

-- A number of days, as `Number.isInteger` tells them apart.
pub data Amount : Type 0 where
  ahead : ℕ → Amount
  back : ℕ → Amount
  no_integer : Amount

-- Day 0 is no day that a Date holds, so a subtraction that stops at 0 is out of range too.
abbrev pub moved : ℕ → Amount → ℕ
moved day (ahead k) = day + k
moved day (back k) = day - k
moved day no_integer = day

abbrev pub is_integer : Amount → Bool
is_integer no_integer = false
is_integer (ahead k) = true
is_integer (back k) = true

unfoldable pub add_business_days : Text → Amount → Result ArchiveError Text
add_business_days date amount = do
  guard (is_business_date date) (domain invalid_business_date)
  guard (is_integer amount) (domain invalid_policy)
  (year, month, day) ← date_parts date
  date_from_utc (moved (utc_day year month day) amount)

pub record Period : Type 0 where
  -- weekId, monthId
  pub id : Text
  pub start_date : Text
  pub end_date : Text

-- getUTCDay() === 0 ? 7 : getUTCDay()
abbrev pub iso_weekday : ℕ → ℕ
iso_weekday n = let w = week_day n in if w == 0 then 7 else w

abbrev pub monday_of : ℕ → ℕ
monday_of n = n + 1 - iso_weekday n

-- String(n) of a number with at most `fuel` digits.
unfoldable pub decimal_digits : ℕ → ℕ → Text
decimal_digits zero n = []
decimal_digits (suc fuel) n =
    let more = decimal_digits fuel (n / 10) in
    (if ltb n 10 then [] else more) ++ (b'0' + n % 10) ∷ []

-- Safe integers have at most 16 digits.
unfoldable pub decimal : ℕ → Text
unfolding decimal_digits
decimal n = decimal_digits 16 n

-- String(week).padStart(2, '0') of `Math.floor((thursday - firstMonday) / 7 days) + 1`. The second case is a
-- week number below 1.
unfoldable pub week_text : ℕ → ℕ → Text
unfolding pad decimal
week_text thursday first_monday =
    if leb first_monday thursday
    then pad 2 ((thursday - first_monday) / 7 + 1)
    else let weeks = (first_monday - thursday + 6) / 7 in
      if weeks == 1 then pad 2 0 else b'-' ∷ decimal (weeks - 1)

-- The id of the week of a Thursday. Its year is not negative.
unfoldable pub week_id : ℕ → Text
week_id thursday =
    let iso_year = (civil_of thursday).year - era in
    decimal iso_year ++ (b'-' ∷ (b'W' ∷ week_text thursday (monday_of (utc_day iso_year 1 4))))

unfoldable pub iso_week_for : Text → Result ArchiveError Period
iso_week_for date = do
  (year, month, day) ← date_parts date
  let instant = utc_day year month day
  start_date ← date_from_utc (monday_of instant)
  end_date ← date_from_utc (monday_of instant + 6)
  ok (record {
    id = week_id (instant + 4 - iso_weekday instant);
    start_date = start_date;
    end_date = end_date;
  })

unfoldable pub month_for : Text → Result ArchiveError Period
month_for date = do
  (year, month, day) ← date_parts date
  end_date ← date_from_utc (utc_day year (month + 1) 0)
  let month_id = pad 4 year ++ (b'-' ∷ pad 2 month)
  ok (record {
    id = month_id;
    start_date = month_id ++ (b'-' ∷ (b'0' ∷ (b'1' ∷ [])));
    end_date = end_date;
  })
