-- ===== src/Domain/Calendar.antt =====
-- Days as the language's Date objects count them, for src/domain/case.ts and src/domain/archive.ts. A year
-- is counted from `era` before year 0, so that each year that a Date can hold is a natural number;
-- `era` is a multiple of 400, hence leap years are where they are. A day number counts the days from
-- the first of January of that first year.
pub mod Days
pub mod Text
pub mod TextOrder
use dsh_liangxiang.Prelude.{ℕ, ◌+◌, ◌-◌, ◌*◌, ◌/◌, ◌%◌, Bool, ◌&&◌, ltb, leb, ◌==◌, if◌then◌else◌}

abbrev pub era : ℕ
era = 272000

unfoldable pub is_leap : ℕ → Bool
is_leap y = if y % 100 == 0 then y % 400 == 0 else y % 4 == 0

-- The days of the years from 0 up to `y`, without it.
abbrev pub year_start : ℕ → ℕ
year_start y = 365 * y + (y + 3) / 4 + (y + 399) / 400 - (y + 99) / 100

abbrev pub year_length : ℕ → ℕ
year_length y = if is_leap y then 366 else 365

-- The days of a year before its month, which is counted from 1.
abbrev pub common_month_start : ℕ → ℕ
common_month_start m =
    if leb m 1
    then 0
    else if m == 2
    then 31
    else if m == 3
    then 59
    else if m == 4
    then 90
    else if m == 5
    then 120
    else if m == 6
    then 151
    else if m == 7
    then 181
    else if m == 8
    then 212
    else if m == 9
    then 243
    else if m == 10
    then 273
    else if m == 11
    then 304
    else if m == 12
    then 334
    else 365

unfoldable pub month_start : Bool → ℕ → ℕ
month_start leap m = common_month_start m + (if leap && leb 3 m then 1 else 0)

pub record Civil : Type 0 where
  pub year : ℕ
  pub month : ℕ
  pub day : ℕ

unfoldable pub day_number : Civil → ℕ
unfolding is_leap month_start
day_number c = year_start c.year + month_start (is_leap c.year) c.month + (c.day - 1)

-- The year of a day: an estimate that is at most one off.
unfoldable pub year_of : ℕ → ℕ
year_of n =
    let y = n * 400 / 146097 in
    if leb (year_start (y + 1)) n then y + 1 else if ltb n (year_start y) then y - 1 else y

unfoldable pub month_of : Bool → ℕ → ℕ
unfolding month_start
month_of leap d =
    if ltb d (month_start leap 2)
    then 1
    else if ltb d (month_start leap 3)
    then 2
    else if ltb d (month_start leap 4)
    then 3
    else if ltb d (month_start leap 5)
    then 4
    else if ltb d (month_start leap 6)
    then 5
    else if ltb d (month_start leap 7)
    then 6
    else if ltb d (month_start leap 8)
    then 7
    else if ltb d (month_start leap 9)
    then 8
    else if ltb d (month_start leap 10)
    then 9
    else if ltb d (month_start leap 11)
    then 10
    else if ltb d (month_start leap 12)
    then 11
    else 12

-- getUTCFullYear, getUTCMonth (here from 1) and getUTCDate
unfoldable pub civil_of : ℕ → Civil
unfolding is_leap year_of month_of month_start
civil_of n =
    let y = year_of n in
    let d = n - year_start y in
    let m = month_of (is_leap y) d in
    record { year = y; month = m; day = d - month_start (is_leap y) m + 1 }

-- Date.UTC reads a year from 0 to 99 as one of the twentieth century.
abbrev pub full_year : ℕ → ℕ
full_year y = era + (if leb y 99 then 1900 + y else y)

-- Date.UTC(year, month - 1, day): a month out of range moves the year, a day out of range the month.
unfoldable pub utc_day : ℕ → ℕ → ℕ → ℕ
unfolding day_number
utc_day year month day =
    let months = full_year year * 12 + month - 1 in
    day_number (record { year = months / 12; month = months % 12 + 1; day = 1 }) + day - 1

-- 1970-01-01
abbrev pub epoch_day : ℕ
epoch_day = 100065488

-- The days whose midnight a Date can hold: 100,000,000 on each side of the epoch.
abbrev pub is_date : ℕ → Bool
is_date n = leb (epoch_day - 100000000) n && leb n (epoch_day + 100000000)

-- getUTCDay, 0 on a Sunday
abbrev pub week_day : ℕ → ℕ
week_day n = (n + 6) % 7
