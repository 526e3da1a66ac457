-- ===== src/Domain/Case/Dates.antt =====
-- Which texts `is_business_date` of src/domain/case.ts accepts, and the order of their texts.
use dsh_liangxiang.Prelude.{
  ℕ, ◌+◌, ◌-◌, ◌*◌, ◌/◌, ◌%◌, ◌≤◌, ◌<◌, ◌≡◌, sym, ap, ◌∙◌, inl, inr, Bool, true, false, some, arith,
  leb, leb→le, leb_false→lt, Bool-cases, Option-cases, subst,
}
use dsh_liangxiang.Domain.Calendar.{
  era, is_leap, month_start, Civil, day_number, civil_of, full_year, utc_day,
}
use dsh_liangxiang.Domain.Calendar.Days.{
  IsCivil, month_length, year_start-next, year_start_mono, civil_of-day_number, civil_of-IsCivil,
  day_number-civil_of, day_in_year,
}
use dsh_liangxiang.Domain.Calendar.Text.{
  Text, read_date, write_date, read_date-write_date, read_date-eq,
}
use dsh_liangxiang.Domain.Case.{is_day_of, is_business_date}

-- A month in range: no year is moved.
pub utc_day-eq :
    (year month day : ℕ)
    → 1 ≤ month
    → month ≤ 12
    → 1 ≤ day
    → utc_day year month day
      ≡ day_number (record { year = full_year year; month = month; day = day })
unfolding utc_day day_number
utc_day-eq year month day least most positive = rw (years, months) (omega arith)
  where
    years : (full_year year * 12 + month - 1) / 12 ≡ full_year year
    years = omega arith

    months : (full_year year * 12 + month - 1) % 12 + 1 ≡ month
    months = omega arith

-- A date from the year 100 on, with the text that shows it.
pub record IsBusinessDate (text : Text) : Type 0 where
  pub year : ℕ
  pub month : ℕ
  pub day : ℕ
  pub year_in : (100 ≤ year) × (year ≤ 9999)
  pub civil : IsCivil (record { year = era + year; month = month; day = day })
  pub written : text ≡ write_date year month day

abbrev pub the_civil : {text : Text} → IsBusinessDate text → Civil
the_civil b = record { year = era + b.year; month = b.month; day = b.day }

-- The day that the text names.
abbrev pub the_day : {text : Text} → IsBusinessDate text → ℕ
the_day b = day_number (the_civil b)

pub month_length-le : (leap : Bool) (m : ℕ) → month_length leap m < 100
unfolding month_start
month_length-le true m = ground arith
month_length-le false m = ground arith

same_day : (y m d : ℕ) → is_day_of (y, m, d) (record { year = era + y; month = m; day = d }) ≡ true
same_day y m d = ground arith

-- Every date of the years 100 to 9999, written with its zeros, is accepted.
pub IsBusinessDate-is_business_date :
    (text : Text) → IsBusinessDate text → is_business_date text ≡ true
unfolding is_business_date
IsBusinessDate-is_business_date text b = rw b.written (
    rw (reads, is_business_date)
      (subst (λ (c : Civil). is_day_of (b.year, b.month, b.day) c ≡ true)
        (sym (ap civil_of number ∙ civil_of-day_number (the_civil b) b.civil))
        (same_day b.year b.month b.day)))
  where
    reads : read_date (write_date b.year b.month b.day) ≡ some (b.year, b.month, b.day)
    reads =
        read_date-write_date b.year b.month b.day (omega (arith, b.year_in))
          (omega (arith, b.civil.month_in))
          (omega (arith, b.civil.day_in, month_length-le (is_leap (era + b.year)) b.month))

    year_is : full_year b.year ≡ era + b.year
    year_is = ground (arith, b.year_in)

    number : utc_day b.year b.month b.day ≡ the_day b
    number =
        utc_day-eq b.year b.month b.day b.civil.month_in.0 b.civil.month_in.1 b.civil.day_in.0
        ∙ ap (λ (y : ℕ). day_number (record { year = y; month = b.month; day = b.day })) year_is

is_day_of-eq :
    (y m d : ℕ) (c : Civil)
    → is_day_of (y, m, d) c ≡ true
    → c ≡ record { year = era + y; month = m; day = d }
is_day_of-eq y m d c h = ground arith

-- A year from 0 to 99 is read as one of the twentieth century, so it does not come back.
comes_back-le :
    (y m d : ℕ)
    → IsCivil (record { year = era + y; month = m; day = d })
    → civil_of (utc_day y m d) ≡ record { year = era + y; month = m; day = d }
    → 100 ≤ y
comes_back-le y m d v h = elim (Bool-cases (leb 100 y)) [
  | inl fine ↦ leb→le _ _ fine
  | inr early ↦
      let low : y < 100 = leb_false→lt _ _ early in
      let there : utc_day y m d ≡ day_number (record { year = era + y; month = m; day = d }) =
        sym (day_number-civil_of (utc_day y m d)) ∙ ap day_number h in
      let here = utc_day-eq y m d v.month_in.0 v.month_in.1 v.day_in.0 in
      let moved : full_year y ≡ era + (1900 + y) = ground arith in
      absurd (
        too_far y m d low v (
          sym there
          ∙ here
          ∙ ap (λ (z : ℕ). day_number (record { year = z; month = m; day = d })) moved))
]
  where
    too_far :
        (y m d : ℕ)
        → y < 100
        → IsCivil (record { year = era + y; month = m; day = d })
        → day_number (record { year = era + y; month = m; day = d })
          ≡ day_number (record { year = era + (1900 + y); month = m; day = d })
        → ⊥
    too_far y m d low v e =
        let inside = day_in_year (record { year = era + y; month = m; day = d }) v in
        let next = year_start-next (era + y) in
        let grows = year_start_mono (era + y + 1) (era + (1900 + y)) (omega arith) in
        unfold day_number in omega (arith, inside, next, grows, e)

-- Nothing else is accepted.
pub is_business_date-IsBusinessDate :
    (text : Text) → is_business_date text ≡ true → IsBusinessDate text
unfolding is_business_date
is_business_date-IsBusinessDate text h = elim (Option-cases (read_date text)) [
  | inl unread ↦ cc (rw (unread, is_business_date) at h)
  | inr ((y, m, d), reads) ↦
      let same =
        is_day_of-eq y m d (civil_of (utc_day y m d)) (rw (reads, is_business_date) at h) in
      let (hy, hm, hd, written) = read_date-eq text y m d reads in
      let v : IsCivil (record { year = era + y; month = m; day = d }) =
        subst IsCivil same (civil_of-IsCivil (utc_day y m d)) in
      record {
        year = y;
        month = m;
        day = d;
        year_in = (comes_back-le y m d v same, omega arith);
        civil = v;
        written = written;
      }
]

-- A text is a business date for the program just when it is a date of the years 100 to 9999, the
-- year written with four digits, the month and the day with two, and joined by dashes.
pub is_business_date_lem :
    (text : Text)
    → (is_business_date text ≡ true → IsBusinessDate text)
      × (IsBusinessDate text → is_business_date text ≡ true)
is_business_date_lem text =
    (is_business_date-IsBusinessDate text, IsBusinessDate-is_business_date text)
