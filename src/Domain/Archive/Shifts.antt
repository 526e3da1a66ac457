-- ===== src/Domain/Archive/Shifts.antt =====
-- Business days added and taken away, and the bounds of ISO weeks, in day numbers.
use dsh_liangxiang.Prelude.{
  ℕ, ◌+◌, ◌-◌, ◌≤◌, ◌<◌, ◌≡◌, refl, sym, ap, ◌∙◌, true, some, arith, Result, ok, ◌>>=◌, subst,
}
use dsh_liangxiang.Domain.Calendar.{
  era, is_leap, year_start, Civil, day_number, civil_of, full_year, utc_day,
}
use dsh_liangxiang.Domain.Calendar.Days.{
  IsCivil, civil_of-IsCivil, day_number-civil_of, civil_of-day_number, year_of_bounds,
  year_start-next, year_start_mono, day_in_year,
}
use dsh_liangxiang.Domain.Calendar.Text.{Text, read_date, write_date, read_date-write_date}
use dsh_liangxiang.Domain.Case.Dates.{
  IsBusinessDate, the_civil, the_day, utc_day-eq, month_length-le, IsBusinessDate-is_business_date,
}
use dsh_liangxiang.Domain.Archive.Periods.{
  ArchiveError, Amount, ahead, back, moved, is_integer, date_parts, date_from_utc,
  add_business_days,
}

-- The days of the years 100 to 9999.
abbrev pub IsDated : ℕ → Type 0
IsDated n = (year_start (era + 100) ≤ n) × (n < year_start (era + 10000))

pub the_day-IsDated : {text : Text} (b : IsBusinessDate text) → IsDated (the_day b)
unfolding day_number
the_day-IsDated b =
    let inside = day_in_year (the_civil b) b.civil in
    let next = year_start-next (era + b.year) in
    let low = year_start_mono (era + 100) (era + b.year) (omega (arith, b.year_in)) in
    let high = year_start_mono (era + b.year + 1) (era + 10000) (omega (arith, b.year_in)) in
    omega (arith, inside, next, low, high)

-- A day of those years, written: the text is a business date that names the day.
pub record IsDate (n : ℕ) (r : Result ArchiveError Text) : Type 0 where
  pub text : Text
  pub returns : r ≡ ok text
  pub date : IsBusinessDate text
  pub names : the_day date ≡ n

pub civil_of_year :
    (n : ℕ) → IsDated n → (era + 100 ≤ (civil_of n).year) × ((civil_of n).year ≤ era + 9999)
unfolding civil_of
civil_of_year n h = omega (arith, year_of_bounds n, h)

date_from_utc-eq :
    (n : ℕ)
    → IsDated n
    → date_from_utc n
      ≡ ok (write_date ((civil_of n).year - era) (civil_of n).month (civil_of n).day)
unfolding date_from_utc
date_from_utc-eq n h = ground (arith, civil_of_year n h)

pub date_from_utc-IsDate : (n : ℕ) → IsDated n → IsDate n (date_from_utc n)
date_from_utc-IsDate n h =
    let (lo, hi) = civil_of_year n h in
    let same : record {
      year = era + ((civil_of n).year - era);
      month = (civil_of n).month;
      day = (civil_of n).day;
    }
        ≡ civil_of n =
      λ i. record {
        year = up_again (civil_of n).year lo i;
        month = (civil_of n).month;
        day = (civil_of n).day;
      } in
    record {
      text = write_date ((civil_of n).year - era) (civil_of n).month (civil_of n).day;
      returns = date_from_utc-eq n h;
      date = record {
        year = (civil_of n).year - era;
        month = (civil_of n).month;
        day = (civil_of n).day;
        year_in = omega arith;
        civil = subst IsCivil (sym same) (civil_of-IsCivil n);
        written = refl;
      };
      names = ap day_number same ∙ day_number-civil_of n;
    }
  where
    up_again : (y : ℕ) → era + 100 ≤ y → era + (y - era) ≡ y
    up_again y h = omega arith

-- Reading a business date back.
pub date_parts-eq :
    {text : Text} (b : IsBusinessDate text) → date_parts text ≡ ok (b.year, b.month, b.day)
unfolding date_parts
date_parts-eq {text} b = rw (reads, date_parts) (rw (IsBusinessDate-is_business_date text b) refl)
  where
    reads : read_date text ≡ some (b.year, b.month, b.day)
    reads =
        ap read_date b.written
        ∙ read_date-write_date b.year b.month b.day (omega (arith, b.year_in))
            (omega (arith, b.civil.month_in))
            (omega (arith, b.civil.day_in, month_length-le (is_leap (era + b.year)) b.month))

pub utc_day-the_day :
    {text : Text} (b : IsBusinessDate text) → utc_day b.year b.month b.day ≡ the_day b
utc_day-the_day b =
    utc_day-eq b.year b.month b.day b.civil.month_in.0 b.civil.month_in.1 b.civil.day_in.0
    ∙ ap (λ (y : ℕ). day_number (record { year = y; month = b.month; day = b.day })) year_is
  where
    year_is : full_year b.year ≡ era + b.year
    year_is = ground (arith, b.year_in)

-- One day has one text.
pub text-eq_of_day :
    {s t : Text} (a : IsBusinessDate s) (b : IsBusinessDate t) → the_day a ≡ the_day b → s ≡ t
text-eq_of_day {s} {t} a b same =
    a.written
    ∙ texts (ap (λ (c : Civil). c.year) civils) (ap (λ (c : Civil). c.month) civils)
        (ap (λ (c : Civil). c.day) civils)
    ∙ sym b.written
  where
    civils : the_civil a ≡ the_civil b
    civils =
        sym (civil_of-day_number (the_civil a) a.civil)
        ∙ ap civil_of same
        ∙ civil_of-day_number (the_civil b) b.civil

    texts :
        era + a.year ≡ era + b.year
        → a.month ≡ b.month
        → a.day ≡ b.day
        → write_date a.year a.month a.day ≡ write_date b.year b.month b.day
    texts y m d = let years : a.year ≡ b.year = omega arith in λ i. write_date (years i) (m i) (d i)

-- A business date with an integer added is the text of the day that many days on, or back, if that
-- day lies in the years 100 to 9999.
pub add_business_days-IsDate :
    {text : Text} (b : IsBusinessDate text) (amount : Amount)
    → is_integer amount ≡ true
    → IsDated (moved (the_day b) amount)
    → IsDate (moved (the_day b) amount) (add_business_days text amount)
add_business_days-IsDate {text} b amount whole h =
    subst (IsDate (moved (the_day b) amount)) (sym same) (date_from_utc-IsDate _ h)
  where
    same : add_business_days text amount ≡ date_from_utc (moved (the_day b) amount)
    same =
        unfold add_business_days in
        rw (IsBusinessDate-is_business_date text b, whole, date_parts-eq b, utc_day-the_day b) refl

-- Some days on from a business date and as many back is the text one started from, if the day that
-- many days on lies in the years 100 to 9999.
pub add_business_days-add_business_days :
    {text : Text} (b : IsBusinessDate text) (k : ℕ)
    → IsDated (the_day b + k)
    → (add_business_days text (ahead k) >>= λ later. add_business_days later (back k)) ≡ ok text
add_business_days-add_business_days {text} b k h =
    let there = add_business_days-IsDate b (ahead k) refl h in
    let home : the_day there.date - k ≡ the_day b = omega (arith, there.names) in
    let again =
      add_business_days-IsDate there.date (back k) refl
        (subst IsDated (sym home) (the_day-IsDated b)) in
    rw (there.returns, again.returns) (ap ok (text-eq_of_day again.date b (again.names ∙ home)))
