-- ===== src/Domain/Archive/Weeks.antt =====
-- ISO weeks: seven days from a Monday on, and one id for each.
use dsh_liangxiang.Prelude.{
  ℕ, ◌+◌, ◌-◌, ◌*◌, ◌/◌, ◌%◌, ◌≤◌, ◌<◌, ◌≡◌, refl, sym, ap, ◌∙◌, Option, some, [], ◌∷◌, ◌++◌, arith,
  Result, ok, le→leb,
}
use dsh_liangxiang.Domain.Calendar.{
  era, month_start, year_start, year_of, day_number, civil_of, full_year, utc_day, week_day,
}
use dsh_liangxiang.Domain.Calendar.Days.{
  year_of_bounds, year_start-next, year_start_mono, day_in_year,
}
use dsh_liangxiang.Domain.Calendar.Text.{Text, pad, read_digits, read_two, read_four}
use dsh_liangxiang.Domain.Case.Dates.{IsBusinessDate, the_civil, the_day, utc_day-eq}
use dsh_liangxiang.Domain.Archive.Periods.{
  ArchiveError, date_from_utc, Period, iso_weekday, monday_of, week_id, week_text, decimal,
  decimal_digits, iso_week_for,
}
use dsh_liangxiang.Domain.Archive.Shifts.{
  IsDate, date_from_utc-IsDate, date_parts-eq, utc_day-the_day,
}

pub monday_of_bounds :
    (n : ℕ) → 7 ≤ n → (week_day (monday_of n) ≡ 1) × (monday_of n ≤ n) × (n ≤ monday_of n + 6)
monday_of_bounds n h = ground arith

-- A week found for a date.
pub record IsWeek {text : Text} (b : IsBusinessDate text) (r : Result ArchiveError Period)
    : Type 0 where
  pub bounds : Period
  pub returns : r ≡ ok bounds
  pub start : IsBusinessDate bounds.start_date
  pub end : IsBusinessDate bounds.end_date
  pub monday : week_day (the_day start) ≡ 1
  pub seven : the_day end ≡ the_day start + 6
  pub from : the_day start ≤ the_day b
  pub til : the_day b ≤ the_day end
  pub id_is : bounds.id ≡ week_id (the_day start + 3)

-- The week of a date of the years 101 to 9998 is found: it starts on a Monday, ends six days later,
-- the date lies in it, and its id is that of its Thursday.
pub iso_week_for-IsWeek :
    {text : Text} (b : IsBusinessDate text)
    → 101 ≤ b.year
    → b.year ≤ 9998
    → IsWeek b (iso_week_for text)
iso_week_for-IsWeek {text} b low high = record {
  bounds = record {
    id = week_id (the_day b + 4 - iso_weekday (the_day b));
    start_date = first.text;
    end_date = last.text;
  };
  returns =
      unfold iso_week_for in
      rw (date_parts-eq b, utc_day-the_day b, first.returns, last.returns) refl;
  start = first.date;
  end = last.date;
  monday = rw first.names (monday_of_bounds (the_day b) far).0;
  seven = rw (first.names, last.names) refl;
  from = rw first.names (monday_of_bounds (the_day b) far).1;
  til = rw last.names (monday_of_bounds (the_day b) far).2;
  id_is = ap week_id (thursday ∙ ap (λ (n : ℕ). n + 3) (sym first.names));
}
  where
    inside : (year_start (era + 101) ≤ the_day b) × (the_day b < year_start (era + 9999))
    inside =
        unfold day_number in
        omega (
          arith,
          day_in_year (the_civil b) b.civil,
          year_start-next (era + b.year),
          year_start_mono (era + 101) (era + b.year) (omega arith),
          year_start_mono (era + b.year + 1) (era + 9999) (omega arith),
        )

    far : 7 ≤ the_day b
    far = omega (arith, inside)

    first : IsDate (monday_of (the_day b)) (date_from_utc (monday_of (the_day b)))
    first = date_from_utc-IsDate _ (omega (arith, inside, monday_of_bounds (the_day b) far))

    last : IsDate (monday_of (the_day b) + 6) (date_from_utc (monday_of (the_day b) + 6))
    last = date_from_utc-IsDate _ (omega (arith, inside, monday_of_bounds (the_day b) far))

    thursday : the_day b + 4 - iso_weekday (the_day b) ≡ monday_of (the_day b) + 3
    thursday = ground (arith, far)

-- A year of four digits is written without padding.
decimal-pad : (n : ℕ) → 1000 ≤ n → n < 10000 → decimal n ≡ pad 4 n
unfolding decimal decimal_digits pad
decimal-pad n lo hi = ground arith

-- A Thursday and its year, with the first Monday of the year's weeks.
record IsThursdayOf (t y first : ℕ) : Type 0 where
  first_is : first ≤ t
  in_year : t < first + 371
  ahead_by : (t - first) % 7 ≡ 3

thursday_of :
    (t y : ℕ)
    → week_day t ≡ 4
    → 1000 ≤ y
    → year_start (era + y) ≤ t
    → t < year_start (era + y + 1)
    → IsThursdayOf t y (monday_of (utc_day y 1 4))
thursday_of t y day big lo hi =
    let fourth : utc_day y 1 4 ≡ year_start (era + y) + 3 =
      utc_day-eq y 1 4 (omega arith) (omega arith) (omega arith) ∙ january in
    let (monday, below, above) = monday_of_bounds (utc_day y 1 4) (omega (arith, fourth)) in
    let length = year_start-next (era + y) in
    record {
      first_is = omega (arith, fourth, monday, below, above);
      in_year = omega (arith, fourth, monday, below, above);
      ahead_by = omega (arith, fourth, monday, below, above);
    }
  where
    january :
        day_number (record { year = full_year y; month = 1; day = 4 }) ≡ year_start (era + y) + 3
    january = unfold day_number in unfold month_start in ground (arith, big)

-- What the id shows of the Thursday: its year and the number of its week.
week_id-eq :
    (t y first : ℕ)
    → 1000 ≤ y
    → y < 10000
    → (civil_of t).year ≡ era + y
    → first ≡ monday_of (utc_day y 1 4)
    → IsThursdayOf t y first
    → week_id t ≡ pad 4 y ++ (b'-' ∷ (b'W' ∷ pad 2 ((t - first) / 7 + 1)))
unfolding week_id
week_id-eq t y first lo hi year first_is th =
    let y_is : (civil_of t).year - era ≡ y = omega (arith, year) in
    rw y_is (
      rw (decimal-pad y lo hi, ← first_is)
        (ap (λ (w : Text). pad 4 y ++ (b'-' ∷ (b'W' ∷ w)))
          (unfold week_text in rw (le→leb _ _ th.first_is) refl)))

ids-eq :
    (y z w v : ℕ)
    → y < 10000
    → z < 10000
    → w < 100
    → v < 100
    → pad 4 y ++ (b'-' ∷ (b'W' ∷ pad 2 w)) ≡ pad 4 z ++ (b'-' ∷ (b'W' ∷ pad 2 v))
    → (y ≡ z) × (w ≡ v)
ids-eq y z w v hy hz hw hv e =
    let read : ◌≡◌ {A = Option (ℕ × Text)} (some (y, b'-' ∷ (b'W' ∷ pad 2 w)))
        (some (z, b'-' ∷ (b'W' ∷ pad 2 v))) =
      sym (read_four y _ hy) ∙ ap (read_digits 4 0) e ∙ read_four z _ hz in
    let both_parts : (y ≡ z) × (pad 2 w ≡ pad 2 v) = (cc, cc) in
    let weeks : ◌≡◌ {A = Option (ℕ × Text)} (some (0 * 100 + w, [])) (some (0 * 100 + v, [])) =
      sym (read_two w 0 [] hw)
      ∙ ap (λ (t : Text). read_digits 2 0 (t ++ [])) both_parts.1
      ∙ read_two v 0 [] hv in
    let numbers : 0 * 100 + w ≡ 0 * 100 + v = cc in (both_parts.0, omega arith)

-- Two Thursdays of the years 1000 to 9999 whose weeks have one id are one Thursday.
pub week_id-injective :
    (s t : ℕ)
    → week_day s ≡ 4
    → week_day t ≡ 4
    → (year_start (era + 1000) ≤ s) × (s < year_start (era + 10000))
    → (year_start (era + 1000) ≤ t) × (t < year_start (era + 10000))
    → week_id s ≡ week_id t
    → s ≡ t
week_id-injective s t hs ht ins int e =
    let (s_lo, s_hi) = year_of_bounds s in
    let (t_lo, t_hi) = year_of_bounds t in
    let y : ℕ = year_of s - era in
    let z : ℕ = year_of t - era in
    let s_year : year_of s ≡ era + y = omega (arith, s_lo, s_hi, ins) in
    let t_year : year_of t ≡ era + z = omega (arith, t_lo, t_hi, int) in
    let y_in : (1000 ≤ y) × (y < 10000) = omega (arith, s_lo, s_hi, ins) in
    let z_in : (1000 ≤ z) × (z < 10000) = omega (arith, t_lo, t_hi, int) in
    let a = thursday_of s y hs y_in.0 (omega (arith, s_year, s_lo)) (omega (arith, s_year, s_hi)) in
    let b = thursday_of t z ht z_in.0 (omega (arith, t_year, t_lo)) (omega (arith, t_year, t_hi)) in
    let (years, weeks) =
      ids-eq y z _ _ y_in.1 z_in.1 (omega (arith, a.in_year)) (omega (arith, b.in_year)) (
        sym (week_id-eq s y _ y_in.0 y_in.1 (unfold civil_of in s_year) refl a)
        ∙ e
        ∙ week_id-eq t z _ z_in.0 z_in.1 (unfold civil_of in t_year) refl b) in
    let firsts : monday_of (utc_day y 1 4) ≡ monday_of (utc_day z 1 4) =
      ap (λ (x : ℕ). monday_of (utc_day x 1 4)) years in
    omega (arith, a.first_is, a.ahead_by, b.first_is, b.ahead_by, firsts, weeks)
