-- ===== src/Domain/Calendar/Days.antt =====
-- Day numbers and civil dates.
use dsh_liangxiang.Prelude.{
  ℕ, ◌+◌, ◌-◌, ◌≤◌, ◌<◌, ◌≡◌, Bool, true, false, if◌then◌else◌, arith, refl, ◌⊎◌, inl, inr,
}
use dsh_liangxiang.Domain.Calendar.{
  is_leap, year_start, year_length, month_start, Civil, day_number, year_of, month_of, civil_of,
  utc_day, epoch_day,
}

epoch_is : utc_day 1970 1 1 ≡ epoch_day
unfolding utc_day
epoch_is = refl

pub year_start-next : (y : ℕ) → year_start (y + 1) ≡ year_start y + year_length y
unfolding is_leap
year_start-next y = ground arith

pub year_start_mono : (y z : ℕ) → y ≤ z → year_start y ≤ year_start z
year_start_mono y z h = omega arith

pub year_of_bounds : (n : ℕ) → (year_start (year_of n) ≤ n) × (n < year_start (year_of n + 1))
unfolding year_of
year_of_bounds n = ground arith

-- The bounds determine the year.
pub year_of-eq : (y n : ℕ) → year_start y ≤ n → n < year_start (y + 1) → year_of n ≡ y
year_of-eq y n lo hi = omega (arith, year_of_bounds n)

-- The length of a month, from its starts.
abbrev pub month_length : Bool → ℕ → ℕ
month_length leap m = month_start leap (m + 1) - month_start leap m

pub record IsCivil (c : Civil) : Type 0 where
  pub month_in : (1 ≤ c.month) × (c.month ≤ 12)
  pub day_in : (1 ≤ c.day) × (c.day ≤ month_length (is_leap c.year) c.month)

pub month_of_bounds :
    (leap : Bool) (d : ℕ)
    → d < (if leap then 366 else 365)
    → (1 ≤ month_of leap d)
      × (month_of leap d ≤ 12)
      × (month_start leap (month_of leap d) ≤ d)
      × (d < month_start leap (month_of leap d + 1))
unfolding month_of month_start
month_of_bounds true d h = ground arith
month_of_bounds false d h = ground arith

pub month_start_mono : (leap : Bool) (m k : ℕ) → m ≤ k → month_start leap m ≤ month_start leap k
unfolding month_start
month_start_mono true m k h = ground arith
month_start_mono false m k h = ground arith

pub month_of-eq :
    (leap : Bool) (m d : ℕ)
    → m ≤ 12
    → month_start leap m ≤ d
    → d < month_start leap (m + 1)
    → d < (if leap then 366 else 365)
    → month_of leap d ≡ m
month_of-eq leap m d top lo hi short =
    let (least, most, from, til) = month_of_bounds leap d short in
    elim (nat_trichotomy (month_of leap d) m) [
      | inl below ↦
          absurd (omega (arith, month_start_mono leap (month_of leap d + 1) m (omega arith)))
      | inr (inl same) ↦ same
      | inr (inr above) ↦
          absurd (omega (arith, month_start_mono leap (m + 1) (month_of leap d) (omega arith)))
    ]
  where
    nat_trichotomy : (a b : ℕ) → (a < b) ⊎ ((a ≡ b) ⊎ (b < a))
    nat_trichotomy a b = ground arith

-- A civil date's day lies in its year.
pub day_in_year :
    (c : Civil)
    → IsCivil c
    → month_start (is_leap c.year) c.month + (c.day - 1) < year_length c.year
day_in_year c v = omega (
  arith,
  month_end (is_leap c.year),
  month_start_mono (is_leap c.year) (c.month + 1) 13 (omega (arith, v.month_in)),
  v.month_in,
  v.day_in,
)
  where
    month_end : (leap : Bool) → month_start leap 13 ≡ (if leap then 366 else 365)
    month_end true = unfold month_start in refl
    month_end false = unfold month_start in refl

pub year_of-day_number : (c : Civil) → IsCivil c → year_of (day_number c) ≡ c.year
unfolding day_number
year_of-day_number c v =
    year_of-eq c.year _ (omega arith) (omega (arith, day_in_year c v, year_start-next c.year))

-- The civil date of a date's day number is the date.
pub civil_of-day_number : (c : Civil) → IsCivil c → civil_of (day_number c) ≡ c
unfolding civil_of
civil_of-day_number c v =
    rw (year_of-day_number c v, left, month)
      (λ i. record { year = c.year; month = c.month; day = day_back i })
  where
    left : day_number c - year_start c.year ≡ month_start (is_leap c.year) c.month + (c.day - 1)
    left = unfold day_number in omega arith

    month : month_of (is_leap c.year) (month_start (is_leap c.year) c.month + (c.day - 1)) ≡ c.month
    month =
        month_of-eq (is_leap c.year) c.month _ (omega (arith, v.month_in)) (omega arith)
          (omega (arith, v.day_in)) (day_in_year c v)

    day_back :
        month_start (is_leap c.year) c.month
          + (c.day - 1)
          - month_start (is_leap c.year) c.month
          + 1
        ≡ c.day
    day_back = omega (arith, v.day_in)

pub civil_of-IsCivil : (n : ℕ) → IsCivil (civil_of n)
unfolding civil_of
civil_of-IsCivil n =
    let (lo, hi) = year_of_bounds n in
    let (least, most, from, til) =
      month_of_bounds (is_leap (year_of n)) (n - year_start (year_of n))
        (omega (arith, year_start-next (year_of n))) in
    record { month_in = (least, most); day_in = (omega arith, omega arith) }

-- The day number of a day's civil date is the day.
pub day_number-civil_of : (n : ℕ) → day_number (civil_of n) ≡ n
unfolding civil_of day_number
day_number-civil_of n =
    let (lo, hi) = year_of_bounds n in
    let (least, most, from, til) =
      month_of_bounds (is_leap (year_of n)) (n - year_start (year_of n))
        (omega (arith, year_start-next (year_of n))) in
    omega arith
