-- ===== src/Domain/Case/Order.antt =====
-- Business dates compared as texts, the way the source compares them.
use dsh_liangxiang.Prelude.{
  ℕ, ◌+◌, ◌≤◌, ◌<◌, ◌≡◌, refl, sym, ap, ◌∙◌, Bool, true, false, [], ◌∷◌, ◌++◌, append-nil, arith,
  ltb, ◌==◌, if◌then◌else◌,
}
use dsh_liangxiang.Domain.Calendar.{era, is_leap, Civil, day_number}
use dsh_liangxiang.Domain.Calendar.Days.{
  IsCivil, year_start-next, year_start_mono, month_start_mono, day_in_year,
}
use dsh_liangxiang.Domain.Calendar.Text.{Text, pad, write_date, text_ltb, text_ltb-pad}
use dsh_liangxiang.Domain.Case.Dates.{month_length-le, IsBusinessDate, the_civil, the_day}

by_year : (a b : Civil) → IsCivil a → a.year < b.year → day_number a < day_number b
unfolding day_number
by_year a b va h = omega (
  arith,
  day_in_year a va,
  year_start-next a.year,
  year_start_mono (a.year + 1) b.year (omega arith),
)

by_month :
    (a b : Civil) → IsCivil a → a.year ≡ b.year → a.month < b.month → day_number a < day_number b
unfolding day_number
by_month a b va same h = rw (← same) (
    omega (arith, va.day_in, month_start_mono (is_leap a.year) (a.month + 1) b.month (omega arith)))

by_day :
    (a b : Civil)
    → IsCivil a
    → a.year ≡ b.year
    → a.month ≡ b.month
    → a.day < b.day
    → day_number a < day_number b
unfolding day_number
by_day a b va year month h = rw (← year, ← month) (omega (arith, va.day_in))

abbrev civil_ltb : Civil → Civil → Bool
civil_ltb a b =
    if ltb a.year b.year
    then true
    else if a.year == b.year
    then (if ltb a.month b.month
        then true
        else if a.month == b.month
        then ltb a.day b.day
        else false)
    else false

civil_order :
    (a b : Civil) → IsCivil a → IsCivil b → civil_ltb a b ≡ ltb (day_number a) (day_number b)
civil_order a b va vb = ground (
  arith,
  by_year a b va,
  by_month a b va,
  by_day a b va,
  by_year b a vb,
  by_month b a vb,
  by_day b a vb,
  ap day_number,
)

text_ltb-write_date :
    (y m d y' m' d' : ℕ)
    → (y ≤ 9999) × (m < 100) × (d < 100)
    → (y' ≤ 9999) × (m' < 100) × (d' < 100)
    → text_ltb (write_date y m d) (write_date y' m' d')
      ≡ civil_ltb
          (record { year = era + y; month = m; day = d })
          (record { year = era + y'; month = m'; day = d' })
unfolding write_date
text_ltb-write_date y m d y' m' d' h h' =
    text_ltb-pad 4 y y' _ _ (omega arith) (omega arith)
    ∙ ap (λ (later : Bool). if ltb y y' then true else if y == y' then later else false)
        (dashed (pad 2 m ++ (b'-' ∷ pad 2 d)) (pad 2 m' ++ (b'-' ∷ pad 2 d'))
          ∙ text_ltb-pad 2 m m' _ _ (omega arith) (omega arith)
          ∙ ap (λ (later : Bool). if ltb m m' then true else if m == m' then later else false)
              (dashed (pad 2 d) (pad 2 d') ∙ last))
    ∙ shifted
  where
    dashed : (r s : Text) → text_ltb (b'-' ∷ r) (b'-' ∷ s) ≡ text_ltb r s
    dashed r s = unfold text_ltb in refl

    last : text_ltb (pad 2 d) (pad 2 d') ≡ ltb d d'
    last =
        ap (λ (t : Text). text_ltb t (pad 2 d')) (sym (append-nil (pad 2 d)))
        ∙ ap (λ (t : Text). text_ltb (pad 2 d ++ []) t) (sym (append-nil (pad 2 d')))
        ∙ text_ltb-pad 2 d d' [] [] (omega arith) (omega arith)
        ∙ ends
      where
        ends : (if ltb d d' then true else if d == d' then text_ltb [] [] else false) ≡ ltb d d'
        ends = unfold text_ltb in ground arith

    shifted :
        (if ltb y y'
          then true
          else if y == y'
          then (if ltb m m' then true else if m == m' then ltb d d' else false)
          else false)
        ≡ civil_ltb
            (record { year = era + y; month = m; day = d })
            (record { year = era + y'; month = m'; day = d' })
    shifted = ground arith

-- Of two business dates, the text of one is below that of the other just when its day is earlier.
pub text_ltb-IsBusinessDate :
    {s t : Text} (a : IsBusinessDate s) (b : IsBusinessDate t)
    → text_ltb s t ≡ ltb (the_day a) (the_day b)
text_ltb-IsBusinessDate {s} {t} a b =
    ap (λ (u : Text). text_ltb u t) a.written
    ∙ ap (text_ltb (write_date a.year a.month a.day)) b.written
    ∙ text_ltb-write_date a.year a.month a.day b.year b.month b.day (short a) (short b)
    ∙ civil_order (the_civil a) (the_civil b) a.civil b.civil
  where
    short : {u : Text} (c : IsBusinessDate u) → (c.year ≤ 9999) × (c.month < 100) × (c.day < 100)
    short c = omega (
      arith,
      c.year_in,
      c.civil.month_in,
      c.civil.day_in,
      month_length-le (is_leap (era + c.year)) c.month,
    )
