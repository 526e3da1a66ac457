-- ===== src/Shared/BusinessDate/Examples.antt =====
-- A calendar of two dates.
use dsh_liangxiang.Prelude.{ℕ, ◌+◌, ◌≤◌, ◌<◌, String, ◌≡◌, ◌≢◌, arith, eq_iff, ltb, if◌then◌else◌}
use dsh_liangxiang.Shared.BusinessDate.{two_days, business_day_ends_at}
use dsh_liangxiang.Shared.BusinessDate.Ends.{IsCalendar, business_day_ends_at_lem}

-- The second date starts a day and an hour after the first instant, as where clocks go back.
abbrev long_day : ℕ → String
long_day t = if ltb t 90000000 then "2026-10-25" else "2026-10-26"

apart : ◌≢◌ {A = String} "2026-10-26" "2026-10-25"
apart = ground (arith, eq_iff "2026-10-26" "2026-10-25")

long_day-IsCalendar : IsCalendar long_day
long_day-IsCalendar t u v below above same = ground (arith, apart)

long_day_over : long_day (1000 + two_days) ≢ long_day 1000
long_day_over = apart

business_day_ends_at_lem_example :
    let e = business_day_ends_at long_day 1000 in
    (1000 < e)
    × (e ≤ 1000 + two_days)
    × ((t : ℕ) → 1000 ≤ t → t < e → long_day t ≡ long_day 1000)
    × ((t : ℕ) → e ≤ t → long_day t ≢ long_day 1000)
business_day_ends_at_lem_example =
    business_day_ends_at_lem long_day 1000 long_day-IsCalendar long_day_over
