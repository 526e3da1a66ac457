-- ===== src/Domain/Case/Examples.antt =====
-- src/domain/case.ts on dates.
use dsh_liangxiang.Prelude.{◌+◌, ◌≡◌, refl, true, false, some, [], ◌∷◌, arith, nat, err}
use dsh_liangxiang.Domain.Calendar.{era, is_leap, month_start, civil_of, utc_day}
use dsh_liangxiang.Domain.Calendar.Days.{IsCivil}
use dsh_liangxiang.Domain.Calendar.Text.{pad, read_digits, read_date, write_date}
use dsh_liangxiang.Domain.Errors.{invalid_business_date}
use dsh_liangxiang.Domain.Case.{is_business_date, DailyLiangCase, active, assert_valid_case}
use dsh_liangxiang.Domain.Case.Dates.{IsBusinessDate, is_business_date_lem}

leap_day : is_business_date (write_date 2024 2 29) ≡ true
unfolding is_business_date write_date pad read_date read_digits civil_of utc_day
leap_day = refl

no_leap_day : is_business_date (write_date 2026 2 29) ≡ false
unfolding is_business_date write_date pad read_date read_digits civil_of utc_day
no_leap_day = refl

no_month : is_business_date (write_date 2026 0 10) ≡ false
unfolding is_business_date write_date pad read_date read_digits civil_of utc_day
no_month = refl

early : is_business_date (write_date 99 1 1) ≡ false
unfolding is_business_date write_date pad read_date read_digits civil_of utc_day
early = refl

late-IsCivil : IsCivil (record { year = era + 2024; month = 12; day = 31 })
unfolding is_leap month_start
late-IsCivil = record { month_in = omega arith; day_in = omega arith }

early-IsCivil : IsCivil (record { year = era + 2026; month = 1; day = 4 })
unfolding is_leap month_start
early-IsCivil = record { month_in = omega arith; day_in = omega arith }

abbrev late : IsBusinessDate (write_date 2024 12 31)
late = record {
  year = 2024;
  month = 12;
  day = 31;
  year_in = omega arith;
  civil = late-IsCivil;
  written = refl;
}

abbrev later : IsBusinessDate (write_date 2026 1 4)
later = record {
  year = 2026;
  month = 1;
  day = 4;
  year_in = omega arith;
  civil = early-IsCivil;
  written = refl;
}

abbrev a_case : DailyLiangCase
a_case = record {
  id = some (b'c' ∷ []);
  business_date = write_date 2024 2 30;
  title = some (b't' ∷ []);
  status = some active;
  token_per_incense = nat 50000;
}

wrong_date : assert_valid_case a_case ≡ err invalid_business_date
unfolding assert_valid_case is_business_date write_date pad read_date read_digits civil_of utc_day
wrong_date = refl

is_business_date_lem_example :
    (is_business_date (write_date 2024 12 31) ≡ true → IsBusinessDate (write_date 2024 12 31))
    × (IsBusinessDate (write_date 2024 12 31) → is_business_date (write_date 2024 12 31) ≡ true)
is_business_date_lem_example = is_business_date_lem (write_date 2024 12 31)
