-- ===== src/Domain/Archive/Examples.antt =====
-- src/domain/archive.ts on the days around a turn of the year.
use dsh_liangxiang.Prelude.{
  ℕ, ◌+◌, ◌≡◌, refl, sym, Option, none, [], ◌∷◌, ◌++◌, arith, nat, ok, ◌>>=◌, subst,
}
use dsh_liangxiang.Domain.Calendar.{era, is_leap, month_start, civil_of, day_number, utc_day}
use dsh_liangxiang.Domain.Calendar.Days.{IsCivil}
use dsh_liangxiang.Domain.Calendar.Text.{pad, read_digits, read_date, write_date}
use dsh_liangxiang.Domain.Liangzi.{
  LiangziState, liangzi_policy_version, liangzi_policy_for_version, default_liangzi_thresholds,
}
use dsh_liangxiang.Domain.Case.{is_business_date}
use dsh_liangxiang.Domain.Case.Dates.{IsBusinessDate, the_day}
use dsh_liangxiang.Domain.Archive.Periods.{
  ahead, back, add_business_days, date_parts, date_from_utc, iso_week_for, month_for, week_id,
  week_text, decimal,
}
use dsh_liangxiang.Domain.Archive.Shifts.{IsDated, add_business_days-add_business_days}
use dsh_liangxiang.Domain.Archive.Weeks.{IsWeek, iso_week_for-IsWeek}
use dsh_liangxiang.Domain.Archive.{LiangDayArchive, sum_day_archives, derive_temporary_week}
use dsh_liangxiang.Domain.Archive.Sums.{IsCounted, IsSafeSum, result_of, sum_day_archives_lem}
use dsh_liangxiang.Domain.Archive.Coverage.{
  IsSound, covered, day_of-the_day, Covers, derive_temporary_week-Covers,
}

-- 2024-12-31 lies in the first week of 2025.
week_of_new_year :
    iso_week_for (write_date 2024 12 31)
    ≡ ok (record {
      id = pad 4 2025 ++ (b'-' ∷ (b'W' ∷ pad 2 1));
      start_date = write_date 2024 12 30;
      end_date = write_date 2025 1 5;
    })
unfolding iso_week_for is_business_date write_date pad read_date read_digits civil_of utc_day
    date_parts date_from_utc week_id week_text decimal
week_of_new_year = refl

february :
    month_for (write_date 2024 2 10)
    ≡ ok (record {
      id = pad 4 2024 ++ (b'-' ∷ pad 2 2);
      start_date = write_date 2024 2 1;
      end_date = write_date 2024 2 29;
    })
unfolding month_for is_business_date write_date pad read_date read_digits civil_of utc_day
    date_parts date_from_utc
february = refl

yesterday : add_business_days (write_date 2024 3 1) (back 1) ≡ ok (write_date 2024 2 29)
unfolding add_business_days is_business_date write_date pad read_date read_digits civil_of utc_day
    date_parts date_from_utc
yesterday = refl

IsCivil-31 : IsCivil (record { year = era + 2024; month = 12; day = 31 })
unfolding is_leap month_start
IsCivil-31 = record { month_in = omega arith; day_in = omega arith }

IsCivil-30 : IsCivil (record { year = era + 2024; month = 12; day = 30 })
unfolding is_leap month_start
IsCivil-30 = record { month_in = omega arith; day_in = omega arith }

abbrev today : IsBusinessDate (write_date 2024 12 31)
today = record {
  year = 2024;
  month = 12;
  day = 31;
  year_in = omega arith;
  civil = IsCivil-31;
  written = refl;
}

abbrev monday : IsBusinessDate (write_date 2024 12 30)
monday = record {
  year = 2024;
  month = 12;
  day = 30;
  year_in = omega arith;
  civil = IsCivil-30;
  written = refl;
}

abbrev a_day : LiangDayArchive
a_day = record {
  business_date = write_date 2024 12 30;
  up_votes = nat 7;
  down_votes = nat 3;
  unique_voters = nat 4;
  case_count = 1;
  case_titles = [];
  finalized_at = 0;
  archive_version = 1;
  aggregation_policy_version = "liang-archive-v1-weighted-counts";
  liangzi_policy_version = liangzi_policy_version;
}

a_day-IsCounted : IsCounted a_day
a_day-IsCounted = record { up_is = refl; down_is = refl; unique_is = refl; unique_in = omega arith }

a_day-IsSafeSum : IsSafeSum (a_day ∷ [])
a_day-IsSafeSum = record { up_in = omega arith; down_in = omega arith; unique_in = omega arith }

a_day-IsSound : IsSound a_day
unfolding liangzi_policy_for_version
a_day-IsSound = record {
  dated = monday;
  counted = a_day-IsCounted;
  known = (default_liangzi_thresholds, refl);
}

-- The Monday is covered on the Tuesday.
covered_monday : covered today (a_day ∷ []) ≡ a_day ∷ []
covered_monday =
    rw (day_of-the_day monday) (unfold day_number in unfold is_leap in unfold month_start in refl)

covered_safe : IsSafeSum (covered today (a_day ∷ []))
covered_safe = subst IsSafeSum (sym covered_monday) a_day-IsSafeSum

today_in : IsDated (the_day today + 40)
unfolding day_number is_leap month_start
today_in = omega arith

add_business_days-add_business_days_example :
    (add_business_days (write_date 2024 12 31) (ahead 40) >>= λ later.
    add_business_days later (back 40))
    ≡ ok (write_date 2024 12 31)
add_business_days-add_business_days_example = add_business_days-add_business_days today 40 today_in

iso_week_for-IsWeek_example : IsWeek today (iso_week_for (write_date 2024 12 31))
iso_week_for-IsWeek_example = iso_week_for-IsWeek today (omega arith) (omega arith)

-- 2025-01-02
abbrev a_thursday : ℕ
a_thursday = 100085578

sum_day_archives_lem_example :
    (s : Option LiangziState) × (sum_day_archives (a_day ∷ []) ≡ ok (result_of 7 3 4 s))
sum_day_archives_lem_example =
    sum_day_archives_lem (a_day ∷ []) (a_day-IsCounted, tt) a_day-IsSafeSum

derive_temporary_week-Covers_example :
    Covers
      (covered today (a_day ∷ []))
      (derive_temporary_week (write_date 2024 12 31) (a_day ∷ []) none)
derive_temporary_week-Covers_example =
    derive_temporary_week-Covers today (a_day ∷ []) (omega arith) (omega arith) (a_day-IsSound, tt)
      covered_safe
