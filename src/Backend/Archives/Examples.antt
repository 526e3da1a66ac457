-- ===== src/Backend/Archives/Examples.antt =====
-- A rollover with one day behind it.
use dsh_liangxiang.Prelude.{ℕ, String, ◌≡◌, refl, [], ◌∷◌, ok}
use dsh_liangxiang.Domain.Calendar.{civil_of, utc_day}
use dsh_liangxiang.Domain.Calendar.Text.{
  Text, pad, read_digits, read_date, write_date, text_ltb, text_eq,
}
use dsh_liangxiang.Domain.Case.{is_business_date}
use dsh_liangxiang.Domain.Archive.Periods.{
  add_business_days, date_parts, date_from_utc, iso_week_for, month_for, week_id, week_text,
  decimal,
}
use dsh_liangxiang.Backend.Archives.{
  ArchiveCase, CastVote, DayArchiveRow, ArchiveDb, add_date, unarchived_dates, count_voters,
  count_unique_voters, archive_day, archive_days, insert_day_row, day_archives, pending_periods,
  archived_periods, write_archives, finalize_archives, open_period_unique_voters,
}
use dsh_liangxiang.Backend.Archives.Days.{IsFinalized, finalize_archives-IsFinalized}

abbrev monday : Text
monday = write_date 2026 11 23

abbrev tuesday : Text
tuesday = write_date 2026 11 24

abbrev a_case : Text → ℕ → ℕ → ArchiveCase
a_case date ups downs = record {
  business_date = date;
  title = b't' ∷ [];
  liangzi_policy_version = "liangzi-v0.2-25-50-70-85-95";
  up_votes = ups;
  down_votes = downs;
}

abbrev vote : String → CastVote
vote id = record { installation_id = id; business_date = monday }

abbrev db : ArchiveDb
db = record {
  cases = a_case monday 3 1 ∷ (a_case monday 2 0 ∷ (a_case tuesday 5 5 ∷ []));
  votes = vote "a" ∷ (vote "b" ∷ (vote "a" ∷ []));
  archive_version = 4;
  days = [];
  weeks = [];
  months = [];
}

abbrev monday_row : DayArchiveRow
monday_row = record {
  business_date = monday;
  case_titles = (b't' ∷ []) ∷ ((b't' ∷ []) ∷ []);
  up_votes = 5;
  down_votes = 1;
  unique_voters = 2;
  finalized_at = 77;
  archive_version = 5;
  liangzi_policy_version = "liangzi-v0.2-25-50-70-85-95";
}

abbrev archived : ArchiveDb
archived = record db { archive_version = 5; days = monday_row ∷ [] }

rollover : finalize_archives db tuesday 77 ≡ ok archived
unfolding finalize_archives unarchived_dates add_date pending_periods write_archives archive_days
    archive_day archived_periods day_archives insert_day_row count_unique_voters count_voters
    text_ltb text_eq iso_week_for month_for date_parts date_from_utc week_id week_text decimal
    is_business_date write_date pad read_date read_digits civil_of utc_day
rollover = refl

again : finalize_archives archived tuesday 88 ≡ ok archived
unfolding finalize_archives unarchived_dates add_date pending_periods write_archives archive_days
    archive_day archived_periods day_archives insert_day_row count_unique_voters count_voters
    text_ltb text_eq iso_week_for month_for date_parts date_from_utc week_id week_text decimal
    is_business_date write_date pad read_date read_digits civil_of utc_day
again = refl

open_week : open_period_unique_voters iso_week_for db tuesday ≡ ok 2
unfolding open_period_unique_voters add_business_days count_unique_voters count_voters text_ltb
    iso_week_for date_parts date_from_utc week_id week_text decimal is_business_date write_date pad
    read_date read_digits civil_of utc_day
open_week = refl

finalize_archives-IsFinalized_example : IsFinalized db tuesday 77 archived
finalize_archives-IsFinalized_example =
    finalize_archives-IsFinalized db tuesday 77 archived rollover
