-- ===== src/Domain/Archive/Coverage.antt =====
-- The open week: the archived days from its Monday up to today, today excluded.
use dsh_liangxiang.Prelude.{
  ℕ, ◌≤◌, String, ◌≡◌, refl, sym, ap, inl, inr, Bool, true, not, ◌&&◌, Option, none, some, List, [],
  ◌∷◌, arith, Result, ok, err, ltb, leb, ◌==◌, Bool-cases, length, keep_where, All, subst, sum_by,
  All-keep_where, keep_where-eq,
}
use dsh_liangxiang.Domain.Calendar.{utc_day}
use dsh_liangxiang.Domain.Calendar.Text.{Text, text_leb}
use dsh_liangxiang.Domain.Case.{is_business_date, assert_business_date}
use dsh_liangxiang.Domain.Case.Dates.{IsBusinessDate, the_day, IsBusinessDate-is_business_date}
use dsh_liangxiang.Domain.Case.Order.{text_ltb-IsBusinessDate}
use dsh_liangxiang.Domain.Liangzi.{
  LiangziThresholdPolicy, liangzi_policy_for_version, default_liangzi_thresholds,
}
use dsh_liangxiang.Domain.Liangzi.Policies.{policy_for_version-valid}
use dsh_liangxiang.Domain.Archive.Periods.{
  ArchiveError, date_parts, Period, monday_of, iso_week_for,
}
use dsh_liangxiang.Domain.Archive.Shifts.{date_parts-eq, utc_day-the_day}
use dsh_liangxiang.Domain.Archive.Weeks.{IsWeek, iso_week_for-IsWeek}
use dsh_liangxiang.Domain.Archive.{
  LiangDayArchive, latest_day, version_of, archive_liangzi_policy_version, sort_days, week,
  TemporaryLiangPeriod, bounds_for, last_date, is_included, temporary_period, derive_temporary_week,
}
use dsh_liangxiang.Domain.Archive.Sums.{
  ups, downs, uniques, IsCounted, IsSafeSum, uniques-le, result_of, derive_archive_result-returns,
  sum_day_archives_lem,
}
use dsh_liangxiang.Domain.Archive.Sorting.{sum_by-sort_days, length-sort_days, All-sort_days}

-- The day that a text names, 0 if it names none.
abbrev pub day_of : Text → ℕ
day_of date = elim (date_parts date) [ ok (year, month, day) ↦ utc_day year month day | err _ ↦ 0 ]

pub day_of-the_day : {text : Text} (b : IsBusinessDate text) → day_of text ≡ the_day b
day_of-the_day b = rw (date_parts-eq b, day_of) (utc_day-the_day b)

-- A version that the program knows.
abbrev pub IsKnown : String → Type 0
IsKnown version =
    (policy : LiangziThresholdPolicy) × (liangzi_policy_for_version version ≡ ok policy)

-- A day as the archive writes it.
pub record IsSound (d : LiangDayArchive) : Type 0 where
  pub dated : IsBusinessDate d.business_date
  pub counted : IsCounted d
  pub known : IsKnown d.liangzi_policy_version

abbrev LatestIsKnown : Option LiangDayArchive → Type 0
LatestIsKnown none = Unit
LatestIsKnown (some d) = IsKnown d.liangzi_policy_version

latest_day-IsKnown :
    (days : List LiangDayArchive) (latest : Option LiangDayArchive)
    → All IsSound days
    → LatestIsKnown latest
    → LatestIsKnown (latest_day days latest)
unfolding latest_day
latest_day-IsKnown [] latest all known = known
latest_day-IsKnown (d ∷ days) none all known = latest_day-IsKnown days (some d) all.1 all.0.known
latest_day-IsKnown (d ∷ days) (some l) all known =
    elim (Bool-cases (text_leb l.business_date d.business_date)) [
      | inl later ↦ rw later (latest_day-IsKnown days (some d) all.1 all.0.known)
      | inr sooner ↦ rw sooner (latest_day-IsKnown days (some l) all.1 known)
    ]

archive_version-IsKnown :
    (days : List LiangDayArchive) → All IsSound days → IsKnown (archive_liangzi_policy_version days)
unfolding archive_liangzi_policy_version
archive_version-IsKnown days all =
    of_latest (latest_day days none) (latest_day-IsKnown days none all tt)
  where
    of_latest : (o : Option LiangDayArchive) → LatestIsKnown o → IsKnown (version_of o)
    of_latest none known = (default_liangzi_thresholds, unfold liangzi_policy_for_version in refl)
    of_latest (some d) known = known

module _ {today : Text} (b : IsBusinessDate today) where
  -- The days of the ISO week of today that come before today.
  abbrev pub is_covered : LiangDayArchive → Bool
  is_covered d =
      leb (monday_of (the_day b)) (day_of d.business_date)
      && ltb (day_of d.business_date) (the_day b)

  abbrev pub covered : List LiangDayArchive → List LiangDayArchive
  covered days = keep_where is_covered days

  bounds_agree :
      (w : IsWeek b (iso_week_for today)) (d : LiangDayArchive)
      → IsSound d
      → is_included w.bounds today d ≡ is_covered d
  bounds_agree w d s =
      rw
        (
          text_ltb-IsBusinessDate s.dated w.start,
          text_ltb-IsBusinessDate w.end s.dated,
          text_ltb-IsBusinessDate s.dated b,
          day_of-the_day s.dated,
        )
        (tests (the_day s.dated) (the_day b) (the_day w.start) (the_day w.end)
          (monday_of (the_day b)) (start_is w) w.til)
    where
      start_is : (w : IsWeek b (iso_week_for today)) → the_day w.start ≡ monday_of (the_day b)
      start_is w = ground (arith, w.from, w.til, w.seven, w.monday)

      tests :
          (d t s e m : ℕ)
          → s ≡ m
          → t ≤ e
          → (not (ltb d s) && (not (ltb e d) && ltb d t)) ≡ (leb m d && ltb d t)
      tests d t s e m same after = ground arith

  agree-All :
      (w : IsWeek b (iso_week_for today)) (days : List LiangDayArchive)
      → All IsSound days
      → All (λ d. is_included w.bounds today d ≡ is_covered d) days
  agree-All w [] all = tt
  agree-All w (d ∷ days) all = (bounds_agree w d all.0, agree-All w days all.1)

All-IsCounted : (days : List LiangDayArchive) → All IsSound days → All IsCounted days
All-IsCounted [] all = tt
All-IsCounted (d ∷ days) all = (all.0.counted, All-IsCounted days all.1)

IsSafeSum-sort_days : (days : List LiangDayArchive) → IsSafeSum days → IsSafeSum (sort_days days)
IsSafeSum-sort_days days safe = record {
  up_in = rw (sum_by-sort_days ups days) safe.up_in;
  down_in = rw (sum_by-sort_days downs days) safe.down_in;
  unique_in = rw (sum_by-sort_days uniques days) safe.unique_in;
}

-- What the open week's view says of the days that it covers.
pub record Covers (days : List LiangDayArchive) (r : Result ArchiveError TemporaryLiangPeriod)
    : Type 0 where
  pub view : TemporaryLiangPeriod
  pub returns : r ≡ ok view
  pub number : view.covered_days ≡ length days
  pub up_is : view.result.up_votes ≡ sum_by ups days
  pub down_is : view.result.down_votes ≡ sum_by downs days
  pub unique_is : view.result.unique_voters ≡ sum_by uniques days
  pub waits : view.is_waiting ≡ (length days == 0)

-- The body of `temporary_period` after its bounds, on days that are sound.
sorted-Covers :
    (today : Text) (bounds : Period) (days : List LiangDayArchive)
    → is_business_date today ≡ true
    → iso_week_for today ≡ ok bounds
    → let found = keep_where (is_included bounds today) days in
      All IsSound found → IsSafeSum found → Covers found (derive_temporary_week today days none)
sorted-Covers today bounds days dated week_is sound safe =
    let found = keep_where (is_included bounds today) days in
    let included = sort_days found in
    let safe' = IsSafeSum-sort_days found safe in
    let sound' = All-sort_days IsSound found sound in
    let (s, summed) = sum_day_archives_lem included (All-IsCounted included sound') safe' in
    let (policy, known) = archive_version-IsKnown included sound' in
    let (s', again) =
      derive_archive_result-returns (sum_by ups included) (sum_by downs included)
        (sum_by uniques included) (some policy) (policy_for_version-valid _ policy known)
        safe'.up_in safe'.down_in safe'.unique_in
        (uniques-le included (All-IsCounted included sound')) in
    record {
      view = record {
        kind = week;
        liangzi_policy_version = archive_liangzi_policy_version included;
        period = bounds;
        through_date = last_date included;
        covered_days = length included;
        is_waiting = length included == 0;
        result =
            result_of (sum_by ups included) (sum_by downs included) (sum_by uniques included) s';
      };
      returns =
          unfold derive_temporary_week in
          unfold temporary_period in
          unfold assert_business_date in
          unfold bounds_for in rw (dated, week_is, summed, known, again) refl;
      number = length-sort_days found;
      up_is = sum_by-sort_days ups found;
      down_is = sum_by-sort_days downs found;
      unique_is = sum_by-sort_days uniques found;
      waits = ap (λ (n : ℕ). n == 0) (length-sort_days found);
    }

-- For a today of the years 101 to 9998, an archive of sound days and safe sums of those that are
-- covered, the view of the open week is derived: with no count of unique voters given, its number
-- of days and its up, down and unique counts are those of the days from this week's Monday up to
-- today, today excluded, added up, and it is waiting just when there is no such day.
pub derive_temporary_week-Covers :
    {today : Text} (b : IsBusinessDate today) (days : List LiangDayArchive)
    → 101 ≤ b.year
    → b.year ≤ 9998
    → All IsSound days
    → IsSafeSum (covered b days)
    → Covers (covered b days) (derive_temporary_week today days none)
derive_temporary_week-Covers {today} b days low high sound safe =
    let w = iso_week_for-IsWeek b low high in
    let same =
      keep_where-eq (is_included w.bounds today) (is_covered b) days (agree-All b w days sound) in
    subst (λ found. Covers found (derive_temporary_week today days none)) same
      (sorted-Covers today w.bounds days (IsBusinessDate-is_business_date today b) w.returns
        (All-keep_where IsSound (is_included w.bounds today) days sound)
        (subst IsSafeSum (sym same) safe))
