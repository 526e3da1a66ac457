-- ===== src/Domain/Archive.antt =====
-- src/domain/archive.ts. `totalIncense` is exact while the two counts add up to a safe integer.
pub mod Periods
pub mod Shifts
pub mod Weeks
pub mod Sums
pub mod Sorting
pub mod Coverage
mod Examples
use dsh_liangxiang.Prelude.{
  ℕ, ◌+◌, ◌-◌, ◌/◌, max, String, Bool, not, ◌&&◌, Option, none, some, List, [], ◌∷◌, Number, nat,
  is_safe, Result, ok, err, ◌>>=◌, ◌>>◌, guard, leb, ◌==◌, if◌then◌else◌, length, keep_where,
}
use dsh_liangxiang.Domain.Errors.{DomainErrorCode, assert_count, invalid_vote_count}
use dsh_liangxiang.Domain.Calendar.Text.{Text, text_ltb, text_leb}
use dsh_liangxiang.Domain.Case.{assert_business_date}
use dsh_liangxiang.Domain.Liangzi.{
  Ratio, LiangziState, LiangziThresholdPolicy, default_liangzi_thresholds, liangzi_policy_version,
  liangzi_policy_for_version, derive_liangzi_state,
}
use dsh_liangxiang.Domain.Archive.Periods.{ArchiveError, domain, Period, iso_week_for, month_for}

pub record LiangArchiveResult : Type 0 where
  pub up_votes : ℕ
  pub down_votes : ℕ
  pub unique_voters : ℕ
  pub total_incense : ℕ
  pub up_ratio : Option Ratio
  pub down_ratio : Option Ratio
  pub liangzi_state : Option LiangziState

pub record LiangDayArchive : Type 0 where
  pub business_date : Text
  pub up_votes : Number
  pub down_votes : Number
  pub unique_voters : Number
  pub case_count : ℕ
  pub case_titles : List Text
  pub finalized_at : ℕ
  pub archive_version : ℕ
  pub aggregation_policy_version : String
  pub liangzi_policy_version : String

-- An error of the other domain parts, thrown on.
abbrev pub lift {ℓ} : {A : Type ℓ} → Result DomainErrorCode A → Result ArchiveError A
lift (ok value) = ok value
lift (err code) = err (domain code)

-- The default of the parameter `policy`.
abbrev pub policy_or_default : Option LiangziThresholdPolicy → LiangziThresholdPolicy
policy_or_default none = default_liangzi_thresholds
policy_or_default (some policy) = policy

abbrev pub share : ℕ → ℕ → Option Ratio
share votes all = if all == 0 then none else some (record { num = votes; den = all })

unfoldable pub derive_archive_result :
    Number
    → Number
    → Number
    → Option LiangziThresholdPolicy
    → Result DomainErrorCode LiangArchiveResult
derive_archive_result up_votes down_votes unique_voters policy = do
  up ← assert_count up_votes invalid_vote_count
  down ← assert_count down_votes invalid_vote_count
  unique ← assert_count unique_voters invalid_vote_count
  guard (leb unique (up + down)) invalid_vote_count
  s ← derive_liangzi_state up_votes down_votes (policy_or_default policy)
  ok (record {
    up_votes = up;
    down_votes = down;
    unique_voters = unique;
    total_incense = up + down;
    up_ratio = share up (up + down);
    down_ratio = share down (up + down);
    liangzi_state = s;
  })

pub record RunningSums : Type 0 where
  pub up_votes : ℕ
  pub down_votes : ℕ
  pub unique_voters : ℕ

abbrev pub zero_sums : RunningSums
zero_sums = record { up_votes = 0; down_votes = 0; unique_voters = 0 }

-- One round of the loop.
unfoldable pub add_day : LiangDayArchive → RunningSums → Result DomainErrorCode RunningSums
add_day d s = do
  up ← assert_count d.up_votes invalid_vote_count
  down ← assert_count d.down_votes invalid_vote_count
  unique ← assert_count d.unique_voters invalid_vote_count
  guard
      (is_safe (s.up_votes + up)
        && (is_safe (s.down_votes + down) && is_safe (s.unique_voters + unique)))
      invalid_vote_count
  ok (record {
    up_votes = s.up_votes + up;
    down_votes = s.down_votes + down;
    unique_voters = s.unique_voters + unique;
  })

unfoldable pub add_days : List LiangDayArchive → RunningSums → Result DomainErrorCode RunningSums
unfolding add_day
add_days [] s = ok s
add_days (d ∷ days) s = do s' ← add_day d s; add_days days s'

unfoldable pub sum_day_archives : List LiangDayArchive → Result DomainErrorCode LiangArchiveResult
unfolding add_days derive_archive_result
sum_day_archives days = do
  s ← add_days days zero_sums
  derive_archive_result (nat s.up_votes) (nat s.down_votes) (nat s.unique_voters) none

-- `days.reduce`, from the day that is the latest so far.
unfoldable pub latest_day : List LiangDayArchive → Option LiangDayArchive → Option LiangDayArchive
latest_day [] latest = latest
latest_day (d ∷ days) latest = latest_day days (elim latest [
  | none ↦ some d
  | some l ↦ if text_leb l.business_date d.business_date then some d else some l
])

abbrev pub version_of : Option LiangDayArchive → String
version_of none = liangzi_policy_version
version_of (some d) = d.liangzi_policy_version

unfoldable pub archive_liangzi_policy_version : List LiangDayArchive → String
unfolding latest_day
archive_liangzi_policy_version days = version_of (latest_day days none)

unfoldable pub max_day_unique_voters : List ℕ → ℕ → ℕ
max_day_unique_voters [] most = most
max_day_unique_voters (unique_voters ∷ rest) most =
    max_day_unique_voters rest (max most unique_voters)

-- Array.sort by date, which is stable. On texts of digits and dashes localeCompare is the order of the codes.
unfoldable pub insert_day : LiangDayArchive → List LiangDayArchive → List LiangDayArchive
insert_day d [] = d ∷ []
insert_day d (e ∷ days) =
    let further = e ∷ insert_day d days in
    if text_ltb e.business_date d.business_date then further else d ∷ (e ∷ days)

unfoldable pub sort_days : List LiangDayArchive → List LiangDayArchive
unfolding insert_day
sort_days [] = []
sort_days (d ∷ days) = insert_day d (sort_days days)

pub data PeriodKind : Type 0 where
  week month : PeriodKind

pub record TemporaryLiangPeriod : Type 0 where
  pub kind : PeriodKind
  pub liangzi_policy_version : String
  pub period : Period
  pub through_date : Option Text
  pub covered_days : ℕ
  -- status 'waiting', where it is not 'temporary'
  pub is_waiting : Bool
  pub result : LiangArchiveResult

unfoldable pub bounds_for : PeriodKind → Text → Result ArchiveError Period
unfolding iso_week_for month_for
bounds_for week date = iso_week_for date
bounds_for month date = month_for date

abbrev pub is_included : Period → Text → LiangDayArchive → Bool
is_included bounds today d =
    text_leb bounds.start_date d.business_date
    && (text_leb d.business_date bounds.end_date && text_ltb d.business_date today)

-- `included.at(-1)?.businessDate`
abbrev pub last_date : List LiangDayArchive → Option Text
last_date [] = none
last_date (d ∷ []) = some d.business_date
last_date (d ∷ (e ∷ days)) = last_date (e ∷ days)

abbrev pub unique_or : Option Number → ℕ → Number
unique_or none summed = nat summed
unique_or (some n) summed = n

unfoldable pub temporary_period :
    PeriodKind
    → Text
    → List LiangDayArchive
    → Option Number
    → Result ArchiveError TemporaryLiangPeriod
unfolding bounds_for sort_days sum_day_archives archive_liangzi_policy_version assert_business_date
temporary_period kind today days unique_voters = do
  lift (assert_business_date today)
  bounds ← bounds_for kind today
  let included = sort_days (keep_where (is_included bounds today) days)
  summed ← lift (sum_day_archives included)
  let version = archive_liangzi_policy_version included
  policy ← lift (liangzi_policy_for_version version)
  result ← lift (
      derive_archive_result (nat summed.up_votes) (nat summed.down_votes)
        (unique_or unique_voters summed.unique_voters) (some policy))
  ok (record {
    kind = kind;
    liangzi_policy_version = version;
    period = bounds;
    through_date = last_date included;
    covered_days = length included;
    is_waiting = length included == 0;
    result = result;
  })

unfoldable pub derive_temporary_week :
    Text → List LiangDayArchive → Option Number → Result ArchiveError TemporaryLiangPeriod
unfolding temporary_period
derive_temporary_week today days unique_voters = temporary_period week today days unique_voters

unfoldable pub derive_temporary_month :
    Text → List LiangDayArchive → Option Number → Result ArchiveError TemporaryLiangPeriod
unfolding temporary_period
derive_temporary_month today days unique_voters = temporary_period month today days unique_voters
