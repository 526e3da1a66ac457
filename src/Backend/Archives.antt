-- ===== src/Backend/Archives.antt =====
-- The archives of src/backend/service.ts, `finalizeArchivesInTransaction` and `openPeriodUniqueVoters`, with their
-- statements in src/backend/store.ts. A case stands with the counts of its statistics, in the order in which
-- the cases were opened. The primary keys refuse no row: a date or an id is inserted only where the
-- transaction has found none, and once.
pub mod Voters
pub mod Dates
pub mod DayRows
pub mod Days
mod Examples
use dsh_liangxiang.Prelude.{
  ℕ, ◌+◌, ◌-◌, ◌/◌, String, Bool, true, false, not, ◌&&◌, none, List, [], ◌∷◌, ◌++◌, map, str_eq,
  Result, ok, if◌then◌else◌, ◌>>=◌, ◌>>◌, length, find, update_where, keep_where, is_some, sum_by,
}
use dsh_liangxiang.Domain.Calendar.Text.{Text, text_ltb, text_leb, text_eq}
use dsh_liangxiang.Domain.Archive.Periods.{
  ArchiveError, back, add_business_days, Period, iso_week_for, month_for,
}

pub record ArchiveCase : Type 0 where
  pub business_date : Text
  pub title : Text
  pub liangzi_policy_version : String
  pub up_votes : ℕ
  pub down_votes : ℕ

pub record CastVote : Type 0 where
  pub installation_id : String
  pub business_date : Text

pub record DayArchiveRow : Type 0 where
  pub business_date : Text
  pub case_titles : List Text
  pub up_votes : ℕ
  pub down_votes : ℕ
  pub unique_voters : ℕ
  pub finalized_at : ℕ
  pub archive_version : ℕ
  pub liangzi_policy_version : String

-- A row of the weeks or of the months.
pub record PeriodArchiveRow : Type 0 where
  pub period : Period
  pub covered_days : ℕ
  pub up_votes : ℕ
  pub down_votes : ℕ
  pub unique_voters : ℕ
  pub finalized_at : ℕ
  pub archive_version : ℕ
  pub liangzi_policy_version : String

pub record ArchiveDb : Type 0 where
  pub cases : List ArchiveCase
  pub votes : List CastVote
  pub archive_version : ℕ
  pub days : List DayArchiveRow
  pub weeks : List PeriodArchiveRow
  pub months : List PeriodArchiveRow

abbrev pub is_day : Text → DayArchiveRow → Bool
is_day date r = text_eq r.business_date date

abbrev pub is_case_of : Text → ArchiveCase → Bool
is_case_of date c = text_eq c.business_date date

-- A date put into an ordered list of distinct dates.
unfoldable pub add_date : Text → List Text → List Text
add_date date [] = date ∷ []
add_date date (d ∷ dates) =
    let further = d ∷ add_date date dates in
    if text_ltb date d then date ∷ (d ∷ dates) else if text_eq date d then d ∷ dates else further

-- SELECT DISTINCT business_date ... ORDER BY business_date, of the cases before today with no day archived
unfoldable pub unarchived_dates : List ArchiveCase → List DayArchiveRow → Text → List Text
unfolding add_date
unarchived_dates [] days today = []
unarchived_dates (c ∷ cases) days today =
    let others = unarchived_dates cases days today in
    if text_ltb c.business_date today && not (is_some (find (is_day c.business_date) days))
    then add_date c.business_date others
    else others

abbrev pub is_voter : String → CastVote → Bool
is_voter id v = str_eq v.installation_id id

-- COUNT(DISTINCT installation_id)
unfoldable pub count_voters : List CastVote → ℕ
count_voters [] = 0
count_voters (v ∷ votes) =
    let others = count_voters votes in
    if is_some (find (is_voter v.installation_id) votes) then others else others + 1

unfoldable pub count_unique_voters : ArchiveDb → Text → Text → ℕ
unfolding count_voters
count_unique_voters db start_date end_date = count_voters (
    keep_where (λ v. text_leb start_date v.business_date && text_leb v.business_date end_date)
      db.votes)

-- rows.at(-1)!.liangzi_policy_version
abbrev pub last_version : String → List ArchiveCase → String
last_version version [] = version
last_version version (c ∷ cases) = last_version c.liangzi_policy_version cases

abbrev pub day_row : ArchiveDb → Text → ℕ → ArchiveCase → List ArchiveCase → DayArchiveRow
day_row db date now c cases = record {
  business_date = date;
  case_titles = map (λ (k : ArchiveCase). k.title) (c ∷ cases);
  up_votes = sum_by (λ (k : ArchiveCase). k.up_votes) (c ∷ cases);
  down_votes = sum_by (λ (k : ArchiveCase). k.down_votes) (c ∷ cases);
  unique_voters = count_unique_voters db date date;
  finalized_at = now;
  archive_version = db.archive_version;
  liangzi_policy_version = last_version c.liangzi_policy_version cases;
}

-- One round of the loop over the pending dates.
abbrev pub archive_source : ArchiveDb → Text → ℕ → List ArchiveCase → List DayArchiveRow
archive_source db date now [] = []
archive_source db date now (c ∷ cases) = day_row db date now c cases ∷ []

unfoldable pub archive_day : ArchiveDb → Text → ℕ → ArchiveDb
archive_day db date now = record db {
  days = db.days ++ archive_source db date now (keep_where (is_case_of date) db.cases);
}

unfoldable pub archive_days : ArchiveDb → List Text → ℕ → ArchiveDb
archive_days db [] now = db
archive_days db (date ∷ dates) now = archive_days (archive_day db date now) dates now

-- ORDER BY business_date
unfoldable pub insert_day_row : DayArchiveRow → List DayArchiveRow → List DayArchiveRow
insert_day_row r [] = r ∷ []
insert_day_row r (d ∷ days) =
    let further = d ∷ insert_day_row r days in
    if text_ltb d.business_date r.business_date then further else r ∷ (d ∷ days)

unfoldable pub day_archives : List DayArchiveRow → List DayArchiveRow
unfolding insert_day_row
day_archives [] = []
day_archives (r ∷ days) = insert_day_row r (day_archives days)

abbrev pub is_period : Text → Period → Bool
is_period id p = text_eq p.id id

abbrev pub has_period : Text → PeriodArchiveRow → Bool
has_period id r = text_eq r.period.id id

-- Map.set
abbrev pub set_period : List Period → Period → List Period
set_period pending p =
    if is_some (find (is_period p.id) pending)
    then update_where (is_period p.id) (λ _. p) pending
    else pending ++ p ∷ []

-- The period has ended and is not archived.
abbrev pub is_due : Text → List PeriodArchiveRow → Period → Bool
is_due today rows p = text_ltb p.end_date today && not (is_some (find (has_period p.id) rows))

abbrev pub note_period : Text → List PeriodArchiveRow → List Period → Period → List Period
note_period today rows pending p = if is_due today rows p then set_period pending p else pending

-- The loop over the candidate dates, for one kind of period.
unfoldable pub pending_periods :
    (Text → Result ArchiveError Period)
    → Text
    → List PeriodArchiveRow
    → List Text
    → List Period
    → Result ArchiveError (List Period)
pending_periods period_for today rows [] pending = ok pending
pending_periods period_for today rows (date ∷ dates) pending = do
  p ← period_for date
  pending_periods period_for today rows dates (note_period today rows pending p)

-- days.at(-1)!.liangzi_policy_version
abbrev pub last_day_version : String → List DayArchiveRow → String
last_day_version version [] = version
last_day_version version (d ∷ days) = last_day_version d.liangzi_policy_version days

abbrev pub period_rows : ArchiveDb → ℕ → Period → List DayArchiveRow → List PeriodArchiveRow
period_rows db now p [] = []
period_rows db now p (d ∷ days) =
    record {
      period = p;
      covered_days = length (d ∷ days);
      up_votes = sum_by (λ (r : DayArchiveRow). r.up_votes) (d ∷ days);
      down_votes = sum_by (λ (r : DayArchiveRow). r.down_votes) (d ∷ days);
      unique_voters = count_unique_voters db p.start_date p.end_date;
      finalized_at = now;
      archive_version = db.archive_version;
      liangzi_policy_version = last_day_version d.liangzi_policy_version days;
    }
    ∷ []

abbrev pub lies_in : Period → DayArchiveRow → Bool
lies_in p r = text_leb p.start_date r.business_date && text_leb r.business_date p.end_date

-- The rows that the loop over the pending periods inserts.
unfoldable pub archived_periods : ArchiveDb → ℕ → List Period → List PeriodArchiveRow
unfolding day_archives
archived_periods db now [] = []
archived_periods db now (p ∷ pending) =
    period_rows db now p (keep_where (lies_in p) (day_archives db.days))
    ++ archived_periods db now pending

abbrev pub is_empty {ℓ} : {A : Type ℓ} → List A → Bool
is_empty [] = true
is_empty (x ∷ xs) = false

-- The rows are written after everything pending is known.
unfoldable pub write_archives : ArchiveDb → ℕ → List Text → List Period → List Period → ArchiveDb
unfolding archive_days archived_periods
write_archives db now dates weeks months =
    if is_empty dates && (is_empty weeks && is_empty months)
    then db
    else let bumped =
        archive_days (record db { archive_version = db.archive_version + 1 }) dates now in
      record bumped {
        weeks = bumped.weeks ++ archived_periods bumped now weeks;
        months = bumped.months ++ archived_periods bumped now months;
      }

-- A week and a month are found for a date before the next date is looked at; the first that fails
-- is an error of the whole either way.
unfoldable pub finalize_archives : ArchiveDb → Text → ℕ → Result ArchiveError ArchiveDb
unfolding unarchived_dates pending_periods write_archives day_archives
finalize_archives db today now = do
  let pending = unarchived_dates db.cases db.days today
  let candidates = map (λ (r : DayArchiveRow). r.business_date) (day_archives db.days) ++ pending
  weeks ← pending_periods iso_week_for today db.weeks candidates []
  months ← pending_periods month_for today db.months candidates []
  ok (write_archives db now pending weeks months)

-- Where the week or month is open, the voters from its start up to yesterday.
unfoldable pub open_period_unique_voters :
    (Text → Result ArchiveError Period) → ArchiveDb → Text → Result ArchiveError ℕ
unfolding count_unique_voters
open_period_unique_voters period_for db today = do
  bounds ← period_for today
  yesterday ← add_business_days today (back 1)
  ok (
      if text_ltb yesterday bounds.start_date
      then 0
      else count_unique_voters db bounds.start_date
          (if text_ltb yesterday bounds.end_date then yesterday else bounds.end_date))
