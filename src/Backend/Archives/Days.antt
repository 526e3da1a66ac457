-- ===== src/Backend/Archives/Days.antt =====
-- Each day that is over is archived, from its own cases, once, and stays as it was written.
use dsh_liangxiang.Prelude.{
  ℕ, ◌+◌, ◌≡◌, refl, sym, ap, ◌∙◌, inl, inr, true, ◌&&◌, List, [], ◌∷◌, ◌++◌, map, append-nil, ok,
  ◌>>=◌, Bool-cases, ok-injective, >>=-eq-ok, find, All, subst, both, is_some, find-append,
}
use dsh_liangxiang.Domain.Calendar.Text.{Text, text_ltb}
use dsh_liangxiang.Backend.Archives.Voters.{Has}
use dsh_liangxiang.Domain.Archive.Periods.{Period, iso_week_for, month_for}
use dsh_liangxiang.Backend.Archives.{
  ArchiveCase, DayArchiveRow, ArchiveDb, is_day, unarchived_dates, day_archives, is_empty,
  write_archives, pending_periods, finalize_archives,
}
use dsh_liangxiang.Backend.Archives.Dates.{
  unarchived_dates-Has, IsMissing, unarchived_dates-IsMissing, unarchived_dates-Ordered,
}
use dsh_liangxiang.Backend.Archives.DayRows.{
  source_rows, archive_days-eq, find-source_rows, is_some-or_else, IsSourced, source_rows-IsSourced,
  source_rows-All, IsOnce, source_rows-IsOnce,
}

module _ (db : ArchiveDb) (today : Text) (now : ℕ) where
  abbrev pending : List Text
  pending = unarchived_dates db.cases db.days today

  abbrev candidates : List Text
  candidates = map (λ (r : DayArchiveRow). r.business_date) (day_archives db.days) ++ pending

  abbrev bumped : ArchiveDb
  bumped = record db { archive_version = db.archive_version + 1 }

  -- What a rollover does to the days.
  pub record IsFinalized (db' : ArchiveDb) : Type 0 where
    pub rows : List DayArchiveRow
    pub kept : db'.days ≡ db.days ++ rows
    pub sourced : All (IsSourced db.cases db.votes) rows
    pub missing : All (λ (r : DayArchiveRow). IsMissing db.days today r.business_date) rows
    pub once : IsOnce rows
    pub complete :
        (c : ArchiveCase)
        → Has c db.cases
        → text_ltb c.business_date today ≡ true
        → is_some (find (is_day c.business_date) db'.days) ≡ true
    pub cases_kept : db'.cases ≡ db.cases

  covered :
      (c : ArchiveCase)
      → Has c db.cases
      → text_ltb c.business_date today ≡ true
      → is_some (find (is_day c.business_date) (db.days ++ source_rows bumped pending now)) ≡ true
  covered c own over =
      rw (find-append (is_day c.business_date) db.days (source_rows bumped pending now)) (
        is_some-or_else _ _ (elim (Bool-cases (is_some (find (is_day c.business_date) db.days))) [
          | inl before ↦ inl before
          | inr not_yet ↦ inr (
              find-source_rows bumped pending now c own
                (unarchived_dates-Has db.cases db.days today c own (rw (over, not_yet) refl)))
        ]))

  all_written :
      (weeks months : List Period)
      → (write_archives db now pending weeks months).days
          ≡ db.days ++ source_rows bumped pending now
        × ((write_archives db now pending weeks months).cases ≡ db.cases)
  unfolding write_archives
  all_written weeks months =
      elim (Bool-cases (is_empty pending && (is_empty weeks && is_empty months))) [
        | inl nothing ↦ rw nothing (
          sym (append-nil db.days)
              ∙ ap (λ (dates : List Text). db.days ++ source_rows bumped dates now)
                  (sym (empty pending (both (is_empty pending) _ nothing).0)),
          refl,
        )
        | inr some_due ↦ rw some_due (
          ap (λ (d : ArchiveDb). d.days) (archive_days-eq bumped pending now),
          ap (λ (d : ArchiveDb). d.cases) (archive_days-eq bumped pending now),
        )
      ]
    where
      empty : (dates : List Text) → is_empty dates ≡ true → dates ≡ []
      empty [] h = refl
      empty (d ∷ dates) h = cc

  -- A rollover that succeeds leaves the archived days in front and unchanged, and the cases. Each day that it
  -- adds is before today, had no archived day, and is added once; it has the titles and the sums of the up
  -- and the down votes of all cases of its date, and its voters are the number of the installations with a
  -- vote of that date, each counted once. Afterwards each case before today has an archived day.
  pub finalize_archives-IsFinalized :
      (db' : ArchiveDb) → finalize_archives db today now ≡ ok db' → IsFinalized db'
  unfolding finalize_archives
  finalize_archives-IsFinalized db' done =
      let (weeks, weeks_are, rest) =
        >>=-eq-ok (pending_periods iso_week_for today db.weeks candidates [])
          (λ weeks. pending_periods month_for today db.months candidates [] >>= λ months.
            ok (write_archives db now pending weeks months))
          done in
      let (months, months_are, written) =
        >>=-eq-ok (pending_periods month_for today db.months candidates [])
          (λ months. ok (write_archives db now pending weeks months)) rest in
      subst IsFinalized (ok-injective written) (record {
        rows = source_rows bumped pending now;
        kept = (all_written weeks months).0;
        sourced = source_rows-IsSourced bumped pending now;
        missing =
            source_rows-All (IsMissing db.days today) bumped pending now
              (unarchived_dates-IsMissing db.cases db.days today);
        once =
            source_rows-IsOnce bumped pending now (unarchived_dates-Ordered db.cases db.days today);
        complete = λ c own over. rw (all_written weeks months).0 (covered c own over);
        cases_kept = (all_written weeks months).1;
      })
