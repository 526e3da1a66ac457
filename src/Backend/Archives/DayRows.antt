-- ===== src/Backend/Archives/DayRows.antt =====
-- The rows that a rollover of src/backend/service.ts adds for its dates.
use dsh_liangxiang.Prelude.{
  ℕ, ◌≡◌, refl, sym, ap, ◌∙◌, ◌⊎◌, inl, inr, true, false, Option, none, some, List, [], ◌∷◌, ◌++◌,
  map, append-nil, append_assoc, Bool-cases, find, keep_where, All, All-append, subst, or_else,
  is_some, find-append, sum_by,
}
use dsh_liangxiang.Domain.Calendar.Text.{Text, text_ltb, text_eq, text_eq-eq, text_eq_self}
use dsh_liangxiang.Domain.Calendar.TextOrder.{text_ltb_self}
use dsh_liangxiang.Backend.Archives.Voters.{Has, CountsVoters, count_unique_voters-CountsVoters}
use dsh_liangxiang.Backend.Archives.{
  ArchiveCase, DayArchiveRow, ArchiveDb, is_day, is_case_of, CastVote, count_unique_voters,
  archive_source, archive_day, archive_days,
}
use dsh_liangxiang.Backend.Archives.Dates.{Ordered}

-- The rows that the loop over the dates adds.
abbrev pub source_rows : ArchiveDb → List Text → ℕ → List DayArchiveRow
source_rows db [] now = []
source_rows db (date ∷ dates) now =
    archive_source db date now (keep_where (is_case_of date) db.cases) ++ source_rows db dates now

-- The rows read the cases, the votes and the version, which the loop leaves alone.
source_rows-eq :
    (db : ArchiveDb) (days : List DayArchiveRow) (dates : List Text) (now : ℕ)
    → source_rows (record db { days = days }) dates now ≡ source_rows db dates now
source_rows-eq db days [] now = refl
source_rows-eq db days (date ∷ dates) now =
    ap
      (λ (rows : List DayArchiveRow).
        archive_source (record db { days = days }) date now (keep_where (is_case_of date) db.cases)
        ++ rows)
      (source_rows-eq db days dates now)
    ∙ ap (λ (rows : List DayArchiveRow). rows ++ source_rows db dates now)
        (unread (keep_where (is_case_of date) db.cases))
  where
    unread :
        (cases : List ArchiveCase)
        → archive_source (record db { days = days }) date now cases
          ≡ archive_source db date now cases
    unread [] = refl
    unread (c ∷ cases) = unfold count_unique_voters in refl

pub archive_days-eq :
    (db : ArchiveDb) (dates : List Text) (now : ℕ)
    → archive_days db dates now ≡ record db { days = db.days ++ source_rows db dates now }
unfolding archive_days archive_day
archive_days-eq db [] now = λ i. record db { days = sym (append-nil db.days) i }
archive_days-eq db (date ∷ dates) now =
    archive_days-eq (archive_day db date now) dates now ∙ (λ i. record db { days = joined i })
  where
    first : List DayArchiveRow
    first = archive_source db date now (keep_where (is_case_of date) db.cases)

    joined :
        (db.days ++ first) ++ source_rows (record db { days = db.days ++ first }) dates now
        ≡ db.days ++ (first ++ source_rows db dates now)
    joined =
        ap (λ (rows : List DayArchiveRow). (db.days ++ first) ++ rows)
          (source_rows-eq db _ dates now)
        ∙ append_assoc db.days first (source_rows db dates now)

find-archive_source :
    (db : ArchiveDb) (date : Text) (now : ℕ) (cases : List ArchiveCase) (c : ArchiveCase)
    → Has c cases
    → c.business_date ≡ date
    → is_some (find (is_day date) (archive_source db date now (keep_where (is_case_of date) cases)))
      ≡ true
find-archive_source db date now [] c h dated = absurd h
find-archive_source db date now (k ∷ cases) c h dated = elim (Bool-cases (is_case_of date k)) [
  | inl kept ↦ rw (kept, text_eq_self date) refl
  | inr other ↦
      rw other (further h (λ there. find-archive_source db date now cases c there dated) other)
]
  where
    further :
        Has c (k ∷ cases)
        → (Has c cases
            → is_some (
                find
                  (is_day date)
                  (archive_source db date now (keep_where (is_case_of date) cases)))
              ≡ true)
        → is_case_of date k ≡ false
        → is_some
            (find (is_day date) (archive_source db date now (keep_where (is_case_of date) cases)))
          ≡ true
    further (inl same) rest other = cc (
      subst (λ (t : Text). text_eq t date ≡ false)
          (ap (λ (a : ArchiveCase). a.business_date) same ∙ dated) other,
      text_eq_self date,
    )
    further (inr there) rest other = rest there

pub is_some-or_else {ℓ} :
    {A : Type ℓ} (a b : Option A)
    → (is_some a ≡ true) ⊎ (is_some b ≡ true)
    → is_some (or_else a b) ≡ true
is_some-or_else none b (inl h) = cc
is_some-or_else none b (inr h) = h
is_some-or_else (some x) b h = refl

pub find-source_rows :
    (db : ArchiveDb) (dates : List Text) (now : ℕ) (c : ArchiveCase)
    → Has c db.cases
    → Has c.business_date dates
    → is_some (find (is_day c.business_date) (source_rows db dates now)) ≡ true
find-source_rows db [] now c own h = absurd h
find-source_rows db (date ∷ dates) now c own h =
    rw
      (find-append (is_day c.business_date)
        (archive_source db date now (keep_where (is_case_of date) db.cases))
        (source_rows db dates now))
      (is_some-or_else _ _ (part h (λ there. find-source_rows db dates now c own there)))
  where
    part :
        Has c.business_date (date ∷ dates)
        → (Has c.business_date dates
            → is_some (find (is_day c.business_date) (source_rows db dates now)) ≡ true)
        → (is_some (
              find
                (is_day c.business_date)
                (archive_source db date now (keep_where (is_case_of date) db.cases)))
            ≡ true)
          ⊎ (is_some (find (is_day c.business_date) (source_rows db dates now)) ≡ true)
    part (inl same) rest = inl (
        subst
          (λ (t : Text).
            is_some (
              find (is_day c.business_date)
                (archive_source db t now (keep_where (is_case_of t) db.cases)))
            ≡ true)
          (sym same) (find-archive_source db c.business_date now db.cases c own refl))
    part (inr there) rest = inr (rest there)

-- An archived day: the titles and the sums over the cases of its date, and the voters of its date.
pub record IsSourced (cases : List ArchiveCase) (votes : List CastVote) (r : DayArchiveRow)
    : Type 0 where
  pub up_is :
      r.up_votes
      ≡ sum_by (λ (c : ArchiveCase). c.up_votes) (keep_where (is_case_of r.business_date) cases)
  pub down_is :
      r.down_votes
      ≡ sum_by (λ (c : ArchiveCase). c.down_votes) (keep_where (is_case_of r.business_date) cases)
  pub titles_are :
      r.case_titles
      ≡ map (λ (c : ArchiveCase). c.title) (keep_where (is_case_of r.business_date) cases)
  pub voters : CountsVoters votes r.business_date r.unique_voters

source-IsSourced :
    (db : ArchiveDb) (date : Text) (now : ℕ) (cases : List ArchiveCase)
    → keep_where (is_case_of date) db.cases ≡ cases
    → All (IsSourced db.cases db.votes) (archive_source db date now cases)
source-IsSourced db date now [] found = tt
source-IsSourced db date now (c ∷ cases) found = (
  record {
    up_is = sym (ap (sum_by (λ (k : ArchiveCase). k.up_votes)) found);
    down_is = sym (ap (sum_by (λ (k : ArchiveCase). k.down_votes)) found);
    titles_are = sym (ap (map (λ (k : ArchiveCase). k.title)) found);
    voters = count_unique_voters-CountsVoters db date;
  },
  tt,
)

pub source_rows-IsSourced :
    (db : ArchiveDb) (dates : List Text) (now : ℕ)
    → All (IsSourced db.cases db.votes) (source_rows db dates now)
source_rows-IsSourced db [] now = tt
source_rows-IsSourced db (date ∷ dates) now =
    All-append (IsSourced db.cases db.votes)
      (archive_source db date now (keep_where (is_case_of date) db.cases))
      (source_rows db dates now)
      (source-IsSourced db date now (keep_where (is_case_of date) db.cases) refl)
      (source_rows-IsSourced db dates now)

-- What holds of the dates holds of the rows' dates.
pub source_rows-All :
    (P : Text → Type 0) (db : ArchiveDb) (dates : List Text) (now : ℕ)
    → All P dates
    → All (λ (r : DayArchiveRow). P r.business_date) (source_rows db dates now)
source_rows-All P db [] now all = tt
source_rows-All P db (date ∷ dates) now all =
    All-append (λ (r : DayArchiveRow). P r.business_date)
      (archive_source db date now (keep_where (is_case_of date) db.cases))
      (source_rows db dates now) (one (keep_where (is_case_of date) db.cases))
      (source_rows-All P db dates now all.1)
  where
    one :
        (cases : List ArchiveCase)
        → All (λ (r : DayArchiveRow). P r.business_date) (archive_source db date now cases)
    one [] = tt
    one (c ∷ cases) = (all.0, tt)

-- No date has two rows.
abbrev pub IsOnce : List DayArchiveRow → Type 0
IsOnce [] = Unit {0}
IsOnce (r ∷ rows) = (find (is_day r.business_date) rows ≡ none) × IsOnce rows

find-later :
    (date : Text) (rows : List DayArchiveRow)
    → All (λ (r : DayArchiveRow). text_ltb date r.business_date ≡ true) rows
    → find (is_day date) rows ≡ none
find-later date [] all = refl
find-later date (r ∷ rows) all = elim (Bool-cases (text_eq r.business_date date)) [
  | inr other ↦ rw other (find-later date rows all.1)
  | inl same ↦ cc (
    subst (λ (t : Text). text_ltb date t ≡ true) (text_eq-eq r.business_date date same) all.0,
    text_ltb_self date,
  )
]

pub source_rows-IsOnce :
    (db : ArchiveDb) (dates : List Text) (now : ℕ)
    → Ordered dates
    → IsOnce (source_rows db dates now)
source_rows-IsOnce db [] now o = tt
source_rows-IsOnce db (date ∷ dates) now o =
    one (keep_where (is_case_of date) db.cases) (source_rows-IsOnce db dates now o.1)
  where
    one :
        (cases : List ArchiveCase)
        → IsOnce (source_rows db dates now)
        → IsOnce (archive_source db date now cases ++ source_rows db dates now)
    one [] rest = rest
    one (c ∷ cases) rest = (
      find-later date (source_rows db dates now)
          (source_rows-All (λ e. text_ltb date e ≡ true) db dates now o.0),
      rest,
    )
