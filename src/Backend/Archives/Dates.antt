-- ===== src/Backend/Archives/Dates.antt =====
-- The dates that a rollover of src/backend/service.ts finds: each that is over and has no archived day, once.
use dsh_liangxiang.Prelude.{
  ◌≡◌, refl, sym, inl, inr, Bool, true, false, not, ◌&&◌, Option, none, some, List, [], ◌∷◌,
  Bool-cases, find, All, both, is_some,
}
use dsh_liangxiang.Domain.Calendar.Text.{Text, text_ltb, text_eq, text_eq-eq}
use dsh_liangxiang.Domain.Calendar.TextOrder.{text_ltb_total, text_ltb_trans}
use dsh_liangxiang.Backend.Archives.Voters.{Has}
use dsh_liangxiang.Backend.Archives.{ArchiveCase, DayArchiveRow, is_day, add_date, unarchived_dates}

add_date-Has : (date : Text) (dates : List Text) → Has date (add_date date dates)
unfolding add_date
add_date-Has date [] = inl refl
add_date-Has date (d ∷ dates) = elim (Bool-cases (text_ltb date d)) [
  | inl before ↦ rw before (inl refl)
  | inr after ↦ elim (Bool-cases (text_eq date d)) [
    | inl same ↦ rw (after, same) (inl (sym (text_eq-eq date d same)))
    | inr other ↦ rw (after, other) (inr (add_date-Has date dates))
  ]
]

add_date-keeps :
    (date kept : Text) (dates : List Text) → Has kept dates → Has kept (add_date date dates)
unfolding add_date
add_date-keeps date kept [] h = absurd h
add_date-keeps date kept (d ∷ dates) h = elim (Bool-cases (text_ltb date d)) [
  | inl before ↦ rw before (inr h)
  | inr after ↦ elim (Bool-cases (text_eq date d)) [
    | inl same ↦ rw (after, same) h
    | inr other ↦ rw (after, other) (further h (λ there. add_date-keeps date kept dates there))
  ]
]
  where
    further :
        Has kept (d ∷ dates)
        → (Has kept dates → Has kept (add_date date dates))
        → Has kept (d ∷ add_date date dates)
    further (inl here) rest = inl here
    further (inr there) rest = inr (rest there)

-- A case of a day that is over, whose day is not archived.
abbrev is_pending : List DayArchiveRow → Text → ArchiveCase → Bool
is_pending days today c =
    text_ltb c.business_date today && not (is_some (find (is_day c.business_date) days))

pub unarchived_dates-Has :
    (cases : List ArchiveCase) (days : List DayArchiveRow) (today : Text) (c : ArchiveCase)
    → Has c cases
    → is_pending days today c ≡ true
    → Has c.business_date (unarchived_dates cases days today)
unfolding unarchived_dates
unarchived_dates-Has [] days today c h due = absurd h
unarchived_dates-Has (k ∷ cases) days today c (inl same) due =
    simp (same, due) (add_date-Has c.business_date (unarchived_dates cases days today))
unarchived_dates-Has (k ∷ cases) days today c (inr there) due =
    let rest = unarchived_dates-Has cases days today c there due in
    elim (Bool-cases (is_pending days today k)) [
      | inl also ↦
          rw also (
            add_date-keeps k.business_date c.business_date (unarchived_dates cases days today) rest)
      | inr settled ↦ rw settled rest
    ]

-- A date that is over and has no archived day.
abbrev pub IsMissing : List DayArchiveRow → Text → Text → Type 0
IsMissing days today date = (text_ltb date today ≡ true) × (find (is_day date) days ≡ none)

add_date-All :
    (P : Text → Type 0) (date : Text) (dates : List Text)
    → P date
    → All P dates
    → All P (add_date date dates)
unfolding add_date
add_date-All P date [] here all = (here, tt)
add_date-All P date (d ∷ dates) here all = elim (Bool-cases (text_ltb date d)) [
  | inl before ↦ rw before (here, all)
  | inr after ↦ elim (Bool-cases (text_eq date d)) [
    | inl same ↦ rw (after, same) all
    | inr other ↦ rw (after, other) (all.0, add_date-All P date dates here all.1)
  ]
]

pub unarchived_dates-IsMissing :
    (cases : List ArchiveCase) (days : List DayArchiveRow) (today : Text)
    → All (IsMissing days today) (unarchived_dates cases days today)
unfolding unarchived_dates
unarchived_dates-IsMissing [] days today = tt
unarchived_dates-IsMissing (c ∷ cases) days today =
    let rest = unarchived_dates-IsMissing cases days today in
    elim (Bool-cases (is_pending days today c)) [
      | inr settled ↦ rw settled rest
      | inl due ↦
          let (over, open_day) =
            both (text_ltb c.business_date today)
              (not (is_some (find (is_day c.business_date) days))) due in
          rw due (
            add_date-All (IsMissing days today) c.business_date (unarchived_dates cases days today)
              (over, absent (find (is_day c.business_date) days) open_day) rest)
    ]
  where
    absent : (o : Option DayArchiveRow) → not (is_some o) ≡ true → o ≡ none
    absent none h = refl
    absent (some r) h = cc

-- In order, and so no date twice.
abbrev pub Ordered : List Text → Type 0
Ordered [] = Unit
Ordered (d ∷ dates) = All (λ e. text_ltb d e ≡ true) dates × Ordered dates

All-later :
    (date d : Text) (dates : List Text)
    → text_ltb date d ≡ true
    → All (λ e. text_ltb d e ≡ true) dates
    → All (λ e. text_ltb date e ≡ true) dates
All-later date d [] before all = tt
All-later date d (e ∷ dates) before all =
    (text_ltb_trans date d e before all.0, All-later date d dates before all.1)

add_date-Ordered : (date : Text) (dates : List Text) → Ordered dates → Ordered (add_date date dates)
unfolding add_date
add_date-Ordered date [] o = (tt, tt)
add_date-Ordered date (d ∷ dates) o = elim (Bool-cases (text_ltb date d)) [
  | inl before ↦ rw before ((before, All-later date d dates before o.0), o)
  | inr after ↦ elim (Bool-cases (text_eq date d)) [
    | inl same ↦ rw (after, same) o
    | inr other ↦
        rw (after, other)
          (
            add_date-All (λ e. text_ltb d e ≡ true) date dates (later after other) o.0,
            add_date-Ordered date dates o.1,
          )
  ]
]
  where
    later : text_ltb date d ≡ false → text_eq date d ≡ false → text_ltb d date ≡ true
    later after other = elim (Bool-cases (text_ltb d date)) [
      | inl behind ↦ behind
      | inr neither ↦ cc (other, text_ltb_total date d after neither)
    ]

pub unarchived_dates-Ordered :
    (cases : List ArchiveCase) (days : List DayArchiveRow) (today : Text)
    → Ordered (unarchived_dates cases days today)
unfolding unarchived_dates
unarchived_dates-Ordered [] days today = tt
unarchived_dates-Ordered (c ∷ cases) days today =
    let rest = unarchived_dates-Ordered cases days today in
    elim (Bool-cases (is_pending days today c)) [
      | inr settled ↦ rw settled rest
      | inl due ↦ rw due (add_date-Ordered c.business_date (unarchived_dates cases days today) rest)
    ]
