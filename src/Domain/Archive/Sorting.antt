-- ===== src/Domain/Archive/Sorting.antt =====
-- The days in order are the same days.
use dsh_liangxiang.Prelude.{
  ℕ, suc, ◌+◌, ◌≡◌, refl, ap, ◌∙◌, inl, inr, List, [], ◌∷◌, arith, Bool-cases, length, All, sum_by,
}
use dsh_liangxiang.Domain.Calendar.Text.{text_ltb}
use dsh_liangxiang.Domain.Archive.{LiangDayArchive, insert_day, sort_days}

sum_by-insert_day :
    (f : LiangDayArchive → ℕ) (d : LiangDayArchive) (days : List LiangDayArchive)
    → sum_by f (insert_day d days) ≡ f d + sum_by f days
unfolding insert_day
sum_by-insert_day f d [] = refl
sum_by-insert_day f d (e ∷ days) = ground (arith, sum_by-insert_day f d days)

pub sum_by-sort_days :
    (f : LiangDayArchive → ℕ) (days : List LiangDayArchive)
    → sum_by f (sort_days days) ≡ sum_by f days
unfolding sort_days
sum_by-sort_days f [] = refl
sum_by-sort_days f (d ∷ days) =
    sum_by-insert_day f d (sort_days days) ∙ ap (λ (n : ℕ). f d + n) (sum_by-sort_days f days)

length-insert_day :
    (d : LiangDayArchive) (days : List LiangDayArchive)
    → length (insert_day d days) ≡ suc (length days)
unfolding insert_day
length-insert_day d [] = refl
length-insert_day d (e ∷ days) = ground (arith, length-insert_day d days)

pub length-sort_days : (days : List LiangDayArchive) → length (sort_days days) ≡ length days
unfolding sort_days
length-sort_days [] = refl
length-sort_days (d ∷ days) = length-insert_day d (sort_days days) ∙ ap suc (length-sort_days days)

All-insert_day {ℓ} :
    (P : LiangDayArchive → Type ℓ) (d : LiangDayArchive) (days : List LiangDayArchive)
    → P d
    → All P days
    → All P (insert_day d days)
unfolding insert_day
All-insert_day P d [] here rest = (here, tt)
All-insert_day P d (e ∷ days) here rest =
    elim (Bool-cases (text_ltb e.business_date d.business_date)) [
      | inl later ↦ rw later (rest.0, All-insert_day P d days here rest.1)
      | inr sooner ↦ rw sooner (here, rest)
    ]

pub All-sort_days {ℓ} :
    (P : LiangDayArchive → Type ℓ) (days : List LiangDayArchive)
    → All P days
    → All P (sort_days days)
unfolding sort_days
All-sort_days P [] all = tt
All-sort_days P (d ∷ days) all =
    All-insert_day P d (sort_days days) all.0 (All-sort_days P days all.1)
