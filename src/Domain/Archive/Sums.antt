-- ===== src/Domain/Archive/Sums.antt =====
-- Periods add up the raw counts of their days.
use dsh_liangxiang.Prelude.{
  ℕ, ◌+◌, ◌≤◌, ◌≡◌, refl, ap, ◌∙◌, inl, inr, Option, none, List, [], ◌∷◌, arith, Number, nat,
  max_safe_integer, ok, leb, leb→le, le→leb, leb_false→lt, Bool-cases, All, sum_by,
}
use dsh_liangxiang.Domain.Liangzi.{
  LiangziState, LiangziThresholdPolicy, assert_valid_threshold_policy, derive_liangzi_state,
}
use dsh_liangxiang.Domain.Liangzi.Bands.{derive_lem}
use dsh_liangxiang.Domain.Liangzi.Policies.{default_policy-valid}
use dsh_liangxiang.Domain.Archive.{
  LiangArchiveResult, LiangDayArchive, policy_or_default, share, derive_archive_result, RunningSums,
  zero_sums, add_day, add_days, sum_day_archives,
}

abbrev pub count_of : Number → ℕ
count_of (nat n) = n
count_of _ = 0

abbrev pub ups : LiangDayArchive → ℕ
ups d = count_of d.up_votes

abbrev pub downs : LiangDayArchive → ℕ
downs d = count_of d.down_votes

abbrev pub uniques : LiangDayArchive → ℕ
uniques d = count_of d.unique_voters

-- A day's counts are integers, and nobody is counted who did not vote.
pub record IsCounted (d : LiangDayArchive) : Type 0 where
  pub up_is : d.up_votes ≡ nat (ups d)
  pub down_is : d.down_votes ≡ nat (downs d)
  pub unique_is : d.unique_voters ≡ nat (uniques d)
  pub unique_in : uniques d ≤ ups d + downs d

-- The three sums are safe integers.
pub record IsSafeSum (days : List LiangDayArchive) : Type 0 where
  pub up_in : sum_by ups days ≤ max_safe_integer
  pub down_in : sum_by downs days ≤ max_safe_integer
  pub unique_in : sum_by uniques days ≤ max_safe_integer

abbrev plus_day : LiangDayArchive → RunningSums → RunningSums
plus_day d s = record {
  up_votes = s.up_votes + ups d;
  down_votes = s.down_votes + downs d;
  unique_voters = s.unique_voters + uniques d;
}

add_day-IsCounted :
    (d : LiangDayArchive) (s : RunningSums)
    → IsCounted d
    → s.up_votes + ups d ≤ max_safe_integer
    → s.down_votes + downs d ≤ max_safe_integer
    → s.unique_voters + uniques d ≤ max_safe_integer
    → add_day d s ≡ ok (plus_day d s)
unfolding add_day
add_day-IsCounted d s c up down unique =
    rw (c.up_is, c.down_is, c.unique_is)
      (rw
        (
          le→leb (ups d) max_safe_integer (omega arith),
          le→leb (downs d) max_safe_integer (omega arith),
          le→leb (uniques d) max_safe_integer (omega arith),
          le→leb _ _ up,
          le→leb _ _ down,
          le→leb _ _ unique,
        )
        refl)

add_days-sum_by :
    (days : List LiangDayArchive) (s : RunningSums)
    → All IsCounted days
    → s.up_votes + sum_by ups days ≤ max_safe_integer
    → s.down_votes + sum_by downs days ≤ max_safe_integer
    → s.unique_voters + sum_by uniques days ≤ max_safe_integer
    → add_days days s
      ≡ ok (record {
        up_votes = s.up_votes + sum_by ups days;
        down_votes = s.down_votes + sum_by downs days;
        unique_voters = s.unique_voters + sum_by uniques days;
      })
unfolding add_days
add_days-sum_by [] s c up down unique = ap ok (ground arith)
add_days-sum_by (d ∷ days) s c up down unique =
    rw (add_day-IsCounted d s c.0 (omega arith) (omega arith) (omega arith)) (
      add_days-sum_by days (plus_day d s) c.1 (omega arith) (omega arith) (omega arith)
      ∙ ap ok (ground arith))

pub uniques-le :
    (days : List LiangDayArchive)
    → All IsCounted days
    → sum_by uniques days ≤ sum_by ups days + sum_by downs days
uniques-le [] c = omega arith
uniques-le (d ∷ days) c = omega (arith, c.0.unique_in, uniques-le days c.1)

abbrev pub result_of : ℕ → ℕ → ℕ → Option LiangziState → LiangArchiveResult
result_of up down unique s = record {
  up_votes = up;
  down_votes = down;
  unique_voters = unique;
  total_incense = up + down;
  up_ratio = share up (up + down);
  down_ratio = share down (up + down);
  liangzi_state = s;
}

liangzi-returns :
    (policy : LiangziThresholdPolicy) (up down : ℕ)
    → assert_valid_threshold_policy policy ≡ ok tt
    → up ≤ max_safe_integer
    → down ≤ max_safe_integer
    → (s : Option LiangziState) × (derive_liangzi_state (nat up) (nat down) policy ≡ ok s)
liangzi-returns policy up down v safe_up safe_down =
    let (none_yet, some_yet) = derive_lem policy up down v safe_up safe_down in
    elim (Bool-cases (leb (up + down) 0)) [
      | inl empty ↦ (_, none_yet (omega (arith, leb→le (up + down) 0 empty)))
      | inr full ↦
          let (s, band, found, shown, inside) = some_yet (leb_false→lt _ _ full) in (_, found)
    ]

pub derive_archive_result-returns :
    (up down unique : ℕ) (policy : Option LiangziThresholdPolicy)
    → assert_valid_threshold_policy (policy_or_default policy) ≡ ok tt
    → up ≤ max_safe_integer
    → down ≤ max_safe_integer
    → unique ≤ max_safe_integer
    → unique ≤ up + down
    → (s : Option LiangziState) × (derive_archive_result (nat up) (nat down) (nat unique) policy
        ≡ ok (result_of up down unique s))
unfolding derive_archive_result
derive_archive_result-returns up down unique policy v safe_up safe_down safe_unique fits =
    let (s, found) = liangzi-returns (policy_or_default policy) up down v safe_up safe_down in
    (
      s,
      rw (le→leb _ _ safe_up, le→leb _ _ safe_down, le→leb _ _ safe_unique, le→leb _ _ fits, found)
          refl,
    )

-- A sequence of counted days with safe sums has an archive result: the sums of the raw counts, and
-- the ratios of these sums, whatever the days' own ratios are.
pub sum_day_archives_lem :
    (days : List LiangDayArchive)
    → All IsCounted days
    → IsSafeSum days
    → (s : Option LiangziState) × (sum_day_archives days
        ≡ ok (result_of (sum_by ups days) (sum_by downs days) (sum_by uniques days) s))
unfolding sum_day_archives
sum_day_archives_lem days c safe =
    let (s, found) =
      derive_archive_result-returns (sum_by ups days) (sum_by downs days) (sum_by uniques days) none
        default_policy-valid safe.up_in safe.down_in safe.unique_in (uniques-le days c) in
    (
      s,
      rw
          (add_days-sum_by days zero_sums c (omega (arith, safe.up_in))
            (omega (arith, safe.down_in)) (omega (arith, safe.unique_in)))
          (rw
            (
              zero_add (sum_by ups days),
              zero_add (sum_by downs days),
              zero_add (sum_by uniques days),
            )
            found),
    )
  where
    zero_add : (n : ℕ) → 0 + n ≡ n
    zero_add n = omega arith
