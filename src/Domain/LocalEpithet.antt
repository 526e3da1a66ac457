-- ===== src/Domain/LocalEpithet.antt =====
-- src/domain/local-epithet.ts. The texts of the epithets are the constructors below; a stance's share is
-- compared by multiplying out, where the source divides doubles (see `Liangzi`). The record's counts
-- are integers that are at least 0, as the source writes them, on which its Math.floor does nothing.
pub mod Stances
mod Examples
use dsh_liangxiang.Prelude.{
  ℕ, ◌+◌, ◌-◌, ◌*◌, ◌/◌, ◌≤◌, Number, floor_or_zero, ltb, leb, ◌==◌, if◌then◌else◌,
}
use dsh_liangxiang.Domain.Vote.{VoteType, up, down}

pub record LocalEpithetRecord : Type 0 where
  pub ups : ℕ
  pub downs : ℕ

-- 旁观, 试手, 日课, 勤香, 倾炉, 焚尽, 香疯
pub data Dedication : Type 0 where
  onlooker first_try daily_lesson diligent pouring burnt_out mad : Dedication

-- 闲梁, 死夯梁, 铁夯梁, 偏夯梁, 骑墙梁, 偏拉梁, 铁拉梁, 死拉梁
pub data Stance : Type 0 where
  idle dead_up iron_up lean_up fence lean_down iron_down dead_down : Stance

pub dedication_for : ℕ → Dedication
dedication_for spent =
    if leb spent 0
    then onlooker
    else if leb spent 4
    then first_try
    else if leb spent 19
    then daily_lesson
    else if leb spent 49
    then diligent
    else if leb spent 99
    then pouring
    else if leb spent 249
    then burnt_out
    else mad

-- `up / total ≥ p / 100` is `p * total ≤ 100 * up`.
pub stance_for : ℕ → ℕ → Stance
stance_for ups downs =
    let total = ups + downs in
    if total == 0
    then idle
    else if leb (88 * total) (100 * ups)
    then dead_up
    else if leb (68 * total) (100 * ups)
    then iron_up
    else if leb (55 * total) (100 * ups)
    then lean_up
    else if ltb (45 * total) (100 * ups)
    then fence
    else if leb (32 * total) (100 * ups)
    then lean_down
    else if leb (12 * total) (100 * ups)
    then iron_down
    else dead_down

pub record LocalEpithet : Type 0 where
  pub dedication : Dedication
  pub stance : Stance
  pub spent : ℕ

pub derive_local_epithet : LocalEpithetRecord → LocalEpithet
unfolding dedication_for stance_for
derive_local_epithet r = record {
  dedication = dedication_for (r.ups + r.downs);
  stance = stance_for r.ups r.downs;
  spent = r.ups + r.downs;
}

pub record_local_epithet_vote : LocalEpithetRecord → VoteType → Number → LocalEpithetRecord
record_local_epithet_vote r up spent = record r { ups = r.ups + floor_or_zero spent }
record_local_epithet_vote r down spent = record r { downs = r.downs + floor_or_zero spent }
