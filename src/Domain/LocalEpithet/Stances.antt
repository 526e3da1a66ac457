-- ===== src/Domain/LocalEpithet/Stances.antt =====
-- The epithets follow the counts: more sticks never lower the dedication, a vote never turns the
-- stance away from its side, and the two sides mirror one another.
use dsh_liangxiang.Prelude.{ℕ, ◌+◌, ◌*◌, ◌≤◌, ◌<◌, ◌≡◌, ◌≢◌, arith, Number, floor_or_zero}
use dsh_liangxiang.Domain.Vote.{VoteType, up, down}
use dsh_liangxiang.Domain.LocalEpithet.{
  LocalEpithetRecord, Dedication, onlooker, first_try, daily_lesson, diligent, pouring, burnt_out,
  mad, Stance, idle, dead_up, iron_up, lean_up, fence, lean_down, iron_down, dead_down,
  dedication_for, stance_for, derive_local_epithet, record_local_epithet_vote,
}

abbrev pub zeal : Dedication → ℕ
zeal onlooker = 0
zeal first_try = 1
zeal daily_lesson = 2
zeal diligent = 3
zeal pouring = 4
zeal burnt_out = 5
zeal mad = 6

-- From the down side to the up side; `idle` is before any vote.
abbrev pub lean : Stance → ℕ
lean idle = 0
lean dead_down = 1
lean iron_down = 2
lean lean_down = 3
lean fence = 4
lean lean_up = 5
lean iron_up = 6
lean dead_up = 7

dedication_mono : (a b : ℕ) → a ≤ b → zeal (dedication_for a) ≤ zeal (dedication_for b)
unfolding dedication_for
dedication_mono a b h = ground arith

stance-mono-up :
    (ups downs n : ℕ)
    → 0 < ups + downs
    → lean (stance_for ups downs) ≤ lean (stance_for (ups + n) downs)
unfolding stance_for
stance-mono-up ups downs n h = ground arith

stance-mono-down :
    (ups downs n : ℕ)
    → 0 < ups + downs
    → lean (stance_for ups (downs + n)) ≤ lean (stance_for ups downs)
unfolding stance_for
stance-mono-down ups downs n h = ground arith

abbrev pub mirror : Stance → Stance
mirror idle = idle
mirror dead_up = dead_down
mirror iron_up = iron_down
mirror lean_up = lean_down
mirror fence = fence
mirror lean_down = lean_up
mirror iron_down = iron_up
mirror dead_down = dead_up

-- Swapping the counts mirrors the stance, but for shares of exactly 88, 68, 32 or 12 percent.
pub stance-mirror :
    (ups downs : ℕ)
    → 100 * ups ≢ 88 * (ups + downs)
    → 100 * ups ≢ 68 * (ups + downs)
    → 100 * ups ≢ 32 * (ups + downs)
    → 100 * ups ≢ 12 * (ups + downs)
    → stance_for downs ups ≡ mirror (stance_for ups downs)
unfolding stance_for
stance-mirror ups downs a b c d = ground arith

-- `a` stands at least as far on the voted side as `b`.
abbrev pub FurtherThan : VoteType → Stance → Stance → Type 0
FurtherThan up a b = lean b ≤ lean a
FurtherThan down a b = lean a ≤ lean b

-- Recording a vote adds its whole sticks to what was spent and never lowers the dedication; once
-- there were votes, the stance moves, if at all, to the side that was voted for.
pub record_lem :
    (r : LocalEpithetRecord) (v : VoteType) (n : Number)
    → let before = derive_local_epithet r in
      let after = derive_local_epithet (record_local_epithet_vote r v n) in
      (after.spent ≡ before.spent + floor_or_zero n)
      × (zeal before.dedication ≤ zeal after.dedication)
      × (0 < before.spent → FurtherThan v after.stance before.stance)
unfolding derive_local_epithet record_local_epithet_vote
record_lem r up n = (
  omega arith,
  dedication_mono (r.ups + r.downs) (r.ups + floor_or_zero n + r.downs) (omega arith),
  stance-mono-up r.ups r.downs (floor_or_zero n),
)
record_lem r down n = (
  omega arith,
  dedication_mono (r.ups + r.downs) (r.ups + (r.downs + floor_or_zero n)) (omega arith),
  stance-mono-down r.ups r.downs (floor_or_zero n),
)
