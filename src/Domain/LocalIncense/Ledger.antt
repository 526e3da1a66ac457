-- ===== src/Domain/LocalIncense/Ledger.antt =====
-- The two slices of the ledger over any history of votes and of midnights.
use dsh_liangxiang.Prelude.{ℕ, ◌+◌, ◌≡◌, refl, ap, ◌∙◌, List, [], ◌∷◌, arith, Number, floor_or_zero}
use dsh_liangxiang.Domain.Vote.{VoteType, up, down}
use dsh_liangxiang.Domain.LocalIncense.{
  LocalIncenseLedger, record_local_incense_vote, roll_local_incense_day,
}

pub data Event : Type 0 where
  votes : VoteType → Number → Event
  midnight : Event

abbrev pub step : LocalIncenseLedger → Event → LocalIncenseLedger
step l (votes v n) = record_local_incense_vote l v n
step l midnight = roll_local_incense_day l

unfoldable pub run : LocalIncenseLedger → List Event → LocalIncenseLedger
run l [] = l
run l (e ∷ es) = run (step l e) es

-- Sticks burnt in a direction.
abbrev pub burnt : VoteType → VoteType → Number → ℕ
burnt up up n = floor_or_zero n
burnt up down n = 0
burnt down up n = 0
burnt down down n = floor_or_zero n

pub burnt_ever : VoteType → List Event → ℕ
burnt_ever v [] = 0
burnt_ever v (votes w n ∷ es) = burnt v w n + burnt_ever v es
burnt_ever v (midnight ∷ es) = burnt_ever v es

-- Since the last midnight, and `before` before the events if there was none.
pub burnt_today : VoteType → ℕ → List Event → ℕ
burnt_today v before [] = before
burnt_today v before (votes w n ∷ es) = burnt_today v (before + burnt v w n) es
burnt_today v before (midnight ∷ es) = burnt_today v 0 es

record_slices :
    (l : LocalIncenseLedger) (w : VoteType) (n : Number)
    → let m = record_local_incense_vote l w n in
      (m.lifetime_up ≡ l.lifetime_up + burnt up w n)
      × (m.lifetime_down ≡ l.lifetime_down + burnt down w n)
      × (m.today_up ≡ l.today_up + burnt up w n)
      × (m.today_down ≡ l.today_down + burnt down w n)
unfolding record_local_incense_vote
record_slices l up n = ground arith
record_slices l down n = ground arith

roll_slices :
    (l : LocalIncenseLedger)
    → let m = roll_local_incense_day l in
      (m.lifetime_up ≡ l.lifetime_up)
      × (m.lifetime_down ≡ l.lifetime_down)
      × (m.today_up ≡ 0)
      × (m.today_down ≡ 0)
unfolding roll_local_incense_day
roll_slices l = ground arith

-- After any history the lifetime counts have grown by what was burnt in each direction, and today's
-- counts are what was burnt since the last midnight.
pub run_lem :
    (l : LocalIncenseLedger) (es : List Event)
    → ((run l es).lifetime_up ≡ l.lifetime_up + burnt_ever up es)
      × ((run l es).lifetime_down ≡ l.lifetime_down + burnt_ever down es)
      × ((run l es).today_up ≡ burnt_today up l.today_up es)
      × ((run l es).today_down ≡ burnt_today down l.today_down es)
unfolding run burnt_ever burnt_today
run_lem l [] = (omega arith, omega arith, refl, refl)
run_lem l (votes w n ∷ es) =
    let (a, b, c, d) = record_slices l w n in
    let (e, f, g, h) = run_lem (record_local_incense_vote l w n) es in
    (
      omega (arith, a, e),
      omega (arith, b, f),
      g ∙ ap (λ t. burnt_today up t es) c,
      h ∙ ap (λ t. burnt_today down t es) d,
    )
run_lem l (midnight ∷ es) =
    let (a, b, c, d) = roll_slices l in
    let (e, f, g, h) = run_lem (roll_local_incense_day l) es in
    (
      omega (arith, a, e),
      omega (arith, b, f),
      g ∙ ap (λ t. burnt_today up t es) c,
      h ∙ ap (λ t. burnt_today down t es) d,
    )
