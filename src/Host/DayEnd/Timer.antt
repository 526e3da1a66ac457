-- ===== src/Host/DayEnd/Timer.antt =====
-- The timer of `updateSchedule`.
use dsh_liangxiang.Prelude.{
  ℕ, ◌+◌, ◌-◌, ◌≤◌, max, ◌≡◌, refl, ◌∙◌, inl, inr, Bool, true, false, not, ◌||◌, Option, none, some,
  arith, Bool-cases, Option-cases,
}
use dsh_liangxiang.Host.DayEnd.{
  DayEndJob, at_mode, Moment, DayEndTiming, Machine, idle, adopt_key, job_of_day, is_closing,
  delay_for, set_timer, is_running, update_schedule,
}

-- What the timer leaves alone: the saved state and the phase.
abbrev pub Rests : Machine → Machine → Type 0
Rests m m' = (m'.saved ≡ m.saved) × (m'.phase ≡ m.phase)

delay_for-Rests :
    (m : Machine) (e : Moment) (close : Bool) (delay : ℕ) (job : Option DayEndJob)
    → Rests m (delay_for m e close delay job).0
unfolding delay_for
delay_for-Rests m e close delay none = ground arith
delay_for-Rests m e close delay (some job) = ground arith

adopt_key-Rests : (m : Machine) (e : Moment) (t : DayEndTiming) → Rests m (adopt_key m e t)
unfolding adopt_key
adopt_key-Rests m e t = ground arith

set_timer-Rests : (m : Machine) (e : Moment) (t : DayEndTiming) → Rests m (set_timer m e t).0
unfolding set_timer
set_timer-Rests m e t =
    let own = adopt_key m e t in
    let job = job_of_day (at_mode own.saved.jobs e.mode) t.business_date in
    let a = adopt_key-Rests m e t in
    let b = delay_for-Rests own e (is_closing t) (t.ends_at - (t.now + 60000)) job in
    (b.0 ∙ a.0, b.1 ∙ a.1)

pub update_schedule-Rests : (m : Machine) (e : Moment) → Rests m (update_schedule m e).0
unfolding update_schedule
update_schedule-Rests m e =
    elim (Bool-cases (e.stopped || (is_running m.phase || (not m.saved.enabled || not e.loaded)))) [
      | inl shut ↦ rw shut (refl, refl)
      | inr on ↦ rw on (elim (Option-cases e.timing) [
        | inl untimed ↦ rw untimed (refl, refl)
        | inr (t, timed) ↦ rw timed (set_timer-Rests m e t)
      ])
    ]

-- A moment at which nothing but the hour makes the timer wait.
pub record IsQuiet (m : Machine) (e : Moment) : Type 0 where
  pub here : e.stopped ≡ false
  pub loaded : e.loaded ≡ true
  pub resting : m.phase ≡ idle
  pub enabled : m.saved.enabled ≡ true
  pub available : e.authority_available ≡ true
  pub settled : e.changing_mode ≡ false
  pub nobody : e.manual_pending ≡ 0
  pub quiet : e.manual_until ≤ e.now
  pub retried : m.retry_at ≤ e.now

-- The instant at which the timer fires: at once, or when the last minute begins, at the latest.
abbrev pub FiresInTime : DayEndTiming → Option ℕ → Type 0
FiresInTime t none = ⊥
FiresInTime t (some delay) = t.now + delay ≤ max (t.now + 1) (t.ends_at - 60000)
