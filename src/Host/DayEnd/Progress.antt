-- ===== src/Host/DayEnd/Progress.antt =====
-- The closing dump goes through when nothing is in its way.
use dsh_liangxiang.Prelude.{ℕ, ◌≤◌, min, String, ◌≡◌, true, none, some, List, [], ◌∷◌, nat}
use dsh_liangxiang.Domain.Vote.{vote_count_max}
use dsh_liangxiang.Domain.LocalIncense.{record_local_incense_vote}
use dsh_liangxiang.Host.DayEnd.{
  DayEndJob, ByMode, at_mode, put_mode, DayEndTiming, Moment, ScheduleContext, Phase, Machine,
  is_closing, in_window, new_job, accepted, timer, reached, written, refreshed, answered,
  TimedIncenseLedger, Answer, rejected, unsettled, accepted_of, Event, DayEndState, ledger_for,
}
use dsh_liangxiang.Host.DayEnd.Closing.{receipt}

-- A moment at which nothing is in the way of a timed vote.
pub record IsFree (m : Machine) (ctx : ScheduleContext) (e : Moment) : Type 0 where
  pub inside : in_window m ctx e ≡ true
  pub nobody : e.manual_pending ≡ 0
  pub quiet : e.manual_until ≤ e.now

-- A moment of the last minute at which the authority is there and has incense for the dump.
pub record IsDue (e : Moment) : Type 0 where
  pub available : e.authority_available ≡ true
  pub timing : DayEndTiming
  pub timed : e.timing ≡ some timing
  pub closes : is_closing timing ≡ true
  pub stocked : 1 ≤ e.remaining_incense

-- An answer that settles a job, and the incense that it takes.
abbrev pub Settles : DayEndJob → Answer → ℕ → Type 0
Settles job (accepted taken spent) n = (accepted_of taken spent ≡ nat n) × (n ≤ job.count)
Settles job rejected n = n ≡ 0
Settles job unsettled n = ⊥

-- The dump that a moment prepares, under a fresh id.
abbrev pub dump : Machine → Moment → String → DayEndJob
dump m e id = new_job m e id (min vote_count_max e.remaining_incense) true

-- The day's ledger with the incense of the dump counted.
abbrev pub counted_dump : Machine → Moment → String → ℕ → TimedIncenseLedger
counted_dump m e id n = record {
  ledger =
      record_local_incense_vote (ledger_for (at_mode m.saved.incense e.mode) e.business_date)
        m.saved.vote_type (nat n);
  business_date = e.business_date;
}

module _ (m : Machine) (ctx : ScheduleContext) where
  abbrev at_phase : Phase → ByMode DayEndJob → Machine
  at_phase phase jobs = record m { phase = phase; saved = record m.saved { jobs = jobs } }

  module _ (e : Moment) (id : String) (free : IsFree m ctx e) (due : IsDue e)
      (fresh : at_mode m.saved.jobs e.mode ≡ none) where
    abbrev job : DayEndJob
    job = dump m e id

    abbrev jobs : ByMode DayEndJob
    jobs = put_mode m.saved.jobs e.mode job

    -- The last save has the receipt, and the incense in the day's ledger.
    Saved : ℕ → DayEndState → Type 0
    Saved n s =
        (at_mode s.jobs e.mode ≡ some (receipt job))
        × (at_mode s.incense e.mode ≡ some (counted_dump m e id n))

    -- The run from the timer on, each event at a moment of its own.
    abbrev pub dump_run : Moment → Moment → Moment → ℕ → Answer → Moment → List Event
    dump_run at_timer at_turn at_save now answer at_end =
        timer ctx at_timer
        ∷ (reached at_turn
            ∷ (refreshed e id ∷ (written at_save ∷ (answered now answer ∷ (written at_end ∷ [])))))
