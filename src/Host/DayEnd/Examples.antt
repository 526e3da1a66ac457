-- ===== src/Host/DayEnd/Examples.antt =====
-- The last minute of a day.
use dsh_liangxiang.Prelude.{◌≡◌, refl, inl, true, false, none, some, List, [], ◌∷◌, All, map}
use dsh_liangxiang.Domain.Vote.{up, down}
use dsh_liangxiang.Host.DayEnd.{
  periodic, prepare, closing, DayEndJob, online, DayEndTiming, Moment, ScheduleContext, idle,
  refreshing, Machine, in_window, can_prepare_vote, send, choose, Event, timer, reached, written,
  refreshed, failed, preferences, restart, set_preferences, update_schedule, set_timer, adopt_key,
  delay_for, postpone, scheduled, advance, step, run,
}
use dsh_liangxiang.Host.DayEnd.Intents.{IsSaved, step-IsSaved}
use dsh_liangxiang.Host.DayEnd.Closing.{IsClosing, Keeps, run-Keeps}

abbrev timing : DayEndTiming
timing = record { now = 950000; ends_at = 1000000; business_date = "2026-11-26" }

abbrev moment : Moment
moment = record {
  now = 7;
  timing = some timing;
  mode = online;
  business_date = "2026-11-26";
  case_id = "case-1";
  authority_available = true;
  remaining_incense = 700;
  stopped = false;
  loaded = true;
  changing_mode = false;
  same_authority = true;
  manual_pending = 0;
  manual_until = 0;
}

abbrev ctx : ScheduleContext
ctx = record { business_date = "2026-11-26"; case_id = "case-1"; generation = 0 }

abbrev machine : Machine
machine = record {
  saved = record {
    enabled = true;
    vote_type = down;
    jobs = record { of_online = none; of_local = none };
    incense = record { of_online = none; of_local = none };
  };
  generation = 0;
  periodic_ready_at = 0;
  retry_at = 0;
  schedule_key = none;
  phase = idle;
}

abbrev intent : DayEndJob
intent = record {
  business_date = "2026-11-26";
  case_id = "case-1";
  request_id = "request-1";
  vote_type = down;
  count = 500;
  done = false;
  kind = some closing;
}

abbrev holding : Machine
holding = record machine {
  saved = record machine.saved { jobs = record { of_online = some intent; of_local = none } };
  phase = refreshing ctx;
}

-- After a failure, changed preferences and a restart the same intent is sent again.
abbrev a_day : List Event
a_day =
    refreshed moment "request-2"
    ∷ (failed 8
        ∷ (preferences true up
            ∷ (restart
                ∷ (timer (record ctx { generation = 1 }) moment
                    ∷ (reached moment ∷ (refreshed moment "request-3" ∷ []))))))

sent_twice : (run holding a_day).1 ≡ intent ∷ (intent ∷ [])
unfolding run step advance set_preferences in_window can_prepare_vote choose send
sent_twice = refl

sends : (step holding (refreshed moment "request-2")).1 ≡ some intent
unfolding step advance in_window can_prepare_vote choose send
sends = refl

step-IsSaved_example : IsSaved (step holding (refreshed moment "request-2")).0 intent
step-IsSaved_example = step-IsSaved holding (refreshed moment "request-2") intent sends

intent-IsClosing : IsClosing "2026-11-26" intent
intent-IsClosing = record { dated = refl; waits = refl; closes = refl }

run-Keeps_example :
    All (λ vote. vote ≡ intent) (run holding a_day).1 × Keeps online intent (run holding a_day).0
run-Keeps_example =
    run-Keeps online "2026-11-26" intent intent-IsClosing holding a_day
      ((refl, refl), (tt, (tt, (tt, ((refl, refl), ((refl, refl), ((refl, refl), tt)))))))
      (inl refl, tt)

-- The save comes a second later, and the clock of the day has moved on too.
abbrev later : Moment
later = record moment { now = 1007; timing = some (record timing { now = 951000 }) }

-- Some minutes before the end of the day, with enough incense for a periodic vote.
abbrev morning : DayEndTiming
morning = record { now = 100000; ends_at = 1000000; business_date = "2026-11-26" }

abbrev at_morning : Moment
at_morning = record moment { timing = some morning }

charges : (update_schedule machine at_morning).1 ≡ some 600000
unfolding update_schedule set_timer adopt_key delay_for postpone
charges = refl

-- When the periodic vote is due, it is prepared.
abbrev due : Moment
due = record at_morning { now = 600007 }

charged_vote :
    map
      (λ (j : DayEndJob). j.kind)
      (run machine (
        scheduled at_morning
        ∷ (timer ctx due ∷ (reached due ∷ (refreshed due "request-1" ∷ (written due ∷ [])))))).1
    ≡ some periodic ∷ []
unfolding run step advance update_schedule set_timer adopt_key delay_for postpone in_window
    can_prepare_vote choose prepare send
charged_vote = refl
