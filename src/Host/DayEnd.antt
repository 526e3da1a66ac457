-- ===== src/Host/DayEnd.antt =====
-- The timed votes of src/host/day-end-service.ts: `updateSchedule`, `runDayEnd` and the saves. Each await
-- of the source is a phase, so that anything may happen between two events; what the code reads at an event (the clock, the
-- authority's state, manual votes that are under way) is the event's `Moment`. The saved state is that of
-- the persistence port, which `save` writes before it changes the one in memory.
pub mod Timer
pub mod Intents
pub mod Closing
pub mod Progress
mod Examples
use dsh_liangxiang.Prelude.{
  ℕ, ◌+◌, ◌-◌, ◌*◌, ◌/◌, min, max, String, Bool, true, false, not, ◌&&◌, ◌||◌, Option, none, some,
  List, [], ◌∷◌, str_eq, Number, nat, is_safe, ltb, leb, ◌==◌, if◌then◌else◌,
}
use dsh_liangxiang.Domain.Vote.{VoteType, vote_count_max}
use dsh_liangxiang.Domain.LocalIncense.{
  LocalIncenseLedger, empty_local_incense, record_local_incense_vote, roll_local_incense_day,
}

pub data JobKind : Type 0 where
  periodic closing : JobKind

pub record DayEndJob : Type 0 where
  pub business_date : String
  pub case_id : String
  pub request_id : String
  pub vote_type : VoteType
  pub count : ℕ
  pub done : Bool
  -- none on a legacy receipt, which is one of the closing dump
  pub kind : Option JobKind

pub data Mode : Type 0 where
  online local : Mode

pub record TimedIncenseLedger : Type 0 where
  pub ledger : LocalIncenseLedger
  pub business_date : String

pub record ByMode {ℓ} (A : Type ℓ) : Type ℓ where
  pub of_online : Option A
  pub of_local : Option A

abbrev pub at_mode {ℓ} : {A : Type ℓ} → ByMode A → Mode → Option A
at_mode m online = m.of_online
at_mode m local = m.of_local

abbrev pub put_mode {ℓ} : {A : Type ℓ} → ByMode A → Mode → A → ByMode A
put_mode m online a = record m { of_online = some a }
put_mode m local a = record m { of_local = some a }

pub record DayEndState : Type 0 where
  pub enabled : Bool
  pub vote_type : VoteType
  pub jobs : ByMode DayEndJob
  pub incense : ByMode TimedIncenseLedger

pub record DayEndTiming : Type 0 where
  pub now : ℕ
  pub ends_at : ℕ
  pub business_date : String

-- What one look at the world sees. `manual_until` is the later of the gesture's lease and two seconds past
-- past the last manual vote; `loaded` says that the service is ready and its state is read; `same_authority`
-- compares the authority now with the one of the context, or with the one last scheduled for.
pub record Moment : Type 0 where
  pub now : ℕ
  pub timing : Option DayEndTiming
  pub mode : Mode
  pub business_date : String
  pub case_id : String
  pub authority_available : Bool
  pub remaining_incense : ℕ
  pub stopped : Bool
  pub loaded : Bool
  pub changing_mode : Bool
  pub same_authority : Bool
  pub manual_pending : ℕ
  pub manual_until : ℕ

pub record ScheduleContext : Type 0 where
  pub business_date : String
  pub case_id : String
  pub generation : ℕ

pub data Phase : Type 0 where
  idle : Phase
  -- waiting for the votes before it, for the refresh
  queued refreshing : ScheduleContext → Phase
  -- waiting for the save of a new job; the Bool says whether the day is closing
  saving : ScheduleContext → Mode → DayEndJob → Bool → Phase
  -- waiting for the authority's answer
  voting : Mode → DayEndJob → Phase
  -- waiting for the save of the receipt
  finishing : Mode → DayEndJob → ℕ → Phase

-- The key `mode:businessDate:caseId` that the timer is set for.
pub record ScheduleKey : Type 0 where
  pub mode : Mode
  pub business_date : String
  pub case_id : String

pub record Machine : Type 0 where
  pub saved : DayEndState
  pub generation : ℕ
  pub periodic_ready_at : ℕ
  pub retry_at : ℕ
  pub schedule_key : Option ScheduleKey
  pub phase : Phase

abbrev pub retry_ms : ℕ
retry_ms = 5000

-- VOTE_COUNT_MAX / VOTE_REFILL_PER_MINUTE * 60_000
abbrev pub auto_dump_period_ms : ℕ
auto_dump_period_ms = 600000

abbrev pub is_periodic : DayEndJob → Bool
is_periodic job = elim job.kind [
  | none ↦ false
  | some k ↦ elim k [ periodic ↦ true | closing ↦ false ]
]

-- timing.now >= timing.endsAt - START_BEFORE_END_MS
abbrev pub is_closing : DayEndTiming → Bool
is_closing t = leb t.ends_at (t.now + 60000)

abbrev pub timing_in_window : Option DayEndTiming → String → Bool
timing_in_window none date = false
timing_in_window (some t) date = str_eq t.business_date date && ltb (t.now + 5000) t.ends_at

unfoldable pub in_window : Machine → ScheduleContext → Moment → Bool
in_window m ctx e =
    not e.stopped
    && (m.saved.enabled
        && (e.same_authority
            && (not e.changing_mode
                && (m.generation == ctx.generation
                    && (str_eq e.business_date ctx.business_date
                        && (str_eq e.case_id ctx.case_id
                            && timing_in_window e.timing ctx.business_date))))))

unfoldable pub can_prepare_vote : Machine → ScheduleContext → Moment → Bool
can_prepare_vote m ctx e = e.manual_pending == 0 && (leb e.manual_until e.now && in_window m ctx e)

abbrev pub mode_eq : Mode → Mode → Bool
mode_eq online online = true
mode_eq local local = true
mode_eq online local = false
mode_eq local online = false

abbrev pub key_eq : ScheduleKey → ScheduleKey → Bool
key_eq k l =
    mode_eq k.mode l.mode && (str_eq k.business_date l.business_date && str_eq k.case_id l.case_id)

abbrev pub is_key : Option ScheduleKey → ScheduleKey → Bool
is_key none k = false
is_key (some own) k = key_eq own k

abbrev pub schedule_key_of : Moment → DayEndTiming → ScheduleKey
schedule_key_of e t = record { mode = e.mode; business_date = t.business_date; case_id = e.case_id }

-- A new key or authority forgets the times of the old one.
unfoldable pub adopt_key : Machine → Moment → DayEndTiming → Machine
adopt_key m e t =
    if is_key m.schedule_key (schedule_key_of e t) && e.same_authority
    then m
    else record m { schedule_key = some (schedule_key_of e t); periodic_ready_at = 0; retry_at = 0 }

abbrev pub job_of_day : Option DayEndJob → String → Option DayEndJob
job_of_day none date = none
job_of_day (some job) date = if str_eq job.business_date date then some job else none

abbrev pub is_closed : Option DayEndJob → Bool
is_closed none = false
is_closed (some job) = job.done && not (is_periodic job)

abbrev pub ready_at : Machine → ℕ → ℕ
ready_at m now = if m.periodic_ready_at == 0 then now + auto_dump_period_ms else m.periodic_ready_at

-- Where the day is not closing and no job waits.
abbrev pub periodic_delay : Machine → Moment → ℕ → Machine × ℕ
periodic_delay m e delay =
    if leb vote_count_max e.remaining_incense
    then (record m { periodic_ready_at = ready_at m e.now }, min delay (ready_at m e.now - e.now))
    else (record m { periodic_ready_at = 0 }, delay)

unfoldable pub delay_for : Machine → Moment → Bool → ℕ → Option DayEndJob → Machine × ℕ
delay_for m e close delay none = if close then (m, delay) else periodic_delay m e delay
delay_for m e close delay (some job) =
    if close || not (is_periodic job)
    then (m, delay)
    else if not job.done
    then (m, 0)
    else periodic_delay m e delay

-- timing.now >= timing.endsAt - STOP_BEFORE_END_MS
abbrev pub is_over : DayEndTiming → Bool
is_over t = leb t.ends_at (t.now + 5000)

unfoldable pub postpone : Moment → DayEndTiming → Bool → ℕ → ℕ
postpone e t closed delay =
    if closed || is_over t
    then max retry_ms (t.ends_at + 1000 - t.now)
    else if not e.authority_available || (e.changing_mode || not (e.manual_pending == 0))
    then max delay retry_ms
    else delay

-- The delay of the timer that is set, in milliseconds, where one is.
unfoldable pub set_timer : Machine → Moment → DayEndTiming → Machine × Option ℕ
set_timer m e t =
    let own = adopt_key m e t in
    let job = job_of_day (at_mode own.saved.jobs e.mode) t.business_date in
    let (next, delay) = delay_for own e (is_closing t) (t.ends_at - (t.now + 60000)) job in
    let waits = postpone e t (is_closing t && is_closed job) delay in
    (next, some (max 1 (max waits (max (next.retry_at - e.now) (e.manual_until - e.now)))))

abbrev pub is_running : Phase → Bool
is_running idle = false
is_running (queued ctx) = true
is_running (refreshing ctx) = true
is_running (saving ctx mode job close) = true
is_running (voting mode job) = true
is_running (finishing mode job n) = true

unfoldable pub update_schedule : Machine → Moment → Machine × Option ℕ
update_schedule m e =
    if e.stopped || (is_running m.phase || (not m.saved.enabled || not e.loaded))
    then (m, none)
    else elim e.timing [ none ↦ (m, none) | some t ↦ set_timer m e t ]

abbrev pub rest : Machine → Machine
rest m = record m { phase = idle }

abbrev pub pause : Machine → ℕ → Machine
pause m now = record m { phase = idle; retry_at = now + retry_ms }

-- The last tests before the vote, and the vote.
unfoldable pub send :
    Machine → ScheduleContext → Moment → Mode → DayEndJob → Bool → Machine × Option DayEndJob
send m ctx e mode job close =
    if job.done || not (can_prepare_vote m ctx e)
    then (rest m, none)
    else if not (is_periodic job) && not close
    then (rest m, none)
    else (record m { phase = voting mode job }, some job)

abbrev pub new_job : Machine → Moment → String → ℕ → Bool → DayEndJob
new_job m e request_id count close = record {
  business_date = e.business_date;
  case_id = e.case_id;
  request_id = request_id;
  vote_type = m.saved.vote_type;
  count = count;
  done = false;
  kind = some (if close then closing else periodic);
}

-- Where no job of today is pending.
unfoldable pub prepare :
    Machine → ScheduleContext → Moment → String → Bool → Machine × Option DayEndJob
prepare m ctx e request_id close =
    if not close
      && (m.periodic_ready_at == 0
          || (ltb e.now m.periodic_ready_at || ltb e.remaining_incense vote_count_max))
    then (record m { phase = idle; periodic_ready_at = 0 }, none)
    else if min vote_count_max e.remaining_incense == 0
    then (pause m e.now, none)
    else (
      record m {
        phase =
            saving ctx e.mode
              (new_job m e request_id (min vote_count_max e.remaining_incense) close) close;
      },
      none,
    )

-- From the wire state on.
unfoldable pub choose :
    Machine
    → ScheduleContext
    → Moment
    → String
    → Bool
    → Option DayEndJob
    → Machine × Option DayEndJob
choose m ctx e request_id close none = prepare m ctx e request_id close
choose m ctx e request_id close (some job) =
    if not (str_eq job.business_date e.business_date)
    then prepare m ctx e request_id close
    else if not job.done
    then send m ctx e e.mode job close
    else if is_periodic job
    then prepare m ctx e request_id close
    else (rest m, none)

pub data Answer : Type 0 where
  -- acceptedIncense and spentIncense
  accepted : Option Number → Option Number → Answer
  rejected : Answer
  -- any other status
  unsettled : Answer

-- acceptedIncense ?? spentIncense ?? 1
abbrev pub accepted_of : Option Number → Option Number → Number
accepted_of (some n) spent = n
accepted_of none (some n) = n
accepted_of none none = nat 1

abbrev pub finish : Machine → ℕ → Mode → DayEndJob → Number → Machine
finish m now mode job (nat n) =
    if is_safe n && leb n job.count then record m { phase = finishing mode job n } else pause m now
finish m now mode job _ = pause m now

abbrev pub ledger_for : Option TimedIncenseLedger → String → LocalIncenseLedger
ledger_for none date = empty_local_incense
ledger_for (some l) date =
    if str_eq l.business_date date then l.ledger else roll_local_incense_day l.ledger

-- The job in the state is not the one that was answered, or it is done already.
abbrev pub is_settled : Option DayEndJob → DayEndJob → Bool
is_settled none job = true
is_settled (some own) job = not (str_eq own.request_id job.request_id) || own.done

abbrev pub complete : DayEndState → Mode → DayEndJob → ℕ → DayEndState
complete s mode job n = if is_settled (at_mode s.jobs mode) job then s else record s {
  jobs = put_mode s.jobs mode (record job { done = true });
  incense = put_mode s.incense mode (record {
    ledger =
        record_local_incense_vote (ledger_for (at_mode s.incense mode) job.business_date)
          job.vote_type (nat n);
    business_date = job.business_date;
  });
}

pub data Event : Type 0 where
  -- a change that sets the timer anew
  scheduled : Moment → Event
  -- the timer, with the context of its schedule
  timer : ScheduleContext → Moment → Event
  -- the votes before it are done, the refresh is done (with the UUID of the moment), a save is done
  reached written : Moment → Event
  refreshed : Moment → String → Event
  answered : ℕ → Answer → Event
  -- what was waited for has failed
  failed : ℕ → Event
  -- setDayEndPreferences
  preferences : Bool → VoteType → Event
  -- `use`, with another authority than the one in use
  switched : Event
  -- the host starts again from what was saved
  restart : Event

abbrev pub same_bool : Bool → Bool → Bool
same_bool true b = b
same_bool false b = not b

unfoldable pub set_preferences : Machine → Bool → VoteType → Machine
set_preferences m enabled vote_type =
    let next = record m { saved = record m.saved { enabled = enabled; vote_type = vote_type } } in
    if same_bool m.saved.enabled enabled
    then next
    else record next { generation = m.generation + 1; periodic_ready_at = 0 }

-- What an event does in the phase that waits for it; elsewhere it does nothing.
unfoldable pub advance : Phase → Machine → Event → Machine × Option DayEndJob
advance idle m (timer ctx e) =
    if in_window m ctx e then (record m { phase = queued ctx }, none) else (m, none)
advance (queued ctx) m (reached e) =
    if e.stopped || (not e.same_authority || e.changing_mode)
    then (pause m e.now, none)
    else if can_prepare_vote m ctx e
    then (record m { phase = refreshing ctx }, none)
    else (rest m, none)
advance (refreshing ctx) m (refreshed e request_id) =
    if not (can_prepare_vote m ctx e) || not e.authority_available
    then (rest m, none)
    else elim e.timing [
      | none ↦ (rest m, none)
      | some t ↦ choose m ctx e request_id (is_closing t) (at_mode m.saved.jobs e.mode)
    ]
advance (saving ctx mode job close) m (written e) =
    let stored = record m { saved = record m.saved { jobs = put_mode m.saved.jobs mode job } } in
    send stored ctx e mode job close
advance (voting mode job) m (answered now (accepted taken spent)) =
    (finish m now mode job (accepted_of taken spent), none)
advance (voting mode job) m (answered now rejected) = (finish m now mode job (nat 0), none)
advance (voting mode job) m (answered now unsettled) = (rest m, none)
advance (finishing mode job n) m (written e) =
    let stored = record m { phase = idle; saved = complete m.saved mode job n } in
    if is_periodic job
    then (record stored { periodic_ready_at = e.now + auto_dump_period_ms }, none)
    else (stored, none)
advance idle m (failed now) = (m, none)
advance p m (failed now) = (pause m now, none)
advance p m event = (m, none)

-- The second component is the vote that is sent.
unfoldable pub step : Machine → Event → Machine × Option DayEndJob
step m (preferences enabled vote_type) = (set_preferences m enabled vote_type, none)
step m switched = (record m { generation = m.generation + 1; periodic_ready_at = 0 }, none)
step m restart = (
  record m {
    phase = idle;
    generation = m.generation + 1;
    periodic_ready_at = 0;
    retry_at = 0;
    schedule_key = none;
  },
  none,
)
step m (scheduled e) = ((update_schedule m e).0, none)
step m event = advance m.phase m event

abbrev pub log : Option DayEndJob → List DayEndJob → List DayEndJob
log none sent = sent
log (some job) sent = job ∷ sent

-- The votes of a run, in order.
unfoldable pub run : Machine → List Event → Machine × List DayEndJob
run m [] = (m, [])
run m (event ∷ events) =
    let (m', vote) = step m event in let (last, sent) = run m' events in (last, log vote sent)
