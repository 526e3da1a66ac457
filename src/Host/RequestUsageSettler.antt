-- ===== src/Host/RequestUsageSettler.antt =====
-- The settler of src/compat/dsh/settled-usage.ts, with the batch test. An event's data is given as the source's checks read
-- it: routes, samples and offsets that fail a check are absent, as the checks make them. A missing provider or
-- model is the empty list.
pub mod Batches
mod Examples
use dsh_liangxiang.Prelude.{
  ℕ, ◌+◌, ◌-◌, ◌/◌, Bool, true, false, ◌&&◌, Option, none, some, List, [], Number, nat, is_safe,
  leb, ◌==◌, if◌then◌else◌, length,
}
use dsh_liangxiang.Host.UsageLedger.{SettledRequestUsage}

pub record Route : Type 0 where
  pub provider : List ℕ
  pub model : List ℕ

-- What `usage` accepts.
pub record Sample : Type 0 where
  pub input_tokens : ℕ
  pub output_tokens : ℕ

pub data UsageEvent : Type 0 where
  -- request/header and request/context
  routed : Route → UsageEvent
  -- step/start and llm/retry-started, with counts for the turn and the step
  started : ℕ → ℕ → UsageEvent
  -- assistant/chunk of type usage
  sampled_chunk : ℕ → ℕ → Option Sample → UsageEvent
  -- assistant/message and assistant/attempt; no outer value where neither names a usage
  finished : ℕ → ℕ → Option (Option Sample) → Route → UsageEvent
  -- step/end and llm/retry
  ended : ℕ → ℕ → UsageEvent
  -- any other event, or one whose data is no record
  other : UsageEvent

pub record DshUsageEvent : Type 0 where
  pub seq : Number
  pub time : Number
  pub body : UsageEvent

pub record Attempt : Type 0 where
  pub turn : ℕ
  pub step : ℕ
  pub start_offset : ℕ
  pub route : Route
  pub sample : Option Sample
  pub sampled : Bool

pub record RequestUsageSettler : Type 0 where
  pub current_route : Route
  pub attempt : Option Attempt
  pub through_offset : ℕ

abbrev pub no_route : Route
no_route = record { provider = []; model = [] }

abbrev pub new_settler : RequestUsageSettler
new_settler = record { current_route = no_route; attempt = none; through_offset = 0 }

-- typeof value === 'number' && Number.isSafeInteger(value) && value >= 0
abbrev pub count_of : Number → Option ℕ
count_of (nat n) = if is_safe n then some n else none
count_of _ = none

abbrev pub reroute : Route → Option Attempt → Option Attempt
reroute route none = none
reroute route (some a) = some (if a.sampled then a else record a { route = route })

pub close :
    RequestUsageSettler → Attempt → Number → ℕ → Option SettledRequestUsage × RequestUsageSettler
close settler closed time end_offset =
    let left = record settler { attempt = none } in
    elim closed.sample [
      | none ↦ (none, left)
      | some sample ↦ elim (count_of time) [
        | none ↦ (none, left)
        | some at ↦ (
          some (record {
            start_offset = closed.start_offset;
            end_offset = end_offset;
            ended_at = at;
            model = closed.route.model;
            input_tokens = sample.input_tokens;
            output_tokens = sample.output_tokens;
          }),
          left,
        )
      ]
    ]

abbrev pub take_sample : Attempt → Option Sample → Attempt
take_sample a sample = record a { sample = sample; sampled = true }

abbrev pub finish_attempt : Attempt → Option (Option Sample) → Route → Attempt
finish_attempt a final source =
    let measured = elim final as (λ _. Attempt) [ none ↦ a | some sample ↦ take_sample a sample ] in
    if length source.model == 0 then measured else record measured { route = source }

-- The attempt that an event names, if it is the open one.
abbrev pub open_at : RequestUsageSettler → ℕ → ℕ → Option Attempt
open_at settler turn step = elim settler.attempt [
  | none ↦ none
  | some a ↦ if a.turn == turn && (a.step == step) then some a else none
]

-- An event that is new, with the settler already moved to its offset.
pub handle :
    RequestUsageSettler → UsageEvent → Number → Option SettledRequestUsage × RequestUsageSettler
unfolding close
handle s (routed route) time =
    (none, record s { current_route = route; attempt = reroute route s.attempt })
handle s (started turn step) time = (
  none,
  record s {
    attempt = some (record {
      turn = turn;
      step = step;
      start_offset = s.through_offset;
      route = s.current_route;
      sample = none;
      sampled = false;
    });
  },
)
handle s (sampled_chunk turn step sample) time = elim (open_at s turn step) [
  | none ↦ (none, s)
  | some a ↦ (none, record s { attempt = some (take_sample a sample) })
]
handle s (finished turn step final source) time = elim (open_at s turn step) [
  | none ↦ (none, s)
  | some a ↦ close s (finish_attempt a final source) time s.through_offset
]
handle s (ended turn step) time = elim (open_at s turn step) [
  | none ↦ (none, s)
  | some a ↦ close s a time s.through_offset
]
handle s other time = (none, s)

unfoldable pub consume :
    RequestUsageSettler → DshUsageEvent → Option SettledRequestUsage × RequestUsageSettler
unfolding handle
consume s event = elim (count_of event.seq) [
  | none ↦ (none, s)
  | some seq ↦
      if leb (seq + 1) s.through_offset
      then (none, s)
      else handle (record s { through_offset = seq + 1 }) event.body event.time
]
