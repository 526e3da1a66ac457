-- ===== src/Host/RequestUsageSettler/Batches.antt =====
-- What the settler of src/compat/dsh/settled-usage.ts hands on is a batch as the ledger wants it.
use dsh_liangxiang.Prelude.{
  ℕ, ◌+◌, ◌≤◌, ◌<◌, ◌≡◌, refl, inl, inr, ◌&&◌, Option, none, some, List, [], ◌∷◌, arith, Number,
  leb, ◌==◌, leb_false→lt, Bool-cases, Option-cases, All, some-eq, subst,
}
use dsh_liangxiang.Host.UsageLedger.{SettledRequestUsage}
use dsh_liangxiang.Host.UsageLedger.Replays.{IsThrough}
use dsh_liangxiang.Host.RequestUsageSettler.{
  Route, Sample, UsageEvent, routed, started, sampled_chunk, finished, ended, other, DshUsageEvent,
  Attempt, RequestUsageSettler, count_of, reroute, close, finish_attempt, open_at, handle, consume,
}

-- The requests that a run of events settles, and the settler after it.
unfoldable pub collect :
    RequestUsageSettler → List DshUsageEvent → List SettledRequestUsage × RequestUsageSettler
unfolding consume
collect s [] = ([], s)
collect s (event ∷ events) =
    let (settled, next) = consume s event in
    let (later, last) = collect next events in
    elim settled [ none ↦ (later, last) | some r ↦ (r ∷ later, last) ]

-- Requests that follow one another from `floor` on, and end by `through`.
abbrev pub IsChain : ℕ → ℕ → List SettledRequestUsage → Type 0
IsChain floor through [] = floor ≤ through
IsChain floor through (r ∷ rs) =
    (floor ≤ r.start_offset) × (r.start_offset < r.end_offset) × IsChain r.end_offset through rs

-- The open attempt began at or after `floor`, and no later than `through`.
abbrev pub IsOpen : ℕ → ℕ → Option Attempt → Type 0
IsOpen floor through none = Unit {0}
IsOpen floor through (some a) = (floor ≤ a.start_offset) × (a.start_offset ≤ through)

abbrev pub IsReady : ℕ → RequestUsageSettler → Type 0
IsReady floor s = (floor ≤ s.through_offset) × IsOpen floor s.through_offset s.attempt

-- What a step gives: a request that begins at or after `floor` and ends where the settler stands, or none.
abbrev pub IsStep : ℕ → Option SettledRequestUsage × RequestUsageSettler → Type 0
IsStep floor (none, s) = IsReady floor s
IsStep floor (some r, s) =
    (floor ≤ r.start_offset) × (r.start_offset < r.end_offset) × IsReady r.end_offset s

-- After the move to an event's offset the open attempt began before it.
abbrev IsBefore : ℕ → ℕ → Option Attempt → Type 0
IsBefore floor through none = Unit {0}
IsBefore floor through (some a) = (floor ≤ a.start_offset) × (a.start_offset < through)

close-IsStep :
    (floor : ℕ) (s : RequestUsageSettler) (a : Attempt) (time : Number)
    → floor ≤ s.through_offset
    → IsBefore floor s.through_offset (some a)
    → IsStep floor (close s a time s.through_offset)
unfolding close
close-IsStep floor s a time le before = by_sample a.sample refl
  where
    by_sample : (o : Option Sample) → a.sample ≡ o → IsStep floor (close s a time s.through_offset)
    by_sample none e = rw (e, close) (le, tt)
    by_sample (some sample) e = elim (Option-cases (count_of time)) [
      | inl untimed ↦ rw (e, untimed, close) (le, tt)
      | inr (at, timed) ↦ rw (e, timed, close) (before.0, before.1, (omega arith, tt))
    ]

IsBefore-IsOpen :
    (floor through : ℕ) (o : Option Attempt) → IsBefore floor through o → IsOpen floor through o
IsBefore-IsOpen floor through none h = tt
IsBefore-IsOpen floor through (some a) h = (h.0, omega (arith, h.1))

IsBefore-reroute :
    (floor through : ℕ) (route : Route) (o : Option Attempt)
    → IsBefore floor through o
    → IsOpen floor through (reroute route o)
IsBefore-reroute floor through route none h = tt
IsBefore-reroute floor through route (some a) h = elim (Bool-cases a.sampled) [
  | inl e ↦ rw e (h.0, omega (arith, h.1))
  | inr e ↦ rw e (h.0, omega (arith, h.1))
]

-- The named attempt is the open one.
open_at-IsBefore :
    (floor : ℕ) (s : RequestUsageSettler) (turn step : ℕ) (a : Attempt)
    → open_at s turn step ≡ some a
    → IsBefore floor s.through_offset s.attempt
    → IsBefore floor s.through_offset (some a)
open_at-IsBefore floor s turn step a e before = by_attempt s.attempt refl
  where
    by_attempt : (o : Option Attempt) → s.attempt ≡ o → IsBefore floor s.through_offset (some a)
    by_attempt none f = cc (rw f at e)
    by_attempt (some b) f = elim (Bool-cases (b.turn == turn && (b.step == step))) [
      | inl hit ↦
          subst (λ (c : Attempt). IsBefore floor s.through_offset (some c))
            (some-eq (rw hit at (rw f at e))) (rw f at before)
      | inr miss ↦ cc (rw miss at (rw f at e))
    ]

finish_attempt-start :
    (a : Attempt) (final : Option (Option Sample)) (source : Route)
    → (finish_attempt a final source).start_offset ≡ a.start_offset
finish_attempt-start a none source = ground arith
finish_attempt-start a (some sample) source = ground arith

handle-IsStep :
    (floor : ℕ) (s : RequestUsageSettler) (body : UsageEvent) (time : Number)
    → floor ≤ s.through_offset
    → IsBefore floor s.through_offset s.attempt
    → IsStep floor (handle s body time)
unfolding handle
handle-IsStep floor s (routed route) time le before =
    (le, IsBefore-reroute floor s.through_offset route s.attempt before)
handle-IsStep floor s (started turn step) time le before = (le, (le, omega arith))
handle-IsStep floor s (sampled_chunk turn step sample) time le before =
    elim (Option-cases (open_at s turn step)) [
      | inl e ↦ rw (e, handle) (le, IsBefore-IsOpen floor s.through_offset s.attempt before)
      | inr (a, e) ↦
          let b = open_at-IsBefore floor s turn step a e before in
          rw (e, handle) (le, (b.0, omega (arith, b.1)))
    ]
handle-IsStep floor s (finished turn step final source) time le before =
    elim (Option-cases (open_at s turn step)) [
      | inl e ↦ rw (e, handle) (le, IsBefore-IsOpen floor s.through_offset s.attempt before)
      | inr (a, e) ↦
          let b = open_at-IsBefore floor s turn step a e before in
          rw (e, handle)
            (close-IsStep floor s (finish_attempt a final source) time le
              (rw (finish_attempt-start a final source) b))
    ]
handle-IsStep floor s (ended turn step) time le before = elim (Option-cases (open_at s turn step)) [
  | inl e ↦ rw (e, handle) (le, IsBefore-IsOpen floor s.through_offset s.attempt before)
  | inr (a, e) ↦
      rw (e, handle)
        (close-IsStep floor s a time le (open_at-IsBefore floor s turn step a e before))
]
handle-IsStep floor s other time le before =
    (le, IsBefore-IsOpen floor s.through_offset s.attempt before)

IsReady-IsBefore :
    (floor old new : ℕ) (o : Option Attempt) → old < new → IsOpen floor old o → IsBefore floor new o
IsReady-IsBefore floor old new none lt h = tt
IsReady-IsBefore floor old new (some a) lt h = (h.0, omega (arith, h.1))

consume-IsStep :
    (floor : ℕ) (s : RequestUsageSettler) (event : DshUsageEvent)
    → IsReady floor s
    → IsStep floor (consume s event)
unfolding consume
consume-IsStep floor s event ready = elim (Option-cases (count_of event.seq)) [
  | inl e ↦ rw (e, consume) ready
  | inr (seq, e) ↦ elim (Bool-cases (leb (seq + 1) s.through_offset)) [
    | inl old ↦ rw (e, old, consume) ready
    | inr new ↦
        let lt = leb_false→lt (seq + 1) s.through_offset new in
        rw (e, new, consume)
          (handle-IsStep floor (record s { through_offset = seq + 1 }) event.body event.time
            (omega (arith, ready.0, lt))
            (IsReady-IsBefore floor s.through_offset (seq + 1) s.attempt lt ready.1))
  ]
]

IsChain-le :
    (floor through : ℕ) (rs : List SettledRequestUsage) → IsChain floor through rs → floor ≤ through
IsChain-le floor through [] h = h
IsChain-le floor through (r ∷ rs) (begins, lasts, rest) =
    omega (arith, begins, lasts, IsChain-le r.end_offset through rs rest)

IsChain-IsThrough :
    (floor through : ℕ) (rs : List SettledRequestUsage)
    → IsChain floor through rs
    → All (IsThrough through) rs
IsChain-IsThrough floor through [] h = tt
IsChain-IsThrough floor through (r ∷ rs) (begins, lasts, rest) =
    (IsChain-le r.end_offset through rs rest, IsChain-IsThrough r.end_offset through rs rest)

collect_in_order :
    (floor : ℕ) (s : RequestUsageSettler) (events : List DshUsageEvent)
    → IsReady floor s
    → let (requests, last) = collect s events in IsChain floor last.through_offset requests
unfolding collect
collect_in_order floor s [] ready = ready.0
collect_in_order floor s (event ∷ events) ready =
    by_step (consume s event) (consume-IsStep floor s event ready)
      (λ f next h. collect_in_order f next events h)
  where
    by_step :
        (answer : Option SettledRequestUsage × RequestUsageSettler)
        → IsStep floor answer
        → ((f : ℕ) (next : RequestUsageSettler)
            → IsReady f next
            → IsChain f (collect next events).1.through_offset (collect next events).0)
        → let (later, last) = collect answer.1 events in
          let (requests, final) =
            elim answer.0 as (λ _. List SettledRequestUsage × RequestUsageSettler) [
              | none ↦ (later, last)
              | some r ↦ (r ∷ later, last)
            ] in
          IsChain floor final.through_offset requests
    by_step (none, next) ok_step rest = rest floor next ok_step
    by_step (some r, next) (begins, lasts, next_ready) rest =
        (begins, lasts, rest r.end_offset next next_ready)

-- From a settler that has reached an offset of at least `floor`, and whose open attempt, if any, began at or
-- after `floor` and no later than that offset, the requests that any run of events settles follow one another: each begins at or after the end of the one before, or `floor`, and ends after it
-- begins. All of them end no later than the offset that the settler has reached, as the ledger's batches want.
pub collect-IsChain :
    (floor : ℕ) (s : RequestUsageSettler) (events : List DshUsageEvent)
    → IsReady floor s
    → let (requests, last) = collect s events in
      IsChain floor last.through_offset requests × All (IsThrough last.through_offset) requests
collect-IsChain floor s events ready =
    let chain = collect_in_order floor s events ready in (chain, IsChain-IsThrough floor _ _ chain)
