-- ===== src/Host/DayEnd/Closing.antt =====
-- One closing intent for a day.
use dsh_liangxiang.Prelude.{
  ℕ, String, ◌≡◌, refl, sym, ◌∙◌, ◌⊎◌, inl, inr, Bool, true, false, not, ◌&&◌, ◌||◌, Option, none,
  some, List, [], ◌∷◌, str_eq, eq_iff, Number, nat, fraction, negative, infinite, negative_infinite,
  nan, is_safe, leb, Bool-cases, Option-cases, All, some-eq,
}
use dsh_liangxiang.Host.DayEnd.Timer.{update_schedule-Rests}
use dsh_liangxiang.Host.DayEnd.{
  DayEndJob, Mode, online, local, ByMode, at_mode, put_mode, DayEndState, Moment, ScheduleContext,
  Phase, idle, queued, refreshing, saving, voting, finishing, Machine, is_periodic, is_closing,
  in_window, can_prepare_vote, rest, pause, send, choose, accepted, rejected, unsettled,
  accepted_of, finish, complete, Event, timer, reached, written, refreshed, answered, failed,
  preferences, restart, switched, scheduled, same_bool, set_preferences, advance, step, log, run,
}

-- What an event sees of the day and the mode.
abbrev pub SeesDay : Mode → String → Event → Type 0
SeesDay mode date (timer ctx e) = (e.mode ≡ mode) × (e.business_date ≡ date)
SeesDay mode date (reached e) = (e.mode ≡ mode) × (e.business_date ≡ date)
SeesDay mode date (written e) = (e.mode ≡ mode) × (e.business_date ≡ date)
SeesDay mode date (refreshed e id) = (e.mode ≡ mode) × (e.business_date ≡ date)
SeesDay mode date (answered now a) = Unit
SeesDay mode date (failed now) = Unit
SeesDay mode date (preferences enabled vote_type) = Unit
SeesDay mode date restart = Unit
SeesDay mode date switched = Unit
SeesDay mode date (scheduled e) = Unit

-- A closing intent, not done.
pub record IsClosing (date : String) (job : DayEndJob) : Type 0 where
  pub dated : job.business_date ≡ date
  pub waits : job.done ≡ false
  pub closes : is_periodic job ≡ false

abbrev pub receipt : DayEndJob → DayEndJob
receipt job = record job { done = true }

abbrev pub PhaseKeeps : Mode → DayEndJob → Phase → Type 0
PhaseKeeps mode job idle = Unit
PhaseKeeps mode job (queued ctx) = Unit
PhaseKeeps mode job (refreshing ctx) = Unit
PhaseKeeps mode job (saving ctx other_mode other close) = ⊥
PhaseKeeps mode job (voting other_mode other) = (other_mode ≡ mode) × (other ≡ job)
PhaseKeeps mode job (finishing other_mode other n) = (other_mode ≡ mode) × (other ≡ job)

-- The saved state has the intent or its receipt, and no other intent is under way.
abbrev pub Keeps : Mode → DayEndJob → Machine → Type 0
Keeps mode job m =
    ((at_mode m.saved.jobs mode ≡ some job) ⊎ (at_mode m.saved.jobs mode ≡ some (receipt job)))
    × PhaseKeeps mode job m.phase

-- The same after an event, and what it has sent is the intent.
pub record StillKeeps (mode : Mode) (job : DayEndJob) (p : Machine × Option DayEndJob)
    : Type 0 where
  pub keeps : Keeps mode job p.0
  pub sends : (p.1 ≡ none) ⊎ (p.1 ≡ some job)

at_mode-put_mode {ℓ} :
    {A : Type ℓ} (m : ByMode A) (mode : Mode) (a : A) → at_mode (put_mode m mode a) mode ≡ some a
at_mode-put_mode m online a = refl
at_mode-put_mode m local a = refl

module _ (mode : Mode) (date : String) (job : DayEndJob) (c : IsClosing date job) where
  silent : (m : Machine) → Keeps mode job m → StillKeeps mode job (m, none)
  silent m kept = record { keeps = kept; sends = inl refl }

  send-StillKeeps :
      (m : Machine) (ctx : ScheduleContext) (e : Moment) (close : Bool)
      → at_mode m.saved.jobs mode ≡ some job
      → StillKeeps mode job (send m ctx e mode job close)
  send-StillKeeps m ctx e close stored =
      elim (Bool-cases (job.done || not (can_prepare_vote m ctx e))) [
        | inl stop ↦ unfold send in simp stop (silent (rest m) (inl stored, tt))
        | inr go ↦ elim (Bool-cases (not (is_periodic job) && not close)) [
          | inl legacy ↦ unfold send in simp (go, legacy) (silent (rest m) (inl stored, tt))
          | inr fine ↦
              unfold send in
              simp (go, fine) (record { keeps = (inl stored, (refl, refl)); sends = inr refl })
        ]
      ]

  choose-StillKeeps :
      (m : Machine) (ctx : ScheduleContext) (e : Moment) (id : String) (close : Bool)
      → e.mode ≡ mode
      → e.business_date ≡ date
      → (at_mode m.saved.jobs mode ≡ some job) ⊎ (at_mode m.saved.jobs mode ≡ some (receipt job))
      → StillKeeps mode job (choose m ctx e id close (at_mode m.saved.jobs e.mode))
  choose-StillKeeps m ctx e id close in_mode today (inl stored) =
      simp (in_mode, stored)
        (unfold choose in simp (same, c.waits, in_mode) (send-StillKeeps m ctx e close stored))
    where
      same : str_eq job.business_date e.business_date ≡ true
      same = (eq_iff job.business_date e.business_date).1 (c.dated ∙ sym today)
  choose-StillKeeps m ctx e id close in_mode today (inr stored) =
      simp (in_mode, stored)
        (unfold choose in simp (same, c.closes) (silent (rest m) (inr stored, tt)))
    where
      same : str_eq job.business_date e.business_date ≡ true
      same = (eq_iff job.business_date e.business_date).1 (c.dated ∙ sym today)

  finish-Keeps :
      (m : Machine) (now : ℕ) (n : Number)
      → (at_mode m.saved.jobs mode ≡ some job) ⊎ (at_mode m.saved.jobs mode ≡ some (receipt job))
      → Keeps mode job (finish m now mode job n)
  finish-Keeps m now (nat n) stored = elim (Bool-cases (is_safe n && leb n job.count)) [
    | inl fine ↦ rw fine (stored, (refl, refl))
    | inr wrong ↦ rw wrong (stored, tt)
  ]
  finish-Keeps m now (fraction n) stored = (stored, tt)
  finish-Keeps m now negative stored = (stored, tt)
  finish-Keeps m now infinite stored = (stored, tt)
  finish-Keeps m now negative_infinite stored = (stored, tt)
  finish-Keeps m now nan stored = (stored, tt)

  complete-stored :
      (s : DayEndState) (n : ℕ)
      → (at_mode s.jobs mode ≡ some job) ⊎ (at_mode s.jobs mode ≡ some (receipt job))
      → at_mode (complete s mode job n).jobs mode ≡ some (receipt job)
  complete-stored s n (inl stored) =
      simp (stored, same, c.waits) (at_mode-put_mode s.jobs mode (receipt job))
    where
      same : str_eq job.request_id job.request_id ≡ true
      same = (eq_iff job.request_id job.request_id).1 refl
  complete-stored s n (inr stored) = simp (stored, same) refl
    where
      same : str_eq job.request_id job.request_id ≡ true
      same = (eq_iff job.request_id job.request_id).1 refl

  advance-StillKeeps :
      (p : Phase) (m : Machine) (event : Event)
      → SeesDay mode date event
      → (at_mode m.saved.jobs mode ≡ some job) ⊎ (at_mode m.saved.jobs mode ≡ some (receipt job))
      → PhaseKeeps mode job p
      → PhaseKeeps mode job m.phase
      → StillKeeps mode job (advance p m event)
  unfolding advance
  advance-StillKeeps idle m (timer ctx e) sees stored ph now =
      elim (Bool-cases (in_window m ctx e)) [
        | inl inside ↦ simp inside (silent (record m { phase = queued ctx }) (stored, tt))
        | inr out ↦ simp out (silent m (stored, now))
      ]
  advance-StillKeeps (queued ctx) m (reached e) sees stored ph now =
      elim (Bool-cases (e.stopped || (not e.same_authority || e.changing_mode))) [
        | inl gone ↦ simp gone (silent (pause m e.now) (stored, tt))
        | inr here ↦ elim (Bool-cases (can_prepare_vote m ctx e)) [
          | inl can ↦ simp (here, can) (silent (record m { phase = refreshing ctx }) (stored, tt))
          | inr cannot ↦ simp (here, cannot) (silent (rest m) (stored, tt))
        ]
      ]
  advance-StillKeeps (refreshing ctx) m (refreshed e id) sees stored ph now =
      elim (Bool-cases (not (can_prepare_vote m ctx e) || not e.authority_available)) [
        | inl cannot ↦ simp cannot (silent (rest m) (stored, tt))
        | inr can ↦ elim (Option-cases e.timing) [
          | inl untimed ↦ rw (can, untimed) (silent (rest m) (stored, tt))
          | inr (t, timed) ↦
              rw (can, timed) (choose-StillKeeps m ctx e id (is_closing t) sees.0 sees.1 stored)
        ]
      ]
  advance-StillKeeps (saving ctx other_mode other close) m event sees stored ph now = absurd ph
  advance-StillKeeps (voting other_mode other) m (answered t (accepted taken spent)) sees stored ph
        now =
      rw (ph.0, ph.1) (silent _ (finish-Keeps m t (accepted_of taken spent) stored))
  advance-StillKeeps (voting other_mode other) m (answered t rejected) sees stored ph now =
      rw (ph.0, ph.1) (silent _ (finish-Keeps m t (nat 0) stored))
  advance-StillKeeps (voting other_mode other) m (answered t unsettled) sees stored ph now =
      silent (rest m) (stored, tt)
  advance-StillKeeps (finishing other_mode other n) m (written e) sees stored ph now =
      rw (ph.0, ph.1)
        (simp c.closes (
          silent (record m { phase = idle; saved = complete m.saved mode job n })
            (inr (complete-stored m.saved n stored), tt)))
  advance-StillKeeps idle m (refreshed e id) sees stored ph now = silent m (stored, now)
  advance-StillKeeps (queued ctx) m (failed t) sees stored ph now = silent (pause m t) (stored, tt)
  advance-StillKeeps (refreshing ctx) m (failed t) sees stored ph now =
      silent (pause m t) (stored, tt)
  advance-StillKeeps (voting a b) m (failed t) sees stored ph now = silent (pause m t) (stored, tt)
  advance-StillKeeps (finishing a b n) m (failed t) sees stored ph now =
      silent (pause m t) (stored, tt)
  advance-StillKeeps idle m _ sees stored ph now = silent m (stored, now)
  advance-StillKeeps (queued ctx) m _ sees stored ph now = silent m (stored, now)
  advance-StillKeeps (refreshing ctx) m _ sees stored ph now = silent m (stored, now)
  advance-StillKeeps (voting a b) m _ sees stored ph now = silent m (stored, now)
  advance-StillKeeps (finishing a b n) m _ sees stored ph now = silent m (stored, now)

  step-StillKeeps :
      (m : Machine) (event : Event)
      → SeesDay mode date event
      → Keeps mode job m
      → StillKeeps mode job (step m event)
  unfolding step set_preferences
  step-StillKeeps m (preferences enabled vote_type) sees kept =
      elim (Bool-cases (same_bool m.saved.enabled enabled)) [
        | inl same ↦ simp same (silent _ kept)
        | inr other ↦ simp other (silent _ kept)
      ]
  step-StillKeeps m restart sees kept = silent _ (kept.0, tt)
  step-StillKeeps m switched sees kept = silent _ kept
  step-StillKeeps m (scheduled e) sees kept =
      silent _ (let same = update_schedule-Rests m e in (rw same.0 kept.0, rw same.1 kept.1))
  step-StillKeeps m (timer ctx e) sees kept =
      advance-StillKeeps m.phase m (timer ctx e) sees kept.0 kept.1 kept.1
  step-StillKeeps m (reached e) sees kept =
      advance-StillKeeps m.phase m (reached e) sees kept.0 kept.1 kept.1
  step-StillKeeps m (written e) sees kept =
      advance-StillKeeps m.phase m (written e) sees kept.0 kept.1 kept.1
  step-StillKeeps m (refreshed e id) sees kept =
      advance-StillKeeps m.phase m (refreshed e id) sees kept.0 kept.1 kept.1
  step-StillKeeps m (answered t a) sees kept =
      advance-StillKeeps m.phase m (answered t a) sees kept.0 kept.1 kept.1
  step-StillKeeps m (failed t) sees kept =
      advance-StillKeeps m.phase m (failed t) sees kept.0 kept.1 kept.1

  -- Once a closing intent is saved, for any events that see the mode and the date of that intent,
  -- restarts, failures and changed preferences included: each vote that is sent is this intent itself,
  -- with its request, case, direction and count, and the saved state keeps the intent or its receipt.
  pub run-Keeps :
      (m : Machine) (events : List Event)
      → All (SeesDay mode date) events
      → Keeps mode job m
      → All (λ vote. vote ≡ job) (run m events).1 × Keeps mode job (run m events).0
  unfolding run
  run-Keeps m [] sees kept = (tt, kept)
  run-Keeps m (event ∷ events) sees kept =
      let still = step-StillKeeps m event sees.0 kept in
      let (votes, last) = run-Keeps (step m event).0 events sees.1 still.keeps in
      (logged (step m event).1 still.sends (run (step m event).0 events).1 votes, last)
    where
      logged :
          (o : Option DayEndJob)
          → (o ≡ none) ⊎ (o ≡ some job)
          → (sent : List DayEndJob) → All (λ vote. vote ≡ job) sent
          → All (λ vote. vote ≡ job) (log o sent)
      logged none _ sent all = all
      logged (some vote) (inl h) sent all = cc
      logged (some vote) (inr h) sent all = (some-eq h, all)
