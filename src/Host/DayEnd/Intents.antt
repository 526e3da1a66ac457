-- ===== src/Host/DayEnd/Intents.antt =====
-- The intent that is sent is the one that was saved, and a closing intent is the only one of its day.
use dsh_liangxiang.Prelude.{
  ℕ, String, ◌≡◌, refl, inl, inr, Bool, true, false, not, ◌&&◌, ◌||◌, Option, none, some, arith,
  str_eq, Number, Bool-cases, Option-cases, some-eq, subst,
}
use dsh_liangxiang.Host.DayEnd.{
  DayEndJob, Mode, online, local, ByMode, at_mode, put_mode, Moment, ScheduleContext, Phase, idle,
  queued, refreshing, saving, voting, finishing, Machine, is_periodic, is_closing, in_window,
  can_prepare_vote, send, prepare, choose, accepted, rejected, unsettled, finish, Event, timer,
  reached, written, refreshed, answered, failed, preferences, restart, switched, scheduled, advance,
  step,
}

at_mode-put_mode {ℓ} :
    {A : Type ℓ} (m : ByMode A) (mode : Mode) (a : A) → at_mode (put_mode m mode a) mode ≡ some a
at_mode-put_mode m online a = refl
at_mode-put_mode m local a = refl

-- A vote that has just been sent: it waits for its answer, it is no receipt, and the saved state
-- has it.
pub record IsSaved (m : Machine) (job : DayEndJob) : Type 0 where
  pub mode : Mode
  pub phase_is : m.phase ≡ voting mode job
  pub stored : at_mode m.saved.jobs mode ≡ some job
  pub pending : job.done ≡ false

abbrev Sends : Machine × Option DayEndJob → Type 0
Sends (m, none) = Unit
Sends (m, some job) = IsSaved m job

send-Sends :
    (m : Machine) (ctx : ScheduleContext) (e : Moment) (mode : Mode) (job : DayEndJob)
    (close : Bool)
    → at_mode m.saved.jobs mode ≡ some job
    → Sends (send m ctx e mode job close)
unfolding send
send-Sends m ctx e mode job close stored =
    elim (Bool-cases (job.done || not (can_prepare_vote m ctx e))) [
      | inl stop ↦ rw stop tt
      | inr go ↦ elim (Bool-cases (not (is_periodic job) && not close)) [
        | inl legacy ↦ rw (go, legacy) tt
        | inr fine ↦
            rw (go, fine)
              (record {
                mode = mode;
                phase_is = refl;
                stored = stored;
                pending = first job.done _ go;
              })
      ]
    ]
  where
    first : (a b : Bool) → (a || b) ≡ false → a ≡ false
    first true b h = cc
    first false b h = refl

prepare-Sends :
    (m : Machine) (ctx : ScheduleContext) (e : Moment) (id : String) (close : Bool)
    → (prepare m ctx e id close).1 ≡ none
unfolding prepare
prepare-Sends m ctx e id close = ground arith

prepared-Sends :
    (m : Machine) (ctx : ScheduleContext) (e : Moment) (id : String) (close : Bool)
    → Sends (prepare m ctx e id close)
prepared-Sends m ctx e id close =
    none_sent (prepare m ctx e id close) (prepare-Sends m ctx e id close)
  where
    none_sent : (p : Machine × Option DayEndJob) → p.1 ≡ none → Sends p
    none_sent (m, none) h = tt
    none_sent (m, some job) h = cc

choose-Sends :
    (m : Machine) (ctx : ScheduleContext) (e : Moment) (id : String) (close : Bool)
    → Sends (choose m ctx e id close (at_mode m.saved.jobs e.mode))
choose-Sends m ctx e id close = go (at_mode m.saved.jobs e.mode) refl
  where
    go :
        (o : Option DayEndJob) → at_mode m.saved.jobs e.mode ≡ o → Sends (choose m ctx e id close o)
    go none stored = unfold choose in prepared-Sends m ctx e id close
    go (some job) stored = elim (Bool-cases (str_eq job.business_date e.business_date)) [
      | inr old ↦ unfold choose in rw old (prepared-Sends m ctx e id close)
      | inl today ↦ elim (Bool-cases job.done) [
        | inr waits ↦
            unfold choose in simp (today, waits) (send-Sends m ctx e e.mode job close stored)
        | inl done ↦ elim (Bool-cases (is_periodic job)) [
          | inl again ↦ unfold choose in rw (today, done, again) (prepared-Sends m ctx e id close)
          | inr over ↦ unfold choose in rw (today, done, over) tt
        ]
      ]
    ]

finish-Sends :
    (m : Machine) (now : ℕ) (mode : Mode) (job : DayEndJob) (n : Number)
    → Sends (finish m now mode job n, none)
finish-Sends m now mode job n = tt

advance-Sends : (p : Phase) (m : Machine) (event : Event) → Sends (advance p m event)
unfolding advance
advance-Sends idle m (timer ctx e) = elim (Bool-cases (in_window m ctx e)) [
  | inl inside ↦ rw inside tt
  | inr out ↦ rw out tt
]
advance-Sends (queued ctx) m (reached e) =
    elim (Bool-cases (e.stopped || (not e.same_authority || e.changing_mode))) [
      | inl gone ↦ rw gone tt
      | inr here ↦ elim (Bool-cases (can_prepare_vote m ctx e)) [
        | inl can ↦ rw (here, can) tt
        | inr cannot ↦ rw (here, cannot) tt
      ]
    ]
advance-Sends (refreshing ctx) m (refreshed e id) =
    elim (Bool-cases (not (can_prepare_vote m ctx e) || not e.authority_available)) [
      | inl cannot ↦ rw cannot tt
      | inr can ↦ elim (Option-cases e.timing) [
        | inl untimed ↦ rw (can, untimed) tt
        | inr (t, timed) ↦ rw (can, timed) (choose-Sends m ctx e id (is_closing t))
      ]
    ]
advance-Sends (saving ctx mode job close) m (written e) =
    send-Sends _ ctx e mode job close (at_mode-put_mode m.saved.jobs mode job)
advance-Sends (finishing mode job n) m (written e) = elim (Bool-cases (is_periodic job)) [
  | inl again ↦ rw again tt
  | inr over ↦ rw over tt
]
advance-Sends (voting mode job) m (answered now (accepted taken spent)) = tt
advance-Sends (voting mode job) m (answered now rejected) = tt
advance-Sends (voting mode job) m (answered now unsettled) = tt
advance-Sends idle m _ = tt
advance-Sends (queued ctx) m _ = tt
advance-Sends (refreshing ctx) m _ = tt
advance-Sends (saving ctx mode job close) m _ = tt
advance-Sends (voting mode job) m _ = tt
advance-Sends (finishing mode job n) m _ = tt

-- A vote is sent only when its intent is saved: the saved state holds this very job for its mode, not
-- done, and the machine waits for its answer.
pub step-IsSaved :
    (m : Machine) (event : Event) (job : DayEndJob)
    → (step m event).1 ≡ some job
    → IsSaved (step m event).0 job
step-IsSaved m event job sent = taken (step m event) (all m event) sent
  where
    taken : (p : Machine × Option DayEndJob) → Sends p → p.1 ≡ some job → IsSaved p.0 job
    taken (m, none) s h = cc
    taken (m, some j) s h = subst (IsSaved m) (some-eq h) s

    all : (m : Machine) (event : Event) → Sends (step m event)
    all m (preferences enabled vote_type) = unfold step in tt
    all m restart = unfold step in tt
    all m switched = unfold step in tt
    all m (scheduled e) = unfold step in tt
    all m (timer ctx e) = unfold step in advance-Sends m.phase m (timer ctx e)
    all m (reached e) = unfold step in advance-Sends m.phase m (reached e)
    all m (written e) = unfold step in advance-Sends m.phase m (written e)
    all m (refreshed e id) = unfold step in advance-Sends m.phase m (refreshed e id)
    all m (answered now a) = unfold step in advance-Sends m.phase m (answered now a)
    all m (failed now) = unfold step in advance-Sends m.phase m (failed now)
