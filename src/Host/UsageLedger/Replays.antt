-- ===== src/Host/UsageLedger/Replays.antt =====
-- src/host/usage-ledger.ts credits each settled request once, however the batches overlap.
use dsh_liangxiang.Prelude.{
  ℕ, ◌≤◌, ◌<◌, max, String, ◌≡◌, refl, sym, ap, ◌∙◌, inl, inr, Bool, true, ◌&&◌, Option, none, some,
  List, [], ◌∷◌, ◌++◌, arith, ltb, le→ltb_false, eq_test, Bool-cases, All, is_some,
}
use dsh_liangxiang.Host.UsageLedger.{
  SessionUsageWatermark, DailyUsageRecord, SettledRequestUsage, SettledUsageBatch, Origin, catchup,
  live, or_zero, fences, counts, is_today, tally, hwms, credit_settled_usage_batch,
}

-- A batch's offsets, as `isSettledUsageBatch` checks them.
abbrev pub IsThrough : ℕ → SettledRequestUsage → Type 0
IsThrough offset r = r.end_offset ≤ offset

abbrev pub IsAfter : ℕ → SettledRequestUsage → Type 0
IsAfter offset r = offset < r.end_offset

module _ (origin : Origin) (date_of : ℕ → String) (date : String) where
  pub tally-none :
      (baseline settled : ℕ) (rs : List SettledRequestUsage) (acc : ℕ × ℕ × DailyUsageRecord)
      → All (IsThrough settled) rs
      → tally (counts (baseline, settled) origin date_of date) acc rs ≡ acc
  unfolding counts
  tally-none baseline settled [] acc h = refl
  tally-none baseline settled (r ∷ rs) (i, o, d) h =
      rw (le→ltb_false settled r.end_offset h.0) (tally-none baseline settled rs (i, o, d) h.1)

  tally-append :
      (test : SettledRequestUsage → Bool) (rs ss : List SettledRequestUsage)
      (acc : ℕ × ℕ × DailyUsageRecord)
      → tally test acc (rs ++ ss) ≡ tally test (tally test acc rs) ss
  tally-append test [] ss acc = refl
  tally-append test (r ∷ rs) ss (i, o, d) = elim (Bool-cases (test r)) [
    | inl e ↦ rw e (tally-append test rs ss _)
    | inr e ↦ rw e (tally-append test rs ss (i, o, d))
  ]

  counts-raised :
      (baseline settled offset : ℕ) (r : SettledRequestUsage)
      → IsAfter offset r
      → counts (baseline, max settled offset) origin date_of date r
        ≡ counts (baseline, settled) origin date_of date r
  unfolding counts
  counts-raised baseline settled offset r h =
      ap (λ b. b && ltb baseline r.start_offset && is_today origin date_of date r)
        (raised settled offset r.end_offset h)
    where
      raised : (s o e : ℕ) → o < e → ltb (max s o) e ≡ ltb s e
      raised s o e h = ground arith

  -- A settled offset that is raised to where later requests begin changes nothing for them.
  tally-raised :
      (baseline settled offset : ℕ) (rs : List SettledRequestUsage) (acc : ℕ × ℕ × DailyUsageRecord)
      → All (IsAfter offset) rs
      → tally (counts (baseline, max settled offset) origin date_of date) acc rs
        ≡ tally (counts (baseline, settled) origin date_of date) acc rs
  tally-raised baseline settled offset [] acc h = refl
  tally-raised baseline settled offset (r ∷ rs) (i, o, d) h =
      elim (Bool-cases (counts (baseline, settled) origin date_of date r)) [
        | inl e ↦
            rw (counts-raised baseline settled offset r h.0, e)
              (tally-raised baseline settled offset rs _ h.1)
        | inr e ↦
            rw (counts-raised baseline settled offset r h.0, e)
              (tally-raised baseline settled offset rs (i, o, d) h.1)
      ]

pub IsThrough-max :
    (rs : List SettledRequestUsage) (s t : ℕ) → All (IsThrough t) rs → All (IsThrough (max s t)) rs
IsThrough-max [] s t h = tt
IsThrough-max (r ∷ rs) s t h = (omega (arith, h.0), IsThrough-max rs s t h.1)

-- The state after a batch: its mark is the next call's previous one.
abbrev pub credit_again :
    SessionUsageWatermark × DailyUsageRecord
    → SettledUsageBatch
    → Origin
    → String
    → (ℕ → String)
    → SessionUsageWatermark × DailyUsageRecord
credit_again (mark, day) batch origin date date_of =
    credit_settled_usage_batch (some mark) day batch origin date date_of

-- A batch that is handed over again, in whatever way it came, leaves the mark and the day's record as the
-- first hand-over left them, where its requests end by the offset that it says it goes through.
pub credit-replay :
    (previous : Option SessionUsageWatermark) (day : DailyUsageRecord) (batch : SettledUsageBatch)
    (origin origin' : Origin) (date : String) (date_of : ℕ → String)
    → All (IsThrough batch.through_offset) batch.requests
    → let after = credit_settled_usage_batch previous day batch origin date date_of in
      credit_again after batch origin' date date_of ≡ after
unfolding credit_settled_usage_batch fences
credit-replay previous day batch origin origin' date date_of h =
    let (baseline, settled) = fences previous batch origin in
    let acc =
      tally (counts (baseline, settled) origin date_of date)
        ((hwms previous).0, (hwms previous).1, day) batch.requests in
    let pair : ℕ → SessionUsageWatermark × DailyUsageRecord =
      λ s. (mark_at acc baseline s batch, acc.2) in
    rw
      (
        eq_test (or_zero batch.session_format) (or_zero batch.session_format) refl,
        tally-none origin' date_of date baseline (max settled batch.through_offset) batch.requests
            acc (IsThrough-max batch.requests settled batch.through_offset h),
      )
      (ap pair (max-max settled batch.through_offset))
  where
    mark_at : ℕ × ℕ × DailyUsageRecord → ℕ → ℕ → SettledUsageBatch → SessionUsageWatermark
    mark_at acc baseline s batch = record {
      input_hwm = acc.0;
      output_hwm = acc.1;
      settled_offset = some s;
      baseline_offset = some baseline;
      session_format = batch.session_format;
    }

    max-max : (s t : ℕ) → max (max s t) t ≡ max s t
    max-max s t = omega arith

-- The fence does not depend on how far a batch goes: a mark of the batch's format with a baseline, or no
-- mark and a live observation.
abbrev pub HasFence : Option SessionUsageWatermark → Option ℕ → Origin → Type 0
HasFence none format catchup = ⊥
HasFence none format (live first_live_seq) = Unit {0}
HasFence (some mark) format origin =
    (or_zero mark.session_format ≡ or_zero format) × (is_some mark.baseline_offset ≡ true)

abbrev pub batch_of : Option ℕ → ℕ → List SettledRequestUsage → SettledUsageBatch
batch_of format through requests = record {
  session_format = format;
  through_offset = through;
  requests = requests;
}

fences-fixed :
    (previous : Option SessionUsageWatermark) (format : Option ℕ) (origin : Origin) (s t : ℕ)
    (rs ss : List SettledRequestUsage)
    → HasFence previous format origin
    → fences previous (batch_of format s rs) origin ≡ fences previous (batch_of format t ss) origin
unfolding fences
fences-fixed none format catchup s t rs ss h = absurd h
fences-fixed none format (live n) s t rs ss h = refl
fences-fixed (some mark) format origin s t rs ss h = by_baseline mark.baseline_offset refl
  where
    by_baseline :
        (o : Option ℕ)
        → mark.baseline_offset ≡ o
        → fences (some mark) (batch_of format s rs) origin
          ≡ fences (some mark) (batch_of format t ss) origin
    by_baseline none e = cc (sym (ap is_some e) ∙ h.1)
    by_baseline (some b) e = rw (eq_test (or_zero mark.session_format) (or_zero format) h.0, e) refl

-- Two overlapping batches of one session format, in one origin and on one day, credit what the longer one
-- credits alone, and leave the same mark: where the shorter one's requests come first in the longer and end
-- by its offset, the others end after it, it goes no further than the longer one, and there is a mark of
-- that format with a baseline, or none and the observation is live.
pub credit-overlap :
    (previous : Option SessionUsageWatermark) (day : DailyUsageRecord) (origin : Origin)
    (date : String) (date_of : ℕ → String) (format : Option ℕ) (first last : ℕ)
    (earlier later : List SettledRequestUsage)
    → HasFence previous format origin
    → first ≤ last
    → All (IsThrough first) earlier
    → All (IsAfter first) later
    → let both_at_once = batch_of format last (earlier ++ later) in
      credit_again
        (credit_settled_usage_batch previous day
          (batch_of format first earlier)
          origin
          date
          date_of)
        both_at_once
        origin
        date
        date_of
      ≡ credit_settled_usage_batch previous day both_at_once origin date date_of
unfolding credit_settled_usage_batch fences
credit-overlap previous day origin date date_of format first last earlier later fence le h k =
    let (baseline, settled) = fences previous (batch_of format first earlier) origin in
    let start : ℕ × ℕ × DailyUsageRecord = ((hwms previous).0, (hwms previous).1, day) in
    let test = counts (baseline, settled) origin date_of date in
    let raised = counts (baseline, max settled first) origin date_of date in
    let acc = tally test start earlier in
    let again : tally raised acc (earlier ++ later) ≡ tally test acc later =
      tally-append origin date_of date raised earlier later acc
      ∙ ap (λ (a : ℕ × ℕ × DailyUsageRecord). tally raised a later)
          (tally-none origin date_of date baseline (max settled first) earlier acc
            (IsThrough-max earlier settled first h))
      ∙ tally-raised origin date_of date baseline settled first later acc k in
    let at_once : tally test start (earlier ++ later) ≡ tally test acc later =
      tally-append origin date_of date test earlier later start in
    rw
      (
        fences-fixed previous format origin last first (earlier ++ later) earlier fence,
        eq_test (or_zero format) (or_zero format) refl,
        again,
        at_once,
        further settled,
      )
      refl
  where
    further : (s : ℕ) → max (max s first) last ≡ max s last
    further s = omega (arith, le)
