-- ===== src/Host/UsageLedger/Watermarks.antt =====
-- The marks of src/host/usage-ledger.ts: cumulative observations, and the merge of two marks of one session.
use dsh_liangxiang.Prelude.{
  ℕ, ◌+◌, ◌≤◌, max, String, ◌≡◌, refl, sym, ap, ◌∙◌, inl, inr, false, Option, none, some, List, [],
  ◌∷◌, arith, ◌==◌, if◌then◌else◌, eq_of_test, Bool-cases, All,
}
use dsh_liangxiang.Host.UsageLedger.{
  SessionUsageWatermark, DailyUsageRecord, CumulativeUsage, SettledRequestUsage, SettledUsageBatch,
  Origin, or_zero, or_value, is_settled_in, merge_usage_watermark, fold_usage_observation, fences,
  credit_settled_usage_batch,
}
use dsh_liangxiang.Host.UsageLedger.Replays.{IsThrough, tally-none}

-- A run of observations of one session: the tokens that are credited for it, and the last mark.
pub observe_all : SessionUsageWatermark → List CumulativeUsage → ℕ × ℕ × SessionUsageWatermark
unfolding fold_usage_observation
observe_all mark [] = (0, 0, mark)
observe_all mark (seen ∷ later) =
    let folded = fold_usage_observation (some mark) seen in
    let (input, output, last) = observe_all folded.watermark later in
    (folded.delta_input + input, folded.delta_output + output, last)

abbrev pub highest : (CumulativeUsage → ℕ) → ℕ → List CumulativeUsage → ℕ
highest side start [] = start
highest side start (seen ∷ later) = highest side (max start (side seen)) later

-- Over any run of observations, replays and falling counts among them, the tokens credited on each side are
-- what the mark rises by, and the mark ends at the highest count observed, or where it began.
pub observe_all-telescopes :
    (mark : SessionUsageWatermark) (seen : List CumulativeUsage)
    → let (input, output, last) = observe_all mark seen in
      (mark.input_hwm + input ≡ last.input_hwm)
      × (mark.output_hwm + output ≡ last.output_hwm)
      × (last.input_hwm ≡ highest (λ u. u.input_tokens) mark.input_hwm seen)
      × (last.output_hwm ≡ highest (λ u. u.output_tokens) mark.output_hwm seen)
unfolding observe_all fold_usage_observation
observe_all-telescopes mark [] = (omega arith, omega arith, refl, refl)
observe_all-telescopes mark (seen ∷ later) =
    let folded = fold_usage_observation (some mark) seen in
    let (input, output, high_in, high_out) = observe_all-telescopes folded.watermark later in
    (omega (arith, input), omega (arith, output), high_in, high_out)

-- The settled fence is at least `offset` where it is so in the batch's own format.
pub fences-low :
    (mark : SessionUsageWatermark) (batch : SettledUsageBatch) (origin : Origin)
    → (or_zero mark.session_format ≡ or_zero batch.session_format
        → batch.through_offset
          ≤ or_value mark.settled_offset (or_value mark.baseline_offset batch.through_offset))
    → batch.through_offset ≤ (fences (some mark) batch origin).1
unfolding fences
fences-low mark batch origin h =
    elim (Bool-cases (or_zero mark.session_format == or_zero batch.session_format)) [
      | inl same ↦
          rw same (h (eq_of_test (or_zero mark.session_format) (or_zero batch.session_format) same))
      | inr other ↦ rw other omega arith
    ]

-- What a merge with a settled mark has, where it keeps that mark's format.
merged-settled :
    (mark right : SessionUsageWatermark) (s offset : ℕ)
    → mark.settled_offset ≡ some s
    → offset ≤ s
    → let merged = merge_usage_watermark mark right in
      or_zero merged.session_format ≡ or_zero mark.session_format
      → offset ≤ or_value merged.settled_offset (or_value merged.baseline_offset offset)
unfolding merge_usage_watermark
merged-settled mark right s offset e le =
    let format = max (or_zero mark.session_format) (or_zero right.session_format) in
    elim (Bool-cases (is_settled_in format mark)) [
      | inl kept ↦ rw (kept, e, merge_usage_watermark) (λ same. omega (arith, le))
      | inr gone ↦ elim (Bool-cases (is_settled_in format right)) [
        | inl kept ↦
            rw (gone, kept, merge_usage_watermark)
              (λ same. absurd (newer format (or_zero mark.session_format) same (rw e at gone)))
        | inr neither ↦ rw (gone, neither, merge_usage_watermark) (λ same. omega arith)
      ]
    ]
  where
    newer :
        (format own : ℕ)
        → or_zero (if format == 0 then none else some format) ≡ own
        → (own == format) ≡ false
        → ⊥
    newer format own same other = ground arith

-- Whatever is merged into a mark that has settled a batch, its fence stays at least at the batch's offset.
pub merged-fence :
    (mark right : SessionUsageWatermark) (batch : SettledUsageBatch) (origin : Origin) (s : ℕ)
    → mark.settled_offset ≡ some s
    → batch.through_offset ≤ s
    → mark.session_format ≡ batch.session_format
    → batch.through_offset ≤ (fences (some (merge_usage_watermark mark right)) batch origin).1
merged-fence mark right batch origin s e le f =
    fences-low (merge_usage_watermark mark right) batch origin
      (λ same. merged-settled mark right s batch.through_offset e le (same ∙ ap or_zero (sym f)))

pub IsThrough-le :
    (rs : List SettledRequestUsage) (s t : ℕ) → s ≤ t → All (IsThrough s) rs → All (IsThrough t) rs
IsThrough-le [] s t le h = tt
IsThrough-le (r ∷ rs) s t le h = (omega (arith, h.0, le), IsThrough-le rs s t le h.1)

-- After a batch is credited, any other mark of the session may be merged in: handing the same batch over with
-- the merged mark, in whatever way it comes and to whatever day, credits nothing, where its requests end by
-- the offset that it says it goes through.
pub merge-credit :
    (previous : Option SessionUsageWatermark) (day day' : DailyUsageRecord)
    (batch : SettledUsageBatch) (origin origin' : Origin) (date date' : String)
    (date_of : ℕ → String) (right : SessionUsageWatermark)
    → All (IsThrough batch.through_offset) batch.requests
    → let mark = (credit_settled_usage_batch previous day batch origin date date_of).0 in
      (credit_settled_usage_batch
        (some (merge_usage_watermark mark right))
        day'
        batch
        origin'
        date'
        date_of).1
      ≡ day'
unfolding credit_settled_usage_batch
merge-credit previous day day' batch origin origin' date date' date_of right h =
    let mark = (credit_settled_usage_batch previous day batch origin date date_of).0 in
    let merged = merge_usage_watermark mark right in
    let (baseline, settled) = fences (some merged) batch origin' in
    let fenced =
      merged-fence mark right batch origin'
        (max (fences previous batch origin).1 batch.through_offset) refl (omega arith) refl in
    ap (λ (acc : ℕ × ℕ × DailyUsageRecord). acc.2)
      (tally-none origin' date_of date' baseline settled batch.requests
        (merged.input_hwm, merged.output_hwm, day')
        (IsThrough-le batch.requests batch.through_offset settled fenced h))
