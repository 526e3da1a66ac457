-- ===== src/Host/UsageProjection/Runs.antt =====
-- Runs of calls of src/host/usage-projection.ts.
use dsh_liangxiang.Prelude.{
  ℕ, String, inl, inr, Bool, true, false, ◌&&◌, ◌||◌, List, [], ◌∷◌, str_eq, ◌==◌, if◌then◌else◌,
  Bool-cases, Option-cases, All, or_else, entry,
}
use dsh_liangxiang.Host.UsageLedger.{
  SessionUsageWatermark, fold_usage_observation, CumulativeUsage, SettledUsageBatch, Origin,
  credit_settled_usage_batch, credit_observed_usage,
}
use dsh_liangxiang.Host.UsageProjection.{
  UsageProjection, empty_projection, put_watermark, record_for, has_credit, observe_settled,
  first_mark, is_moved, observe_cumulative, Observation, settled, buckets, malformed, date_for,
  normalize_dsh_token_usage, observe, joined_daily, align_daily_bucket, Call, attached, observed,
  aligned, discarded, call, calls,
}
use dsh_liangxiang.Host.UsageProjection.Mirror.{
  IsMirrored, IsStore, put_watermark-IsMirrored, put_daily_usage-IsMirrored,
  delete_daily_usage-IsMirrored, discard_daily_totals-IsMirrored, hydrate-IsMirrored,
}

observe_settled-IsMirrored :
    (p : UsageProjection) (session : String) (batch : SettledUsageBatch) (origin : Origin)
    (date : String) (date_of : ℕ → String)
    → IsMirrored p
    → IsMirrored (observe_settled p session batch origin date date_of).0
unfolding observe_settled
observe_settled-IsMirrored p session batch origin date date_of m =
    let previous = entry session p.watermarks in
    let (mark, credited) =
      credit_settled_usage_batch previous (record_for p date) batch origin date date_of in
    let noted = put_watermark-IsMirrored p session mark m in
    elim (Bool-cases (has_credit previous batch origin date_of date)) [
      | inl credit ↦ rw credit (put_daily_usage-IsMirrored _ date credited noted)
      | inr nothing ↦ rw nothing noted
    ]

observe_cumulative-IsMirrored :
    (p : UsageProjection) (session : String) (cumulative : CumulativeUsage) (origin : Origin)
    (model_id : List ℕ) (date : String) (now : ℕ)
    → IsMirrored p
    → IsMirrored (observe_cumulative p session cumulative origin model_id date now).0
unfolding observe_cumulative
observe_cumulative-IsMirrored p session cumulative origin model_id date now m =
    let previous = or_else (entry session p.watermarks) (first_mark origin) in
    let folded = fold_usage_observation previous cumulative in
    let moved = is_moved previous folded.watermark in
    let noted = if moved then put_watermark p session folded.watermark else p in
    let sound : IsMirrored noted = noted_lem moved folded.watermark in
    elim (Bool-cases (folded.delta_input == 0 && folded.delta_output == 0)) [
      | inl nothing ↦ rw nothing sound
      | inr credit ↦ rw credit (
          put_daily_usage-IsMirrored noted date
            (credit_observed_usage (record_for noted date) folded.delta_input folded.delta_output
              model_id now)
            sound)
    ]
  where
    noted_lem :
        (moved : Bool) (mark : SessionUsageWatermark)
        → IsMirrored (if moved then put_watermark p session mark else p)
    noted_lem true mark = put_watermark-IsMirrored p session mark m
    noted_lem false mark = m

align_daily_bucket-IsMirrored :
    (p : UsageProjection) (authoritative_date local_date : String)
    → IsMirrored p
    → IsMirrored (align_daily_bucket p authoritative_date local_date)
unfolding align_daily_bucket
align_daily_bucket-IsMirrored p to from m = elim (Bool-cases (str_eq to "" || str_eq from to)) [
  | inl same ↦ rw same m
  | inr other ↦ rw other (elim (Option-cases (entry from p.daily)) [
    | inl missing ↦ rw missing m
    | inr (source, held) ↦ rw held (
        delete_daily_usage-IsMirrored _ from
          (put_daily_usage-IsMirrored p to (joined_daily (record_for p to) source) m))
  ])
]

observe-IsMirrored :
    (p : UsageProjection) (session : String) (value : Observation) (origin : Origin)
    (model_id : List ℕ) (bucket_date : String) (date_of : ℕ → String) (now : ℕ)
    → IsMirrored p
    → IsMirrored (observe p session value origin model_id bucket_date date_of now).0
unfolding observe
observe-IsMirrored p session (settled batch) origin model_id bucket_date date_of now m =
    observe_settled-IsMirrored p session batch origin (date_for bucket_date date_of now) date_of m
observe-IsMirrored p session (buckets b) origin model_id bucket_date date_of now m =
    elim (Option-cases (normalize_dsh_token_usage b)) [
      | inl bad ↦ rw (bad, observe) m
      | inr (cumulative, good) ↦
          rw (good, observe)
            (observe_cumulative-IsMirrored p session cumulative origin model_id
              (date_for bucket_date date_of now) now m)
    ]
observe-IsMirrored p session malformed origin model_id bucket_date date_of now m = m

-- A store is attached only where no key stands twice in it.
abbrev pub IsAttachable : Call → Type 0
IsAttachable (attached store) = IsStore store
IsAttachable (observed session value origin model_id bucket_date date_of now) = Unit
IsAttachable (aligned authoritative_date local_date) = Unit
IsAttachable discarded = Unit

call-IsMirrored :
    (p : UsageProjection) (c : Call) → IsAttachable c → IsMirrored p → IsMirrored (call p c)
unfolding call
call-IsMirrored p (attached store) h m = hydrate-IsMirrored p store h m
call-IsMirrored p (observed session value origin model_id bucket_date date_of now) h m =
    observe-IsMirrored p session value origin model_id bucket_date date_of now m
call-IsMirrored p (aligned to from) h m = align_daily_bucket-IsMirrored p to from m
call-IsMirrored p discarded h m = discard_daily_totals-IsMirrored p m

calls-keep :
    (p : UsageProjection) (cs : List Call)
    → All IsAttachable cs
    → IsMirrored p
    → IsMirrored (calls p cs)
calls-keep p [] h m = m
calls-keep p (c ∷ cs) h m = calls-keep (call p c) cs h.1 (call-IsMirrored p c h.0 m)

-- From a fresh projection on, in any order of observations, alignments, discards and attachments of a
-- store with no key twice: the memory has no key twice, and once a store is attached, it has for each
-- session and each date just the entry that the memory has.
pub calls-IsMirrored :
    (cs : List Call) → All IsAttachable cs → IsMirrored (calls empty_projection cs)
calls-IsMirrored cs h =
    calls-keep empty_projection cs h (record { marks = tt; days = tt; mirrors = tt })
