-- ===== src/Host/UsageProjection.antt =====
-- src/host/usage-projection.ts, with the buckets of src/compat/dsh/token-usage.ts: the marks of the sessions and the
-- days' records in memory, and the store behind them, to which each change is passed on. The clock, the
-- date of an instant and the model's id are arguments. An observed value is given as the two tests of
-- its shape sort it; `isSettledUsageBatch` itself is left to the caller.
pub mod Mirror
pub mod Runs
pub mod Hydration
pub mod Alignment
mod Examples
use dsh_liangxiang.Prelude.{
  ℕ, zero, suc, ◌+◌, ◌-◌, ◌/◌, max, String, Bool, true, false, not, ◌&&◌, ◌||◌, Option, none, some,
  List, [], ◌∷◌, str_eq, Number, nat, is_safe, ◌==◌, if◌then◌else◌, find, or_else, map_option,
  is_some, Table, entry, put, erase, put_all, erase_all, merge_all,
}
use dsh_liangxiang.Host.UsageLedger.{
  SessionUsageWatermark, mark_of, merge_usage_watermark, CumulativeUsage, fold_usage_observation,
  DailyUsageRecord, empty_daily_usage, credit_observed_usage, SettledUsageBatch, Origin, catchup,
  live, fences, counts, credit_settled_usage_batch,
}

-- What the persisted maps hold.
pub record UsageStore : Type 0 where
  pub watermarks : Table SessionUsageWatermark
  pub daily : Table DailyUsageRecord

pub record UsageProjection : Type 0 where
  pub watermarks : Table SessionUsageWatermark
  pub daily : Table DailyUsageRecord
  -- what the sink has written, once there is one
  pub sink : Option UsageStore

abbrev pub empty_projection : UsageProjection
empty_projection = record { watermarks = []; daily = []; sink = none }

-- `this.watermarks.set` and `this.sink?.putWatermark`
unfoldable pub put_watermark : UsageProjection → String → SessionUsageWatermark → UsageProjection
put_watermark p session mark = record p {
  watermarks = put session mark p.watermarks;
  sink =
      map_option (λ (s : UsageStore). record s { watermarks = put session mark s.watermarks })
        p.sink;
}

unfoldable pub put_daily_usage : UsageProjection → String → DailyUsageRecord → UsageProjection
put_daily_usage p date day = record p {
  daily = put date day p.daily;
  sink = map_option (λ (s : UsageStore). record s { daily = put date day s.daily }) p.sink;
}

unfoldable pub delete_daily_usage : UsageProjection → String → UsageProjection
delete_daily_usage p date = record p {
  daily = erase date p.daily;
  sink = map_option (λ (s : UsageStore). record s { daily = erase date s.daily }) p.sink;
}

abbrev pub merged_watermark :
    Option SessionUsageWatermark → SessionUsageWatermark → SessionUsageWatermark
merged_watermark none persisted = persisted
merged_watermark (some current) persisted = merge_usage_watermark current persisted

abbrev pub merged_daily : Option DailyUsageRecord → DailyUsageRecord → DailyUsageRecord
merged_daily none persisted = persisted
merged_daily (some current) persisted = record {
  input_tokens = max current.input_tokens persisted.input_tokens;
  output_tokens = max current.output_tokens persisted.output_tokens;
  weight_carry = max current.weight_carry persisted.weight_carry;
  observed_at = max current.observed_at persisted.observed_at;
}

-- The maps handed over are those that the store holds.
unfoldable pub hydrate : UsageProjection → UsageStore → UsageProjection
hydrate p store =
    let watermarks = merge_all merged_watermark store.watermarks p.watermarks in
    let daily = merge_all merged_daily store.daily p.daily in
    record {
      watermarks = watermarks;
      daily = daily;
      sink = some (record {
        watermarks = put_all watermarks store.watermarks;
        daily = put_all daily store.daily;
      });
    }

abbrev pub record_of : Option DailyUsageRecord → DailyUsageRecord
record_of none = empty_daily_usage
record_of (some day) = day

abbrev pub record_for : UsageProjection → String → DailyUsageRecord
record_for p date = record_of (entry date p.daily)

-- Whether a request is counted: the loop then makes a new record, which is how the source sees it.
unfoldable pub has_credit :
    Option SessionUsageWatermark → SettledUsageBatch → Origin → (ℕ → String) → String → Bool
has_credit previous batch origin date_of date =
    is_some (find (counts (fences previous batch origin) origin date_of date) batch.requests)

unfoldable pub observe_settled :
    UsageProjection
    → String
    → SettledUsageBatch
    → Origin
    → String
    → (ℕ → String)
    → UsageProjection × Bool
observe_settled p session batch origin date date_of =
    let previous = entry session p.watermarks in
    let (mark, credited) =
      credit_settled_usage_batch previous (record_for p date) batch origin date date_of in
    let noted = put_watermark p session mark in
    if has_credit previous batch origin date_of date
    then (put_daily_usage noted date credited, true)
    else (noted, false)

pub record DshTokenUsageBuckets : Type 0 where
  pub uncached_input_tokens : Number
  pub output_tokens : Number
  pub cache_read_tokens : Number
  pub cache_write_tokens : Number

abbrev pub bucket_count : Number → Option ℕ
bucket_count (nat n) = if is_safe n then some n else none
bucket_count _ = none

-- isDshTokenUsageBuckets and normalizeDshTokenUsage
abbrev pub cumulative_of : Option ℕ → Option ℕ → Option ℕ → Option ℕ → Option CumulativeUsage
cumulative_of (some uncached) (some output) (some read) (some written) =
    some (record { input_tokens = uncached + read + written; output_tokens = output })
cumulative_of _ _ _ _ = none

unfoldable pub normalize_dsh_token_usage : DshTokenUsageBuckets → Option CumulativeUsage
normalize_dsh_token_usage b =
    cumulative_of (bucket_count b.uncached_input_tokens) (bucket_count b.output_tokens)
      (bucket_count b.cache_read_tokens) (bucket_count b.cache_write_tokens)

pub data Observation : Type 0 where
  settled : SettledUsageBatch → Observation
  buckets : DshTokenUsageBuckets → Observation
  -- neither
  malformed : Observation

-- An unknown session that is live from its start begins at zero.
abbrev pub first_mark : Origin → Option SessionUsageWatermark
first_mark catchup = none
first_mark (live zero) = some (mark_of 0 0)
first_mark (live (suc n)) = none

abbrev pub is_moved : Option SessionUsageWatermark → SessionUsageWatermark → Bool
is_moved none mark = true
is_moved (some previous) mark =
    not (mark.input_hwm == previous.input_hwm) || not (mark.output_hwm == previous.output_hwm)

unfoldable pub observe_cumulative :
    UsageProjection
    → String
    → CumulativeUsage
    → Origin
    → List ℕ
    → String
    → ℕ
    → UsageProjection × Bool
observe_cumulative p session cumulative origin model_id date now =
    let previous = or_else (entry session p.watermarks) (first_mark origin) in
    let folded = fold_usage_observation previous cumulative in
    let noted =
      if is_moved previous folded.watermark then put_watermark p session folded.watermark else p in
    if folded.delta_input == 0 && folded.delta_output == 0 then (noted, false) else (
      put_daily_usage noted date (
          credit_observed_usage (record_for noted date) folded.delta_input folded.delta_output
            model_id now),
      true,
    )

-- The bucket's date, or today's where none is given.
abbrev pub date_for : String → (ℕ → String) → ℕ → String
date_for bucket_date date_of now = if str_eq bucket_date "" then date_of now else bucket_date

unfoldable pub observe :
    UsageProjection
    → String
    → Observation
    → Origin
    → List ℕ
    → String
    → (ℕ → String)
    → ℕ
    → UsageProjection × Bool
observe p session (settled batch) origin model_id bucket_date date_of now =
    observe_settled p session batch origin (date_for bucket_date date_of now) date_of
observe p session (buckets b) origin model_id bucket_date date_of now =
    elim (normalize_dsh_token_usage b) [
      | none ↦ (p, false)
      | some cumulative ↦
          observe_cumulative p session cumulative origin model_id (date_for bucket_date date_of now)
            now
    ]
observe p session malformed origin model_id bucket_date date_of now = (p, false)

abbrev pub is_blank : DailyUsageRecord → Bool
is_blank day = day.input_tokens == 0 && day.output_tokens == 0

abbrev pub joined_daily : DailyUsageRecord → DailyUsageRecord → DailyUsageRecord
joined_daily dest source = if is_blank dest then source else record {
  input_tokens = dest.input_tokens + source.input_tokens;
  output_tokens = dest.output_tokens + source.output_tokens;
  weight_carry = dest.weight_carry + source.weight_carry;
  observed_at = max dest.observed_at source.observed_at;
}

unfoldable pub align_daily_bucket : UsageProjection → String → String → UsageProjection
align_daily_bucket p authoritative_date local_date =
    if str_eq authoritative_date "" || str_eq local_date authoritative_date
    then p
    else elim (entry local_date p.daily) [
      | none ↦ p
      | some source ↦
          delete_daily_usage
            (put_daily_usage p authoritative_date
              (joined_daily (record_for p authoritative_date) source))
            local_date
    ]

unfoldable pub discard_daily_totals : UsageProjection → UsageProjection
discard_daily_totals p = record p {
  daily = [];
  sink = map_option (λ (s : UsageStore). record s { daily = erase_all p.daily s.daily }) p.sink;
}

-- What may be called, with what each call reads of the world.
pub data Call : Type 0 where
  attached : UsageStore → Call
  observed : String → Observation → Origin → List ℕ → String → (ℕ → String) → ℕ → Call
  aligned : String → String → Call
  discarded : Call

unfoldable pub call : UsageProjection → Call → UsageProjection
call p (attached store) = hydrate p store
call p (observed session value origin model_id bucket_date date_of now) =
    (observe p session value origin model_id bucket_date date_of now).0
call p (aligned authoritative_date local_date) = align_daily_bucket p authoritative_date local_date
call p discarded = discard_daily_totals p

abbrev pub calls : UsageProjection → List Call → UsageProjection
calls p [] = p
calls p (c ∷ cs) = calls (call p c) cs
