-- ===== src/Host/UsageLedger.antt =====
-- src/host/usage-ledger.ts, with the batch that src/compat/dsh/settled-usage.ts hands to it: the marks and the day's
-- record of observed usage. A day's observation instants are kept; the policy in a record is metadata and is
-- left out. The date of an instant is the caller's function, as in the source.
pub mod Watermarks
pub mod Replays
mod Examples
use dsh_liangxiang.Prelude.{
  ℕ, ◌+◌, ◌-◌, ◌/◌, min, max, String, Bool, true, ◌&&◌, Option, none, some, List, [], ◌∷◌, str_eq,
  ltb, ◌==◌, if◌then◌else◌, keep_where, both, is_some,
}
use dsh_liangxiang.Domain.IncenseWeight.{
  incense_weight_bps_for_model, scale_tokens_by_weight_bps, split_scaled_tokens,
}

pub record SessionUsageWatermark : Type 0 where
  pub input_hwm : ℕ
  pub output_hwm : ℕ
  pub settled_offset : Option ℕ
  pub baseline_offset : Option ℕ
  pub session_format : Option ℕ

-- `value ?? fallback`
abbrev pub or_value : Option ℕ → ℕ → ℕ
or_value none fallback = fallback
or_value (some n) fallback = n

abbrev pub or_zero : Option ℕ → ℕ
or_zero value = or_value value 0

-- The marks that are filtered in: with a settled offset, and of the newer format.
abbrev pub is_settled_in : ℕ → SessionUsageWatermark → Bool
is_settled_in format mark = is_some mark.settled_offset && (or_zero mark.session_format == format)

abbrev pub max_settled : List SessionUsageWatermark → ℕ
max_settled [] = 0
max_settled (mark ∷ marks) = max (or_zero mark.settled_offset) (max_settled marks)

abbrev pub min_baseline : SessionUsageWatermark → List SessionUsageWatermark → ℕ
min_baseline mark [] = or_zero mark.baseline_offset
min_baseline mark (next ∷ marks) = min (or_zero mark.baseline_offset) (min_baseline next marks)

unfoldable pub merge_usage_watermark :
    SessionUsageWatermark → SessionUsageWatermark → SessionUsageWatermark
merge_usage_watermark left right =
    let session_format = max (or_zero left.session_format) (or_zero right.session_format) in
    let merged : Option ℕ → Option ℕ → Option ℕ → SessionUsageWatermark = λ settled baseline format.
      record {
        input_hwm = max left.input_hwm right.input_hwm;
        output_hwm = max left.output_hwm right.output_hwm;
        settled_offset = settled;
        baseline_offset = baseline;
        session_format = format;
      } in
    elim (keep_where (is_settled_in session_format) (left ∷ right ∷ [])) [
      | [] ↦ merged none none none
      | mark ∷ marks ↦
          merged (some (max_settled (mark ∷ marks))) (some (min_baseline mark marks))
            (if session_format == 0 then none else some session_format)
    ]

-- A cumulative observation, already checked to be counts.
pub record CumulativeUsage : Type 0 where
  pub input_tokens : ℕ
  pub output_tokens : ℕ

pub record UsageFoldResult : Type 0 where
  pub watermark : SessionUsageWatermark
  pub delta_input : ℕ
  pub delta_output : ℕ

abbrev pub mark_of : ℕ → ℕ → SessionUsageWatermark
mark_of input output = record {
  input_hwm = input;
  output_hwm = output;
  settled_offset = none;
  baseline_offset = none;
  session_format = none;
}

pub fold_usage_observation : Option SessionUsageWatermark → CumulativeUsage → UsageFoldResult
fold_usage_observation none cumulative = record {
  watermark = mark_of cumulative.input_tokens cumulative.output_tokens;
  delta_input = 0;
  delta_output = 0;
}
fold_usage_observation (some previous) cumulative = record {
  watermark =
      mark_of (max previous.input_hwm cumulative.input_tokens)
        (max previous.output_hwm cumulative.output_tokens);
  delta_input = cumulative.input_tokens - previous.input_hwm;
  delta_output = cumulative.output_tokens - previous.output_hwm;
}

pub record DailyUsageRecord : Type 0 where
  pub input_tokens : ℕ
  pub output_tokens : ℕ
  pub weight_carry : ℕ
  pub observed_at : ℕ

abbrev pub empty_daily_usage : DailyUsageRecord
empty_daily_usage = record {
  input_tokens = 0;
  output_tokens = 0;
  weight_carry = 0;
  observed_at = 0;
}

unfoldable pub add_daily_usage : DailyUsageRecord → ℕ → ℕ → ℕ → DailyUsageRecord
add_daily_usage day delta_input delta_output observed_at = record day {
  input_tokens = day.input_tokens + delta_input;
  output_tokens = day.output_tokens + delta_output;
  observed_at = observed_at;
}

-- A missing model id is the empty one: neither is a route id, and both take the fallback weight.
pub credit_observed_usage : DailyUsageRecord → ℕ → ℕ → List ℕ → ℕ → DailyUsageRecord
credit_observed_usage day delta_input delta_output model_id observed_at =
    let (scaled, carry) =
      scale_tokens_by_weight_bps (delta_input + delta_output)
        (incense_weight_bps_for_model model_id) day.weight_carry in
    let (input, output) = split_scaled_tokens scaled delta_input delta_output in
    record {
      input_tokens = day.input_tokens + input;
      output_tokens = day.output_tokens + output;
      weight_carry = carry;
      observed_at = observed_at;
    }

pub record SettledRequestUsage : Type 0 where
  pub start_offset : ℕ
  pub end_offset : ℕ
  pub ended_at : ℕ
  pub model : List ℕ
  pub input_tokens : ℕ
  pub output_tokens : ℕ

pub record SettledUsageBatch : Type 0 where
  pub session_format : Option ℕ
  pub through_offset : ℕ
  pub requests : List SettledRequestUsage

-- UsageObservationOrigin
pub data Origin : Type 0 where
  catchup : Origin
  -- with the first live sequence number
  live : ℕ → Origin

abbrev pub first_baseline : Origin → ℕ → ℕ
first_baseline catchup through_offset = through_offset
first_baseline (live first_live_seq) through_offset = first_live_seq

-- The two offsets below which nothing is credited: the baseline and the settled one.
unfoldable pub fences : Option SessionUsageWatermark → SettledUsageBatch → Origin → ℕ × ℕ
fences none batch origin =
    let baseline = first_baseline origin batch.through_offset in (baseline, baseline)
fences (some previous) batch origin =
    if or_zero previous.session_format == or_zero batch.session_format
    then (let baseline = or_value previous.baseline_offset batch.through_offset in
        (baseline, or_value previous.settled_offset baseline))
    else (batch.through_offset, batch.through_offset)

abbrev pub is_today : Origin → (ℕ → String) → String → SettledRequestUsage → Bool
is_today catchup date_of business_date request = str_eq (date_of request.ended_at) business_date
is_today (live first_live_seq) date_of business_date request = true

-- The two `continue`s of the loop.
unfoldable pub counts : ℕ × ℕ → Origin → (ℕ → String) → String → SettledRequestUsage → Bool
counts (baseline, settled) origin date_of business_date request =
    ltb settled request.end_offset
    && ltb baseline request.start_offset
    && is_today origin date_of business_date request

abbrev pub tally :
    (SettledRequestUsage → Bool)
    → ℕ × ℕ × DailyUsageRecord
    → List SettledRequestUsage
    → ℕ × ℕ × DailyUsageRecord
tally test acc [] = acc
tally test (input, output, day) (r ∷ rs) =
    if test r
    then tally test
        (
          input + r.input_tokens,
          output + r.output_tokens,
          credit_observed_usage day r.input_tokens r.output_tokens r.model r.ended_at,
        )
        rs
    else tally test (input, output, day) rs

abbrev pub hwms : Option SessionUsageWatermark → ℕ × ℕ
hwms none = (0, 0)
hwms (some mark) = (mark.input_hwm, mark.output_hwm)

unfoldable pub credit_settled_usage_batch :
    Option SessionUsageWatermark
    → DailyUsageRecord
    → SettledUsageBatch
    → Origin
    → String
    → (ℕ → String)
    → SessionUsageWatermark × DailyUsageRecord
unfolding fences counts credit_observed_usage
credit_settled_usage_batch previous day batch origin business_date date_of =
    let (baseline, settled) = fences previous batch origin in
    let (input_before, output_before) = hwms previous in
    let (input, output, credited) =
      tally (counts (baseline, settled) origin date_of business_date)
        (input_before, output_before, day) batch.requests in
    (
      record {
        input_hwm = input;
        output_hwm = output;
        settled_offset = some (max settled batch.through_offset);
        baseline_offset = some baseline;
        session_format = batch.session_format;
      },
      credited,
    )
