-- ===== src/Host/UsageProjection/Examples.antt =====
-- A session that is seen before its store is attached.
use dsh_liangxiang.Prelude.{
  ℕ, String, ◌≡◌, refl, true, false, none, List, [], ◌∷◌, arith, str_eq, nat, entry,
}
use dsh_liangxiang.Host.UsageLedger.{
  mark_of, merge_usage_watermark, fences, counts, credit_settled_usage_batch, SettledRequestUsage,
  SettledUsageBatch, live, empty_daily_usage,
}
use dsh_liangxiang.Host.UsageLedger.Replays.{batch_of}
use dsh_liangxiang.Host.UsageProjection.{
  UsageStore, UsageProjection, empty_projection, put_watermark, put_daily_usage, hydrate,
  record_for, has_credit, observe_settled, settled, buckets, DshTokenUsageBuckets,
  align_daily_bucket, Call, attached, observed, aligned, discarded, calls,
}
use dsh_liangxiang.Host.UsageProjection.Mirror.{IsMirrored}
use dsh_liangxiang.Host.UsageProjection.Runs.{calls-IsMirrored}
use dsh_liangxiang.Host.UsageProjection.Hydration.{hydrate-observe_settled}
use dsh_liangxiang.Host.UsageProjection.Alignment.{IsMoved, align_daily_bucket-IsMoved}

abbrev request : SettledRequestUsage
request = record {
  start_offset = 3;
  end_offset = 5;
  ended_at = 100;
  model = [];
  input_tokens = 10000;
  output_tokens = 5000;
}

abbrev batch : SettledUsageBatch
batch = batch_of none 5 (request ∷ [])

abbrev date_of : ℕ → String
date_of instant = "2026-01-02"

-- The store knows the session with an older mark, and another day.
abbrev store : UsageStore
store = record {
  watermarks = ("session", mark_of 7 7) ∷ [];
  daily = ("2026-01-01", record empty_daily_usage { input_tokens = 40 }) ∷ [];
}

abbrev noted : UsageProjection
noted = (observe_settled empty_projection "session" batch (live 2) "2026-01-02" date_of).0

credited_once :
    ((observe_settled empty_projection "session" batch (live 2) "2026-01-02" date_of).1 ≡ true)
    × ((observe_settled (hydrate noted store) "session" batch (live 0) "2026-01-02" date_of).1
        ≡ false)
unfolding observe_settled has_credit fences counts put_watermark put_daily_usage hydrate
    merge_usage_watermark credit_settled_usage_batch
credited_once = (refl, refl)

hydrate-observe_settled_example :
    let again =
      observe_settled (hydrate noted store) "session" batch (live 0) "2026-01-03" date_of in
    (again.1 ≡ false) × (again.0.daily ≡ (hydrate noted store).daily)
hydrate-observe_settled_example =
    hydrate-observe_settled empty_projection store "session" batch (live 2) (live 0) "2026-01-02"
      "2026-01-03" date_of (refl, tt) (omega arith, tt)

abbrev some_buckets : DshTokenUsageBuckets
some_buckets = record {
  uncached_input_tokens = nat 10;
  output_tokens = nat 20;
  cache_read_tokens = nat 5;
  cache_write_tokens = nat 0;
}

abbrev a_run : List Call
a_run =
    observed "session" (settled batch) (live 2) [] "" date_of 100
    ∷ (attached store
        ∷ (observed "other" (buckets some_buckets) (live 0) [] "2026-01-02" date_of 200
            ∷ (aligned "2026-01-03" "2026-01-02" ∷ (discarded ∷ []))))

calls-IsMirrored_example : IsMirrored (calls empty_projection a_run)
calls-IsMirrored_example =
    calls-IsMirrored a_run (tt, (((refl, tt), (refl, tt)), (tt, (tt, (tt, tt)))))

abbrev two_days : UsageProjection
two_days = record {
  watermarks = [];
  daily =
      ("2026-01-01", record empty_daily_usage { input_tokens = 40; output_tokens = 2 })
      ∷ (("2026-01-02", record empty_daily_usage { input_tokens = 3 }) ∷ []);
  sink = none;
}

align_daily_bucket-IsMoved_example :
    let q = align_daily_bucket two_days "2026-01-02" "2026-01-01" in
    IsMoved
      (record_for two_days "2026-01-02")
      (record_for two_days "2026-01-01")
      (record_for q "2026-01-02")
      (record_for q "2026-01-01")
    × ((date : String)
        → str_eq "2026-01-02" date ≡ false
        → str_eq "2026-01-01" date ≡ false
        → entry date q.daily ≡ entry date two_days.daily)
align_daily_bucket-IsMoved_example = align_daily_bucket-IsMoved two_days "2026-01-02" "2026-01-01"
