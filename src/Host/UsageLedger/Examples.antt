-- ===== src/Host/UsageLedger/Examples.antt =====
-- The usage ledger at concrete inputs.
use dsh_liangxiang.Prelude.{ℕ, String, ◌≡◌, none, some, List, [], ◌∷◌, arith}
use dsh_liangxiang.Host.UsageLedger.{
  CumulativeUsage, empty_daily_usage, SettledRequestUsage, catchup, live, mark_of,
  merge_usage_watermark, credit_settled_usage_batch,
}
use dsh_liangxiang.Host.UsageLedger.Replays.{credit_again, batch_of, credit-replay, credit-overlap}
use dsh_liangxiang.Host.UsageLedger.Watermarks.{merge-credit}

abbrev first_request : SettledRequestUsage
first_request = record {
  start_offset = 3;
  end_offset = 5;
  ended_at = 100;
  model = [];
  input_tokens = 1000;
  output_tokens = 500;
}

abbrev second_request : SettledRequestUsage
second_request = record {
  start_offset = 6;
  end_offset = 9;
  ended_at = 200;
  model = [];
  input_tokens = 10;
  output_tokens = 20;
}

abbrev day_of : ℕ → String
day_of instant = "2026-01-02"

credit-replay_example :
    let batch = batch_of none 9 (first_request ∷ second_request ∷ []) in
    let after =
      credit_settled_usage_batch none empty_daily_usage batch (live 2) "2026-01-02" day_of in
    credit_again after batch catchup "2026-01-02" day_of ≡ after
credit-replay_example =
    credit-replay none empty_daily_usage (batch_of none 9 (first_request ∷ second_request ∷ []))
      (live 2) catchup "2026-01-02" day_of (omega arith, (omega arith, tt))

credit-overlap_example :
    let both_at_once = batch_of none 9 (first_request ∷ second_request ∷ []) in
    credit_again
      (credit_settled_usage_batch none empty_daily_usage
        (batch_of none 5 (first_request ∷ []))
        (live 2)
        "2026-01-02"
        day_of)
      both_at_once
      (live 2)
      "2026-01-02"
      day_of
    ≡ credit_settled_usage_batch none empty_daily_usage both_at_once (live 2) "2026-01-02" day_of
credit-overlap_example =
    credit-overlap none empty_daily_usage (live 2) "2026-01-02" day_of none 5 9 (first_request ∷ [])
      (second_request ∷ []) tt (omega arith) (omega arith, tt) (omega arith, tt)

abbrev seen : List CumulativeUsage
seen =
    record { input_tokens = 30; output_tokens = 5 }
    ∷ record { input_tokens = 20; output_tokens = 6 }
    ∷ record { input_tokens = 40; output_tokens = 6 }
    ∷ []

merge-credit_example :
    let batch = batch_of none 5 (first_request ∷ []) in
    let mark =
      (credit_settled_usage_batch none empty_daily_usage batch (live 2) "2026-01-02" day_of).0 in
    (credit_settled_usage_batch
      (some (merge_usage_watermark mark (mark_of 0 0)))
      empty_daily_usage
      batch
      catchup
      "2026-01-02"
      day_of).1
    ≡ empty_daily_usage
merge-credit_example =
    merge-credit none empty_daily_usage empty_daily_usage (batch_of none 5 (first_request ∷ []))
      (live 2) catchup "2026-01-02" "2026-01-02" day_of (mark_of 0 0) (omega arith, tt)
