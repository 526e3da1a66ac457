-- ===== src/Host/UsageProjection/Alignment.antt =====
-- `alignDailyBucket` of src/host/usage-projection.ts moves usage between days and loses none.
use dsh_liangxiang.Prelude.{
  ◌+◌, String, ◌≡◌, refl, ◌∙◌, inl, inr, false, ◌||◌, Option, none, some, arith, str_eq, eq_iff,
  if◌then◌else◌, Bool-cases, Option-cases, entry, put, erase, entry-put, entry-erase,
}
use dsh_liangxiang.Host.UsageLedger.{DailyUsageRecord, empty_daily_usage}
use dsh_liangxiang.Host.UsageProjection.{
  UsageProjection, put_daily_usage, delete_daily_usage, record_for, joined_daily,
  align_daily_bucket,
}

-- Both sums of the two days.
abbrev pub IsMoved :
    DailyUsageRecord → DailyUsageRecord → DailyUsageRecord → DailyUsageRecord → Type 0
IsMoved to from to' from' =
    (to'.input_tokens + from'.input_tokens ≡ to.input_tokens + from.input_tokens)
    × (to'.output_tokens + from'.output_tokens ≡ to.output_tokens + from.output_tokens)

joined_daily-IsMoved :
    (dest source : DailyUsageRecord)
    → IsMoved dest source (joined_daily dest source) empty_daily_usage
joined_daily-IsMoved dest source = ground arith

-- Over every outcome: the input and the output tokens of the two days together stay what they were, and the
-- record of every other day is untouched.
pub align_daily_bucket-IsMoved :
    (p : UsageProjection) (to from : String)
    → let q = align_daily_bucket p to from in
      IsMoved (record_for p to) (record_for p from) (record_for q to) (record_for q from)
      × ((date : String)
          → str_eq to date ≡ false
          → str_eq from date ≡ false
          → entry date q.daily ≡ entry date p.daily)
unfolding align_daily_bucket delete_daily_usage put_daily_usage
align_daily_bucket-IsMoved p to from = elim (Bool-cases (str_eq to "" || str_eq from to)) [
  | inl same ↦ rw (same, align_daily_bucket) ((refl, refl), λ date a b. refl)
  | inr other ↦ elim (Option-cases (entry from p.daily)) [
    | inl missing ↦
        still (align_daily_bucket p to from) (rw (other, missing, align_daily_bucket) refl)
    | inr (source, held) ↦
        rw (other, held, align_daily_bucket) (moved source (ground (arith, other)))
  ]
]
  where
    still :
        (q : UsageProjection)
        → q ≡ p
        → IsMoved (record_for p to) (record_for p from) (record_for q to) (record_for q from)
          × ((date : String)
              → str_eq to date ≡ false
              → str_eq from date ≡ false
              → entry date q.daily ≡ entry date p.daily)
    still q same = rw same ((refl, refl), λ date a b. refl)

    after : DailyUsageRecord → String → Option DailyUsageRecord
    after source date =
        entry date (erase from (put to (joined_daily (record_for p to) source) p.daily))

    after_eq :
        (source : DailyUsageRecord) (date : String)
        → after source date ≡ (
            if str_eq from date
            then none
            else (if str_eq to date
                then some (joined_daily (record_for p to) source)
                else entry date p.daily))
    after_eq source date =
        entry-erase date from (put to (joined_daily (record_for p to) source) p.daily)
        ∙ rw (entry-put date to (joined_daily (record_for p to) source) p.daily) refl

    moved :
        (source : DailyUsageRecord)
        → str_eq from to ≡ false
        → let q =
            delete_daily_usage
              (put_daily_usage p to (joined_daily (record_for p to) source))
              from in
          IsMoved (record_for p to) source (record_for q to) (record_for q from)
          × ((date : String)
              → str_eq to date ≡ false
              → str_eq from date ≡ false
              → entry date q.daily ≡ entry date p.daily)
    moved source differ = (
      rw
          (
            after_eq source to,
            after_eq source from,
            differ,
            (eq_iff to to).1 refl,
            (eq_iff from from).1 refl,
          )
          (joined_daily-IsMoved (record_for p to) source),
      λ date a b. after_eq source date ∙ rw (b, a) refl,
    )
