-- ===== src/Host/UsageProjection/Hydration.antt =====
-- What is observed before the store is attached to src/host/usage-projection.ts is not credited again after.
use dsh_liangxiang.Prelude.{
  ℕ, ◌≤◌, max, String, ◌≡◌, refl, sym, ap, ◌∙◌, inl, inr, false, Option, none, some, List, [], ◌∷◌,
  map, arith, eq_iff, le→ltb_false, Bool-cases, find, All, subst, entry, put, IsMap, entry-put,
  merged_entry, entry-merge_all,
}
use dsh_liangxiang.Host.UsageLedger.{
  SessionUsageWatermark, fences, counts, credit_settled_usage_batch, SettledRequestUsage,
  SettledUsageBatch, Origin,
}
use dsh_liangxiang.Host.UsageLedger.Replays.{IsThrough}
use dsh_liangxiang.Host.UsageLedger.Watermarks.{merged-fence, fences-low, IsThrough-le}
use dsh_liangxiang.Host.UsageProjection.{
  UsageStore, UsageProjection, put_watermark, put_daily_usage, merged_watermark, hydrate,
  record_for, has_credit, observe_settled,
}

-- A mark behind whose fence the batch lies.
abbrev pub IsBehind : SettledUsageBatch → Option SessionUsageWatermark → Type 0
IsBehind batch previous =
    (origin : Origin) → batch.through_offset ≤ (fences previous batch origin).1

find-none :
    (fence : ℕ × ℕ) (origin : Origin) (date_of : ℕ → String) (date : String)
    (rs : List SettledRequestUsage)
    → All (IsThrough fence.1) rs
    → find (counts fence origin date_of date) rs ≡ none
unfolding counts
find-none fence origin date_of date [] h = refl
find-none (baseline, settled) origin date_of date (r ∷ rs) h =
    rw (le→ltb_false settled r.end_offset h.0)
      (find-none (baseline, settled) origin date_of date rs h.1)

-- A batch behind the session's fence credits nothing.
behind-uncredited :
    (p : UsageProjection) (session : String) (batch : SettledUsageBatch) (origin : Origin)
    (date : String) (date_of : ℕ → String)
    → All (IsThrough batch.through_offset) batch.requests
    → IsBehind batch (entry session p.watermarks)
    → let out = observe_settled p session batch origin date date_of in
      (out.1 ≡ false) × (out.0.daily ≡ p.daily)
unfolding observe_settled has_credit
behind-uncredited p session batch origin date date_of h behind =
    let previous = entry session p.watermarks in
    let fence = fences previous batch origin in
    rw
      (find-none fence origin date_of date batch.requests
        (IsThrough-le batch.requests batch.through_offset fence.1 (behind origin) h))
      (unfold put_watermark in (refl, refl))

abbrev mark_after :
    UsageProjection
    → String
    → SettledUsageBatch
    → Origin
    → String
    → (ℕ → String)
    → SessionUsageWatermark
mark_after p session batch origin date date_of =
    (credit_settled_usage_batch (entry session p.watermarks) (record_for p date) batch origin date
      date_of).0

-- The mark after a batch, alone or with another merged in.
merged-IsBehind :
    (p : UsageProjection) (session : String) (batch : SettledUsageBatch) (origin : Origin)
    (date : String) (date_of : ℕ → String) (stored : Option SessionUsageWatermark)
    → IsBehind batch (
        merged_entry merged_watermark stored
          (some (mark_after p session batch origin date date_of)))
unfolding credit_settled_usage_batch
merged-IsBehind p session batch origin date date_of none again =
    fences-low (mark_after p session batch origin date date_of) batch again (λ same. omega arith)
merged-IsBehind p session batch origin date date_of (some right) again =
    merged-fence (mark_after p session batch origin date date_of) right batch again
      (max (fences (entry session p.watermarks) batch origin).1 batch.through_offset) refl
      (omega arith) refl

observed-mark :
    (p : UsageProjection) (session : String) (batch : SettledUsageBatch) (origin : Origin)
    (date : String) (date_of : ℕ → String)
    → entry session (observe_settled p session batch origin date date_of).0.watermarks
      ≡ some (mark_after p session batch origin date date_of)
unfolding observe_settled put_watermark put_daily_usage
observed-mark p session batch origin date date_of =
    elim (Bool-cases (has_credit (entry session p.watermarks) batch origin date_of date)) [
      | inl credit ↦ rw credit held
      | inr nothing ↦ rw nothing held
    ]
  where
    held :
        entry session (put session (mark_after p session batch origin date date_of) p.watermarks)
        ≡ some (mark_after p session batch origin date date_of)
    held =
        entry-put session session (mark_after p session batch origin date date_of) p.watermarks
        ∙ rw ((eq_iff session session).1 refl) refl

-- A batch that is observed before the store is attached, and handed over again after it in whatever way and
-- for whatever day: the second observation is no growth and leaves the days' records as they were,
-- whatever mark the store has for the session, where no session stands twice in the store and the
-- batch's requests end by the offset that it says it goes through.
pub hydrate-observe_settled :
    (p : UsageProjection) (store : UsageStore) (session : String) (batch : SettledUsageBatch)
    (origin origin' : Origin) (date date' : String) (date_of : ℕ → String)
    → IsMap store.watermarks
    → All (IsThrough batch.through_offset) batch.requests
    → let attached = hydrate (observe_settled p session batch origin date date_of).0 store in
      let again = observe_settled attached session batch origin' date' date_of in
      (again.1 ≡ false) × (again.0.daily ≡ attached.daily)
hydrate-observe_settled p store session batch origin origin' date date' date_of map h =
    behind-uncredited (hydrate (observe_settled p session batch origin date date_of).0 store)
      session batch origin' date' date_of h
      (subst (IsBehind batch) (sym merged)
        (merged-IsBehind p session batch origin date date_of (entry session store.watermarks)))
  where
    before : UsageProjection
    before = (observe_settled p session batch origin date date_of).0

    merged :
        entry session (hydrate before store).watermarks
        ≡ merged_entry merged_watermark
            (entry session store.watermarks)
            (some (mark_after p session batch origin date date_of))
    merged =
        unfold hydrate in
        (entry-merge_all merged_watermark session store.watermarks before.watermarks map
          ∙ ap (merged_entry merged_watermark (entry session store.watermarks))
              (observed-mark p session batch origin date date_of))
