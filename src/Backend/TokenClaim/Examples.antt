-- ===== src/Backend/TokenClaim/Examples.antt =====
-- Claims for one day of one installation.
use dsh_liangxiang.Prelude.{◌≡◌, refl, true, false, some, arith, ok}
use dsh_liangxiang.Backend.Store.{IncenseRow, Db, incense_for, ensure_incense_row}
use dsh_liangxiang.Backend.Vote.{ensure_row, try_grant_starter}
use dsh_liangxiang.Backend.Vote.Solvency.{IsSolvent}
use dsh_liangxiang.Backend.Fixtures.{today, plain, opened}
use dsh_liangxiang.Backend.TokenClaim.{
  V1TokenClaimRequest, raise_claim, ClaimOutcome, ratchet_claim, apply_token_claim,
}
use dsh_liangxiang.Backend.TokenClaim.Ratchet.{
  IsRatcheted, apply_token_claim-IsRatcheted, apply_token_claim-IsSolvent,
}

abbrev claim : V1TokenClaimRequest
claim = record { claimed_effective_tokens = 900000; claim_business_date = "2026-01-02" }

-- A claim far above the ceiling is limited to it: 160,000 and 500,000 more.
abbrev limited : Db × ClaimOutcome
limited = (
  raise_claim opened "lx-1" "2026-01-02" 660000 7,
  record { claim_applied = true; is_capped = true },
)

limits : apply_token_claim plain 500000 opened "lx-1" claim today 7 ≡ ok limited
unfolding apply_token_claim ratchet_claim ensure_row try_grant_starter ensure_incense_row
    incense_for
limits = refl

other_day :
    apply_token_claim plain 500000 opened "lx-1"
      (record claim { claim_business_date = "2026-01-03" })
      today
      7
    ≡ ok (opened, record { claim_applied = false; is_capped = false })
unfolding apply_token_claim
other_day = refl

apply_token_claim-IsRatcheted_example :
    (before : IncenseRow) × (after : IncenseRow) × (out : Db × ClaimOutcome) × (incense_for
        (ensure_row plain opened "lx-1" today 7)
        "lx-1"
        "2026-01-02"
      ≡ some before)
    × (apply_token_claim plain 500000 opened "lx-1" claim today 7 ≡ ok out)
    × (incense_for out.0 "lx-1" "2026-01-02" ≡ some after)
    × IsRatcheted 500000 900000 before after out.1
apply_token_claim-IsRatcheted_example =
    apply_token_claim-IsRatcheted plain 500000 opened "lx-1" claim today 7 refl

opened-IsSolvent : IsSolvent opened
opened-IsSolvent = (((omega arith, omega arith), tt), (omega arith, tt))

apply_token_claim-IsSolvent_example : IsSolvent limited.0
apply_token_claim-IsSolvent_example =
    apply_token_claim-IsSolvent plain 500000 opened "lx-1" claim today 7 limited (omega arith)
      limits opened-IsSolvent
