-- ===== src/Backend/TokenClaim.antt =====
-- `applyTokenClaim` of src/backend/service.ts, with `raiseClaim` of src/backend/store.ts. The active case is an
-- argument; the response carries what the transaction decides.
pub mod Ratchet
mod Examples
use dsh_liangxiang.Prelude.{
  ℕ, ◌+◌, ◌-◌, ◌/◌, ◌<◌, String, Bool, true, false, not, ◌&&◌, none, some, str_eq, Result, ok, err,
  ltb, leb, if◌then◌else◌, update_where,
}
use dsh_liangxiang.Backend.Store.{CaseRow, IncenseRow, Db, is_daily, incense_for}
use dsh_liangxiang.Backend.Vote.{Config, ensure_row}

pub record V1TokenClaimRequest : Type 0 where
  pub claimed_effective_tokens : ℕ
  pub claim_business_date : String

abbrev pub raise_to : ℕ → ℕ → IncenseRow → IncenseRow
raise_to tokens now r = record r {
  claimed_effective_tokens = tokens;
  version = r.version + 1;
  updated_at = now;
}

-- WHERE installation_id = ? AND business_date = ? AND claimed_effective_tokens < ?
unfoldable pub raise_claim : Db → String → String → ℕ → ℕ → Db
raise_claim db installation_id business_date tokens now = record db {
  incense =
      update_where
        (λ (r : IncenseRow).
          is_daily installation_id business_date r && ltb r.claimed_effective_tokens tokens)
        (raise_to tokens now) db.incense;
}

pub record ClaimOutcome : Type 0 where
  pub claim_applied : Bool
  -- claim_notice is claim_capped_absurd
  pub is_capped : Bool

pub data ClaimError : Type 0 where
  -- requireRow finds no row
  missing_row : ClaimError

-- The ceiling is `absurdClaimTokens`; at 0 there is none.
abbrev pub is_absurd : ℕ → ℕ → ℕ → Bool
is_absurd ceiling have requested = ltb 0 ceiling && ltb ceiling (requested - have)

-- The transaction, once the row is found.
unfoldable pub ratchet_claim : Db → String → String → ℕ → ℕ → ℕ → IncenseRow → Db × ClaimOutcome
ratchet_claim db installation_id business_date ceiling requested now r =
    if leb requested r.claimed_effective_tokens
    then (db, record { claim_applied = false; is_capped = false })
    else if is_absurd ceiling r.claimed_effective_tokens requested
    then (
      raise_claim db installation_id business_date (r.claimed_effective_tokens + ceiling) now,
      record { claim_applied = true; is_capped = true },
    )
    else (
      raise_claim db installation_id business_date requested now,
      record { claim_applied = true; is_capped = false },
    )

unfoldable pub apply_token_claim :
    Config
    → ℕ
    → Db
    → String
    → V1TokenClaimRequest
    → CaseRow
    → ℕ
    → Result ClaimError (Db × ClaimOutcome)
apply_token_claim config ceiling db installation_id claim case_row now =
    let base = ensure_row config db installation_id case_row now in
    if not (str_eq claim.claim_business_date case_row.business_date)
    then ok (db, record { claim_applied = false; is_capped = false })
    else elim (incense_for base installation_id case_row.business_date) [
      | none ↦ err missing_row
      | some r ↦ ok (
          ratchet_claim base installation_id case_row.business_date ceiling
            claim.claimed_effective_tokens now r)
    ]
