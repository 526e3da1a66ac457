-- ===== src/Backend/TokenClaim/Ratchet.antt =====
-- A token claim of src/backend/service.ts only ever raises a balance, and by no more than the ceiling.
use dsh_liangxiang.Prelude.{
  ℕ, zero, suc, ◌+◌, ◌*◌, ◌≤◌, ◌<◌, min, max, String, ◌≡◌, refl, ◌∙◌, inl, inr, true, false, ◌&&◌,
  some, arith, str_eq, ok, ltb, leb, lt→ltb, leb→le, leb_false→lt, Bool-cases, Option-cases,
  ok-injective, subst, find-update_where, find-passes, All-update_where,
}
use dsh_liangxiang.Backend.Store.{CaseRow, IncenseRow, Db, is_daily, incense_for}
use dsh_liangxiang.Backend.Vote.{Config, ensure_row}
use dsh_liangxiang.Backend.Vote.Starter.{ensure_row-incense_for}
use dsh_liangxiang.Backend.Vote.Solvency.{IsSolvent, IsPaid, ensure_row-IsSolvent}
use dsh_liangxiang.Backend.TokenClaim.{
  V1TokenClaimRequest, raise_to, raise_claim, ClaimOutcome, is_absurd, ratchet_claim,
  apply_token_claim,
}

-- The balance that a claim may reach.
abbrev pub reachable : ℕ → ℕ → ℕ → ℕ
reachable zero have requested = requested
reachable (suc n) have requested = min requested (have + suc n)

-- The row after a claim, from the ensured row before it.
pub record IsRatcheted (ceiling requested : ℕ) (before after : IncenseRow) (o : ClaimOutcome)
    : Type 0 where
  pub claimed :
      after.claimed_effective_tokens
      ≡ max before.claimed_effective_tokens
          (reachable ceiling before.claimed_effective_tokens requested)
  pub unspent : after.used_incense ≡ before.used_incense
  pub price : after.token_per_incense ≡ before.token_per_incense
  pub tells : o.claim_applied ≡ ltb before.claimed_effective_tokens after.claimed_effective_tokens

raise_claim-incense_for :
    (db : Db) (inst date : String) (tokens now : ℕ) (r : IncenseRow)
    → incense_for db inst date ≡ some r
    → r.claimed_effective_tokens < tokens
    → incense_for (raise_claim db inst date tokens now) inst date ≡ some (raise_to tokens now r)
unfolding incense_for raise_claim
raise_claim-incense_for db inst date tokens now r held low =
    find-update_where
      (λ (x : IncenseRow). is_daily inst date x && ltb x.claimed_effective_tokens tokens)
      (is_daily inst date) (raise_to tokens now) db.incense (λ x. refl)
    ∙ rw held (rw (find-passes (is_daily inst date) db.incense held, lt→ltb _ _ low) refl)

ratchet_claim-IsRatcheted :
    (db : Db) (inst date : String) (ceiling requested now : ℕ) (r : IncenseRow)
    → incense_for db inst date ≡ some r
    → let out = ratchet_claim db inst date ceiling requested now r in
      (after : IncenseRow) × (incense_for out.0 inst date ≡ some after)
      × IsRatcheted ceiling requested r after out.1
unfolding ratchet_claim
ratchet_claim-IsRatcheted db inst date ceiling requested now r held =
    let have = r.claimed_effective_tokens in
    elim (Bool-cases (leb requested have)) [
      | inl low ↦ rw low (
        r,
        held,
        record {
          claimed = unraised ceiling have (leb→le _ _ low);
          unspent = refl;
          price = refl;
          tells = ground arith;
        },
      )
      | inr high ↦ elim (Bool-cases (is_absurd ceiling have requested)) [
        | inl absurd_claim ↦
            rw (high, absurd_claim)
              (
                raise_to (have + ceiling) now r,
                raise_claim-incense_for db inst date (have + ceiling) now r held
                    (ground (arith, absurd_claim)),
                record {
                  claimed = capped ceiling have absurd_claim;
                  unspent = refl;
                  price = refl;
                  tells = ground (arith, absurd_claim);
                },
              )
        | inr plausible ↦
            rw (high, plausible)
              (
                raise_to requested now r,
                raise_claim-incense_for db inst date requested now r held (ground (arith, high)),
                record {
                  claimed = raised ceiling have (leb_false→lt _ _ high) plausible;
                  unspent = refl;
                  price = refl;
                  tells = ground (arith, high);
                },
              )
      ]
    ]
  where
    unraised :
        (ceiling have : ℕ) → requested ≤ have → have ≡ max have (reachable ceiling have requested)
    unraised zero have low = omega (arith, low)
    unraised (suc n) have low = omega (arith, low)

    capped :
        (ceiling have : ℕ)
        → is_absurd ceiling have requested ≡ true
        → have + ceiling ≡ max have (reachable ceiling have requested)
    capped zero have h = ground (arith, h)
    capped (suc n) have h = ground (arith, h)

    raised :
        (ceiling have : ℕ)
        → have < requested
        → is_absurd ceiling have requested ≡ false
        → requested ≡ max have (reachable ceiling have requested)
    raised zero have low h = ground (arith, low, h)
    raised (suc n) have low h = ground (arith, low, h)

-- A claim for the day of the case never fails. Compared with the installation's row of that day as it is once
-- the row is ensured, a welcome gift that is due already added to it: the claimed tokens become the larger
-- of that row's and the request, the request limited to the ceiling above that row's where there is a
-- ceiling; what is spent and the price stay; and the answer says that the claim is applied just when the
-- tokens are more than that row's.
pub apply_token_claim-IsRatcheted :
    (config : Config) (ceiling : ℕ) (db : Db) (inst : String) (claim : V1TokenClaimRequest)
    (target : CaseRow) (now : ℕ)
    → str_eq claim.claim_business_date target.business_date ≡ true
    → (before : IncenseRow) × (after : IncenseRow) × (out : Db × ClaimOutcome) × (incense_for
          (ensure_row config db inst target now)
          inst
          target.business_date
        ≡ some before)
      × (apply_token_claim config ceiling db inst claim target now ≡ ok out)
      × (incense_for out.0 inst target.business_date ≡ some after)
      × IsRatcheted ceiling claim.claimed_effective_tokens before after out.1
unfolding apply_token_claim
apply_token_claim-IsRatcheted config ceiling db inst claim target now dated =
    let base = ensure_row config db inst target now in
    let (before, held) = ensure_row-incense_for config db inst target now in
    let (after, found, moves) =
      ratchet_claim-IsRatcheted base inst target.business_date ceiling
        claim.claimed_effective_tokens now before held in
    (
      before,
      after,
      ratchet_claim base inst target.business_date ceiling claim.claimed_effective_tokens now
          before,
      held,
      rw (dated, held) refl,
      found,
      moves,
    )

raise_claim-IsSolvent :
    (db : Db) (inst date : String) (tokens now : ℕ)
    → IsSolvent db
    → IsSolvent (raise_claim db inst date tokens now)
unfolding raise_claim
raise_claim-IsSolvent db inst date tokens now h = (
  All-update_where IsPaid
      (λ (r : IncenseRow). is_daily inst date r && ltb r.claimed_effective_tokens tokens)
      (raise_to tokens now) db.incense (λ r p hit. (p.0, below r p.1 hit)) h.0,
  h.1,
)
  where
    below :
        (r : IncenseRow)
        → r.used_incense * r.token_per_incense ≤ r.claimed_effective_tokens
        → (is_daily inst date r && ltb r.claimed_effective_tokens tokens) ≡ true
        → r.used_incense * r.token_per_incense ≤ tokens
    below r paid hit = ground (arith, paid, hit)

ratchet_claim-IsSolvent :
    (db : Db) (inst date : String) (ceiling requested now : ℕ) (r : IncenseRow)
    → IsSolvent db
    → IsSolvent (ratchet_claim db inst date ceiling requested now r).0
unfolding ratchet_claim
ratchet_claim-IsSolvent db inst date ceiling requested now r h =
    elim (Bool-cases (leb requested r.claimed_effective_tokens)) [
      | inl low ↦ rw low h
      | inr high ↦ elim (Bool-cases (is_absurd ceiling r.claimed_effective_tokens requested)) [
        | inl capped ↦ rw (high, capped) (raise_claim-IsSolvent db inst date _ now h)
        | inr plausible ↦ rw (high, plausible) (raise_claim-IsSolvent db inst date requested now h)
      ]
    ]

-- Whatever is claimed, for whatever day: the rows of incense stay paid for and the cases priced, where the
-- case has a price.
pub apply_token_claim-IsSolvent :
    (config : Config) (ceiling : ℕ) (db : Db) (inst : String) (claim : V1TokenClaimRequest)
    (target : CaseRow) (now : ℕ) (out : Db × ClaimOutcome)
    → 0 < target.token_per_incense
    → apply_token_claim config ceiling db inst claim target now ≡ ok out
    → IsSolvent db
    → IsSolvent out.0
unfolding apply_token_claim
apply_token_claim-IsSolvent config ceiling db inst claim target now out priced done solvent =
    let base = ensure_row config db inst target now in
    let date = target.business_date in
    let requested = claim.claimed_effective_tokens in
    elim (Bool-cases (str_eq claim.claim_business_date date)) [
      | inr other ↦
          subst (λ (o : Db × ClaimOutcome). IsSolvent o.0)
            (ok-injective (rw (other, apply_token_claim) at done)) solvent
      | inl dated ↦ elim (Option-cases (incense_for base inst date)) [
        | inl missing ↦ cc (rw (dated, missing, apply_token_claim) at done)
        | inr (r, held) ↦
            subst (λ (o : Db × ClaimOutcome). IsSolvent o.0)
              (ok-injective (rw (dated, held, apply_token_claim) at done))
              (ratchet_claim-IsSolvent base inst date ceiling requested now r
                (ensure_row-IsSolvent config db inst target now priced solvent))
      ]
    ]
