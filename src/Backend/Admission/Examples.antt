-- ===== src/Backend/Admission/Examples.antt =====
-- Two installations and a ticket for both.
use dsh_liangxiang.Prelude.{
  ℕ, ◌+◌, ◌-◌, ◌*◌, ◌≤◌, String, ◌≡◌, refl, true, none, some, [], ◌∷◌, arith, nat, ok, err, ◌==◌,
  if◌then◌else◌, sum_by,
}
use dsh_liangxiang.Backend.Rows.{IdentityRow}
use dsh_liangxiang.Backend.Admission.{
  AdmissionTicketRow, active, AdmissionDb, ticket_exhausted, claim_admission,
  consume_admission_ticket, insert_identity, identity_by_installation, identity_by_fingerprint,
  expire_admission_tickets, admission_ticket_by_secret, take_ticket, insert_admission_ticket,
  insert_tickets, mint_admission_tickets, remaining_claims, replenish_admission_inventory,
}
use dsh_liangxiang.Backend.Admission.Claims.{claims, limit, IsSound}
use dsh_liangxiang.Backend.Admission.Books.{Reaches, here, next, claim, admitted-le_capacity}
use dsh_liangxiang.Backend.Admission.Inventory.{replenish_lem}

abbrev ticket : ℕ → AdmissionTicketRow
ticket used = record {
  ticket_id = "ticket_1";
  secret = "LX-1";
  max_claims = 2;
  claimed_count = used;
  status = active;
  created_at = 0;
  expires_at = 1000;
  last_claimed_at = none;
}

abbrev before : AdmissionDb
before = record { tickets = ticket 0 ∷ []; identities = [] }

abbrev identity : IdentityRow
identity = record {
  installation_id = "a";
  public_key = "key a";
  device_fingerprint = some "device a";
  created_at = 10;
  last_seen_at = 10;
}

abbrev after : AdmissionDb
after = record {
  tickets = record (ticket 1) { last_claimed_at = some 10 } ∷ [];
  identities = identity ∷ [];
}

one_claim :
    claim_admission before "a" "key a" "device a" "LX-1" 10
    ≡ ok (after, record { claimed = true; ticket_id = some "ticket_1" })
unfolding claim_admission take_ticket consume_admission_ticket insert_identity
    identity_by_installation identity_by_fingerprint expire_admission_tickets
    admission_ticket_by_secret
one_claim = refl

-- An expired ticket admits nobody.
too_late : claim_admission before "a" "key a" "device a" "LX-1" 1000 ≡ err ticket_exhausted
unfolding claim_admission take_ticket consume_admission_ticket insert_identity
    identity_by_installation identity_by_fingerprint expire_admission_tickets
    admission_ticket_by_secret
too_late = refl

before-IsSound : IsSound before
before-IsSound = record { distinct = (tt, tt); within = (omega arith, tt) }

claimed : Reaches before after
claimed = next here (claim "a" "key a" "device a" "LX-1" 10 _ one_claim)

admitted-le_capacity_example :
    (sum_by claims after.tickets + 0 ≡ sum_by claims before.tickets + 1)
    × (1 ≤ 0 + sum_by limit after.tickets)
admitted-le_capacity_example = admitted-le_capacity before-IsSound claimed

abbrev fresh : ℕ → String × String
fresh i = if i == 0 then ("ticket_2", "LX-2") else ("ticket_3", "LX-3")

abbrev minted : ℕ → AdmissionTicketRow
minted i = record {
  ticket_id = (fresh i).0;
  secret = (fresh i).1;
  max_claims = 3;
  claimed_count = 0;
  status = active;
  created_at = 10;
  expires_at = 3600010;
  last_claimed_at = none;
}

abbrev filled : AdmissionDb
filled = record { tickets = ticket 0 ∷ (minted 0 ∷ (minted 1 ∷ [])); identities = [] }

-- Two claims are missing of four; two tickets of three claims leave eight.
top_up :
    replenish_admission_inventory fresh before 4 (nat 3) (nat 1) 10
    ≡ ok (filled, record { issued = 2; remaining_claims = 8; target = 4 })
unfolding replenish_admission_inventory expire_admission_tickets remaining_claims
    mint_admission_tickets insert_tickets insert_admission_ticket
top_up = refl

replenish_lem_example :
    let left = remaining_claims (expire_admission_tickets before 10) 10 in
    (2 ≡ 4 - left)
    × (remaining_claims filled 10 ≡ left + (4 - left) * 3)
    × (8 ≡ remaining_claims filled 10)
    × (4 ≤ remaining_claims filled 10)
replenish_lem_example =
    replenish_lem fresh before filled 4 3 1 10
      (record { issued = 2; remaining_claims = 8; target = 4 }) top_up
