-- ===== src/Backend/Admission.antt =====
-- Admission tickets: the operations of src/backend/service.ts on them, and their statements in
-- src/backend/store.ts. Random ids and secrets are a parameter: `fresh i` is the pair that the i-th ticket of
-- a transaction is given. A transaction that fails has no database, which is the rollback. The
-- `catch` of `claimAdmission` is the error that `upsert_identity` gives.
pub mod Claims
pub mod Books
pub mod Inventory
mod Examples
use dsh_liangxiang.Prelude.{
  ℕ, zero, suc, ◌+◌, ◌-◌, ◌*◌, ◌/◌, ◌<◌, String, Bool, true, false, not, ◌&&◌, ◌||◌, Option, none,
  some, List, [], ◌∷◌, ◌++◌, str_eq, Number, nat, Result, ok, err, guard, ltb, leb, if◌then◌else◌,
  ◌>>=◌, ◌>>◌, length, find, update_where, is_some, sum_by,
}
use dsh_liangxiang.Backend.Rows.{IdentityRow}

pub data AdmissionTicketStatus : Type 0 where
  active exhausted revoked expired : AdmissionTicketStatus

abbrev pub is_active : AdmissionTicketStatus → Bool
is_active active = true
is_active exhausted = false
is_active revoked = false
is_active expired = false

pub record AdmissionTicketRow : Type 0 where
  pub ticket_id : String
  pub secret : String
  pub max_claims : ℕ
  pub claimed_count : ℕ
  pub status : AdmissionTicketStatus
  pub created_at : ℕ
  pub expires_at : ℕ
  pub last_claimed_at : Option ℕ

pub record AdmissionDb : Type 0 where
  pub tickets : List AdmissionTicketRow
  pub identities : List IdentityRow

pub data AdmissionError : Type 0 where
  -- 409 device_conflict, 401 admission_ticket_invalid, 409 admission_ticket_exhausted
  device_conflict ticket_invalid ticket_exhausted : AdmissionError
  -- the WireErrors of `count`, `max_claims` and `ttl_hours`
  bad_count bad_max_claims bad_ttl_hours : AdmissionError
  -- a constraint of the table refused a ticket
  constraint_failed : AdmissionError

abbrev pub has_secret : String → AdmissionTicketRow → Bool
has_secret secret t = str_eq t.secret secret

-- status = 'active' AND expires_at > ? AND claimed_count < max_claims
abbrev pub is_usable : ℕ → AdmissionTicketRow → Bool
is_usable now t = is_active t.status && (ltb now t.expires_at && ltb t.claimed_count t.max_claims)

abbrev pub with_status : AdmissionTicketStatus → AdmissionTicketRow → AdmissionTicketRow
with_status s t = record t { status = s }

unfoldable pub expire_admission_tickets : AdmissionDb → ℕ → AdmissionDb
expire_admission_tickets db now = record db {
  tickets =
      update_where (λ t. is_active t.status && leb t.expires_at now) (with_status expired)
        db.tickets;
}

-- What a ticket adds to `remaining_claims`.
abbrev pub remaining_of : ℕ → AdmissionTicketRow → ℕ
remaining_of now t =
    if is_active t.status && ltb now t.expires_at then t.max_claims - t.claimed_count else 0

unfoldable pub remaining_claims : AdmissionDb → ℕ → ℕ
remaining_claims db now = sum_by (remaining_of now) db.tickets

unfoldable pub admission_ticket_by_secret : AdmissionDb → String → Option AdmissionTicketRow
admission_ticket_by_secret db secret = find (has_secret secret) db.tickets

abbrev pub claim_one : ℕ → AdmissionTicketRow → AdmissionTicketRow
claim_one now t = record t {
  claimed_count = t.claimed_count + 1;
  status = if leb t.max_claims (t.claimed_count + 1) then exhausted else active;
  last_claimed_at = some now;
}

-- none when no row was changed
unfoldable pub consume_admission_ticket : AdmissionDb → String → ℕ → Option AdmissionDb
consume_admission_ticket db secret now =
    let hit = λ (t : AdmissionTicketRow). has_secret secret t && is_usable now t in
    if is_some (find hit db.tickets)
    then some (record db { tickets = update_where hit (claim_one now) db.tickets })
    else none

unfoldable pub revoke_admission_ticket : AdmissionDb → String → AdmissionDb
revoke_admission_ticket db ticket_id = record db {
  tickets =
      update_where (λ t. str_eq t.ticket_id ticket_id && is_active t.status) (with_status revoked)
        db.tickets;
}

unfoldable pub revoke_active_admission_tickets : AdmissionDb → AdmissionDb
revoke_active_admission_tickets db = record db {
  tickets = update_where (λ t. is_active t.status) (with_status revoked) db.tickets;
}

-- PRIMARY KEY (ticket_id), UNIQUE (secret); the CHECKs hold of what `mint` inserts.
unfoldable pub insert_admission_ticket :
    AdmissionDb → AdmissionTicketRow → Result AdmissionError AdmissionDb
insert_admission_ticket db row =
    if is_some
      (find (λ t. str_eq t.ticket_id row.ticket_id || str_eq t.secret row.secret) db.tickets)
    then err constraint_failed
    else ok (record db { tickets = db.tickets ++ row ∷ [] })

unfoldable pub identity_by_installation : AdmissionDb → String → Option IdentityRow
identity_by_installation db installation_id =
    find (λ r. str_eq r.installation_id installation_id) db.identities

abbrev pub has_fingerprint : String → IdentityRow → Bool
has_fingerprint fingerprint r = elim r.device_fingerprint [
  | none ↦ false
  | some own ↦ str_eq own fingerprint
]

unfoldable pub identity_by_fingerprint : AdmissionDb → String → Option IdentityRow
identity_by_fingerprint db fingerprint = find (has_fingerprint fingerprint) db.identities

-- The INSERT of `upsertIdentity` for an installation that has no row. UNIQUE (public_key) and
-- UNIQUE (device_fingerprint) may refuse it.
unfoldable pub insert_identity :
    AdmissionDb → String → String → String → ℕ → Result AdmissionError AdmissionDb
insert_identity db installation_id public_key fingerprint now =
    if is_some
      (find (λ r. str_eq r.public_key public_key || has_fingerprint fingerprint r) db.identities)
    then err device_conflict
    else ok (record db {
      identities =
          db.identities
          ++ record {
            installation_id = installation_id;
            public_key = public_key;
            device_fingerprint = some fingerprint;
            created_at = now;
            last_seen_at = now;
          }
            ∷ [];
    })

pub record ClaimResponse : Type 0 where
  pub claimed : Bool
  pub ticket_id : Option String

abbrev pub is_other : String → Option IdentityRow → Bool
is_other installation_id none = false
is_other installation_id (some owner) = not (str_eq owner.installation_id installation_id)

-- The part of the transaction from the ticket's row on.
unfoldable pub take_ticket :
    AdmissionDb
    → String
    → String
    → String
    → String
    → ℕ
    → AdmissionTicketRow
    → Result AdmissionError (AdmissionDb × ClaimResponse)
take_ticket db installation_id public_key fingerprint ticket_secret now ticket = do
  guard (is_usable now ticket) ticket_exhausted
  taken ← elim (consume_admission_ticket db ticket_secret now) [
    | none ↦ err ticket_exhausted
    | some taken ↦ ok taken
  ]
  bound ← insert_identity taken installation_id public_key fingerprint now
  ok (bound, record { claimed = true; ticket_id = some ticket.ticket_id })

unfoldable pub claim_admission :
    AdmissionDb
    → String
    → String
    → String
    → String
    → ℕ
    → Result AdmissionError (AdmissionDb × ClaimResponse)
claim_admission db installation_id public_key fingerprint ticket_secret now =
    if is_some (identity_by_installation db installation_id)
    then ok (db, record { claimed = false; ticket_id = none })
    else if is_other installation_id (identity_by_fingerprint db fingerprint)
    then err device_conflict
    else let expired_db = expire_admission_tickets db now in
      elim (admission_ticket_by_secret expired_db ticket_secret) [
        | none ↦ err ticket_invalid
        | some ticket ↦
            take_ticket expired_db installation_id public_key fingerprint ticket_secret now ticket
      ]

-- An integer from 1 to the bound.
abbrev pub in_range : Number → ℕ → AdmissionError → Result AdmissionError ℕ
in_range (nat n) bound e = if leb 1 n && leb n bound then ok n else err e
in_range _ bound e = err e

pub record Replenished : Type 0 where
  pub issued : ℕ
  pub remaining_claims : ℕ
  pub target : ℕ

module _ (fresh : ℕ → String × String) where
  abbrev pub new_ticket : ℕ → ℕ → ℕ → ℕ → AdmissionTicketRow
  new_ticket i max_claims ttl_hours now = record {
    ticket_id = (fresh i).0;
    secret = (fresh i).1;
    max_claims = max_claims;
    claimed_count = 0;
    status = active;
    created_at = now;
    expires_at = now + ttl_hours * 60 * 60 * 1000;
    last_claimed_at = none;
  }

  -- Array.from({ length: count }, ...), from the i-th ticket on.
  unfoldable pub insert_tickets :
      ℕ → ℕ → AdmissionDb → ℕ → ℕ → ℕ → Result AdmissionError AdmissionDb
  insert_tickets zero i db max_claims ttl_hours now = ok db
  insert_tickets (suc left) i db max_claims ttl_hours now = do
    db' ← insert_admission_ticket db (new_ticket i max_claims ttl_hours now)
    insert_tickets left (i + 1) db' max_claims ttl_hours now

  unfoldable pub mint_admission_tickets :
      AdmissionDb → Number → Number → Number → ℕ → Result AdmissionError AdmissionDb
  mint_admission_tickets db count max_claims ttl_hours now = do
    c ← in_range count 100000 bad_count
    m ← in_range max_claims 10000 bad_max_claims
    h ← in_range ttl_hours 8760 bad_ttl_hours
    insert_tickets c 0 db m h now

  unfoldable pub replenish_admission_inventory :
      AdmissionDb → ℕ → Number → Number → ℕ → Result AdmissionError (AdmissionDb × Replenished)
  replenish_admission_inventory db target max_claims ttl_hours now =
      let expired_db = expire_admission_tickets db now in
      let remaining = remaining_claims expired_db now in
      if leb target remaining
      then ok (expired_db, record { issued = 0; remaining_claims = remaining; target = target })
      else (do
        db' ← mint_admission_tickets expired_db (nat (target - remaining)) max_claims ttl_hours now
        ok (
          db',
          record {
            issued = target - remaining;
            remaining_claims = remaining_claims db' now;
            target = target;
          },
        ))

  unfoldable pub replace_admission_tickets :
      AdmissionDb → Number → Number → Number → ℕ → Result AdmissionError AdmissionDb
  replace_admission_tickets db count max_claims ttl_hours now =
      mint_admission_tickets (revoke_active_admission_tickets (expire_admission_tickets db now))
        count max_claims ttl_hours now
