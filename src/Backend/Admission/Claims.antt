-- ===== src/Backend/Admission/Claims.antt =====
-- Each identity that enters by a ticket is one claim of a ticket.
use dsh_liangxiang.Prelude.{
  ℕ, ◌+◌, ◌≤◌, ◌<◌, String, ◌≡◌, refl, sym, ap, ◌⊎◌, inl, inr, Bool, true, false, ◌&&◌, ◌||◌, none,
  some, List, [], ◌∷◌, arith, str_eq, eq_iff, ok, ltb, leb, if◌then◌else◌, ltb→lt, Bool-cases,
  Option-cases, ok-injective, >>=-eq-ok, guard-eq-ok, length, length-append, find, update_where,
  All, some-eq, subst, both, is_some, sum_by, All-update_where, update_where-none,
  sum_by-update_where,
}
use dsh_liangxiang.Backend.Rows.{IdentityRow}
use dsh_liangxiang.Backend.Admission.{
  revoked, expired, is_active, AdmissionTicketRow, AdmissionDb, ticket_exhausted, has_secret,
  is_usable, with_status, expire_admission_tickets, admission_ticket_by_secret, claim_one,
  consume_admission_ticket, revoke_admission_ticket, revoke_active_admission_tickets,
  identity_by_installation, has_fingerprint, identity_by_fingerprint, insert_identity,
  ClaimResponse, is_other, take_ticket, claim_admission,
}

abbrev pub claims : AdmissionTicketRow → ℕ
claims t = t.claimed_count

abbrev pub limit : AdmissionTicketRow → ℕ
limit t = t.max_claims

-- The UNIQUE index of the secrets.
abbrev pub IsDistinct : List AdmissionTicketRow → Type 0
IsDistinct [] = Unit
IsDistinct (t ∷ ts) = All (λ u. str_eq u.secret t.secret ≡ false) ts × IsDistinct ts

-- CHECK (claimed_count <= max_claims)
abbrev pub IsWithin : AdmissionTicketRow → Type 0
IsWithin t = t.claimed_count ≤ t.max_claims

pub record IsSound (db : AdmissionDb) : Type 0 where
  pub distinct : IsDistinct db.tickets
  pub within : All IsWithin db.tickets

-- A change that leaves the secrets.
IsDistinct-update_where :
    (p : AdmissionTicketRow → Bool) (f : AdmissionTicketRow → AdmissionTicketRow)
    → ((t : AdmissionTicketRow) → (f t).secret ≡ t.secret)
    → (ts : List AdmissionTicketRow) → IsDistinct ts
    → IsDistinct (update_where p f ts)
IsDistinct-update_where p f keeps [] distinct = tt
IsDistinct-update_where p f keeps (t ∷ ts) distinct =
    (others ts distinct.0, IsDistinct-update_where p f keeps ts distinct.1)
  where
    same : (u : AdmissionTicketRow) → (if p u then f u else u).secret ≡ u.secret
    same u = ground (arith, keeps u)

    others :
        (us : List AdmissionTicketRow)
        → All (λ u. str_eq u.secret t.secret ≡ false) us
        → All (λ u. str_eq u.secret (if p t then f t else t).secret ≡ false) (update_where p f us)
    others [] all = tt
    others (u ∷ us) all = (rw (same u, same t) all.0, others us all.1)

module _ (secret : String) (now : ℕ) where
  abbrev hit : AdmissionTicketRow → Bool
  hit t = has_secret secret t && is_usable now t

  missed :
      (t : AdmissionTicketRow) (ts : List AdmissionTicketRow)
      → has_secret secret t ≡ true
      → All (λ u. str_eq u.secret t.secret ≡ false) ts
      → All (λ u. hit u ≡ false) ts
  missed t [] here all = tt
  missed t (u ∷ us) here all = (
    rw (subst (λ (s : String). str_eq u.secret s ≡ false) ((eq_iff t.secret secret).0 here) all.0)
        refl,
    missed t us here all.1,
  )

  -- One row of the distinct secrets is claimed, once.
  claims-consume :
      (ts : List AdmissionTicketRow)
      → IsDistinct ts
      → is_some (find hit ts) ≡ true
      → sum_by claims (update_where hit (claim_one now) ts) ≡ sum_by claims ts + 1
  claims-consume [] distinct found = cc
  claims-consume (t ∷ ts) distinct found = elim (Bool-cases (hit t)) [
    | inl taken ↦
        rw
          (
            taken,
            update_where-none hit (claim_one now) ts (missed t ts (both _ _ taken).0 distinct.0),
          )
          (omega arith)
    | inr passed ↦ rw passed (omega (arith, claims-consume ts distinct.1 (rw passed at found)))
  ]

  IsWithin-claim : (t : AdmissionTicketRow) → IsWithin t → hit t ≡ true → IsWithin (claim_one now t)
  IsWithin-claim t fits taken =
      let usable = (both (has_secret secret t) (is_usable now t) taken).1 in
      let alive = (both (is_active t.status) _ usable).1 in
      let room : t.claimed_count < t.max_claims =
        ltb→lt _ _ (both (ltb now t.expires_at) (ltb t.claimed_count t.max_claims) alive).1 in
      omega arith

  consume-IsSound :
      (db db' : AdmissionDb)
      → IsSound db
      → consume_admission_ticket db secret now ≡ some db'
      → IsSound db'
        × (sum_by claims db'.tickets ≡ sum_by claims db.tickets + 1)
        × (db'.identities ≡ db.identities)
  unfolding consume_admission_ticket
  consume-IsSound db db' sound done = elim (Bool-cases (is_some (find hit db.tickets))) [
    | inl found ↦
        let same : record db { tickets = update_where hit (claim_one now) db.tickets } ≡ db' =
          some-eq (rw found at done) in
        subst
          (λ (d : AdmissionDb).
            IsSound d
            × (sum_by claims d.tickets ≡ sum_by claims db.tickets + 1)
            × (d.identities ≡ db.identities))
          same
          (
            record {
              distinct =
                  IsDistinct-update_where hit (claim_one now) (λ t. refl) db.tickets sound.distinct;
              within =
                  All-update_where IsWithin hit (claim_one now) db.tickets IsWithin-claim
                    sound.within;
            },
            claims-consume db.tickets sound.distinct found,
            refl,
          )
    | inr lost ↦ cc (rw lost at done)
  ]

-- From one state to the next, the claims of the tickets grow as the identities do.
pub record IsBooked (db db' : AdmissionDb) : Type 0 where
  pub sound : IsSound db'
  pub books :
      sum_by claims db'.tickets + length db.identities
      ≡ sum_by claims db.tickets + length db'.identities

-- A change of the tickets alone that keeps their secrets, limits and claims.
changed-IsBooked :
    (db : AdmissionDb) (p : AdmissionTicketRow → Bool) (f : AdmissionTicketRow → AdmissionTicketRow)
    → ((t : AdmissionTicketRow) → (f t).secret ≡ t.secret)
    → ((t : AdmissionTicketRow) → (f t).claimed_count ≡ t.claimed_count)
    → ((t : AdmissionTicketRow) → (f t).max_claims ≡ t.max_claims)
    → IsSound db
    → IsBooked db (record db { tickets = update_where p f db.tickets })
changed-IsBooked db p f secrets counts limits sound = record {
  sound = record {
    distinct = IsDistinct-update_where p f secrets db.tickets sound.distinct;
    within =
        All-update_where IsWithin p f db.tickets (λ t fits passed. rw (counts t, limits t) fits)
          sound.within;
  };
  books =
      ap (λ (n : ℕ). n + length db.identities) (sum_by-update_where claims p f db.tickets counts);
}

pub expire-IsBooked :
    (db : AdmissionDb) (now : ℕ) → IsSound db → IsBooked db (expire_admission_tickets db now)
unfolding expire_admission_tickets
expire-IsBooked db now =
    changed-IsBooked db (λ t. is_active t.status && leb t.expires_at now) (with_status expired)
      (λ t. refl) (λ t. refl) (λ t. refl)

pub revoke-IsBooked :
    (db : AdmissionDb) (id : String) → IsSound db → IsBooked db (revoke_admission_ticket db id)
unfolding revoke_admission_ticket
revoke-IsBooked db id =
    changed-IsBooked db (λ t. str_eq t.ticket_id id && is_active t.status) (with_status revoked)
      (λ t. refl) (λ t. refl) (λ t. refl)

pub revoke_active-IsBooked :
    (db : AdmissionDb) → IsSound db → IsBooked db (revoke_active_admission_tickets db)
unfolding revoke_active_admission_tickets
revoke_active-IsBooked db =
    changed-IsBooked db (λ t. is_active t.status) (with_status revoked) (λ t. refl) (λ t. refl)
      (λ t. refl)

pub IsBooked-trans : {a b c : AdmissionDb} → IsBooked a b → IsBooked b c → IsBooked a c
IsBooked-trans ab bc = record { sound = bc.sound; books = omega (arith, ab.books, bc.books) }

insert_identity-adds :
    (db db' : AdmissionDb) (installation_id public_key fingerprint : String) (now : ℕ)
    → insert_identity db installation_id public_key fingerprint now ≡ ok db'
    → (db'.tickets ≡ db.tickets) × (length db'.identities ≡ length db.identities + 1)
unfolding insert_identity
insert_identity-adds db db' installation_id public_key fingerprint now done =
    elim (Bool-cases (
      is_some (
        find (λ r. str_eq r.public_key public_key || has_fingerprint fingerprint r)
          db.identities))) [
            | inl taken ↦ cc (rw taken at done)
            | inr free ↦
                subst
                  (λ (d : AdmissionDb).
                    (d.tickets ≡ db.tickets) × (length d.identities ≡ length db.identities + 1))
                  (ok-injective (rw free at done)) (refl, length-append db.identities _)
          ]

take_ticket-IsBooked :
    (db db' : AdmissionDb) (installation_id public_key fingerprint secret : String) (now : ℕ)
    (ticket : AdmissionTicketRow) (r : ClaimResponse)
    → IsSound db
    → take_ticket db installation_id public_key fingerprint secret now ticket ≡ ok (db', r)
    → IsBooked db db' × (length db'.identities ≡ length db.identities + 1) × (r.claimed ≡ true)
unfolding take_ticket
take_ticket-IsBooked db db' installation_id public_key fingerprint secret now ticket r sound done =
    let (usable, rest) = guard-eq-ok (is_usable now ticket) ticket_exhausted _ done in
    elim (Option-cases (consume_admission_ticket db secret now)) [
      | inl lost ↦ cc (rw lost at rest)
      | inr (taken, consumed) ↦
          let (bound, inserted, returned) =
            >>=-eq-ok (insert_identity taken installation_id public_key fingerprint now) _
              (rw consumed at rest) in
          let (sound', counted, kept) = consume-IsSound secret now db taken sound consumed in
          let (same_tickets, one_more) =
            insert_identity-adds taken bound installation_id public_key fingerprint now inserted in
          let ends : (bound ≡ db') × (true ≡ r.claimed) = ground arith in
          let before : length taken.identities ≡ length db.identities =
            ap (λ (l : List IdentityRow). length l) kept in
          subst
            (λ (d : AdmissionDb).
              IsBooked db d × (length d.identities ≡ length db.identities + 1) × (r.claimed ≡ true))
            ends.0
            (
              record {
                sound = record {
                  distinct = subst IsDistinct (sym same_tickets) sound'.distinct;
                  within = subst (All IsWithin) (sym same_tickets) sound'.within;
                };
                books = rw same_tickets (omega (arith, counted, one_more, before));
              },
              omega (arith, one_more, before),
              sym ends.1,
            )
    ]

-- A claim leaves the state as it is, for an installation that is known, or it binds one identity and
-- uses one claim of one ticket.
pub claim_admission-IsBooked :
    (db db' : AdmissionDb) (installation_id public_key fingerprint secret : String) (now : ℕ)
    (r : ClaimResponse)
    → IsSound db
    → claim_admission db installation_id public_key fingerprint secret now ≡ ok (db', r)
    → IsBooked db db'
      × (((r.claimed ≡ false) × (db' ≡ db))
          ⊎ ((r.claimed ≡ true) × (length db'.identities ≡ length db.identities + 1)))
unfolding claim_admission
claim_admission-IsBooked db db' installation_id public_key fingerprint secret now r sound done =
    elim (Bool-cases (is_some (identity_by_installation db installation_id))) [
      | inl known ↦
          let same : ◌≡◌ {A = AdmissionDb × ClaimResponse}
              (db, record { claimed = false; ticket_id = none }) (db', r) =
            ok-injective (rw known at done) in
          let state : db ≡ db' = ap (λ (x : AdmissionDb × ClaimResponse). x.0) same in
          let answer : false ≡ r.claimed =
            ap (λ (x : AdmissionDb × ClaimResponse). x.1.claimed) same in
          (
            subst (IsBooked db) state (record { sound = sound; books = refl }),
            inl (sym answer, sym state),
          )
      | inr new ↦
          elim (Bool-cases (is_other installation_id (identity_by_fingerprint db fingerprint))) [
            | inl other ↦ cc (rw (new, other) at done)
            | inr free ↦
                elim (Option-cases
                  (admission_ticket_by_secret (expire_admission_tickets db now) secret)) [
                    | inl unknown ↦ cc (rw (new, free, unknown) at done)
                    | inr (ticket, found) ↦
                        let expired = expire-IsBooked db now sound in
                        let (booked, one_more, answer) =
                          take_ticket-IsBooked (expire_admission_tickets db now) db' installation_id
                            public_key fingerprint secret now ticket r expired.sound
                            (rw (new, free, found) at done) in
                        (
                          IsBooked-trans expired booked,
                          inr (answer, unfold expire_admission_tickets in one_more),
                        )
                  ]
          ]
    ]
