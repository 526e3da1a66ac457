-- ===== src/Backend/Admission/Books.antt =====
-- The operations on tickets in any order: the state machine of the admissions.
use dsh_liangxiang.Prelude.{
  ℕ, zero, suc, ◌+◌, ◌≤◌, String, ◌≡◌, refl, inl, inr, Bool, true, false, ◌||◌, List, [], ◌∷◌, ◌++◌,
  arith, str_eq, eq_iff, Number, ok, Bool-cases, ok-injective, >>=-eq-ok, length, find, All,
  All-append, subst, is_some, sum_by, sum_by-append,
}
use dsh_liangxiang.Backend.Admission.{
  AdmissionTicketRow, AdmissionDb, bad_count, bad_max_claims, bad_ttl_hours,
  expire_admission_tickets, revoke_admission_ticket, revoke_active_admission_tickets,
  insert_admission_ticket, ClaimResponse, claim_admission, new_ticket, insert_tickets,
  mint_admission_tickets, in_range,
}
use dsh_liangxiang.Backend.Admission.Claims.{
  claims, limit, IsDistinct, IsWithin, IsSound, IsBooked, IsBooked-trans, expire-IsBooked,
  revoke-IsBooked, revoke_active-IsBooked, claim_admission-IsBooked,
}

abbrev is_taken : AdmissionTicketRow → AdmissionTicketRow → Bool
is_taken row t = str_eq t.ticket_id row.ticket_id || str_eq t.secret row.secret

-- A row that the UNIQUE indexes let in.
IsDistinct-append :
    (ts : List AdmissionTicketRow) (row : AdmissionTicketRow)
    → is_some (find (is_taken row) ts) ≡ false
    → IsDistinct ts
    → IsDistinct (ts ++ row ∷ [])
IsDistinct-append [] row free distinct = (tt, tt)
IsDistinct-append (t ∷ ts) row free distinct = elim (Bool-cases (is_taken row t)) [
  | inl taken ↦ cc (rw taken at free)
  | inr other ↦ (
    All-append (λ u. str_eq u.secret t.secret ≡ false) ts (row ∷ []) distinct.0
        (apart (either (str_eq t.ticket_id row.ticket_id) (str_eq t.secret row.secret) other), tt),
    IsDistinct-append ts row (rw other at free) distinct.1,
  )
]
  where
    either : (a b : Bool) → (a || b) ≡ false → b ≡ false
    either true b h = cc
    either false b h = h

    apart : str_eq t.secret row.secret ≡ false → str_eq row.secret t.secret ≡ false
    apart h = ground (arith, eq_iff t.secret row.secret, eq_iff row.secret t.secret)

insert-IsBooked :
    (db db' : AdmissionDb) (row : AdmissionTicketRow)
    → row.claimed_count ≡ 0
    → IsSound db
    → insert_admission_ticket db row ≡ ok db'
    → IsBooked db db' × (db'.tickets ≡ db.tickets ++ row ∷ [])
unfolding insert_admission_ticket
insert-IsBooked db db' row unused sound done =
    elim (Bool-cases (is_some (find (is_taken row) db.tickets))) [
      | inl taken ↦ cc (rw taken at done)
      | inr free ↦
          subst (λ (d : AdmissionDb). IsBooked db d × (d.tickets ≡ db.tickets ++ row ∷ []))
            (ok-injective (rw free at done))
            (
              record {
                sound = record {
                  distinct = IsDistinct-append db.tickets row free sound.distinct;
                  within = All-append IsWithin db.tickets (row ∷ []) sound.within (omega arith, tt);
                };
                books = omega (arith, sum_by-append claims db.tickets (row ∷ []));
              },
              refl,
            )
    ]

module _ (fresh : ℕ → String × String) where
  insert_tickets-IsBooked :
      (count i : ℕ) (db db' : AdmissionDb) (max_claims ttl_hours now : ℕ)
      → IsSound db
      → insert_tickets fresh count i db max_claims ttl_hours now ≡ ok db'
      → IsBooked db db'
  unfolding insert_tickets
  insert_tickets-IsBooked zero i db db' max_claims ttl_hours now sound done =
      subst (IsBooked db) (ok-injective done) (record { sound = sound; books = refl })
  insert_tickets-IsBooked (suc count) i db db' max_claims ttl_hours now sound done =
      let (next, inserted, rest) =
        >>=-eq-ok (insert_admission_ticket db (new_ticket fresh i max_claims ttl_hours now))
          (λ d. insert_tickets fresh count (i + 1) d max_claims ttl_hours now) done in
      let (booked, listed) =
        insert-IsBooked db next (new_ticket fresh i max_claims ttl_hours now) refl sound inserted in
      IsBooked-trans booked
        (insert_tickets-IsBooked count (i + 1) next db' max_claims ttl_hours now booked.sound rest)

  pub mint-IsBooked :
      (db db' : AdmissionDb) (count max_claims ttl_hours : Number) (now : ℕ)
      → IsSound db
      → mint_admission_tickets fresh db count max_claims ttl_hours now ≡ ok db'
      → IsBooked db db'
  unfolding mint_admission_tickets
  mint-IsBooked db db' count max_claims ttl_hours now sound done =
      let (c, c_in, rest) = >>=-eq-ok (in_range count 100000 bad_count) _ done in
      let (m, m_in, rest') = >>=-eq-ok (in_range max_claims 10000 bad_max_claims) _ rest in
      let (h, h_in, minted) = >>=-eq-ok (in_range ttl_hours 8760 bad_ttl_hours) _ rest' in
      insert_tickets-IsBooked c 0 db db' m h now sound minted

-- One operation. The pairs of a transaction's new tickets are any.
pub data Step (a b : AdmissionDb) : Type 0 where
  claim :
      (installation_id public_key fingerprint secret : String) (now : ℕ) (r : ClaimResponse)
      → claim_admission a installation_id public_key fingerprint secret now ≡ ok (b, r)
      → Step a b
  mint :
      (fresh : ℕ → String × String) (count max_claims ttl_hours : Number) (now : ℕ)
      → mint_admission_tickets fresh a count max_claims ttl_hours now ≡ ok b
      → Step a b
  expire : (now : ℕ) → expire_admission_tickets a now ≡ b → Step a b
  revoke : (ticket_id : String) → revoke_admission_ticket a ticket_id ≡ b → Step a b
  revoke_active : revoke_active_admission_tickets a ≡ b → Step a b

pub data Reaches (a : AdmissionDb) : AdmissionDb → Type 0 where
  here : Reaches a a
  next : {b c : AdmissionDb} → Reaches a b → Step b c → Reaches a c

Step-IsBooked : {a b : AdmissionDb} → IsSound a → Step a b → IsBooked a b
Step-IsBooked {a} {b} sound (claim i k f s now r done) =
    (claim_admission-IsBooked a b i k f s now r sound done).0
Step-IsBooked {a} {b} sound (mint fresh c m h now done) =
    mint-IsBooked fresh a b c m h now sound done
Step-IsBooked {a} sound (expire now done) = subst (IsBooked a) done (expire-IsBooked a now sound)
Step-IsBooked {a} sound (revoke id done) = subst (IsBooked a) done (revoke-IsBooked a id sound)
Step-IsBooked {a} sound (revoke_active done) =
    subst (IsBooked a) done (revoke_active-IsBooked a sound)

pub Reaches-IsBooked : {a b : AdmissionDb} → IsSound a → Reaches a b → IsBooked a b
Reaches-IsBooked sound here = record { sound = sound; books = refl }
Reaches-IsBooked sound (next r step) =
    let before = Reaches-IsBooked sound r in IsBooked-trans before (Step-IsBooked before.sound step)

claims-le : (ts : List AdmissionTicketRow) → All IsWithin ts → sum_by claims ts ≤ sum_by limit ts
claims-le [] within = omega arith
claims-le (t ∷ ts) within = omega (arith, within.0, claims-le ts within.1)

-- After any claims, mints, expirations and revocations, in any order, from a state with sound tickets:
-- the identities that were added are as many as the claims that were used, and these are no more
-- than the tickets of the state allow.
pub admitted-le_capacity :
    {a b : AdmissionDb}
    → IsSound a
    → Reaches a b
    → (sum_by claims b.tickets + length a.identities
        ≡ sum_by claims a.tickets + length b.identities)
      × (length b.identities ≤ length a.identities + sum_by limit b.tickets)
admitted-le_capacity {a} {b} sound r =
    let booked = Reaches-IsBooked sound r in
    (booked.books, omega (arith, booked.books, claims-le b.tickets booked.sound.within))
