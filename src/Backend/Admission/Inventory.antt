-- ===== src/Backend/Admission/Inventory.antt =====
-- The claims that are left after a top-up.
use dsh_liangxiang.Prelude.{
  ℕ, zero, suc, ◌+◌, ◌-◌, ◌*◌, ◌≤◌, ◌<◌, String, ◌≡◌, sym, ap, ◌∙◌, inl, inr, Bool, ◌||◌, [], ◌∷◌,
  ◌++◌, arith, str_eq, nat, ok, leb, leb→le, leb_false→lt, Bool-cases, ok-injective, >>=-eq-ok,
  find, is_some, sum_by-append,
}
use dsh_liangxiang.Backend.Admission.{
  AdmissionTicketRow, AdmissionDb, AdmissionError, bad_count, bad_max_claims, bad_ttl_hours,
  expire_admission_tickets, remaining_of, remaining_claims, insert_admission_ticket, new_ticket,
  insert_tickets, mint_admission_tickets, in_range, Replenished, replenish_admission_inventory,
}

abbrev is_taken : AdmissionTicketRow → AdmissionTicketRow → Bool
is_taken row t = str_eq t.ticket_id row.ticket_id || str_eq t.secret row.secret

insert-remaining :
    (db db' : AdmissionDb) (row : AdmissionTicketRow) (now : ℕ)
    → insert_admission_ticket db row ≡ ok db'
    → remaining_claims db' now ≡ remaining_claims db now + remaining_of now row
unfolding insert_admission_ticket remaining_claims
insert-remaining db db' row now done =
    elim (Bool-cases (is_some (find (is_taken row) db.tickets))) [
      | inl taken ↦ cc (rw taken at done)
      | inr free ↦
          let listed : db.tickets ++ row ∷ [] ≡ db'.tickets =
            ap (λ (d : AdmissionDb). d.tickets) (ok-injective (rw free at done)) in
          rw (← listed) (omega (arith, sum_by-append (remaining_of now) db.tickets (row ∷ [])))
    ]

module _ (fresh : ℕ → String × String) where
  new_ticket-remaining : (i m h now : ℕ) → 1 ≤ h → remaining_of now (new_ticket fresh i m h now) ≡ m
  new_ticket-remaining i m h now positive = ground arith

  insert_tickets-remaining :
      (count i : ℕ) (db db' : AdmissionDb) (m h now : ℕ)
      → 1 ≤ h
      → insert_tickets fresh count i db m h now ≡ ok db'
      → remaining_claims db' now ≡ remaining_claims db now + count * m
  unfolding insert_tickets
  insert_tickets-remaining zero i db db' m h now positive done =
      rw (ok-injective done) (omega arith)
  insert_tickets-remaining (suc count) i db db' m h now positive done =
      let (next, inserted, rest) =
        >>=-eq-ok (insert_admission_ticket db (new_ticket fresh i m h now))
          (λ d. insert_tickets fresh count (i + 1) d m h now) done in
      grind (
        arith,
        insert-remaining db next (new_ticket fresh i m h now) now inserted,
        new_ticket-remaining i m h now positive,
        insert_tickets-remaining count (i + 1) next db' m h now positive rest,
      )

  in_range-nat :
      (n bound : ℕ) (e : AdmissionError) {c : ℕ}
      → in_range (nat n) bound e ≡ ok c
      → (c ≡ n) × (1 ≤ n) × (n ≤ bound)
  in_range-nat n bound e h = ground arith

  mint-remaining :
      (db db' : AdmissionDb) (c m h now : ℕ)
      → mint_admission_tickets fresh db (nat c) (nat m) (nat h) now ≡ ok db'
      → (remaining_claims db' now ≡ remaining_claims db now + c * m) × (1 ≤ m)
  unfolding mint_admission_tickets
  mint-remaining db db' c m h now done =
      let (c', c_in, rest) = >>=-eq-ok (in_range (nat c) 100000 bad_count) _ done in
      let (m', m_in, rest') = >>=-eq-ok (in_range (nat m) 10000 bad_max_claims) _ rest in
      let (h', h_in, minted) = >>=-eq-ok (in_range (nat h) 8760 bad_ttl_hours) _ rest' in
      let cs = in_range-nat c 100000 bad_count c_in in
      let ms = in_range-nat m 10000 bad_max_claims m_in in
      let hs = in_range-nat h 8760 bad_ttl_hours h_in in
      (
        insert_tickets-remaining c' 0 db db' m' h' now (omega arith) minted
            ∙ (λ i. remaining_claims db now + cs.0 i * ms.0 i),
        ms.1,
      )

  -- A top-up that succeeds brings the claims that are left to the target at least: it issues one
  -- ticket for each claim that is missing, and reports that number and what is left afterwards. Each
  -- ticket brings all its claims, so with tickets of one claim the target is met exactly and with
  -- larger tickets it is passed.
  pub replenish_lem :
      (db db' : AdmissionDb) (target m h now : ℕ) (out : Replenished)
      → replenish_admission_inventory fresh db target (nat m) (nat h) now ≡ ok (db', out)
      → let left = remaining_claims (expire_admission_tickets db now) now in
        (out.issued ≡ target - left)
        × (remaining_claims db' now ≡ left + (target - left) * m)
        × (out.remaining_claims ≡ remaining_claims db' now)
        × (target ≤ remaining_claims db' now)
  unfolding replenish_admission_inventory
  replenish_lem db db' target m h now out done =
      let expired_db = expire_admission_tickets db now in
      let left = remaining_claims expired_db now in
      elim (Bool-cases (leb target left)) [
        | inl enough ↦
            let same : ◌≡◌ {A = AdmissionDb × Replenished}
                (expired_db, record { issued = 0; remaining_claims = left; target = target })
                (db', out) =
              ok-injective (rw enough at done) in
            let state : expired_db ≡ db' = ap (λ (x : AdmissionDb × Replenished). x.0) same in
            let issued : 0 ≡ out.issued = ap (λ (x : AdmissionDb × Replenished). x.1.issued) same in
            let reported : left ≡ out.remaining_claims =
              ap (λ (x : AdmissionDb × Replenished). x.1.remaining_claims) same in
            let least : target ≤ left = leb→le _ _ enough in
            let none_missing : target - left ≡ 0 = omega arith in
            rw (← state, none_missing) (omega arith, omega arith, omega arith, omega arith)
        | inr short ↦
            let (minted, done', returned) =
              >>=-eq-ok
                (mint_admission_tickets fresh expired_db (nat (target - left)) (nat m) (nat h) now)
                _ (rw short at done) in
            let (total, some_claim) =
              mint-remaining expired_db minted (target - left) m h now done' in
            let same : ◌≡◌ {A = AdmissionDb × Replenished}
                (
                  minted,
                  record {
                    issued = target - left;
                    remaining_claims = remaining_claims minted now;
                    target = target;
                  },
                )
                (db', out) =
              ok-injective returned in
            let state : minted ≡ db' = ap (λ (x : AdmissionDb × Replenished). x.0) same in
            let issued : target - left ≡ out.issued =
              ap (λ (x : AdmissionDb × Replenished). x.1.issued) same in
            let reported : remaining_claims minted now ≡ out.remaining_claims =
              ap (λ (x : AdmissionDb × Replenished). x.1.remaining_claims) same in
            let missing : left < target = leb_false→lt _ _ short in
            let enough : target - left ≤ (target - left) * m = grind arith in
            rw (← state) (sym issued, total, sym reported, omega arith)
      ]
