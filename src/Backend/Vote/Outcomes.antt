-- ===== src/Backend/Vote/Outcomes.antt =====
-- What the parts of the vote transaction of src/backend/service.ts give back when they do not fail.
use dsh_liangxiang.Prelude.{
  ℕ, ◌≤◌, String, ◌≡◌, refl, sym, ap, ◌∙◌, ◌⊎◌, inl, inr, Bool, false, not, none, some, [], ◌∷◌,
  ◌++◌, arith, Number, nat, Result, ok, err, ◌>>=◌, ltb, ltb_false→le, Bool-cases, Option-cases,
  ok-injective, >>=-eq-ok, find, is_some,
}
use dsh_liangxiang.Domain.Errors.{DomainErrorCode}
use dsh_liangxiang.Domain.VoteBudget.{clamp_vote_spend}
use dsh_liangxiang.Backend.Store.{
  CaseRow, IncenseRow, Db, RejectionReason, insufficient_incense, is_vote, incense_for,
  has_voted_for_case, spend_incense, insert_vote, insert_vote_request, apply_accepted_vote_to_stats,
  VoteRow, VoteRequestRow,
}
use dsh_liangxiang.Backend.Vote.{
  V1VoteRequest, V1VoteResult, accepted, rejected, requested_of, remaining_of, request_row,
  record_rejected_request, remaining_for, vote_row, accept_vote, spend_vote,
}

abbrev pub add_vote : Db → VoteRow → Db
add_vote db row = record db { votes = db.votes ++ row ∷ [] }

abbrev pub add_request : Db → VoteRequestRow → Db
add_request db row = record db { requests = db.requests ++ row ∷ [] }

pub insert_vote-eq-ok :
    (db db' : Db) (row : VoteRow)
    → insert_vote db row ≡ ok db'
    → (db' ≡ add_vote db row)
      × (is_some (find (is_vote row.installation_id row.request_id) db.votes) ≡ false)
unfolding insert_vote
insert_vote-eq-ok db db' row h = ground arith

pub insert_request-eq-ok :
    (db db' : Db) (row : VoteRequestRow)
    → insert_vote_request db row ≡ ok db'
    → db' ≡ add_request db row
unfolding insert_vote_request
insert_request-eq-ok db db' row h = ground arith

pub record_rejected-eq-ok :
    (db : Db) (inst : String) (intent : V1VoteRequest) (active : CaseRow) (now : ℕ)
    (reason : RejectionReason) (out : V1VoteResult × Db)
    → record_rejected_request db inst intent active now reason ≡ ok out
    → out ≡ (rejected reason, add_request db (request_row inst intent active (some reason) now))
unfolding record_rejected_request
record_rejected-eq-ok db inst intent active now reason out h =
    let (db', e, k) =
      >>=-eq-ok (insert_vote_request db (request_row inst intent active (some reason) now))
        (λ db'. ok (rejected reason, db')) h in
    sym (ok-injective k) ∙ ap (λ d. (rejected reason, d)) (insert_request-eq-ok db db' _ e)

-- The database behind an accepted vote.
abbrev pub settled :
    Db → String → V1VoteRequest → CaseRow → CaseRow → ℕ → Bool → IncenseRow → ℕ → Db
settled paid inst intent active target spent first row now =
    apply_accepted_vote_to_stats
      (add_request (add_vote paid (vote_row inst intent target spent row.used_incense now))
        (request_row inst intent active none now))
      target.id intent.vote_type spent first now

accept_vote-eq-ok :
    (db : Db) (inst : String) (intent : V1VoteRequest) (active target : CaseRow) (spent : ℕ)
    (first : Bool) (now : ℕ) (out : V1VoteResult × Db)
    → accept_vote db inst intent active target spent first now ≡ ok out
    → (row : IncenseRow) × (incense_for db inst target.business_date ≡ some row)
      × (is_some (find (is_vote inst intent.request_id) db.votes) ≡ false)
      × (out ≡ (
        accepted intent.vote_type row.used_incense (remaining_of row) spent (some spent) false,
        settled db inst intent active target spent first row now,
      ))
unfolding accept_vote
accept_vote-eq-ok db inst intent active target spent first now out h =
    elim (Option-cases (incense_for db inst target.business_date)) [
      | inl e ↦ cc (rw (e, accept_vote) at h)
      | inr (row, e) ↦
          let vr = vote_row inst intent target spent row.used_incense now in
          let rr = request_row inst intent active none now in
          let done : Db → V1VoteResult × Db = λ d. (
            accepted intent.vote_type row.used_incense (remaining_of row) spent (some spent) false,
            apply_accepted_vote_to_stats d target.id intent.vote_type spent first now,
          ) in
          let (voted, ve, k) =
            >>=-eq-ok (insert_vote db vr) (λ d. insert_vote_request d rr >>= λ s. ok (done s))
              (rw (e, accept_vote) at h) in
          let (recorded, re, same) =
            >>=-eq-ok (insert_vote_request voted rr) (λ s. ok (done s)) k in
          let (v, unused) = insert_vote-eq-ok db voted vr ve in
          let r = insert_request-eq-ok voted recorded rr re in
          (row, e, unused, sym (ok-injective same) ∙ ap done (r ∙ ap (λ d. add_request d rr) v))
    ]

-- What an acceptance has checked and done, from the ensured rows `base` on.
pub record Acceptance (base : Db) (inst : String) (intent : V1VoteRequest) (active target : CaseRow)
    (now : ℕ) (max_spend : Number) (spent : ℕ) (paid : Db) (row : IncenseRow) : Type 0 where
  pub clamped :
      clamp_vote_spend (nat (requested_of intent)) (remaining_for base inst target) max_spend
      ≡ ok spent
  pub positive : 1 ≤ spent
  pub paid_for : spend_incense base inst target.business_date spent now ≡ some paid
  pub charged : incense_for paid inst target.business_date ≡ some row
  pub unused : is_some (find (is_vote inst intent.request_id) paid.votes) ≡ false

abbrev pub accepted_out :
    Db → String → V1VoteRequest → CaseRow → CaseRow → ℕ → ℕ → Db → IncenseRow → V1VoteResult × Db
accepted_out base inst intent active target now spent paid row = (
  accepted intent.vote_type row.used_incense (remaining_of row) spent (some spent) false,
  settled paid inst intent active target spent (not (has_voted_for_case base inst target.id)) row
      now,
)

abbrev pub refused_out :
    Db → String → V1VoteRequest → CaseRow → ℕ → RejectionReason → V1VoteResult × Db
refused_out base inst intent active now reason =
    (rejected reason, add_request base (request_row inst intent active (some reason) now))

-- The two ends of `spend_vote`.
pub spend_vote-eq-ok :
    (base : Db) (inst : String) (intent : V1VoteRequest) (active target : CaseRow) (now : ℕ)
    (max_spend : Number) (out : V1VoteResult × Db)
    → spend_vote base inst intent active target now max_spend ≡ ok out
    → (out ≡ refused_out base inst intent active now insufficient_incense)
      ⊎ ((spent : ℕ) × (paid : Db) × (row : IncenseRow) × Acceptance base inst intent active target
            now max_spend spent paid row
          × (out ≡ accepted_out base inst intent active target now spent paid row))
unfolding spend_vote
spend_vote-eq-ok base inst intent active target now max_spend out h =
    clamp_cases
      (clamp_vote_spend (nat (requested_of intent)) (remaining_for base inst target) max_spend) refl
  where
    refuse :
        record_rejected_request base inst intent active now insufficient_incense ≡ ok out
        → out ≡ refused_out base inst intent active now insufficient_incense
    refuse k = record_rejected-eq-ok base inst intent active now insufficient_incense out k

    clamp_cases :
        (r : Result DomainErrorCode ℕ)
        → clamp_vote_spend (nat (requested_of intent)) (remaining_for base inst target) max_spend
          ≡ r
        → (out ≡ refused_out base inst intent active now insufficient_incense)
          ⊎ ((spent : ℕ) × (paid : Db) × (row : IncenseRow) × Acceptance base inst intent active
                target now max_spend spent paid row
              × (out ≡ accepted_out base inst intent active target now spent paid row))
    clamp_cases (err code) c = cc (rw (c, spend_vote) at h)
    clamp_cases (ok spent) c = elim (Bool-cases (ltb spent 1)) [
      | inl none_left ↦ inl (refuse (rw none_left at (rw (c, spend_vote) at h)))
      | inr some_left ↦
          elim (Option-cases (spend_incense base inst target.business_date spent now)) [
            | inl p ↦ inl (refuse (rw p at (rw some_left at (rw (c, spend_vote) at h))))
            | inr (paid, p) ↦
                let (row, charged, unused, same) =
                  accept_vote-eq-ok paid inst intent active target spent
                    (not (has_voted_for_case base inst target.id)) now out
                    (rw p at (rw some_left at (rw (c, spend_vote) at h))) in
                inr (
                  spent,
                  paid,
                  row,
                  record {
                    clamped = c;
                    positive = ltb_false→le spent 1 some_left;
                    paid_for = p;
                    charged = charged;
                    unused = unused;
                  },
                  same,
                )
          ]
    ]
