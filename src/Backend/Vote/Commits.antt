-- ===== src/Backend/Vote/Commits.antt =====
-- The ways in which the vote transaction of src/backend/service.ts can commit, for the proofs to split on.
use dsh_liangxiang.Prelude.{
  ℕ, String, ◌≡◌, refl, sym, ◌⊎◌, inl, inr, Bool, true, false, not, Option, none, some, arith,
  str_eq, Number, Result, ok, err, Bool-cases, Option-cases, ok-injective,
}
use dsh_liangxiang.Backend.Store.{
  CaseRow, IncenseRow, Db, StoreError, RejectionReason, idempotency_conflict, invalid_intent,
  insufficient_incense, case_not_active, stale_case, is_active, duplicate_request, row_vanished,
  domain, case_by_id, vote_request_by_request_id, VoteRequestRow,
}
use dsh_liangxiang.Backend.Vote.{
  V1VoteRequest, V1VoteResult, accepted, rejected, Config, requested_of, same_vote_intent,
  replay_stored_request, record_rejected_request, ensure_row, fresh_vote, vote_in_transaction,
}
use dsh_liangxiang.Backend.Vote.{publish_accepted, vote, replay_result, replay_accepted}
use dsh_liangxiang.Backend.Vote.Outcomes.{
  refused_out, accepted_out, Acceptance, record_rejected-eq-ok, spend_vote-eq-ok,
}

-- The ways in which a transaction commits with `out`.
pub data Ends (config : Config) (db : Db) (inst : String) (intent : V1VoteRequest)
    (active : CaseRow) (now : ℕ) (max_spend : Number) (out : V1VoteResult × Db) : Type 0 where
  replays :
      (stored : VoteRequestRow)
      → vote_request_by_request_id db inst intent.request_id ≡ some stored
      → same_vote_intent stored intent (requested_of intent) ≡ true
      → out ≡ (replay_stored_request db inst intent stored active, db)
      → Ends config db inst intent active now max_spend out
  conflicts :
      (stored : VoteRequestRow)
      → vote_request_by_request_id db inst intent.request_id ≡ some stored
      → same_vote_intent stored intent (requested_of intent) ≡ false
      → out ≡ (rejected idempotency_conflict, db)
      → Ends config db inst intent active now max_spend out
  -- refused before any row of the day is looked at
  refuses :
      (reason : RejectionReason)
      → vote_request_by_request_id db inst intent.request_id ≡ none
      → out ≡ refused_out db inst intent active now reason
      → Ends config db inst intent active now max_spend out
  -- refused for want of incense
  lacks :
      (target : CaseRow)
      → vote_request_by_request_id db inst intent.request_id ≡ none
      → case_by_id db intent.case_id ≡ some target
      → out
        ≡ refused_out
            (ensure_row config db inst target now)
            inst
            intent
            active
            now
            insufficient_incense
      → Ends config db inst intent active now max_spend out
  accepts :
      (target : CaseRow) (spent : ℕ) (paid : Db) (row : IncenseRow)
      → vote_request_by_request_id db inst intent.request_id ≡ none
      → case_by_id db intent.case_id ≡ some target
      → is_active target.status ≡ true
      → (str_eq target.id active.id ≡ true)
        × (str_eq target.business_date active.business_date ≡ true)
      → Acceptance
          (ensure_row config db inst target now)
          inst
          intent
          active
          target
          now
          max_spend
          spent
          paid
          row
      → out
        ≡ accepted_out
            (ensure_row config db inst target now)
            inst
            intent
            active
            target
            now
            spent
            paid
            row
      → Ends config db inst intent active now max_spend out

fresh_vote-Ends :
    (config : Config) (db : Db) (inst : String) (intent : V1VoteRequest) (active : CaseRow)
    (now : ℕ) (max_spend : Number) (out : V1VoteResult × Db)
    → vote_request_by_request_id db inst intent.request_id ≡ none
    → fresh_vote config db inst intent active now max_spend ≡ ok out
    → Ends config db inst intent active now max_spend out
unfolding fresh_vote
fresh_vote-Ends config db inst intent active now max_spend out absent h =
    elim (Option-cases (case_by_id db intent.case_id)) [
      | inl c ↦ stale stale_case (rw (c, fresh_vote) at h)
      | inr (target, c) ↦
          at_case target c (is_active target.status) refl (str_eq target.id active.id) refl
            (str_eq target.business_date active.business_date) refl
    ]
  where
    stale :
        (reason : RejectionReason)
        → record_rejected_request db inst intent active now reason ≡ ok out
        → Ends config db inst intent active now max_spend out
    stale reason k =
        refuses reason absent (record_rejected-eq-ok db inst intent active now reason out k)

    at_case :
        (target : CaseRow)
        → case_by_id db intent.case_id ≡ some target
        → (a : Bool) → is_active target.status ≡ a
        → (i : Bool) → str_eq target.id active.id ≡ i
        → (d : Bool) → str_eq target.business_date active.business_date ≡ d
        → Ends config db inst intent active now max_spend out
    at_case target c false a i ie d de = stale case_not_active (rw a at (rw (c, fresh_vote) at h))
    at_case target c true a false ie d de =
        stale stale_case (rw ie at (rw a at (rw (c, fresh_vote) at h)))
    at_case target c true a true ie false de =
        stale stale_case (rw de at (rw ie at (rw a at (rw (c, fresh_vote) at h))))
    at_case target c true a true ie true de =
        elim (spend_vote-eq-ok (ensure_row config db inst target now) inst intent active target now
          max_spend out (rw de at (rw ie at (rw a at (rw (c, fresh_vote) at h))))) [
            | inl e ↦ lacks target absent c e
            | inr (spent, paid, row, done, e) ↦
                accepts target spent paid row absent c a (ie, de) done e
          ]

pub vote_in_transaction-Ends :
    (config : Config) (db : Db) (inst : String) (intent : V1VoteRequest) (active : CaseRow)
    (now : ℕ) (max_spend : Number) (out : V1VoteResult × Db)
    → vote_in_transaction config db inst intent active now max_spend ≡ ok out
    → Ends config db inst intent active now max_spend out
unfolding vote_in_transaction
vote_in_transaction-Ends config db inst intent active now max_spend out h =
    by_receipt (vote_request_by_request_id db inst intent.request_id) refl
  where
    by_receipt :
        (o : Option VoteRequestRow)
        → vote_request_by_request_id db inst intent.request_id ≡ o
        → Ends config db inst intent active now max_spend out
    by_receipt none e =
        fresh_vote-Ends config db inst intent active now max_spend out e
          (rw (e, vote_in_transaction) at h)
    by_receipt (some stored) e =
        elim (Bool-cases (same_vote_intent stored intent (requested_of intent))) [
          | inl s ↦
              replays stored e s (sym (ok-injective (rw s at (rw (e, vote_in_transaction) at h))))
          | inr s ↦
              conflicts stored e s (sym (ok-injective (rw s at (rw (e, vote_in_transaction) at h))))
        ]

abbrev pub committed : CaseRow → ℕ → V1VoteResult × Db → Result StoreError V1VoteResult × Db
committed active now out = let (outcome, db') = publish_accepted active now out in (ok outcome, db')

-- An acceptance that is no replay.
abbrev pub is_fresh : Result StoreError V1VoteResult → Bool
is_fresh (ok (accepted v used remaining spent original replayed)) = not replayed
is_fresh (ok (rejected reason)) = false
is_fresh (err e) = false

pub replay_stored_request-is_fresh :
    (db : Db) (inst : String) (intent : V1VoteRequest) (stored : VoteRequestRow) (active : CaseRow)
    → is_fresh (ok (replay_stored_request db inst intent stored active)) ≡ false
unfolding replay_stored_request replay_accepted
replay_stored_request-is_fresh db inst intent stored active = ground arith

-- What is answered where nothing is committed: an error, or an intent whose records do not fit.
abbrev pub is_dud : Result StoreError V1VoteResult → Bool
is_dud (ok (rejected invalid_intent)) = true
is_dud (ok _) = false
is_dud (err e) = true

-- A unique index refuses only a request that has no receipt.
duplicate-is_dud :
    (config : Config) (db : Db) (inst : String) (intent : V1VoteRequest) (active : CaseRow)
    (now : ℕ) (max_spend : Number)
    → vote_in_transaction config db inst intent active now max_spend ≡ err duplicate_request
    → is_dud (ok (replay_result db inst intent active)) ≡ true
unfolding replay_result vote_in_transaction
duplicate-is_dud config db inst intent active now max_spend h =
    elim (Option-cases (vote_request_by_request_id db inst intent.request_id)) [
      | inl e ↦ rw (e, replay_result) refl
      | inr (stored, e) ↦ elim (Bool-cases (same_vote_intent stored intent (requested_of intent))) [
        | inl s ↦ cc (rw s at (rw (e, vote_in_transaction) at h))
        | inr s ↦ cc (rw s at (rw (e, vote_in_transaction) at h))
      ]
    ]

-- A call of `vote` that commits nothing.
abbrev pub IsIdle : Db → Result StoreError V1VoteResult × Db → Type 0
IsIdle db (outcome, db') = (is_dud outcome ≡ true) × (db' ≡ db)

-- A call of `vote` leaves the database as it was, or commits one of the ends.
pub vote-commits :
    (config : Config) (db : Db) (inst : String) (intent : V1VoteRequest) (active : CaseRow)
    (now : ℕ) (max_spend : Number)
    → IsIdle db (vote config db inst intent active now max_spend)
      ⊎ ((out : V1VoteResult × Db) × Ends config db inst intent active now max_spend out
          × (vote config db inst intent active now max_spend ≡ committed active now out))
unfolding vote
vote-commits config db inst intent active now max_spend =
    by_outcome (vote_in_transaction config db inst intent active now max_spend) refl
  where
    by_outcome :
        (r : Result StoreError (V1VoteResult × Db))
        → vote_in_transaction config db inst intent active now max_spend ≡ r
        → IsIdle db (vote config db inst intent active now max_spend)
          ⊎ ((out : V1VoteResult × Db) × Ends config db inst intent active now max_spend out
              × (vote config db inst intent active now max_spend ≡ committed active now out))
    by_outcome (ok out) e = inr (
      out,
      vote_in_transaction-Ends config db inst intent active now max_spend out e,
      rw (e, vote) refl,
    )
    by_outcome (err duplicate_request) e =
        inl (rw (e, vote) (duplicate-is_dud config db inst intent active now max_spend e, refl))
    by_outcome (err row_vanished) e = inl (rw (e, vote) (refl, refl))
    by_outcome (err (domain code)) e = inl (rw (e, vote) (refl, refl))
