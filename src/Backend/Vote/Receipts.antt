-- ===== src/Backend/Vote/Receipts.antt =====
-- The receipts that a vote of src/backend/service.ts leaves, and what an intent with a receipt meets.
use dsh_liangxiang.Prelude.{
  ℕ, String, ◌≡◌, refl, ap, ◌∙◌, inl, inr, Bool, true, false, Option, none, some, List, [], ◌∷◌,
  ◌++◌, str_eq, Number, nat, ok, eq_test, Option-cases, find, find-append,
}
use text.Mathlib.TextEquality.{eq_iff as text_eq_iff}
use dsh_liangxiang.Domain.Vote.{vote_type_eq_iff}
use dsh_liangxiang.Backend.Store.{
  CaseRow, VoteRow, VoteRequestRow, Db, RejectionReason, idempotency_conflict, incense_for,
  vote_by_request_id, vote_request_by_request_id,
}
use dsh_liangxiang.Backend.Vote.{
  V1VoteRequest, V1VoteResult, accepted, rejected, Config, requested_of, remaining_of,
  same_vote_intent, replay_accepted, replay_stored_request, request_row, publish_accepted,
  vote_in_transaction, vote,
}
use dsh_liangxiang.Backend.Vote.Commits.{is_fresh, replay_stored_request-is_fresh}

pub text_refl : (s : String) → str_eq s s ≡ true
text_refl s = (text_eq_iff s s).1 refl

-- The rows that a vote writes are found by its request id.
pub find-last {ℓ} :
    {A : Type ℓ} (p : A → Bool) (xs : List A) (a : A)
    → find p xs ≡ none
    → p a ≡ true
    → find p (xs ++ a ∷ []) ≡ some a
find-last p xs a absent hit = find-append p xs (a ∷ []) ∙ rw (absent, hit) refl

pub request_row-same :
    (inst : String) (intent : V1VoteRequest) (active : CaseRow) (reason : Option RejectionReason)
    (now : ℕ)
    → same_vote_intent (request_row inst intent active reason now) intent (requested_of intent)
      ≡ true
unfolding same_vote_intent
request_row-same inst intent active reason now =
    rw
      (
        text_refl intent.case_id,
        (vote_type_eq_iff intent.vote_type intent.vote_type).1 refl,
        eq_test (requested_of intent) (requested_of intent) refl,
      )
      refl

publish_accepted-idle :
    (active : CaseRow) (now : ℕ) (outcome : V1VoteResult) (db : Db)
    → is_fresh (ok outcome) ≡ false
    → publish_accepted active now (outcome, db) ≡ (outcome, db)
publish_accepted-idle active now (accepted v used remaining spent original false) db h = cc
publish_accepted-idle active now (accepted v used remaining spent original true) db h = refl
publish_accepted-idle active now (rejected reason) db h = refl

-- An intent with a receipt of its own.
pub vote-receipted :
    (config : Config) (db : Db) (inst : String) (intent : V1VoteRequest) (active : CaseRow)
    (now : ℕ) (max_spend : Number) (stored : VoteRequestRow)
    → vote_request_by_request_id db inst intent.request_id ≡ some stored
    → same_vote_intent stored intent (requested_of intent) ≡ true
    → vote config db inst intent active now max_spend
      ≡ (ok (replay_stored_request db inst intent stored active), db)
unfolding vote vote_in_transaction
vote-receipted config db inst intent active now max_spend stored e s =
    rw (e, vote, vote_in_transaction)
      (rw s (
        ap (λ (o : V1VoteResult × Db). (ok o.0, o.1))
          (publish_accepted-idle active now _ db
            (replay_stored_request-is_fresh db inst intent stored active))))

pub vote-conflicting :
    (config : Config) (db : Db) (inst : String) (intent : V1VoteRequest) (active : CaseRow)
    (now : ℕ) (max_spend : Number) (stored : VoteRequestRow)
    → vote_request_by_request_id db inst intent.request_id ≡ some stored
    → same_vote_intent stored intent (requested_of intent) ≡ false
    → vote config db inst intent active now max_spend ≡ (ok (rejected idempotency_conflict), db)
unfolding vote vote_in_transaction
vote-conflicting config db inst intent active now max_spend stored e s =
    rw (e, vote, vote_in_transaction) (rw s refl)

-- A rejection is replayed by its reason, and an acceptance by its vote.
pub replay-rejected :
    (db : Db) (inst : String) (intent : V1VoteRequest) (stored : VoteRequestRow) (active : CaseRow)
    (reason : RejectionReason)
    → stored.is_rejected ≡ true
    → stored.rejection_reason ≡ some reason
    → replay_stored_request db inst intent stored active ≡ rejected reason
unfolding replay_stored_request
replay-rejected db inst intent stored active reason s e = rw (s, e, replay_stored_request) refl

pub replay-accepted :
    (db : Db) (inst : String) (intent : V1VoteRequest) (stored : VoteRequestRow) (active : CaseRow)
    (row : VoteRow)
    → stored.is_rejected ≡ false
    → vote_by_request_id db inst intent.request_id ≡ some row
    → (used : ℕ) × (left : Number) × (replay_stored_request db inst intent stored active
        ≡ accepted row.vote_type used left 0 row.accepted_incense true)
unfolding replay_stored_request replay_accepted
replay-accepted db inst intent stored active row e f =
    elim (Option-cases (incense_for db inst active.business_date)) [
      | inl none_yet ↦ (0, nat 0, rw (e, f, none_yet, replay_stored_request, replay_accepted) refl)
      | inr (r, found) ↦ (
        r.used_incense,
        remaining_of r,
        rw (e, f, found, replay_stored_request, replay_accepted) refl,
      )
    ]
