-- ===== src/Backend/Vote/Replay.antt =====
-- A vote of src/backend/service.ts that is sent again: it answers as before and changes nothing.
use dsh_liangxiang.Prelude.{
  ℕ, String, ◌≡◌, refl, sym, ap, ◌∙◌, ◌≢◌, inl, inr, true, false, ◌&&◌, Option, none, some, [], ◌∷◌,
  ◌++◌, arith, str_eq, Number, Result, ok, ◌==◌, Bool-cases, Option-cases, ok-injective, find, both,
  is_some,
}
use text.Mathlib.TextEquality.{eq_iff as text_eq_iff}
use dsh_liangxiang.Domain.Vote.{vote_type_eq, vote_type_eq_iff}
use dsh_liangxiang.Backend.Store.{
  CaseRow, VoteRow, VoteRequestRow, Db, StoreError, RejectionReason, invalid_intent,
  idempotency_conflict, insufficient_incense, case_not_active, stale_case, is_vote, is_request,
  vote_by_request_id, vote_request_by_request_id, apply_accepted_vote_to_stats,
}
use dsh_liangxiang.Backend.Vote.{
  V1VoteRequest, V1VoteResult, accepted, rejected, Config, requested_of, same_vote_intent,
  replay_stored_request, request_row, vote_row, ensure_row, vote,
}
use dsh_liangxiang.Backend.Vote.Commits.{
  Ends, replays, conflicts, refuses, lacks, accepts, vote-commits, is_fresh, is_dud,
}
use dsh_liangxiang.Backend.Vote.Solvency.{committed-rows}
use dsh_liangxiang.Backend.Vote.Frame.{ensure_row-Funding, spend_incense-Funding}
use dsh_liangxiang.Backend.Vote.Fresh.{vote-FreshEnd, committed-is_fresh}
use dsh_liangxiang.Backend.Vote.Receipts.{
  text_refl, find-last, request_row-same, vote-receipted, vote-conflicting, replay-rejected,
  replay-accepted,
}

-- The answer to the repetition of an intent whose answer was the first argument.
abbrev pub IsReplayOf : V1VoteResult → Result StoreError V1VoteResult → Type 0
IsReplayOf (accepted v used remaining spent original replayed) again =
    (used_now : ℕ) × (left_now : Number) × (again
      ≡ ok (accepted v used_now left_now 0 original true))
IsReplayOf (rejected reason) again = again ≡ ok (rejected reason)

-- A refused intent finds its receipt.
refused-again :
    (config : Config) (db db' : Db) (inst : String) (intent : V1VoteRequest)
    (active active' : CaseRow) (now now' : ℕ) (max_spend : Number) (reason : RejectionReason)
    → vote_request_by_request_id db inst intent.request_id ≡ none
    → db'.requests ≡ db.requests ++ request_row inst intent active (some reason) now ∷ []
    → vote config db' inst intent active' now' max_spend ≡ (ok (rejected reason), db')
unfolding vote_request_by_request_id
refused-again config db db' inst intent active active' now now' max_spend reason absent rows =
    let stored = request_row inst intent active (some reason) now in
    let found : vote_request_by_request_id db' inst intent.request_id ≡ some stored =
      ap (find (is_request inst intent.request_id)) rows
      ∙ find-last (is_request inst intent.request_id) db.requests stored absent
          (rw (text_refl inst, text_refl intent.request_id) refl) in
    vote-receipted config db' inst intent active' now' max_spend stored found
      (request_row-same inst intent active (some reason) now)
    ∙ ap (λ (o : V1VoteResult). (ok o, db'))
        (replay-rejected db' inst intent stored active' reason refl refl)

-- An accepted intent finds its receipt and its vote.
accepted-again :
    (config : Config) (db db' : Db) (inst : String) (intent : V1VoteRequest)
    (active active' target : CaseRow) (now now' spent used : ℕ) (max_spend : Number)
    → vote_request_by_request_id db inst intent.request_id ≡ none
    → is_some (vote_by_request_id db inst intent.request_id) ≡ false
    → db'.requests ≡ db.requests ++ request_row inst intent active none now ∷ []
    → db'.votes ≡ db.votes ++ vote_row inst intent target spent used now ∷ []
    → (used_now : ℕ) × (left_now : Number) × (vote config db' inst intent active' now' max_spend
        ≡ (ok (accepted intent.vote_type used_now left_now 0 (some spent) true), db'))
unfolding vote_request_by_request_id vote_by_request_id
accepted-again config db db' inst intent active active' target now now' spent used max_spend absent
      unused rows voted =
    let stored = request_row inst intent active none now in
    let row = vote_row inst intent target spent used now in
    let found : vote_request_by_request_id db' inst intent.request_id ≡ some stored =
      ap (find (is_request inst intent.request_id)) rows
      ∙ find-last (is_request inst intent.request_id) db.requests stored absent
          (rw (text_refl inst, text_refl intent.request_id) refl) in
    let has_vote : vote_by_request_id db' inst intent.request_id ≡ some row =
      ap (find (is_vote inst intent.request_id)) voted
      ∙ find-last (is_vote inst intent.request_id) db.votes row (none_of _ unused)
          (rw (text_refl inst, text_refl intent.request_id) refl) in
    let (used_now, left_now, same) =
      replay-accepted db' inst intent stored active' row refl has_vote in
    (
      used_now,
      left_now,
      vote-receipted config db' inst intent active' now' max_spend stored found
            (request_row-same inst intent active none now)
          ∙ ap (λ (o : V1VoteResult). (ok o, db')) same,
    )
  where
    none_of : (o : Option VoteRow) → is_some o ≡ false → o ≡ none
    none_of none h = refl
    none_of (some v) h = cc

-- What is replayed from an old receipt is replayed again.
replay-IsReplayOf :
    (db db' : Db) (inst : String) (intent : V1VoteRequest) (stored : VoteRequestRow)
    (active active' : CaseRow)
    → db'.votes ≡ db.votes
    → is_dud (ok (replay_stored_request db inst intent stored active)) ≡ false
    → IsReplayOf
        (replay_stored_request db inst intent stored active)
        (ok (replay_stored_request db' inst intent stored active'))
unfolding replay_stored_request vote_by_request_id
replay-IsReplayOf db db' inst intent stored active active' voted h =
    elim (Bool-cases stored.is_rejected) [
      | inl s ↦ elim (Option-cases stored.rejection_reason) [
        | inl e ↦ cc (rw (s, e, replay_stored_request) at h)
        | inr (reason, e) ↦
            rw
              (
                replay-rejected db inst intent stored active reason s e,
                replay-rejected db' inst intent stored active' reason s e,
              )
              refl
      ]
      | inr s ↦ elim (Option-cases (vote_by_request_id db inst intent.request_id)) [
        | inl f ↦ cc (rw (s, f, replay_stored_request) at h)
        | inr (row, f) ↦
            let (used, left, same) = replay-accepted db inst intent stored active row s f in
            let (used', left', same') =
              replay-accepted db' inst intent stored active' row s
                (ap (find (is_vote inst intent.request_id)) voted ∙ f) in
            rw (same, same') (used', left', refl)
      ]
    ]

Ends-again :
    (config config' : Config) (db db' : Db) (inst : String) (intent : V1VoteRequest)
    (active active' : CaseRow) (now now' : ℕ) (max_spend max_spend' : Number)
    (out : V1VoteResult × Db)
    → Ends config db inst intent active now max_spend out
    → is_dud (ok out.0) ≡ false
    → db'.requests ≡ out.1.requests
    → db'.votes ≡ out.1.votes
    → IsReplayOf out.0 (vote config' db' inst intent active' now' max_spend').0
      × ((vote config' db' inst intent active' now' max_spend').1 ≡ db')
unfolding vote_request_by_request_id vote_by_request_id apply_accepted_vote_to_stats
Ends-again config config' db db' inst intent active active' now now' max_spend max_spend' out ends h
      kept voted =
    elim ends [
      | replays stored e s same ↦
          let again =
            vote-receipted config' db' inst intent active' now' max_spend' stored
              (ap (find (is_request inst intent.request_id)) (kept ∙ ap (λ o. o.1.requests) same)
                ∙ e)
              s in
          rw again (
            rw same (
                replay-IsReplayOf db db' inst intent stored active active'
                  (voted ∙ ap (λ o. o.1.votes) same) (rw same at h)),
            refl,
          )
      | conflicts stored e s same ↦
          let again =
            vote-conflicting config' db' inst intent active' now' max_spend' stored
              (ap (find (is_request inst intent.request_id)) (kept ∙ ap (λ o. o.1.requests) same)
                ∙ e)
              s in
          rw again (rw same refl, refl)
      | refuses reason e same ↦
          let again =
            refused-again config' db db' inst intent active active' now now' max_spend' reason e
              (kept ∙ ap (λ o. o.1.requests) same) in
          rw again (rw same refl, refl)
      | lacks target e c same ↦
          let f = ensure_row-Funding config db inst target now in
          let again =
            refused-again config' db db' inst intent active active' now now' max_spend'
              insufficient_incense e
              (kept ∙ ap (λ o. o.1.requests) same ∙ rw f.requests_kept refl) in
          rw again (rw same refl, refl)
      | accepts target spent paid row e c a ids done same ↦
          let f = ensure_row-Funding config db inst target now in
          let g =
            spend_incense-Funding (ensure_row config db inst target now) paid inst
              target.business_date spent now done.paid_for in
          let (used_now, left_now, again) =
            accepted-again config' db db' inst intent active active' target now now' spent
              row.used_incense max_spend' e
              (ap (λ vs. is_some (find (is_vote inst intent.request_id) vs))
                  (sym (g.votes_kept ∙ f.votes_kept))
                ∙ done.unused)
              (kept ∙ ap (λ o. o.1.requests) same ∙ rw (g.requests_kept, f.requests_kept) refl)
              (voted ∙ ap (λ o. o.1.votes) same ∙ rw (g.votes_kept, f.votes_kept) refl) in
          rw again (rw same (used_now, left_now, refl), refl)
    ]

-- A vote that is answered, by anything but invalid_intent, may be sent again at any later time, under any
-- active case, configuration and budget, as long as the database is what the first call left. The
-- database is left as it is; a rejection is repeated with its reason, and an acceptance is answered as
-- a replay that spends nothing and shows the original accepted quantity.
pub vote-vote :
    (config config' : Config) (db : Db) (inst : String) (intent : V1VoteRequest)
    (active active' : CaseRow) (now now' : ℕ) (max_spend max_spend' : Number)
    (outcome : V1VoteResult)
    → (vote config db inst intent active now max_spend).0 ≡ ok outcome
    → outcome ≢ rejected invalid_intent
    → let db' = (vote config db inst intent active now max_spend).1 in
      let again = vote config' db' inst intent active' now' max_spend' in
      IsReplayOf outcome again.0 × (again.1 ≡ db')
vote-vote config config' db inst intent active active' now now' max_spend max_spend' outcome result
      clear =
    elim (vote-commits config db inst intent active now max_spend) [
      | inl (idle, same) ↦ cc (sym (ap is_dud result ∙ no_dud outcome clear) ∙ idle)
      | inr (out, ends, same) ↦
          let (kept, rows) = committed-rows active now out in
          let left : (vote config db inst intent active now max_spend).1
              ≡ record out.1 { snapshots = kept } =
            ap (λ v. v.1) same ∙ rows in
          let outcome_is : outcome ≡ out.0 =
            ok-injective (sym result ∙ ap (λ v. v.0) same ∙ committed-is_fresh active now out) in
          rw outcome_is (
            Ends-again config config' db (vote config db inst intent active now max_spend).1 inst
              intent active active' now now' max_spend max_spend' out ends
              (ap (λ o. is_dud (ok o)) (sym outcome_is) ∙ no_dud outcome clear)
              (ap (λ d. d.requests) left) (ap (λ d. d.votes) left))
    ]
  where
    no_dud : (o : V1VoteResult) → o ≢ rejected invalid_intent → is_dud (ok o) ≡ false
    no_dud (accepted v used remaining spent original replayed) h = refl
    no_dud (rejected invalid_intent) h = absurd (h refl)
    no_dud (rejected insufficient_incense) h = refl
    no_dud (rejected case_not_active) h = refl
    no_dud (rejected stale_case) h = refl
    no_dud (rejected idempotency_conflict) h = refl

same_vote_intent-of :
    (inst : String) (intent intent' : V1VoteRequest) (active : CaseRow) (now : ℕ)
    → same_vote_intent (request_row inst intent active none now) intent' (requested_of intent')
      ≡ true
    → (intent'.case_id ≡ intent.case_id)
      × (intent'.vote_type ≡ intent.vote_type)
      × (requested_of intent' ≡ requested_of intent)
unfolding same_vote_intent
same_vote_intent-of inst intent intent' active now h =
    let (first, count_same) =
      both
        (str_eq intent.case_id intent'.case_id && vote_type_eq intent.vote_type intent'.vote_type)
        (requested_of intent == requested_of intent') h in
    let (case_same, type_same) =
      both (str_eq intent.case_id intent'.case_id) (vote_type_eq intent.vote_type intent'.vote_type)
        first in
    (
      sym ((text_eq_iff intent.case_id intent'.case_id).0 case_same),
      sym ((vote_type_eq_iff intent.vote_type intent'.vote_type).0 type_same),
      sym (same_number (requested_of intent) (requested_of intent') count_same),
    )
  where
    same_number : (a b : ℕ) → (a == b) ≡ true → a ≡ b
    same_number a b h = ground arith

-- After a vote that was accepted and no replay, an intent with its request id and another case, direction
-- or count is refused as an idempotency conflict, at any later time, and changes nothing.
pub vote-vote_other :
    (config config' : Config) (db : Db) (inst : String) (intent intent' : V1VoteRequest)
    (active active' : CaseRow) (now now' : ℕ) (max_spend max_spend' : Number)
    → is_fresh (vote config db inst intent active now max_spend).0 ≡ true
    → intent'.request_id ≡ intent.request_id
    → ¬ (
        (intent'.case_id ≡ intent.case_id)
        × (intent'.vote_type ≡ intent.vote_type)
        × (requested_of intent' ≡ requested_of intent))
    → let db' = (vote config db inst intent active now max_spend).1 in
      vote config' db' inst intent' active' now' max_spend'
      ≡ (ok (rejected idempotency_conflict), db')
unfolding vote_request_by_request_id apply_accepted_vote_to_stats
vote-vote_other config config' db inst intent intent' active active' now now' max_spend max_spend'
      fresh id_is differs =
    let (out, end, outcome, kept, rows) =
      vote-FreshEnd config db inst intent active now max_spend fresh in
    let db' = (vote config db inst intent active now max_spend).1 in
    let stored = request_row inst intent active none now in
    let f = ensure_row-Funding config db inst end.target now in
    let g =
      spend_incense-Funding (ensure_row config db inst end.target now) end.paid inst
        end.target.business_date end.spent now end.done.paid_for in
    let requests_are : db'.requests ≡ db.requests ++ stored ∷ [] =
      ap (λ d. d.requests) rows
      ∙ ap (λ o. o.1.requests) end.out_is
      ∙ ap (λ rs. rs ++ stored ∷ []) (g.requests_kept ∙ f.requests_kept) in
    let found : vote_request_by_request_id db' inst intent'.request_id ≡ some stored = rw id_is (
      ap (find (is_request inst intent.request_id)) requests_are
      ∙ find-last (is_request inst intent.request_id) db.requests stored end.absent
          (rw (text_refl inst, text_refl intent.request_id) refl)) in
    elim (Bool-cases (same_vote_intent stored intent' (requested_of intent'))) [
      | inl s ↦ absurd (differs (same_vote_intent-of inst intent intent' active now s))
      | inr s ↦ vote-conflicting config' db' inst intent' active' now' max_spend' stored found s
    ]
