-- ===== src/Backend/Vote/Fresh.antt =====
-- Where an acceptance of src/backend/service.ts that is no replay comes from.
use dsh_liangxiang.Prelude.{
  ℕ, String, ◌≡◌, refl, sym, ap, ◌∙◌, inl, inr, true, false, none, some, List, Number, Result, ok,
  err,
}
use dsh_liangxiang.Backend.Store.{
  CaseRow, IncenseRow, SnapshotRow, StoreError, Db, is_active, case_by_id,
  vote_request_by_request_id,
}
use dsh_liangxiang.Backend.Vote.{
  V1VoteRequest, V1VoteResult, accepted, rejected, Config, ensure_row, vote,
}
use dsh_liangxiang.Backend.Vote.Outcomes.{Acceptance, accepted_out}
use dsh_liangxiang.Backend.Vote.Commits.{
  Ends, replays, conflicts, refuses, lacks, accepts, committed, vote-commits, is_fresh, is_dud,
  replay_stored_request-is_fresh,
}
use dsh_liangxiang.Backend.Vote.Solvency.{committed-rows}

-- An acceptance that is no replay comes from the one end that accepts.
pub record FreshEnd (config : Config) (db : Db) (inst : String) (intent : V1VoteRequest)
    (active : CaseRow) (now : ℕ) (max_spend : Number) (out : V1VoteResult × Db) : Type 0 where
  pub target : CaseRow
  pub spent : ℕ
  pub paid : Db
  pub row : IncenseRow
  pub absent : vote_request_by_request_id db inst intent.request_id ≡ none
  pub case_is : case_by_id db intent.case_id ≡ some target
  pub active_is : is_active target.status ≡ true
  pub done :
      Acceptance
        (ensure_row config db inst target now)
        inst
        intent
        active
        target
        now
        max_spend
        spent
        paid
        row
  pub out_is :
      out
      ≡ accepted_out
          (ensure_row config db inst target now)
          inst
          intent
          active
          target
          now
          spent
          paid
          row

Ends-FreshEnd :
    (config : Config) (db : Db) (inst : String) (intent : V1VoteRequest) (active : CaseRow)
    (now : ℕ) (max_spend : Number) (out : V1VoteResult × Db)
    → Ends config db inst intent active now max_spend out
    → is_fresh (ok out.0) ≡ true
    → FreshEnd config db inst intent active now max_spend out
Ends-FreshEnd config db inst intent active now max_spend out ends h = elim ends [
  | replays stored e s same ↦
      cc (sym (replay_stored_request-is_fresh db inst intent stored active) ∙ rw same at h)
  | conflicts stored e s same ↦ cc (rw same at h)
  | refuses reason e same ↦ cc (rw same at h)
  | lacks target e c same ↦ cc (rw same at h)
  | accepts target spent paid row e c a ids done same ↦ record {
    target = target;
    spent = spent;
    paid = paid;
    row = row;
    absent = e;
    case_is = c;
    active_is = a;
    done = done;
    out_is = same;
  }
]

pub committed-is_fresh :
    (active : CaseRow) (now : ℕ) (out : V1VoteResult × Db) → (committed active now out).0 ≡ ok out.0
committed-is_fresh active now (accepted v used remaining spent original false, db) = refl
committed-is_fresh active now (accepted v used remaining spent original true, db) = refl
committed-is_fresh active now (rejected reason, db) = refl

dud-is_fresh :
    (outcome : Result StoreError V1VoteResult) → is_dud outcome ≡ true → is_fresh outcome ≡ false
dud-is_fresh (ok (accepted v used remaining spent original replayed)) h = cc
dud-is_fresh (ok (rejected reason)) h = refl
dud-is_fresh (err e) h = refl

pub vote-FreshEnd :
    (config : Config) (db : Db) (inst : String) (intent : V1VoteRequest) (active : CaseRow)
    (now : ℕ) (max_spend : Number)
    → is_fresh (vote config db inst intent active now max_spend).0 ≡ true
    → (out : V1VoteResult × Db) × FreshEnd config db inst intent active now max_spend out
      × ((vote config db inst intent active now max_spend).0 ≡ ok out.0)
      × (kept : List SnapshotRow) × ((vote config db inst intent active now max_spend).1
          ≡ record out.1 { snapshots = kept })
vote-FreshEnd config db inst intent active now max_spend h =
    elim (vote-commits config db inst intent active now max_spend) [
      | inl (idle, same) ↦ cc (sym (dud-is_fresh _ idle) ∙ h)
      | inr (out, ends, same) ↦
          let outcome : (vote config db inst intent active now max_spend).0 ≡ ok out.0 =
            ap (λ r. r.0) same ∙ committed-is_fresh active now out in
          let (kept, rows) = committed-rows active now out in
          (
            out,
            Ends-FreshEnd config db inst intent active now max_spend out ends
                (sym (ap is_fresh outcome) ∙ h),
            outcome,
            kept,
            ap (λ r. r.1) same ∙ rows,
          )
    ]
