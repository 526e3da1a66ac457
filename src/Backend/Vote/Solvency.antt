-- ===== src/Backend/Vote/Solvency.antt =====
-- The incense that src/backend/service.ts spends is paid for: the CHECK of daily_incense_state in
-- src/backend/schema.ts, which the statements of src/backend/store.ts keep by themselves.
use dsh_liangxiang.Prelude.{
  ℕ, ◌+◌, ◌*◌, ◌≤◌, ◌<◌, String, ◌≡◌, refl, sym, ap, ◌∙◌, inl, inr, true, false, not, ◌&&◌, some,
  List, arith, str_eq, Number, leb, leb→le, Bool-cases, Option-cases, find, keep_where, All,
  All-append, some-eq, subst, both, is_some, All-update_where, All-find,
}
use dsh_liangxiang.Backend.Store.{
  CaseRow, IncenseRow, SnapshotRow, Db, is_daily, affords, use_incense, add_tokens, has_case_id,
  case_by_id, ensure_incense_row, add_starter_tokens, spend_incense, apply_accepted_vote_to_stats,
  latest_snapshot, insert_snapshot, prune_snapshots, latest_in,
}
use dsh_liangxiang.Backend.Vote.{
  V1VoteRequest, V1VoteResult, accepted, rejected, Config, ensure_row, try_grant_starter,
  publish_in_transaction, snapshot_history_limit, stats_of, snapshot_row, vote,
}
use dsh_liangxiang.Backend.Vote.Starter.{try_grant_starter-cases, try_insert_starter_grant-incense}
use dsh_liangxiang.Backend.Vote.Commits.{
  Ends, replays, conflicts, refuses, lacks, accepts, committed, vote-commits,
}

-- CHECK (token_per_incense > 0) and CHECK (used_incense * token_per_incense <= claimed_effective_tokens)
abbrev pub IsPaid : IncenseRow → Type 0
IsPaid r =
    (0 < r.token_per_incense) × (r.used_incense * r.token_per_incense ≤ r.claimed_effective_tokens)

abbrev pub IsPriced : CaseRow → Type 0
IsPriced c = 0 < c.token_per_incense

abbrev pub IsSolvent : Db → Type 0
IsSolvent db = All IsPaid db.incense × All IsPriced db.cases

ensure_incense_row-IsSolvent :
    (db : Db) (inst date : String) (per now : ℕ)
    → 0 < per
    → IsSolvent db
    → IsSolvent (ensure_incense_row db inst date per now)
unfolding ensure_incense_row
ensure_incense_row-IsSolvent db inst date per now p h =
    elim (Bool-cases (is_some (find (is_daily inst date) db.incense))) [
      | inl e ↦ rw (e, ensure_incense_row) h
      | inr e ↦
          rw (e, ensure_incense_row)
            (All-append IsPaid db.incense _ h.0 ((p, omega arith), tt), h.1)
    ]

add_starter_tokens-IsSolvent :
    (db : Db) (inst date : String) (tokens now : ℕ)
    → IsSolvent db
    → IsSolvent (add_starter_tokens db inst date tokens now)
unfolding add_starter_tokens
add_starter_tokens-IsSolvent db inst date tokens now h = (
  All-update_where IsPaid (is_daily inst date) (add_tokens tokens now) db.incense
      (λ r p hit. (p.0, omega (arith, p.1))) h.0,
  h.1,
)

try_grant_starter-IsSolvent :
    (config : Config) (db : Db) (inst : String) (target : CaseRow) (now : ℕ)
    → IsSolvent db
    → IsSolvent (try_grant_starter config db inst target now)
try_grant_starter-IsSolvent config db inst target now h =
    elim (try_grant_starter-cases config db inst target now) [
      | inl same ↦ rw same h
      | inr g ↦
          let date = target.business_date in
          let tokens = config.starter_incense_count * target.token_per_incense in
          let (same, priced) =
            try_insert_starter_grant-incense db g.granted g.fingerprint date inst tokens
              g.inserts in
          rw g.adds
            (add_starter_tokens-IsSolvent g.granted inst date tokens now (rw (same, priced) h))
    ]

pub ensure_row-IsSolvent :
    (config : Config) (db : Db) (inst : String) (target : CaseRow) (now : ℕ)
    → 0 < target.token_per_incense
    → IsSolvent db
    → IsSolvent (ensure_row config db inst target now)
unfolding ensure_row
ensure_row-IsSolvent config db inst target now p h =
    try_grant_starter-IsSolvent config _ inst target now
      (ensure_incense_row-IsSolvent db inst target.business_date target.token_per_incense now p h)

-- The guard of the UPDATE is what keeps a row paid for, whatever count is asked.
pub spend_incense-IsSolvent :
    (db paid : Db) (inst date : String) (count now : ℕ)
    → spend_incense db inst date count now ≡ some paid
    → IsSolvent db
    → IsSolvent paid
unfolding spend_incense
spend_incense-IsSolvent db paid inst date count now s h =
    let hit = λ (r : IncenseRow). is_daily inst date r && affords count r in
    elim (Bool-cases (leb 1 count && is_some (find hit db.incense))) [
      | inr e ↦ cc (rw (e, spend_incense) at s)
      | inl e ↦ subst IsSolvent (some-eq (rw (e, spend_incense) at s)) (
        All-update_where IsPaid hit (use_incense count now) db.incense
            (λ r p t. (p.0, leb→le _ _ (both _ _ t).1)) h.0,
        h.1,
      )
    ]

-- Publishing changes the snapshots only.
pub publish-rows :
    (db : Db) (target : CaseRow) (now : ℕ)
    → (kept : List SnapshotRow) × (publish_in_transaction db target now
        ≡ record db { snapshots = kept })
unfolding publish_in_transaction prune_snapshots insert_snapshot
publish-rows db target now =
    let added =
      insert_snapshot db
        (snapshot_row target (stats_of db target) (latest_snapshot db target.id) now) in
    elim (Option-cases (latest_in target.id added.snapshots)) [
      | inl e ↦ (added.snapshots, rw (e, publish_in_transaction, prune_snapshots) refl)
      | inr (newest, e) ↦ (
        keep_where
            (λ s. not (
              str_eq s.case_id target.id
              && leb (s.sequence + snapshot_history_limit) newest.sequence))
            added.snapshots,
        rw (e, publish_in_transaction, prune_snapshots) refl,
      )
    ]

pub committed-rows :
    (active : CaseRow) (now : ℕ) (out : V1VoteResult × Db)
    → (kept : List SnapshotRow) × ((committed active now out).1 ≡ record out.1 { snapshots = kept })
committed-rows active now (accepted v used remaining spent original false, db) =
    publish-rows db active now
committed-rows active now (accepted v used remaining spent original true, db) = (db.snapshots, refl)
committed-rows active now (rejected reason, db) = (db.snapshots, refl)

Ends-IsSolvent :
    (config : Config) (db : Db) (inst : String) (intent : V1VoteRequest) (active : CaseRow)
    (now : ℕ) (max_spend : Number) (out : V1VoteResult × Db)
    → Ends config db inst intent active now max_spend out
    → IsSolvent db
    → IsSolvent out.1
unfolding case_by_id apply_accepted_vote_to_stats
Ends-IsSolvent config db inst intent active now max_spend out ends h = elim ends [
  | replays stored e s same ↦ rw same h
  | conflicts stored e s same ↦ rw same h
  | refuses reason e same ↦ rw same h
  | lacks target e c same ↦ rw same (ensured target c)
  | accepts target spent paid row e c a ids done same ↦ rw same (
      spend_incense-IsSolvent _ paid inst target.business_date spent now done.paid_for
        (ensured target c))
]
  where
    ensured :
        (target : CaseRow)
        → case_by_id db intent.case_id ≡ some target
        → IsSolvent (ensure_row config db inst target now)
    ensured target c =
        ensure_row-IsSolvent config db inst target now
          (All-find IsPriced (has_case_id intent.case_id) db.cases h.1 c) h

-- Where every case has a positive price and every row of incense has a positive price and has used
-- no more than the tokens it claimed, both hold again after a vote, whatever its result is.
pub vote-IsSolvent :
    (config : Config) (db : Db) (inst : String) (intent : V1VoteRequest) (active : CaseRow)
    (now : ℕ) (max_spend : Number)
    → IsSolvent db
    → IsSolvent (vote config db inst intent active now max_spend).1
vote-IsSolvent config db inst intent active now max_spend h =
    elim (vote-commits config db inst intent active now max_spend) [
      | inl (fresh, same) ↦ subst IsSolvent (sym same) h
      | inr (out, ends, same) ↦
          let (kept, rows) = committed-rows active now out in
          subst IsSolvent (sym (ap (λ v. v.1) same ∙ rows))
            (Ends-IsSolvent config db inst intent active now max_spend out ends h)
    ]
