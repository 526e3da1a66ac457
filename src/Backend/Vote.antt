-- ===== src/Backend/Vote.antt =====
-- src/backend/service.ts: the vote transaction, with the starter grant, idempotent replay, the spend,
-- the aggregate and the snapshot that is published with it. Texts of rejections and log lines are left
-- out. The active case comes from `ensureActiveCase`; a finite budget from the rate limiter.
-- Stored fingerprints hold no blanks around them (a header's value is trimmed), so `trim` is left out.
pub mod Starter
pub mod Outcomes
pub mod Commits
pub mod Fresh
pub mod Frame
pub mod Solvency
pub mod Ledger
pub mod Receipts
pub mod Replay
pub mod Publishing
pub mod Spend
mod Examples
use dsh_liangxiang.Prelude.{
  ℕ, ◌+◌, ◌-◌, ◌*◌, ◌/◌, String, Bool, false, not, ◌||◌, Option, none, some, str_eq, Number, nat,
  Result, ok, err, ◌>>=◌, ◌>>◌, ltb, ◌==◌, if◌then◌else◌, is_some,
}
use dsh_liangxiang.Domain.VoteBudget.{clamp_vote_spend}
use dsh_liangxiang.Backend.Store.{
  CaseRow, StatsRow, VoteRow, VoteRequestRow, SnapshotRow, Db, StoreError, duplicate_request,
  row_vanished, domain, RejectionReason, insufficient_incense, case_not_active, stale_case,
  idempotency_conflict, invalid_intent, is_active, case_by_id, stats_for, incense_for,
  vote_request_by_request_id, identity_by_installation, has_voted_for_case, ensure_incense_row,
  try_insert_starter_grant, add_starter_tokens, spend_incense, insert_vote, insert_vote_request,
  apply_accepted_vote_to_stats, latest_snapshot, insert_snapshot, prune_snapshots,
}
pub use dsh_liangxiang.Backend.VoteReplay.{V1VoteRequest, V1VoteResult, accepted, rejected, Config}
unfoldable pub use dsh_liangxiang.Backend.VoteReplay.{
  same_vote_intent, replay_accepted, replay_stored_request,
}
pub use dsh_liangxiang.Backend.VoteReplay.{requested_of, remaining_of}

abbrev pub request_row :
    String → V1VoteRequest → CaseRow → Option RejectionReason → ℕ → VoteRequestRow
request_row installation_id intent active_case reason now = record {
  installation_id = installation_id;
  request_id = intent.request_id;
  case_id = intent.case_id;
  business_date = active_case.business_date;
  vote_type = intent.vote_type;
  requested_count = some (requested_of intent);
  is_rejected = is_some reason;
  rejection_reason = reason;
  created_at = now;
}

pub record_rejected_request :
    Db
    → String
    → V1VoteRequest
    → CaseRow
    → ℕ
    → RejectionReason
    → Result StoreError (V1VoteResult × Db)
record_rejected_request db installation_id intent active_case now reason = do
  db' ← insert_vote_request db (request_row installation_id intent active_case (some reason) now)
  ok (rejected reason, db')

-- One welcome gift for each device fingerprint and business date.
unfoldable pub try_grant_starter : Config → Db → String → CaseRow → ℕ → Db
try_grant_starter config db installation_id case_row now =
    if config.starter_incense_count == 0
    then db
    else elim (identity_by_installation db installation_id) [
      | none ↦ db
      | some identity ↦ elim identity.device_fingerprint [
        | none ↦ db
        | some fingerprint ↦
            if str_eq fingerprint ""
            then db
            else elim (try_insert_starter_grant db fingerprint case_row.business_date
                installation_id (config.starter_incense_count * case_row.token_per_incense)) [
                  | none ↦ db
                  | some db' ↦
                      add_starter_tokens db' installation_id case_row.business_date
                        (config.starter_incense_count * case_row.token_per_incense) now
                ]
      ]
    ]

unfoldable pub ensure_row : Config → Db → String → CaseRow → ℕ → Db
unfolding try_grant_starter
ensure_row config db installation_id case_row now =
    try_grant_starter config
      (ensure_incense_row db installation_id case_row.business_date case_row.token_per_incense now)
      installation_id case_row now

unfoldable pub remaining_for : Db → String → CaseRow → Number
remaining_for db installation_id case_row =
    elim (incense_for db installation_id case_row.business_date) [
      | none ↦ nat 0
      | some r ↦ remaining_of r
    ]

abbrev pub vote_row : String → V1VoteRequest → CaseRow → ℕ → ℕ → ℕ → VoteRow
vote_row installation_id intent target spent used now = record {
  request_id = intent.request_id;
  installation_id = installation_id;
  case_id = target.id;
  business_date = target.business_date;
  vote_type = intent.vote_type;
  requested_count = requested_of intent;
  accepted_incense = some spent;
  used_incense_after = used;
  created_at = now;
}

-- From the changed row on: the vote's rows, and the aggregate.
pub accept_vote :
    Db
    → String
    → V1VoteRequest
    → CaseRow
    → CaseRow
    → ℕ
    → Bool
    → ℕ
    → Result StoreError (V1VoteResult × Db)
accept_vote db installation_id intent active_case target spent first now =
    elim (incense_for db installation_id target.business_date) [
      | none ↦ err row_vanished
      | some row ↦ do
        voted ← insert_vote db (vote_row installation_id intent target spent row.used_incense now)
        recorded ←
            insert_vote_request voted (request_row installation_id intent active_case none now)
        ok (
          accepted intent.vote_type row.used_incense (remaining_of row) spent (some spent) false,
          apply_accepted_vote_to_stats recorded target.id intent.vote_type spent first now,
        )
    ]

-- The clamp, and the spend that it allows.
pub spend_vote :
    Db
    → String
    → V1VoteRequest
    → CaseRow
    → CaseRow
    → ℕ
    → Number
    → Result StoreError (V1VoteResult × Db)
unfolding accept_vote record_rejected_request
spend_vote db installation_id intent active_case target now max_spend =
    elim (clamp_vote_spend (nat (requested_of intent)) (remaining_for db installation_id target)
      max_spend) [
        | err code ↦ err (domain code)
        | ok spent ↦
            if ltb spent 1
            then record_rejected_request db installation_id intent active_case now
                insufficient_incense
            else elim (spend_incense db installation_id target.business_date spent now) [
              | none ↦
                  record_rejected_request db installation_id intent active_case now
                    insufficient_incense
              | some paid ↦
                  accept_vote paid installation_id intent active_case target spent
                    (not (has_voted_for_case db installation_id target.id)) now
            ]
      ]

-- An intent with no receipt yet.
pub fresh_vote :
    Config
    → Db
    → String
    → V1VoteRequest
    → CaseRow
    → ℕ
    → Number
    → Result StoreError (V1VoteResult × Db)
unfolding spend_vote ensure_row
fresh_vote config db installation_id intent active_case now max_spend =
    elim (case_by_id db intent.case_id) [
      | none ↦ record_rejected_request db installation_id intent active_case now stale_case
      | some target ↦
          if not (is_active target.status)
          then record_rejected_request db installation_id intent active_case now case_not_active
          else if not (str_eq target.id active_case.id)
              || not (str_eq target.business_date active_case.business_date)
          then record_rejected_request db installation_id intent active_case now stale_case
          else spend_vote (ensure_row config db installation_id target now) installation_id intent
              active_case target now max_spend
    ]

pub vote_in_transaction :
    Config
    → Db
    → String
    → V1VoteRequest
    → CaseRow
    → ℕ
    → Number
    → Result StoreError (V1VoteResult × Db)
unfolding fresh_vote replay_stored_request same_vote_intent
vote_in_transaction config db installation_id intent active_case now max_spend =
    elim (vote_request_by_request_id db installation_id intent.request_id) [
      | some stored ↦
          if same_vote_intent stored intent (requested_of intent)
          then ok (replay_stored_request db installation_id intent stored active_case, db)
          else ok (rejected idempotency_conflict, db)
      | none ↦ fresh_vote config db installation_id intent active_case now max_spend
    ]

pub stats_of : Db → CaseRow → StatsRow
stats_of db case_row = elim (stats_for db case_row.id) [
  | none ↦ record {
    case_id = case_row.id;
    business_date = case_row.business_date;
    up_votes = 0;
    down_votes = 0;
    unique_voters = 0;
    version = 0;
    updated_at = 0;
  }
  | some s ↦ s
]

abbrev pub sequence_of : Option SnapshotRow → ℕ
sequence_of none = 0
sequence_of (some s) = s.sequence

abbrev pub snapshot_row : CaseRow → StatsRow → Option SnapshotRow → ℕ → SnapshotRow
snapshot_row case_row stats latest now = record {
  case_id = case_row.id;
  sequence = sequence_of latest + 1;
  business_date = case_row.business_date;
  up_votes = stats.up_votes;
  down_votes = stats.down_votes;
  unique_voters = stats.unique_voters;
  policy_version = case_row.liangzi_policy_version;
  captured_at = now;
}

abbrev pub snapshot_history_limit : ℕ
snapshot_history_limit = 200

pub publish_in_transaction : Db → CaseRow → ℕ → Db
unfolding stats_of
publish_in_transaction db case_row now =
    prune_snapshots
      (insert_snapshot db
        (snapshot_row case_row (stats_of db case_row) (latest_snapshot db case_row.id) now))
      case_row.id snapshot_history_limit

-- What follows the vote in the same transaction: an accepted vote that is no replay publishes.
abbrev pub publish_accepted : CaseRow → ℕ → V1VoteResult × Db → V1VoteResult × Db
publish_accepted active_case now (accepted v used remaining spent original false, db) =
    (accepted v used remaining spent original false, publish_in_transaction db active_case now)
publish_accepted active_case now (outcome, db) = (outcome, db)

pub replay_result : Db → String → V1VoteRequest → CaseRow → V1VoteResult
unfolding replay_stored_request same_vote_intent
replay_result db installation_id intent active_case =
    elim (vote_request_by_request_id db installation_id intent.request_id) [
      | none ↦ rejected invalid_intent
      | some stored ↦
          if same_vote_intent stored intent (requested_of intent)
          then replay_stored_request db installation_id intent stored active_case
          else rejected idempotency_conflict
    ]

-- The committed database and the result, or the error that is thrown on to the caller. A failed
-- transaction leaves the database as it was.
unfoldable pub vote :
    Config
    → Db
    → String
    → V1VoteRequest
    → CaseRow
    → ℕ
    → Number
    → Result StoreError V1VoteResult × Db
unfolding vote_in_transaction publish_in_transaction replay_result
vote config db installation_id intent active_case now max_spend =
    elim (vote_in_transaction config db installation_id intent active_case now max_spend) [
      | ok out ↦ let (outcome, db') = publish_accepted active_case now out in (ok outcome, db')
      | err duplicate_request ↦ (ok (replay_result db installation_id intent active_case), db)
      | err row_vanished ↦ (err row_vanished, db)
      | err (domain code) ↦ (err (domain code), db)
    ]
