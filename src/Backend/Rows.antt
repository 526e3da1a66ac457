-- ===== src/Backend/Rows.antt =====
-- The tables of src/backend/schema.ts that the vote transaction reads or writes: a record for each row, and the
-- database as one list of rows for each table.
-- Columns that nothing modelled reads are left out, such as the times of a case and a vote's remaining incense.
use dsh_liangxiang.Prelude.{ℕ, String, Bool, true, false, Option, List}
use dsh_liangxiang.Domain.Errors.{DomainErrorCode}
use dsh_liangxiang.Domain.Vote.{VoteType}

pub data CaseStatus : Type 0 where
  open_case closed_case : CaseStatus

abbrev pub is_active : CaseStatus → Bool
is_active open_case = true
is_active closed_case = false

pub record CaseRow : Type 0 where
  pub id : String
  pub business_date : String
  pub title : String
  pub status : CaseStatus
  pub token_per_incense : ℕ
  pub liangzi_policy_version : String
  pub created_at : ℕ

pub record StatsRow : Type 0 where
  pub case_id : String
  pub business_date : String
  pub up_votes : ℕ
  pub down_votes : ℕ
  pub unique_voters : ℕ
  pub version : ℕ
  pub updated_at : ℕ

pub record IncenseRow : Type 0 where
  pub installation_id : String
  pub business_date : String
  pub claimed_effective_tokens : ℕ
  pub starter_tokens : ℕ
  pub used_incense : ℕ
  pub token_per_incense : ℕ
  pub version : ℕ
  pub updated_at : ℕ

pub record VoteRow : Type 0 where
  pub request_id : String
  pub installation_id : String
  pub case_id : String
  pub business_date : String
  pub vote_type : VoteType
  pub requested_count : ℕ
  -- none on a receipt from before the column was added
  pub accepted_incense : Option ℕ
  pub used_incense_after : ℕ
  pub created_at : ℕ

pub data RejectionReason : Type 0 where
  insufficient_incense case_not_active stale_case idempotency_conflict invalid_intent :
      RejectionReason

pub record VoteRequestRow : Type 0 where
  pub installation_id : String
  pub request_id : String
  pub case_id : String
  pub business_date : String
  pub vote_type : VoteType
  -- none in rows from before schema v9
  pub requested_count : Option ℕ
  -- result_status = 'rejected'
  pub is_rejected : Bool
  pub rejection_reason : Option RejectionReason
  pub created_at : ℕ

pub record SnapshotRow : Type 0 where
  pub case_id : String
  pub sequence : ℕ
  pub business_date : String
  pub up_votes : ℕ
  pub down_votes : ℕ
  pub unique_voters : ℕ
  pub policy_version : String
  pub captured_at : ℕ

pub record IdentityRow : Type 0 where
  pub installation_id : String
  pub public_key : String
  pub device_fingerprint : Option String
  pub created_at : ℕ
  pub last_seen_at : ℕ

pub record StarterGrantRow : Type 0 where
  pub device_fingerprint : String
  pub business_date : String
  pub installation_id : String
  pub granted_tokens : ℕ

pub record Db : Type 0 where
  pub cases : List CaseRow
  pub stats : List StatsRow
  pub incense : List IncenseRow
  pub votes : List VoteRow
  pub requests : List VoteRequestRow
  pub snapshots : List SnapshotRow
  pub identities : List IdentityRow
  pub grants : List StarterGrantRow

pub data StoreError : Type 0 where
  -- DuplicateRequestSignal: a unique index refused the request id
  duplicate_request : StoreError
  -- "daily incense row vanished mid-transaction"
  row_vanished : StoreError
  domain : DomainErrorCode → StoreError
