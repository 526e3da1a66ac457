-- ===== src/Backend/VoteReplay.antt =====
-- The intents and results of a vote in src/shared/backend-v1.ts, and how src/backend/service.ts answers an intent that
-- has its receipt already. Stored fingerprints hold no blanks around them (a header's value is trimmed).
use dsh_liangxiang.Prelude.{
  ℕ, ◌-◌, ◌/◌, String, Bool, true, ◌&&◌, Option, none, some, str_eq, Number, nat, negative, leb,
  ◌==◌, if◌then◌else◌,
}
use dsh_liangxiang.Domain.Vote.{VoteType, vote_type_eq}
use dsh_liangxiang.Backend.Store.{
  CaseRow, IncenseRow, VoteRow, VoteRequestRow, Db, RejectionReason, invalid_intent, incense_for,
  vote_by_request_id,
}

pub record V1VoteRequest : Type 0 where
  pub case_id : String
  pub vote_type : VoteType
  pub request_id : String
  pub count : Option ℕ

pub data V1VoteResult : Type 0 where
  -- used, remaining, spent, the original accepted quantity where it is known, and whether
  -- it is a replay
  accepted : VoteType → ℕ → Number → ℕ → Option ℕ → Bool → V1VoteResult
  rejected : RejectionReason → V1VoteResult

-- The fields of the configuration that a vote reads.
pub record Config : Type 0 where
  pub starter_incense_count : ℕ

abbrev pub requested_of : V1VoteRequest → ℕ
requested_of intent = elim intent.count [ none ↦ 1 | some n ↦ n ]

-- Math.floor(claimed / per) - used, which may be negative.
abbrev pub remaining_of : IncenseRow → Number
remaining_of r =
    let earned = r.claimed_effective_tokens / r.token_per_incense in
    if leb r.used_incense earned then nat (earned - r.used_incense) else negative

unfoldable pub same_vote_intent : VoteRequestRow → V1VoteRequest → ℕ → Bool
same_vote_intent stored intent requested_count =
    str_eq stored.case_id intent.case_id
    && vote_type_eq stored.vote_type intent.vote_type
    && elim stored.requested_count [ none ↦ requested_count == 1 | some n ↦ n == requested_count ]

-- The counters of a replay belong to the current date: 0 and 0 where there is no row yet.
unfoldable pub replay_accepted : Db → String → VoteRow → CaseRow → V1VoteResult
replay_accepted db installation_id stored case_row =
    elim (incense_for db installation_id case_row.business_date) [
      | none ↦ accepted stored.vote_type 0 (nat 0) 0 stored.accepted_incense true
      | some r ↦
          accepted stored.vote_type r.used_incense (remaining_of r) 0 stored.accepted_incense true
    ]

unfoldable pub replay_stored_request :
    Db → String → V1VoteRequest → VoteRequestRow → CaseRow → V1VoteResult
unfolding replay_accepted
replay_stored_request db installation_id intent stored active_case =
    if stored.is_rejected
    then elim stored.rejection_reason [
      | none ↦ rejected invalid_intent
      | some reason ↦ rejected reason
    ]
    else elim (vote_by_request_id db installation_id intent.request_id) [
      | none ↦ rejected invalid_intent
      | some vote ↦ replay_accepted db installation_id vote active_case
    ]
