-- ===== src/Domain/GlobalState.antt =====
-- src/domain/global-state.ts: the aggregate of accepted votes and the snapshot published from it.
pub mod Conservation
pub mod Snapshots
mod Examples
use dsh_liangxiang.Prelude.{
  ℕ, ◌+◌, ◌-◌, ◌/◌, String, Bool, Option, none, some, Number, nat, is_finite, Result, ok, ◌>>=◌,
  ◌>>◌, guard, leb, ◌==◌, if◌then◌else◌,
}
use dsh_liangxiang.Domain.Errors.{DomainErrorCode, assert_count, invalid_vote_count}
use dsh_liangxiang.Domain.Vote.{VoteType, up, down}
use dsh_liangxiang.Domain.Liangzi.{
  LiangziState, LiangziThresholdPolicy, Ratio, default_liangzi_thresholds,
  liangzi_policy_for_version, derive_liangzi_state,
}

pub record GlobalVoteAggregate : Type 0 where
  pub liangzi_policy_version : Option String
  pub up_votes : ℕ
  pub down_votes : ℕ
  pub unique_voters : ℕ

abbrev pub empty_global_aggregate : GlobalVoteAggregate
empty_global_aggregate = record {
  liangzi_policy_version = none;
  up_votes = 0;
  down_votes = 0;
  unique_voters = 0;
}

abbrev pub total : GlobalVoteAggregate → ℕ
total a = a.up_votes + a.down_votes

pub assert_valid_aggregate : GlobalVoteAggregate → Result DomainErrorCode (Unit {0})
assert_valid_aggregate a = do
  up_votes ← assert_count (nat a.up_votes) invalid_vote_count
  down_votes ← assert_count (nat a.down_votes) invalid_vote_count
  unique_voters ← assert_count (nat a.unique_voters) invalid_vote_count
  guard (leb unique_voters (up_votes + down_votes)) invalid_vote_count

abbrev pub add_votes : GlobalVoteAggregate → VoteType → ℕ → Bool → GlobalVoteAggregate
add_votes a vote_type count first = record {
  liangzi_policy_version = a.liangzi_policy_version;
  up_votes = a.up_votes + elim vote_type [ up ↦ count | down ↦ 0 ];
  down_votes = a.down_votes + elim vote_type [ up ↦ 0 | down ↦ count ];
  unique_voters = a.unique_voters + (if first then 1 else 0);
}

pub apply_accepted_votes :
    GlobalVoteAggregate → VoteType → Number → Bool → Result DomainErrorCode GlobalVoteAggregate
unfolding assert_valid_aggregate
apply_accepted_votes a vote_type accepted first = do
  assert_valid_aggregate a
  count ← assert_count accepted invalid_vote_count
  guard (leb 1 count) invalid_vote_count
  ok (add_votes a vote_type count first)

pub apply_accepted_vote :
    GlobalVoteAggregate → VoteType → Bool → Result DomainErrorCode GlobalVoteAggregate
unfolding apply_accepted_votes
apply_accepted_vote a vote_type first = apply_accepted_votes a vote_type (nat 1) first

pub record SnapshotBuildInput : Type 0 where
  pub case_id : String
  pub aggregate : GlobalVoteAggregate
  pub captured_at : Number
  pub sequence : Number
  pub policy : Option LiangziThresholdPolicy
  pub policy_version : Option String

pub record PublicLiangSnapshot : Type 0 where
  pub case_id : String
  pub liangzi_policy_version : Option String
  pub up_votes : ℕ
  pub down_votes : ℕ
  pub total_incense : ℕ
  pub unique_voters : ℕ
  pub up_ratio : Option Ratio
  pub down_ratio : Option Ratio
  -- none would be the `undefined` that `Liangzi.Bands` rules out
  pub liangzi_state : Option LiangziState
  pub captured_at : Number
  pub sequence : ℕ

abbrev pub share : ℕ → ℕ → Option Ratio
share part total = if total == 0 then none else some (record { num = part; den = total })

abbrev pub policy_of :
    Option LiangziThresholdPolicy → Option String → Result DomainErrorCode LiangziThresholdPolicy
policy_of (some p) version = ok p
policy_of none none = ok default_liangzi_thresholds
policy_of none (some version) = liangzi_policy_for_version version

abbrev pub snapshot_of : SnapshotBuildInput → ℕ → Option LiangziState → PublicLiangSnapshot
snapshot_of input sequence state = record {
  case_id = input.case_id;
  liangzi_policy_version = input.policy_version;
  up_votes = input.aggregate.up_votes;
  down_votes = input.aggregate.down_votes;
  total_incense = total input.aggregate;
  unique_voters = input.aggregate.unique_voters;
  up_ratio = share input.aggregate.up_votes (total input.aggregate);
  down_ratio = share input.aggregate.down_votes (total input.aggregate);
  liangzi_state = state;
  captured_at = input.captured_at;
  sequence = sequence;
}

pub build_public_snapshot : SnapshotBuildInput → Result DomainErrorCode PublicLiangSnapshot
unfolding assert_valid_aggregate
build_public_snapshot input = do
  assert_valid_aggregate input.aggregate
  sequence ← assert_count input.sequence invalid_vote_count
  guard (is_finite input.captured_at) invalid_vote_count
  policy ← policy_of input.policy input.policy_version
  state ←
      derive_liangzi_state (nat input.aggregate.up_votes) (nat input.aggregate.down_votes) policy
  ok (snapshot_of input sequence state)
