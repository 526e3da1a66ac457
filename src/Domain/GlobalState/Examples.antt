-- ===== src/Domain/GlobalState/Examples.antt =====
-- Runs of src/domain/global-state.ts.
use dsh_liangxiang.Prelude.{ℕ, ◌+◌, ◌≤◌, ◌≡◌, refl, true, false, none, some, arith, nat, ok, err}
use dsh_liangxiang.Domain.Errors.{invalid_vote_count}
use dsh_liangxiang.Domain.Vote.{up, down}
use dsh_liangxiang.Domain.Liangzi.{derive_liangzi_state, active, liang_shen}
use dsh_liangxiang.Domain.GlobalState.{
  GlobalVoteAggregate, total, empty_global_aggregate, add_votes, apply_accepted_votes,
  apply_accepted_vote, SnapshotBuildInput, snapshot_of, build_public_snapshot,
}
use dsh_liangxiang.Domain.GlobalState.Conservation.{IsValid, IsCounted, apply_lem}
use dsh_liangxiang.Domain.GlobalState.Snapshots.{IsConsistent, build-IsConsistent}

abbrev three_to_one : GlobalVoteAggregate
three_to_one = record empty_global_aggregate { up_votes = 3; down_votes = 1; unique_voters = 2 }

abbrev capture : SnapshotBuildInput
capture = record {
  case_id = "case-2026-01-02";
  aggregate = three_to_one;
  captured_at = nat 1767283200000;
  sequence = nat 4;
  policy = none;
  policy_version = none;
}

three_to_one-IsValid : IsValid three_to_one
three_to_one-IsValid = record {
  up_safe = omega arith;
  down_safe = omega arith;
  voters_safe = omega arith;
  voters_bounded = omega arith;
}

first_vote :
    apply_accepted_vote empty_global_aggregate down true
    ≡ ok (add_votes empty_global_aggregate down 1 true)
unfolding apply_accepted_vote
first_vote = refl

too_many_voters :
    apply_accepted_votes (record three_to_one { unique_voters = 5 }) up (nat 1) true
    ≡ err invalid_vote_count
unfolding apply_accepted_votes
too_many_voters = refl

apply_lem_example :
    (◌≡◌ {A = ℕ} 5 0 → apply_accepted_votes three_to_one up (nat 5) false ≡ err invalid_vote_count)
    × (1 ≤ 5
        → (b : GlobalVoteAggregate) × (apply_accepted_votes three_to_one up (nat 5) false ≡ ok b)
          × IsCounted three_to_one up 5 false b
          × IsValid b
          × (total b ≡ total three_to_one + 5))
apply_lem_example = apply_lem three_to_one up 5 false three_to_one-IsValid (omega arith)

build-IsConsistent_example : IsConsistent capture (snapshot_of capture 4 (some (active liang_shen)))
unfolding build_public_snapshot derive_liangzi_state
build-IsConsistent_example = build-IsConsistent capture _ refl
