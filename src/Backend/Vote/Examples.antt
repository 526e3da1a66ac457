-- ===== src/Backend/Vote/Examples.antt =====
-- Runs of the vote transaction.
use dsh_liangxiang.Prelude.{
  Option, ℕ, ◌≡◌, refl, ap, true, false, some, none, arith, nat, infinite, ok,
}
use dsh_liangxiang.Domain.Vote.{VoteType, up, down}
use dsh_liangxiang.Domain.VoteBudget.{clamp_vote_spend}
use dsh_liangxiang.Backend.Store.{
  CaseRow, SnapshotRow, is_active, case_by_id, stats_for, incense_for, vote_by_request_id,
  vote_request_by_request_id, identity_by_installation, has_voted_for_case, ensure_incense_row,
  try_insert_starter_grant, add_starter_tokens, spend_incense, insert_vote, insert_vote_request,
  apply_accepted_vote_to_stats, latest_snapshot, insert_snapshot, prune_snapshots,
  idempotency_conflict,
}
use dsh_liangxiang.Backend.Vote.Solvency.{IsSolvent, vote-IsSolvent}
use dsh_liangxiang.Backend.Vote.Spend.{Charged, accepted-Charged}
use dsh_liangxiang.Backend.Vote.Ledger.{IsTallied, counter, vote-IsTallied}
use dsh_liangxiang.Backend.Vote.Replay.{IsReplayOf, vote-vote, vote-vote_other}
use dsh_liangxiang.Backend.Vote.Commits.{is_fresh}
use dsh_liangxiang.Backend.Vote.{
  remaining_for, ensure_row, V1VoteRequest, accepted, rejected, replay_accepted, vote,
}
use dsh_liangxiang.Backend.Vote.Publishing.{Shows, publish-latest_snapshot}
use dsh_liangxiang.Backend.Vote.{publish_in_transaction}
use dsh_liangxiang.Backend.Fixtures.{today, plain, empty_stats, opened, two_ups}

abbrev another_down : V1VoteRequest
another_down = record {
  case_id = today.id;
  vote_type = down;
  request_id = "request-1";
  count = some 2;
}

two_sticks :
    (vote plain opened "lx-1" two_ups today 5 infinite).0
    ≡ ok (accepted up 2 (nat 1) 2 (some 2) false)
unfolding vote clamp_vote_spend case_by_id stats_for incense_for vote_by_request_id
    vote_request_by_request_id identity_by_installation has_voted_for_case ensure_incense_row
    try_insert_starter_grant add_starter_tokens spend_incense insert_vote insert_vote_request
    apply_accepted_vote_to_stats latest_snapshot insert_snapshot prune_snapshots remaining_for
two_sticks = refl

opened-IsSolvent : IsSolvent opened
opened-IsSolvent = (((omega arith, omega arith), tt), (omega arith, tt))

vote-IsSolvent_example : IsSolvent (vote plain opened "lx-1" two_ups today 5 infinite).1
vote-IsSolvent_example =
    vote-IsSolvent plain opened "lx-1" two_ups today 5 infinite opened-IsSolvent

accepted-Charged_example :
    (up ≡ up)
    × (◌≡◌ {A = Option ℕ} (some 2) (some 2))
    × (target : CaseRow) × (case_by_id opened "case-2026-01-02" ≡ some target)
    × (is_active target.status ≡ true)
    × Charged
        (ensure_row plain opened "lx-1" target 5)
        (vote plain opened "lx-1" two_ups today 5 infinite).1
        "lx-1"
        two_ups
        target
        5
        infinite
        2
        2
        (nat 1)
accepted-Charged_example =
    accepted-Charged plain opened "lx-1" two_ups today 5 infinite up 2 (nat 1) 2 (some 2)
      opened-IsSolvent two_sticks

opened-IsTallied : IsTallied (λ v. 1) opened
opened-IsTallied = (record { sticks = none_cast; voters = refl }, tt)
  where
    none_cast : (d : VoteType) → counter d empty_stats ≡ 0
    none_cast up = refl
    none_cast down = refl

vote-IsTallied_example : IsTallied (λ v. 1) (vote plain opened "lx-1" two_ups today 5 infinite).1
vote-IsTallied_example =
    vote-IsTallied (λ v. 1) plain opened "lx-1" two_ups today 5 infinite opened-IsTallied

vote-vote_example :
    let db' = (vote plain opened "lx-1" two_ups today 5 infinite).1 in
    let again = vote plain db' "lx-1" two_ups today 9 (nat 0) in
    IsReplayOf (accepted up 2 (nat 1) 2 (some 2) false) again.0 × (again.1 ≡ db')
vote-vote_example =
    vote-vote plain plain opened "lx-1" two_ups today today 5 9 infinite (nat 0)
      (accepted up 2 (nat 1) 2 (some 2) false) two_sticks (λ h. cc)

vote-vote_other_example :
    let db' = (vote plain opened "lx-1" two_ups today 5 infinite).1 in
    vote plain db' "lx-1" another_down today 9 infinite ≡ (ok (rejected idempotency_conflict), db')
vote-vote_other_example =
    vote-vote_other plain plain opened "lx-1" two_ups another_down today today 5 9 infinite infinite
      (ap is_fresh two_sticks) refl (λ same. cc same.1)

publish-latest_snapshot_example :
    (s : SnapshotRow) × (latest_snapshot (publish_in_transaction opened today 5) "case-2026-01-02"
      ≡ some s)
    × Shows today
        (stats_for opened "case-2026-01-02")
        (latest_snapshot opened "case-2026-01-02")
        5
        s
publish-latest_snapshot_example = publish-latest_snapshot opened today 5

-- A receipt from before the counts were stored is replayed without one.
legacy_replay :
    replay_accepted opened "lx-1"
      (record {
        request_id = "old";
        installation_id = "lx-1";
        case_id = today.id;
        business_date = today.business_date;
        vote_type = up;
        requested_count = 1;
        accepted_incense = none;
        used_incense_after = 1;
        created_at = 0;
      })
      today
    ≡ accepted up 0 (nat 3) 0 none true
unfolding replay_accepted incense_for
legacy_replay = refl
