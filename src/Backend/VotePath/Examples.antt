-- ===== src/Backend/VotePath/Examples.antt =====
-- The vote path at a concrete input.
use dsh_liangxiang.Prelude.{◌-◌, ◌*◌, ◌≤◌, ◌≡◌, refl, false, none, some, [], arith, nat, ok, find}
use dsh_liangxiang.Domain.Vote.{up}
use dsh_liangxiang.Domain.VoteBudget.{clamp_vote_spend}
use dsh_liangxiang.Backend.Store.{
  case_by_id, incense_for, vote_request_by_request_id, ensure_incense_row, spend_incense,
  insert_vote, insert_vote_request,
}
use dsh_liangxiang.Backend.Vote.{accepted, vote}
use dsh_liangxiang.Backend.Fixtures.{today, plain, opened, two_ups}
use dsh_liangxiang.Backend.VoteRateLimit.{has_key, tokens_now}
use dsh_liangxiang.Backend.VotePath.{Server, answered, last_accepted_vote_at, post_vote}
use dsh_liangxiang.Backend.VotePath.Budget.{post_vote-pays}

abbrev server : Server
server = record {
  limiter = record { work_units_per_minute = 50; max_active_keys = 8; windows = [] };
  db = opened;
}

two_sticks_pass :
    (post_vote plain server "lx-1" two_ups today 5 1000).0
    ≡ answered (ok (accepted up 2 (nat 1) 2 (some 2) false))
unfolding post_vote vote vote_request_by_request_id dsh_liangxiang.Backend.VoteRateLimit.inspect
    case_by_id clamp_vote_spend dsh_liangxiang.Backend.Vote.remaining_for incense_for
    ensure_incense_row spend_incense insert_vote insert_vote_request
two_sticks_pass = refl

post_vote-pays_example :
    let tokens = tokens_now server.limiter none 1000 (last_accepted_vote_at opened "lx-1") in
    (2 * 60000 ≤ tokens)
    × (find (has_key "lx-1") (post_vote plain server "lx-1" two_ups today 5 1000).1.limiter.windows
        ≡ some
            (record { installation_id = "lx-1"; tokens = tokens - 2 * 60000; updated_at = 1000 }))
post_vote-pays_example =
    post_vote-pays plain server "lx-1" two_ups today 5 1000 up 2 (nat 1) 2 (some 2)
      (((omega arith, omega arith), tt), (omega arith, tt)) (omega arith) two_sticks_pass
