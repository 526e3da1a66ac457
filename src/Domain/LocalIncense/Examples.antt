-- ===== src/Domain/LocalIncense/Examples.antt =====
-- Runs of src/domain/local-incense.ts.
use dsh_liangxiang.Prelude.{◌≡◌, refl, List, [], ◌∷◌, nat, fraction, nan, ok}
use dsh_liangxiang.Domain.Vote.{up, down}
use dsh_liangxiang.Domain.Presentation.{format_ratio_percents, waiting}
use dsh_liangxiang.Domain.LocalIncense.{
  empty_local_incense, derive_local_incense_stats, record_local_incense_vote,
  roll_local_incense_day,
}
use dsh_liangxiang.Domain.LocalIncense.Ledger.{Event, votes, midnight, run}

abbrev two_days : List Event
two_days =
    votes up (nat 3) ∷ votes down (nat 2) ∷ midnight ∷ votes up (fraction 1) ∷ votes up nan ∷ []

two_days-run :
    run empty_local_incense two_days
    ≡ record { lifetime_up = 4; lifetime_down = 2; today_up = 1; today_down = 0 }
unfolding run record_local_incense_vote roll_local_incense_day
two_days-run = refl

fresh_stats :
    derive_local_incense_stats empty_local_incense
    ≡ ok (record {
      today = record { up = 0; down = 0; total = 0; up_share = waiting };
      lifetime = record { up = 0; down = 0; total = 0; up_share = waiting };
    })
unfolding derive_local_incense_stats format_ratio_percents
fresh_stats = refl
