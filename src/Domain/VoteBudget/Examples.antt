-- ===== src/Domain/VoteBudget/Examples.antt =====
-- Runs of src/domain/vote-budget.ts.
use dsh_liangxiang.Prelude.{
  ℕ, ◌*◌, ◌≤◌, ◌≡◌, refl, true, arith, nat, fraction, infinite, is_finite, ok, err,
}
use dsh_liangxiang.Domain.Errors.{invalid_incense_count}
use dsh_liangxiang.Domain.Vote.{vote_count_max}
use dsh_liangxiang.Domain.VoteBudget.{
  parts, vote_budget_available, vote_refill_per_minute, clamp_vote_spend,
}
use dsh_liangxiang.Domain.VoteBudget.Clamp.{clamp_lem}

-- After one minute of rest an empty bucket holds 50 sticks, and after an hour 500.
one_minute :
    (vote_budget_available 0 1000 61000 vote_refill_per_minute ≡ parts (50 * 60000))
    × (vote_budget_available 0 1000 3601000 vote_refill_per_minute ≡ parts (500 * 60000))
unfolding vote_budget_available
one_minute = (refl, refl)

half_a_stick : clamp_vote_spend (fraction 0) (nat 9) infinite ≡ err invalid_incense_count
unfolding clamp_vote_spend
half_a_stick = refl

clamp_lem_example :
    (spent : ℕ) × (clamp_vote_spend (nat 900) (nat 700) (fraction 42) ≡ ok spent)
    × (spent ≤ 900)
    × (spent ≤ 700)
    × (spent ≤ vote_count_max)
    × (is_finite (fraction 42) ≡ true → spent ≤ 42)
    × ((n : ℕ)
        → n ≤ 900
        → n ≤ 700
        → n ≤ vote_count_max
        → (is_finite (fraction 42) ≡ true → n ≤ 42)
        → n ≤ spent)
clamp_lem_example = clamp_lem 900 700 (fraction 42) (omega arith) (omega arith)
