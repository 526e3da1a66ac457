-- ===== src/Domain/Incense/Examples.antt =====
-- Runs of src/domain/incense.ts.
use dsh_liangxiang.Prelude.{◌≤◌, ◌≡◌, refl, true, none, some, arith, nat, ok, err}
use dsh_liangxiang.Domain.Errors.{invalid_token_count, invalid_policy}
use dsh_liangxiang.Domain.Incense.{
  compute_effective_tokens, PersonalLiangQiState, IncenseAccountingInput,
  derive_personal_liang_qi_state, fold_state, spend_incense, can_spend_incense, spend_one_incense,
}
use dsh_liangxiang.Domain.Incense.Accounting.{
  IsAccounted, derive-IsAccounted, fold_state-IsAccounted,
}
use dsh_liangxiang.Domain.Incense.Spending.{spent, spend_lem}

-- 130,000 tokens, one stick used.
abbrev morning : IncenseAccountingInput
morning = record {
  effective_tokens_today = nat 130000;
  used_incense_today = nat 1;
  token_per_incense = none;
}

abbrev stocked : PersonalLiangQiState
stocked = fold_state 650000 2 50000

stocked-IsAccounted : IsAccounted stocked
stocked-IsAccounted =
    fold_state-IsAccounted 650000 2 50000 (omega arith) (omega arith) (omega arith) (omega arith)
      (omega arith)

usage_overflow :
    compute_effective_tokens (record { input_tokens = nat 9007199254740991; output_tokens = nat 1 })
    ≡ err invalid_token_count
unfolding compute_effective_tokens
usage_overflow = refl

zero_policy :
    derive_personal_liang_qi_state (record morning { token_per_incense = some (nat 0) })
    ≡ err invalid_policy
unfolding derive_personal_liang_qi_state
zero_policy = refl

one_stick : (spend_one_incense stocked ≡ ok (spent stocked 1)) × (can_spend_incense stocked ≡ true)
unfolding spend_one_incense can_spend_incense
one_stick = (refl, refl)

derive-IsAccounted_example :
    IsAccounted (fold_state 130000 1 50000) × (nat 130000 ≡ nat 130000) × (nat 1 ≡ nat 1)
unfolding derive_personal_liang_qi_state
derive-IsAccounted_example = derive-IsAccounted morning (fold_state 130000 1 50000) refl

spend_lem_example :
    (spend_incense stocked (nat 4) ≡ ok (spent stocked 4))
    × (4 ≤ stocked.remaining_incense → IsAccounted (spent stocked 4))
spend_lem_example = spend_lem 4 stocked-IsAccounted (omega arith)
