-- ===== src/Domain/Incense.antt =====
-- src/domain/tokens.ts and src/domain/incense.ts: effective tokens, and the personal accounting fold.
-- `liangQiFill` is a quotient of two fields of the state and is kept as that pair.
pub mod Accounting
pub mod Spending
mod Examples
use dsh_liangxiang.Prelude.{
  ℕ, ◌+◌, ◌-◌, ◌/◌, ◌%◌, Bool, ◌||◌, Option, none, some, Number, nat, Result, ok, err, ◌>>=◌, ◌>>◌,
  guard, is_safe, ltb, leb, if◌then◌else◌, ◌==◌, not, ◌&&◌,
}
use dsh_liangxiang.Domain.Errors.{
  DomainErrorCode, assert_count, invalid_token_count, invalid_incense_count, invalid_policy,
  used_exceeds_earned, insufficient_incense,
}

abbrev pub default_token_per_incense : ℕ
default_token_per_incense = 50000

pub record TokenUsageInput : Type 0 where
  pub input_tokens : Number
  pub output_tokens : Number

pub compute_effective_tokens : TokenUsageInput → Result DomainErrorCode ℕ
compute_effective_tokens usage = do
  input ← assert_count usage.input_tokens invalid_token_count
  output ← assert_count usage.output_tokens invalid_token_count
  guard (is_safe (input + output)) invalid_token_count
  ok (input + output)

abbrev pub assert_token_per_incense : Number → Result DomainErrorCode ℕ
assert_token_per_incense (nat n) = if is_safe n && not (n == 0) then ok n else err invalid_policy
assert_token_per_incense _ = err invalid_policy

pub record IncenseAccountingInput : Type 0 where
  pub effective_tokens_today : Number
  pub used_incense_today : Number
  pub token_per_incense : Option Number

pub record PersonalLiangQiState : Type 0 where
  pub effective_tokens_today : ℕ
  pub token_per_incense : ℕ
  pub earned_incense_today : ℕ
  pub used_incense_today : ℕ
  pub remaining_incense : ℕ
  pub token_remainder : ℕ
  pub tokens_to_next_incense : ℕ
  -- numerator and denominator
  pub liang_qi_fill : ℕ × ℕ

abbrev pub or_default : Option Number → ℕ → Number
or_default none d = nat d
or_default (some n) d = n

-- The fields, once the guards have passed.
abbrev pub fold_state : ℕ → ℕ → ℕ → PersonalLiangQiState
fold_state effective used per = record {
  effective_tokens_today = effective;
  token_per_incense = per;
  earned_incense_today = effective / per;
  used_incense_today = used;
  remaining_incense = effective / per - used;
  token_remainder = effective % per;
  tokens_to_next_incense = per - effective % per;
  liang_qi_fill = (effective % per, per);
}

pub derive_personal_liang_qi_state :
    IncenseAccountingInput → Result DomainErrorCode PersonalLiangQiState
derive_personal_liang_qi_state input = do
  per ← assert_token_per_incense (or_default input.token_per_incense default_token_per_incense)
  effective ← assert_count input.effective_tokens_today invalid_token_count
  used ← assert_count input.used_incense_today invalid_incense_count
  guard (leb used (effective / per)) used_exceeds_earned
  ok (fold_state effective used per)

pub can_spend_incense : PersonalLiangQiState → Bool
can_spend_incense s = ltb 0 s.remaining_incense

unfoldable pub spend_incense :
    PersonalLiangQiState → Number → Result DomainErrorCode PersonalLiangQiState
unfolding derive_personal_liang_qi_state
spend_incense s requested = do
  count ← assert_count requested invalid_incense_count
  guard (not (ltb count 1 || ltb s.remaining_incense count)) insufficient_incense
  derive_personal_liang_qi_state (record {
    effective_tokens_today = nat s.effective_tokens_today;
    used_incense_today = nat (s.used_incense_today + count);
    token_per_incense = some (nat s.token_per_incense);
  })

pub spend_one_incense : PersonalLiangQiState → Result DomainErrorCode PersonalLiangQiState
unfolding spend_incense
spend_one_incense s = spend_incense s (nat 1)
