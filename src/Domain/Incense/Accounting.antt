-- ===== src/Domain/Incense/Accounting.antt =====
-- The frozen accounting formulas hold of every state that the fold of src/domain/incense.ts returns.
use dsh_liangxiang.Prelude.{
  ℕ, ◌+◌, ◌*◌, ◌/◌, ◌≤◌, ◌<◌, ◌≡◌, refl, sym, inl, inr, some, arith, nat, max_safe_integer, ok, err,
  leb, if◌then◌else◌, leb→le, le→leb, lt→leb_false, leb_false→lt, Bool-cases,
}
use mathlib.Core.Path.{subst}
use dsh_liangxiang.Prelude.{guard-if}
use dsh_liangxiang.Prelude.Division.{le-div_of_mul_le, div-lt_of_lt_mul}
use dsh_liangxiang.Domain.Errors.{
  assert_count-nat, used_exceeds_earned, invalid_token_count, invalid_incense_count,
}
use dsh_liangxiang.Domain.Incense.{
  PersonalLiangQiState, IncenseAccountingInput, derive_personal_liang_qi_state, fold_state,
  assert_token_per_incense,
}

-- earned and remainder split the tokens, used and remaining split what was earned, and every input
-- was a safe integer.
pub record IsAccounted (s : PersonalLiangQiState) : Type 0 where
  pub per_positive : 0 < s.token_per_incense
  pub per_safe : s.token_per_incense ≤ max_safe_integer
  pub tokens_safe : s.effective_tokens_today ≤ max_safe_integer
  pub used_safe : s.used_incense_today ≤ max_safe_integer
  pub tokens_split :
      s.earned_incense_today * s.token_per_incense + s.token_remainder ≡ s.effective_tokens_today
  pub remainder_below : s.token_remainder < s.token_per_incense
  pub incense_split : s.used_incense_today + s.remaining_incense ≡ s.earned_incense_today
  pub next_split : s.tokens_to_next_incense + s.token_remainder ≡ s.token_per_incense
  pub fill_remainder : s.liang_qi_fill ≡ (s.token_remainder, s.token_per_incense)

pub fold_state-IsAccounted :
    (effective used per : ℕ)
    → 0 < per
    → per ≤ max_safe_integer
    → effective ≤ max_safe_integer
    → used ≤ max_safe_integer
    → used ≤ effective / per
    → IsAccounted (fold_state effective used per)
fold_state-IsAccounted effective used per p q e u h = record {
  per_positive = p;
  per_safe = q;
  tokens_safe = e;
  used_safe = u;
  tokens_split = omega arith;
  remainder_below = omega arith;
  incense_split = omega arith;
  next_split = omega arith;
  fill_remainder = refl;
}

-- What a successful fold was given, and what it returned.
derive-eq-ok :
    (input : IncenseAccountingInput) (s : PersonalLiangQiState)
    → derive_personal_liang_qi_state input ≡ ok s
    → (input.effective_tokens_today ≡ nat s.effective_tokens_today)
      × (input.used_incense_today ≡ nat s.used_incense_today)
      × (s ≡ fold_state s.effective_tokens_today s.used_incense_today s.token_per_incense)
      × (0 < s.token_per_incense)
      × (s.token_per_incense ≤ max_safe_integer)
      × (s.effective_tokens_today ≤ max_safe_integer)
      × (s.used_incense_today ≤ max_safe_integer)
      × (s.used_incense_today ≤ s.effective_tokens_today / s.token_per_incense)
unfolding derive_personal_liang_qi_state
derive-eq-ok input s h = ground arith

assert_token_per_incense-nat :
    (per : ℕ) → 0 < per → per ≤ max_safe_integer → assert_token_per_incense (nat per) ≡ ok per
assert_token_per_incense-nat per p q = ground arith

-- Every successful fold satisfies the frozen formulas, and keeps the two counts it was given.
pub derive-IsAccounted :
    (input : IncenseAccountingInput) (s : PersonalLiangQiState)
    → derive_personal_liang_qi_state input ≡ ok s
    → IsAccounted s
      × (input.effective_tokens_today ≡ nat s.effective_tokens_today)
      × (input.used_incense_today ≡ nat s.used_incense_today)
derive-IsAccounted input s h =
    let (e, u, same, p, q, es, us, le) = derive-eq-ok input s h in
    (subst IsAccounted (sym same) (fold_state-IsAccounted _ _ _ p q es us le), e, u)

-- `used ≤ floor(effective / per)`, without the division.
leb-div :
    (used effective per : ℕ) → 0 < per → leb used (effective / per) ≡ leb (used * per) effective
leb-div used effective per p = elim (Bool-cases (leb (used * per) effective)) [
  | inl le ↦
      rw le (le→leb used (effective / per) (le-div_of_mul_le used effective per p (leb→le _ _ le)))
  | inr gt ↦ rw gt (
      lt→leb_false used (effective / per)
        (div-lt_of_lt_mul used effective per p (leb_false→lt _ _ gt)))
]

-- On counts that pass the guards the fold fails exactly when more was used than earned.
pub derive_total :
    (effective used per : ℕ)
    → 0 < per
    → per ≤ max_safe_integer
    → effective ≤ max_safe_integer
    → used ≤ max_safe_integer
    → derive_personal_liang_qi_state (record {
      effective_tokens_today = nat effective;
      used_incense_today = nat used;
      token_per_incense = some (nat per);
    })
      ≡ (if leb (used * per) effective
          then ok (fold_state effective used per)
          else err used_exceeds_earned)
unfolding derive_personal_liang_qi_state
derive_total effective used per p q e u =
    rw
      (
        assert_token_per_incense-nat per p q,
        assert_count-nat effective invalid_token_count e,
        assert_count-nat used invalid_incense_count u,
        leb-div used effective per p,
      )
      (guard-if (leb (used * per) effective) used_exceeds_earned _)
