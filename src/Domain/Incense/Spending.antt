-- ===== src/Domain/Incense/Spending.antt =====
-- Spending, in src/domain/incense.ts: it moves used and remaining, and nothing else.
use dsh_liangxiang.Prelude.{
  ℕ, ◌+◌, ◌-◌, ◌*◌, ◌/◌, ◌%◌, ◌≤◌, ◌<◌, ◌≡◌, refl, sym, ap, ◌∙◌, Bool, true, false, not, ◌&&◌, ◌||◌,
  some, arith, nat, max_safe_integer, ok, err, ◌>>◌, guard, ltb, leb, if◌then◌else◌, le→leb,
}
use dsh_liangxiang.Prelude.{ok-injective}
use dsh_liangxiang.Prelude.Division.{le-div_of_mul_le, div-lt_of_lt_mul}
use dsh_liangxiang.Domain.Errors.{
  DomainErrorCode, assert_count-nat, insufficient_incense, invalid_incense_count,
}
use dsh_liangxiang.Domain.Incense.{
  PersonalLiangQiState, derive_personal_liang_qi_state, fold_state, spend_incense,
}
use native.Mathlib.Nat.{div-add-mod, mul-le-mul_right, add_assoc}
use mathlib.Core.Path.{subst}
use dsh_liangxiang.Domain.Incense.Accounting.{IsAccounted, derive_total}

abbrev pub spent : PersonalLiangQiState → ℕ → PersonalLiangQiState
spent s count = record s {
  used_incense_today = s.used_incense_today + count;
  remaining_incense = s.remaining_incense - count;
}

-- The quotient and the remainder are the only ones.
div-eq : (e q r per : ℕ) → q * per + r ≡ e → r < per → e / per ≡ q
div-eq e q r per h lt = omega (
  arith,
  le-div_of_mul_le q e per (omega arith) (omega arith),
  div-lt_of_lt_mul (q + 1) e per (omega arith) (omega arith),
)

mod-eq : (e q r per : ℕ) → q * per + r ≡ e → r < per → e % per ≡ r
mod-eq e q r per h lt =
    omega (arith, ap (λ (t : ℕ). t * per) (div-eq e q r per h lt), div-add-mod e per)

-- A well-formed state is the fold of its own counts.
IsAccounted-fold_state :
    {s : PersonalLiangQiState} (count : ℕ)
    → IsAccounted s
    → count ≤ s.remaining_incense
    → fold_state s.effective_tokens_today (s.used_incense_today + count) s.token_per_incense
      ≡ spent s count
IsAccounted-fold_state {s} count v h =
    let d =
      div-eq s.effective_tokens_today s.earned_incense_today s.token_remainder s.token_per_incense
        v.tokens_split v.remainder_below in
    let m =
      mod-eq s.effective_tokens_today s.earned_incense_today s.token_remainder s.token_per_incense
        v.tokens_split v.remainder_below in
    ground (arith, d, m)

earned-le :
    {s : PersonalLiangQiState} → IsAccounted s → s.earned_incense_today ≤ s.effective_tokens_today
earned-le {s} v = grind arith

used-le-earned :
    {s : PersonalLiangQiState} (count : ℕ)
    → IsAccounted s
    → count ≤ s.remaining_incense
    → s.used_incense_today + count ≤ s.earned_incense_today
used-le-earned {s} count v h = omega (arith, v.incense_split)

affordable :
    {s : PersonalLiangQiState} (count : ℕ)
    → IsAccounted s
    → count ≤ s.remaining_incense
    → (s.used_incense_today + count) * s.token_per_incense ≤ s.effective_tokens_today
affordable {s} count v h =
    omega (arith, mul-le-mul_right s.token_per_incense (used-le-earned count v h), v.tokens_split)

-- The fold that a spend within the remaining incense makes.
refold :
    {s : PersonalLiangQiState} (count : ℕ)
    → IsAccounted s
    → count ≤ s.remaining_incense
    → derive_personal_liang_qi_state (record {
      effective_tokens_today = nat s.effective_tokens_today;
      used_incense_today = nat (s.used_incense_today + count);
      token_per_incense = some (nat s.token_per_incense);
    })
      ≡ ok (spent s count)
refold {s} count v h =
    derive_total s.effective_tokens_today (s.used_incense_today + count) s.token_per_incense
      v.per_positive v.per_safe v.tokens_safe (omega (arith, earned-le v))
    ∙ rw (le→leb _ _ (affordable count v h)) (ap ok (IsAccounted-fold_state count v h))

refuses :
    (count remaining : ℕ)
    → not (ltb count 1 || ltb remaining count) ≡ leb 1 count && leb count remaining
refuses count remaining = ground arith

spent-IsAccounted :
    {s : PersonalLiangQiState} (count : ℕ)
    → IsAccounted s
    → count ≤ s.remaining_incense
    → IsAccounted (spent s count)
spent-IsAccounted {s} count v h = record {
  per_positive = v.per_positive;
  per_safe = v.per_safe;
  tokens_safe = v.tokens_safe;
  used_safe = omega (arith, earned-le v);
  tokens_split = v.tokens_split;
  remainder_below = v.remainder_below;
  incense_split = omega (arith, v.incense_split);
  next_split = v.next_split;
  fill_remainder = v.fill_remainder;
}

-- The test of `spend_incense`, split on its value.
spend_cases :
    {s : PersonalLiangQiState} (count : ℕ)
    → IsAccounted s
    → (test : Bool) → leb 1 count && leb count s.remaining_incense ≡ test
    → (guard {E = DomainErrorCode} test insufficient_incense
        >> derive_personal_liang_qi_state (record {
          effective_tokens_today = nat s.effective_tokens_today;
          used_incense_today = nat (s.used_incense_today + count);
          token_per_incense = some (nat s.token_per_incense);
        }))
      ≡ (if test then ok (spent s count) else err insufficient_incense)
spend_cases {s} count v true e = refold count v (ground arith)
spend_cases {s} count v false e = refl

-- From a well-formed state a spend succeeds exactly for the counts from 1 to what remains. It then
-- moves that many from remaining to used, and keeps every other field and the formulas.
pub spend_lem :
    {s : PersonalLiangQiState} (count : ℕ)
    → IsAccounted s
    → count ≤ max_safe_integer
    → (spend_incense s (nat count) ≡ (
        if leb 1 count && leb count s.remaining_incense
        then ok (spent s count)
        else err insufficient_incense))
      × (count ≤ s.remaining_incense → IsAccounted (spent s count))
unfolding spend_incense
spend_lem {s} count v h = (
  rw (assert_count-nat count invalid_incense_count h, refuses count s.remaining_incense)
      (spend_cases count v _ refl),
  spent-IsAccounted count v,
)

spend_within :
    {s : PersonalLiangQiState} (count : ℕ)
    → IsAccounted s
    → 1 ≤ count
    → count ≤ s.remaining_incense
    → count ≤ max_safe_integer
    → spend_incense s (nat count) ≡ ok (spent s count)
spend_within {s} count v a b safe =
    (spend_lem count v safe).0 ∙ rw (le→leb 1 count a, le→leb count s.remaining_incense b)

-- Two spends that fit together make the spend of their sum.
pub spend-spend :
    {s t : PersonalLiangQiState} (first second : ℕ)
    → IsAccounted s
    → 1 ≤ first
    → 1 ≤ second
    → first + second ≤ s.remaining_incense
    → first + second ≤ max_safe_integer
    → spend_incense s (nat first) ≡ ok t
    → spend_incense t (nat second) ≡ spend_incense s (nat (first + second))
spend-spend {s} {t} first second v a b fits safe h =
    let e : spent s first ≡ t =
      ok-injective (sym (spend_within first v a (omega arith) (omega arith)) ∙ h) in
    subst (λ u. spend_incense u (nat second) ≡ spend_incense s (nat (first + second))) e
      (spend_within second (spent-IsAccounted first v (omega arith)) b (omega arith) (omega arith)
        ∙ ground (arith, add_assoc s.used_incense_today first second)
        ∙ sym (spend_within (first + second) v (omega arith) fits safe))
