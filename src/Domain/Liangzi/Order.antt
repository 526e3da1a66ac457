-- ===== src/Domain/Liangzi/Order.antt =====
-- More up votes never lower the tier.
use dsh_liangxiang.Prelude.{
  ℕ, zero, suc, ◌+◌, ◌*◌, ◌≤◌, ◌<◌, ◌≡◌, refl, sym, ◌∙◌, inl, inr, Bool, true, false, some, List,
  [], ◌∷◌, arith, Result, ok, err, ◌>>◌, guard, leb, ◌==◌, if◌then◌else◌, ltb→lt, ltb_false→le,
  Bool-cases, length, get_elem?,
}
use native.Mathlib.Nat.{mul-le-mul_right}
use dsh_liangxiang.Domain.Errors.{DomainErrorCode, invalid_policy}
use dsh_liangxiang.Prelude.{ok-injective}
use dsh_liangxiang.Domain.Liangzi.{
  ActiveLiangziState, Ratio, ratio_ltb, LiangziThresholdPolicy, find_index, states_for_policy, rank,
  liangzi_state_for_up_ratio, assert_valid_threshold_policy,
}
use dsh_liangxiang.Domain.Liangzi.Bands.{slot, index_or_last, state_at-slot, assert_valid-length}

-- r ≤ t
abbrev pub IsAtMost : Ratio → Ratio → Type 0
IsAtMost r t = r.num * t.den ≤ t.num * r.den

not-reversed :
    (rn rd tn td bn bd : ℕ) → rn * td ≤ tn * rd → 0 < rd → tn * bd < bn * td → ¬ (bn * rd ≤ rn * bd)
not-reversed rn rd tn td bn bd h p lt back =
    omega (arith, mul-le-mul_right td back, mul-le-mul_right bd h, mul-le-mul_right rd lt)

ratio_ltb_mono :
    (r t b : Ratio) → IsAtMost r t → 0 < r.den → ratio_ltb t b ≡ true → ratio_ltb r b ≡ true
ratio_ltb_mono r t b h p lt = elim (Bool-cases (ratio_ltb r b)) [
  | inl yes_below ↦ yes_below
  | inr above ↦ absurd (
      not-reversed r.num r.den t.num t.den b.num b.den h p (ltb→lt _ _ lt) (ltb_false→le _ _ above))
]

find_index_mono :
    (r t : Ratio) (bs : List Ratio)
    → ((b : Ratio) → ratio_ltb t b ≡ true → ratio_ltb r b ≡ true)
    → index_or_last (record { boundaries = bs }) (find_index (ratio_ltb r) bs)
      ≤ index_or_last (record { boundaries = bs }) (find_index (ratio_ltb t) bs)
unfolding find_index
find_index_mono r t [] h = omega arith
find_index_mono r t (b ∷ bs) h = ground (arith, h b, find_index_mono r t bs h)

-- A state stands at its rank, one place earlier in the list of five.
abbrev offset : LiangziThresholdPolicy → ℕ
offset policy = if length policy.boundaries == 4 then 1 else 0

rank-get_elem? :
    (policy : LiangziThresholdPolicy) (i : ℕ) (s : ActiveLiangziState)
    → get_elem? (states_for_policy policy) i ≡ some s
    → rank s ≡ i + offset policy
rank-get_elem? policy zero s h = ground arith
rank-get_elem? policy (suc zero) s h = ground arith
rank-get_elem? policy (suc (suc zero)) s h = ground arith
rank-get_elem? policy (suc (suc (suc zero))) s h = ground arith
rank-get_elem? policy (suc (suc (suc (suc zero)))) s h = ground arith
rank-get_elem? policy (suc (suc (suc (suc (suc i))))) s h = ground arith

chain-eq-ok {ℓ} :
    {A : Type ℓ} (valid : Result DomainErrorCode (Unit {0})) (test : Bool) (code : DomainErrorCode)
    (a : A) {b : A}
    → ◌≡◌ {A = Result DomainErrorCode A} (valid >> (guard test code >> ok a)) (ok b)
    → (valid ≡ ok tt) × (a ≡ b)
chain-eq-ok (ok u) true code a h = (refl, ok-injective h)
chain-eq-ok (ok u) false code a h = cc
chain-eq-ok (err e) test code a h = cc

-- The tier that a ratio is given stands at the ratio's slot.
rank-slot :
    (policy : LiangziThresholdPolicy) (r : Ratio) (s : ActiveLiangziState)
    → liangzi_state_for_up_ratio r policy ≡ ok (some s)
    → rank s ≡ slot policy r + offset policy
unfolding liangzi_state_for_up_ratio
rank-slot policy r s h =
    let (valid, here) =
      chain-eq-ok (assert_valid_threshold_policy policy) (leb r.num r.den) invalid_policy _ h in
    rank-get_elem? policy (slot policy r) s
      (sym (state_at-slot policy r (assert_valid-length policy valid)) ∙ here)

-- For two ratios that both have a tier, the larger ratio never has the lower tier.
pub tier_mono :
    (policy : LiangziThresholdPolicy) (r t : Ratio) (s u : ActiveLiangziState)
    → 0 < r.den
    → IsAtMost r t
    → liangzi_state_for_up_ratio r policy ≡ ok (some s)
    → liangzi_state_for_up_ratio t policy ≡ ok (some u)
    → rank s ≤ rank u
tier_mono policy r t s u p h hs hu = omega (
  arith,
  rank-slot policy r s hs,
  rank-slot policy t u hu,
  find_index_mono r t policy.boundaries (λ b. ratio_ltb_mono r t b h p),
)
