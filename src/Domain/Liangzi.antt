-- ===== src/Domain/Liangzi.antt =====
-- src/domain/liangzi.ts. A ratio is a fraction of two counts, and `a < b` is decided by multiplying out;
-- the source divides doubles. The two agree while the counts stay below 10^14: division rounds to
-- the nearest double and keeps the order, and the boundaries are such quotients themselves.
pub mod Bands
pub mod Policies
pub mod Order
mod Examples
use dsh_liangxiang.Prelude.{
  ℕ, zero, suc, ◌+◌, ◌-◌, ◌*◌, ◌/◌, ◌^◌, ◌<◌, String, Bool, ◌||◌, Option, none, some, List, [], ◌∷◌,
  str_eq, Number, fraction, Result, ok, err, ◌>>=◌, ◌>>◌, guard, ltb, leb, ◌==◌, if◌then◌else◌,
  length, get_elem?,
}
use dsh_liangxiang.Domain.Errors.{DomainErrorCode, assert_count, invalid_policy, invalid_vote_count}

pub data ActiveLiangziState : Type 0 where
  xiao_nan_liang liang_gong liang_zong liang_shen liang_sheng liang_zu : ActiveLiangziState

pub data LiangziState : Type 0 where
  waiting : LiangziState
  active : ActiveLiangziState → LiangziState

abbrev pub active_liangzi_states : List ActiveLiangziState
active_liangzi_states =
    xiao_nan_liang ∷ liang_gong ∷ liang_zong ∷ liang_shen ∷ liang_sheng ∷ liang_zu ∷ []

-- The position in the list above.
abbrev pub rank : ActiveLiangziState → ℕ
rank xiao_nan_liang = 0
rank liang_gong = 1
rank liang_zong = 2
rank liang_shen = 3
rank liang_sheng = 4
rank liang_zu = 5

pub record Ratio : Type 0 where
  pub num : ℕ
  pub den : ℕ

-- a < b, for positive denominators
abbrev pub ratio_ltb : Ratio → Ratio → Bool
ratio_ltb a b = ltb (a.num * b.den) (b.num * a.den)

pub record LiangziThresholdPolicy : Type 0 where
  pub boundaries : List Ratio

abbrev pub percent : ℕ → Ratio
percent n = record { num = n; den = 100 }

abbrev pub legacy_liangzi_thresholds : LiangziThresholdPolicy
legacy_liangzi_thresholds = record {
  boundaries = percent 50 ∷ percent 70 ∷ percent 85 ∷ percent 95 ∷ [];
}

abbrev pub default_liangzi_thresholds : LiangziThresholdPolicy
default_liangzi_thresholds = record {
  boundaries = percent 25 ∷ percent 50 ∷ percent 70 ∷ percent 85 ∷ percent 95 ∷ [];
}

abbrev pub legacy_liangzi_policy_version : String
legacy_liangzi_policy_version = "liangzi-v0.1-50-70-85-95"

abbrev pub liangzi_policy_version : String
liangzi_policy_version = "liangzi-v0.2-25-50-70-85-95"

unfoldable pub liangzi_policy_for_version : String → Result DomainErrorCode LiangziThresholdPolicy
liangzi_policy_for_version version =
    if str_eq version liangzi_policy_version
    then ok default_liangzi_thresholds
    else if str_eq version legacy_liangzi_policy_version
    then ok legacy_liangzi_thresholds
    else err invalid_policy

-- The loop over the boundaries; `previous` is the one before, if there is one.
check_boundaries : Option Ratio → List Ratio → Result DomainErrorCode (Unit {0})
check_boundaries previous [] = ok tt
check_boundaries previous (b ∷ rest) =
    let later = check_boundaries (some b) rest in
    if b.num == 0 || leb b.den b.num then err invalid_policy else elim previous [
      | none ↦ later
      | some a ↦ if ratio_ltb a b then later else err invalid_policy
    ]

pub assert_valid_threshold_policy : LiangziThresholdPolicy → Result DomainErrorCode (Unit {0})
unfolding check_boundaries
assert_valid_threshold_policy policy = do
  guard (length policy.boundaries == 4 || length policy.boundaries == 5) invalid_policy
  check_boundaries none policy.boundaries

abbrev pub states_for_policy : LiangziThresholdPolicy → List ActiveLiangziState
states_for_policy policy =
    if length policy.boundaries == 4
    then liang_gong ∷ liang_zong ∷ liang_shen ∷ liang_sheng ∷ liang_zu ∷ []
    else active_liangzi_states

-- Array.findIndex; none is its -1
pub find_index {ℓ} : {A : Type ℓ} → (A → Bool) → List A → Option ℕ
find_index p [] = none
find_index p (x ∷ xs) =
    let later = find_index p xs in
    if p x then some 0 else elim later [ none ↦ none | some i ↦ some (suc i) ]

-- `states[index === -1 ? states.length - 1 : index]`; none would be `undefined`.
abbrev pub state_at : List ActiveLiangziState → Option ℕ → Option ActiveLiangziState
state_at states none = get_elem? states (length states - 1)
state_at states (some i) = get_elem? states i

-- The inner Option is the cast of the source: `Bands.tier-InBand` shows that it is never none.
pub liangzi_state_for_up_ratio :
    Ratio → LiangziThresholdPolicy → Result DomainErrorCode (Option ActiveLiangziState)
unfolding assert_valid_threshold_policy find_index
liangzi_state_for_up_ratio up_ratio policy = do
  assert_valid_threshold_policy policy
  guard (leb up_ratio.num up_ratio.den) invalid_policy
  ok (state_at (states_for_policy policy) (find_index (ratio_ltb up_ratio) policy.boundaries))

pub record LiangziUpRatioBand : Type 0 where
  pub min_inclusive : Option Ratio
  pub max_exclusive : Option Ratio

-- states.indexOf(state)
pub index_of : List ActiveLiangziState → ActiveLiangziState → Option ℕ
unfolding find_index
index_of states s = find_index (λ t. rank t == rank s) states

abbrev pub band_at : List Ratio → ℕ → LiangziUpRatioBand
band_at boundaries zero = record { min_inclusive = none; max_exclusive = get_elem? boundaries 0 }
band_at boundaries (suc i) = record {
  min_inclusive = get_elem? boundaries i;
  max_exclusive = get_elem? boundaries (suc i);
}

band_of : LiangziThresholdPolicy → LiangziState → Result DomainErrorCode LiangziUpRatioBand
unfolding index_of
band_of policy waiting = ok (record { min_inclusive = none; max_exclusive = none })
band_of policy (active s) = elim (index_of (states_for_policy policy) s) [
  | none ↦ err invalid_policy
  | some i ↦ ok (band_at policy.boundaries i)
]

pub liangzi_up_ratio_band :
    LiangziState → LiangziThresholdPolicy → Result DomainErrorCode LiangziUpRatioBand
unfolding assert_valid_threshold_policy band_of
liangzi_up_ratio_band s policy = do assert_valid_threshold_policy policy; band_of policy s

abbrev tier : Option ActiveLiangziState → Option LiangziState
tier none = none
tier (some s) = some (active s)

unfoldable pub derive_liangzi_state :
    Number → Number → LiangziThresholdPolicy → Result DomainErrorCode (Option LiangziState)
unfolding liangzi_state_for_up_ratio
derive_liangzi_state up_votes down_votes policy = do
  up ← assert_count up_votes invalid_vote_count
  down ← assert_count down_votes invalid_vote_count
  if up + down == 0 then ok (some waiting) else do
    s ← liangzi_state_for_up_ratio (record { num = up; den = up + down }) policy
    ok (tier s)
