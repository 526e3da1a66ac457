-- ===== src/Domain/Liangzi/Policies.antt =====
-- The threshold policies that the program itself has are valid.
use dsh_liangxiang.Prelude.{
  String, ◌≡◌, refl, inl, inr, str_eq, ok, Bool-cases, ok-injective, subst,
}
use dsh_liangxiang.Domain.Liangzi.{
  LiangziThresholdPolicy, assert_valid_threshold_policy, default_liangzi_thresholds,
  legacy_liangzi_thresholds, liangzi_policy_version, legacy_liangzi_policy_version,
  liangzi_policy_for_version,
}

pub default_policy-valid : assert_valid_threshold_policy default_liangzi_thresholds ≡ ok tt
unfolding assert_valid_threshold_policy
default_policy-valid = refl

legacy_policy-valid : assert_valid_threshold_policy legacy_liangzi_thresholds ≡ ok tt
unfolding assert_valid_threshold_policy
legacy_policy-valid = refl

-- The policies that a version names are valid.
pub policy_for_version-valid :
    (version : String) (policy : LiangziThresholdPolicy)
    → liangzi_policy_for_version version ≡ ok policy
    → assert_valid_threshold_policy policy ≡ ok tt
unfolding liangzi_policy_for_version
policy_for_version-valid version policy h =
    elim (Bool-cases (str_eq version liangzi_policy_version)) [
      | inl current ↦
          subst (λ p. assert_valid_threshold_policy p ≡ ok tt) (ok-injective (rw current at h))
            default_policy-valid
      | inr old ↦ elim (Bool-cases (str_eq version legacy_liangzi_policy_version)) [
        | inl legacy ↦
            subst (λ p. assert_valid_threshold_policy p ≡ ok tt)
              (ok-injective (rw (old, legacy) at h)) legacy_policy-valid
        | inr unknown ↦ cc (rw (old, unknown) at h)
      ]
    ]
