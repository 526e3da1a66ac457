-- ===== src/Domain/Liangzi/Examples.antt =====
-- Runs of src/domain/liangzi.ts.
use dsh_liangxiang.Prelude.{◌+◌, ◌<◌, ◌≡◌, refl, some, [], ◌∷◌, arith, nat, ok, err}
use dsh_liangxiang.Domain.Errors.{invalid_policy}
use dsh_liangxiang.Domain.Liangzi.{
  ActiveLiangziState, LiangziUpRatioBand, waiting, active, liang_gong, liang_zong, percent,
  default_liangzi_thresholds, legacy_liangzi_thresholds, liangzi_policy_for_version,
  assert_valid_threshold_policy, derive_liangzi_state, liangzi_up_ratio_band,
  legacy_liangzi_policy_version,
}
use dsh_liangxiang.Domain.Liangzi.Bands.{InBand, derive_lem}

legacy_version :
    liangzi_policy_for_version legacy_liangzi_policy_version ≡ ok legacy_liangzi_thresholds
unfolding liangzi_policy_for_version
legacy_version = refl

unsorted_policy :
    assert_valid_threshold_policy
      (record { boundaries = percent 50 ∷ percent 50 ∷ percent 85 ∷ percent 95 ∷ [] })
    ≡ err invalid_policy
unfolding assert_valid_threshold_policy
unsorted_policy = refl

exactly_half :
    derive_liangzi_state (nat 1) (nat 1) default_liangzi_thresholds ≡ ok (some (active liang_zong))
unfolding derive_liangzi_state
exactly_half = refl

legacy_low :
    derive_liangzi_state (nat 1) (nat 9) legacy_liangzi_thresholds ≡ ok (some (active liang_gong))
unfolding derive_liangzi_state
legacy_low = refl

default-valid : assert_valid_threshold_policy default_liangzi_thresholds ≡ ok tt
unfolding assert_valid_threshold_policy
default-valid = refl

derive_lem_example :
    (3 + 1 ≡ 0
      → derive_liangzi_state (nat 3) (nat 1) default_liangzi_thresholds ≡ ok (some waiting))
    × (0 < 3 + 1
        → (s : ActiveLiangziState) × (band : LiangziUpRatioBand) × (derive_liangzi_state
              (nat 3)
              (nat 1)
              default_liangzi_thresholds
            ≡ ok (some (active s)))
          × (liangzi_up_ratio_band (active s) default_liangzi_thresholds ≡ ok band)
          × InBand band (record { num = 3; den = 4 }))
derive_lem_example =
    derive_lem default_liangzi_thresholds 3 1 default-valid (omega arith) (omega arith)
