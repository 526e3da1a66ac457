-- ===== src/Domain/IncenseWeight/Examples.antt =====
-- Runs of src/domain/incense-weight.ts.
use dsh_liangxiang.Prelude.{◌+◌, ◌*◌, ◌<◌, ◌≡◌, refl, false}
use dsh_liangxiang.Domain.Vote.{codes}
use dsh_liangxiang.Domain.IncenseWeight.{
  incense_weight_scale, matches, incense_weight_bps_for_model, scale_tokens_by_weight_bps,
}
use dsh_liangxiang.Domain.IncenseWeight.Scaling.{scale_lem}

pro_and_others :
    (incense_weight_bps_for_model (codes "deepseek-v4-pro") ≡ 10000)
    × (incense_weight_bps_for_model (codes "deepseek-v4-flash-0731") ≡ 5000)
    × (incense_weight_bps_for_model (codes "DeepSeek V4 Pro") ≡ 5000)
    × (incense_weight_bps_for_model (codes "deepseek-v4-professional") ≡ 5000)
unfolding incense_weight_bps_for_model
pro_and_others = (refl, refl, refl, refl)

no_overlap : matches (codes "aba*aba") (codes "ababa") ≡ false
unfolding matches
no_overlap = refl

-- Two Flash tokens make one.
carried :
    (scale_tokens_by_weight_bps 1 5000 0 ≡ (0, 5000))
    × (scale_tokens_by_weight_bps 1 5000 5000 ≡ (1, 0))
unfolding scale_tokens_by_weight_bps
carried = (refl, refl)

scale_lem_example :
    let (scaled, left) = scale_tokens_by_weight_bps 12345 5000 7000 in
    (scaled * incense_weight_scale + left ≡ 12345 * 5000 + 7000) × (left < incense_weight_scale)
scale_lem_example = scale_lem 12345 5000 7000
