-- ===== src/Domain/Presentation/Examples.antt =====
-- Runs of src/domain/presentation.ts.
use dsh_liangxiang.Prelude.{◌≡◌, refl, nat, ok}
use dsh_liangxiang.Domain.Presentation.{
  percents, waiting, format_ratio_percents, liang_position_decimals, exact, rounded, one_of,
  format_compact_count, format_zh_compact_count,
}

-- 94.6% is not shown as 95%.
truncates : format_ratio_percents (nat 946) (nat 54) (nat 0) ≡ ok (percents 94 6 1)
unfolding format_ratio_percents
truncates = refl

no_votes : format_ratio_percents (nat 0) (nat 0) (nat liang_position_decimals) ≡ ok waiting
unfolding format_ratio_percents
no_votes = refl

compact_counts :
    (format_compact_count (nat 33421) 10 ≡ ok (rounded 334 10 "K"))
    × (format_compact_count (nat 33421) 1 ≡ ok (rounded 33 1 "K"))
    × (format_compact_count (nat 999950) 10 ≡ ok (one_of "M"))
    × (format_zh_compact_count (nat 9999) ≡ ok (exact 9999))
    × (format_zh_compact_count (nat 123456789) ≡ ok (rounded 12 10 "亿"))
unfolding format_compact_count format_zh_compact_count
compact_counts = (refl, refl, refl, refl, refl)
