-- ===== src/Domain/LocalEpithet/Examples.antt =====
-- Runs of src/domain/local-epithet.ts.
use dsh_liangxiang.Prelude.{◌≡◌, refl}
use dsh_liangxiang.Domain.LocalEpithet.{
  LocalEpithetRecord, derive_local_epithet, stance_for, diligent, dead_up, iron_down,
}

abbrev few : LocalEpithetRecord
few = record { ups = 3; downs = 1 }

devoted :
    derive_local_epithet (record { ups = 30; downs = 2 })
    ≡ record { dedication = diligent; stance = dead_up; spent = 32 }
unfolding derive_local_epithet
devoted = refl

-- At a share of exactly 12 percent the two sides are not mirrored.
unmirrored : (stance_for 12 88 ≡ iron_down) × (stance_for 88 12 ≡ dead_up)
unfolding stance_for
unmirrored = (refl, refl)
