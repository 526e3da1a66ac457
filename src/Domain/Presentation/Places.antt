-- ===== src/Domain/Presentation/Places.antt =====
-- The glyphs of the incense ring stand for the number of sticks.
use dsh_liangxiang.Prelude.{
  ℕ, ◌+◌, ◌*◌, ◌/◌, ◌%◌, ◌≤◌, ◌<◌, ◌≡◌, inl, inr, arith, nat, max_safe_integer, ok, leb,
  leb_false→lt, Bool-cases,
}
use dsh_liangxiang.Domain.Errors.{assert_count-nat, invalid_incense_count}
use dsh_liangxiang.Domain.Presentation.{IncensePlaceValue, incense_place_value}

-- Each orbit holds at most nine glyphs, and either the glyphs or the numeral give the count.
pub record Stands (n : ℕ) (p : IncensePlaceValue) : Type 0 where
  pub ones_digit : p.ones ≤ 9
  pub tens_digit : p.tens ≤ 9
  pub hundreds_digit : p.hundreds ≤ 9
  pub value : p.hundreds * 100 + p.tens * 10 + p.ones + p.overflow ≡ n
  pub glyphs_stop : 1000 ≤ n → p.overflow ≡ n
  pub numeral_starts : n < 1000 → p.overflow ≡ 0

-- Every safe count has a place value that stands for it.
pub incense_place_value-Stands :
    (n : ℕ)
    → n ≤ max_safe_integer
    → (p : IncensePlaceValue) × (incense_place_value (nat n) ≡ ok p) × Stands n p
unfolding incense_place_value
incense_place_value-Stands n safe = elim (Bool-cases (leb 1000 n)) [
  | inl big ↦ (
    record { ones = 0; tens = 0; hundreds = 0; overflow = n },
    rw (assert_count-nat n invalid_incense_count safe, big),
    ground arith,
  )
  | inr small ↦ (
    record { ones = n % 10; tens = n / 10 % 10; hundreds = n / 100 % 10; overflow = 0 },
    rw (assert_count-nat n invalid_incense_count safe, small),
    omega (arith, leb_false→lt 1000 n small),
  )
]
