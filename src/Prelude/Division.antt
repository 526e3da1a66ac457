-- ===== src/Prelude/Division.antt =====
-- Quotients by a positive number, of which only the value is known.
use Prim.Native.Nat.{ℕ, ◌+◌, ◌*◌, ◌/◌, ◌≤◌, ◌<◌}
use native.Mathlib.Omega.{arith}

pub le-div_of_mul_le : (q a per : ℕ) → 0 < per → q * per ≤ a → q ≤ a / per
le-div_of_mul_le q a per p h = grind arith

pub div-lt_of_lt_mul : (q a per : ℕ) → 0 < per → a < q * per → a / per < q
div-lt_of_lt_mul q a per p h = grind arith

pub quotient_bounds : (a per : ℕ) → 0 < per → (a / per * per ≤ a) × (a < (a / per + 1) * per)
quotient_bounds a per h = (grind arith, grind arith)

pub mul-le_of_le_div : (q a per : ℕ) → 0 < per → q ≤ a / per → q * per ≤ a
mul-le_of_le_div q a per p h = grind arith
