-- ===== src/Prelude/Numbers.antt =====
-- JavaScript numbers as the source's guards tell them apart. A count that has passed a guard is a
-- plain ℕ afterwards. `-0` is `nat 0`: no guard of the source tells them apart.
use Prim.Native.Nat.{ℕ}
use mathlib.Core.Bool.{Bool, true, false}
use mathlib.Core.Path.{◌≡◌}
use dsh_liangxiang.Prelude.Tests.{leb}

pub data Number : Type 0 where
  -- an integer that is at least 0
  nat : ℕ → Number
  -- a finite number that is no integer, above `n` and below `n + 1`
  fraction : ℕ → Number
  -- a finite number below 0, integer or not
  negative : Number
  infinite negative_infinite nan : Number

-- Number.MAX_SAFE_INTEGER
abbrev pub max_safe_integer : ℕ
max_safe_integer = 9007199254740991

-- Number.isSafeInteger of an integer that is at least 0
abbrev pub is_safe : ℕ → Bool
is_safe n = leb n max_safe_integer

-- Number.isFinite
abbrev pub is_finite : Number → Bool
is_finite (nat n) = true
is_finite (fraction n) = true
is_finite negative = true
is_finite infinite = false
is_finite negative_infinite = false
is_finite nan = false

-- Math.max(0, Math.floor(x)) of a finite number, and 0 of any other:
-- the source's `Number.isFinite(x) ? Math.max(0, Math.floor(x)) : 0`.
abbrev pub floor_or_zero : Number → ℕ
floor_or_zero (nat n) = n
floor_or_zero (fraction n) = n
floor_or_zero negative = 0
floor_or_zero infinite = 0
floor_or_zero negative_infinite = 0
floor_or_zero nan = 0

pub nat-eq : {a b : ℕ} → nat a ≡ nat b → a ≡ b
nat-eq h = cc
