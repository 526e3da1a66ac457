-- ===== src/Domain/Errors.antt =====
-- src/domain/errors.ts and the two validators of src/domain/tokens.ts that other parts share.
use dsh_liangxiang.Prelude.{
  ℕ, ◌≤◌, ◌≡◌, arith, Number, nat, fraction, max_safe_integer, is_safe, Result, ok, err,
  if◌then◌else◌, le→leb,
}

pub data DomainErrorCode : Type 0 where
  invalid_token_count invalid_incense_count invalid_vote_count : DomainErrorCode
  used_exceeds_earned invalid_policy invalid_vote_type : DomainErrorCode
  invalid_request_id invalid_business_date insufficient_incense : DomainErrorCode

-- The number that passes is handed on as a ℕ.
abbrev pub assert_count : Number → DomainErrorCode → Result DomainErrorCode ℕ
assert_count (nat n) code = if is_safe n then ok n else err code
assert_count _ code = err code

-- What passed is an integer, at least 0, and safe.
pub assert_count-eq-ok :
    (value : Number) (code : DomainErrorCode) {n : ℕ}
    → assert_count value code ≡ ok n
    → (value ≡ nat n) × (n ≤ max_safe_integer)
assert_count-eq-ok (nat m) code h = ground arith
assert_count-eq-ok (fraction m) code h = cc
assert_count-eq-ok _ code h = cc

pub assert_count-nat :
    (n : ℕ) (code : DomainErrorCode) → n ≤ max_safe_integer → assert_count (nat n) code ≡ ok n
assert_count-nat n code h = rw (le→leb n max_safe_integer h)
