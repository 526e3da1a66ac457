-- ===== src/Domain/VoteBudget/Clamp.antt =====
-- The authority's clamp gives the most that every limit allows.
use dsh_liangxiang.Prelude.{
  ℕ, ◌≤◌, min, ◌≡◌, refl, true, arith, Number, nat, fraction, negative, infinite, negative_infinite,
  nan, max_safe_integer, is_finite, floor_or_zero, ok, ◌>>◌, guard, le→leb, ok-injective, >>=-eq-ok,
  guard-eq-ok,
}
use dsh_liangxiang.Domain.Errors.{
  assert_count, assert_count-nat, assert_count-eq-ok, invalid_incense_count,
}
use dsh_liangxiang.Domain.Vote.{vote_count_max}
use dsh_liangxiang.Domain.VoteBudget.{clamp_vote_spend, room_of, is_spendable}

room_of-le : (a : Number) (want : ℕ) → is_finite a ≡ true → room_of a want ≤ floor_or_zero a
room_of-le (nat n) want h = omega arith
room_of-le (fraction n) want h = omega arith
room_of-le negative want h = omega arith
room_of-le _ want h = cc

-- A request for at least one stick is never refused, and what is granted is within the request, the
-- limit of one request, the remaining incense and a finite budget. It is the largest such number.
pub clamp_lem :
    (requested remaining : ℕ) (available : Number)
    → 1 ≤ requested
    → remaining ≤ max_safe_integer
    → (spent : ℕ) × (clamp_vote_spend (nat requested) (nat remaining) available ≡ ok spent)
      × (spent ≤ requested)
      × (spent ≤ remaining)
      × (spent ≤ vote_count_max)
      × (is_finite available ≡ true → spent ≤ floor_or_zero available)
      × ((n : ℕ)
          → n ≤ requested
          → n ≤ remaining
          → n ≤ vote_count_max
          → (is_finite available ≡ true → n ≤ floor_or_zero available)
          → n ≤ spent)
unfolding clamp_vote_spend
clamp_lem requested remaining available pos safe = (
  min (min (min requested vote_count_max) remaining)
      (room_of available (min requested vote_count_max)),
  rw (assert_count-nat remaining invalid_incense_count safe, le→leb 1 requested pos),
  omega arith,
  omega arith,
  omega arith,
  (λ finite. omega (arith, room_of-le available (min requested vote_count_max) finite)),
  greatest available,
)
  where
    greatest :
        (a : Number) (n : ℕ)
        → n ≤ requested
        → n ≤ remaining
        → n ≤ vote_count_max
        → (is_finite a ≡ true → n ≤ floor_or_zero a)
        → n
          ≤ min
              (min (min requested vote_count_max) remaining)
              (room_of a (min requested vote_count_max))
    greatest (nat m) n a b c d = omega (arith, d refl)
    greatest (fraction m) n a b c d = omega (arith, d refl)
    greatest negative n a b c d = omega (arith, d refl)
    greatest infinite n a b c d = omega arith
    greatest negative_infinite n a b c d = omega arith
    greatest nan n a b c d = omega arith

-- What a clamp that succeeds has found.
pub clamp-eq-ok :
    (requested : ℕ) (remaining available : Number) (spent : ℕ)
    → clamp_vote_spend (nat requested) remaining available ≡ ok spent
    → (left : ℕ) × (remaining ≡ nat left)
      × (spent ≤ requested)
      × (spent ≤ left)
      × (spent ≤ vote_count_max)
      × (is_finite available ≡ true → spent ≤ floor_or_zero available)
unfolding clamp_vote_spend
clamp-eq-ok requested remaining available spent h =
    let want = min requested vote_count_max in
    let granted : ℕ → ℕ = λ left. min (min want left) (room_of available want) in
    let (left, counted, k) =
      >>=-eq-ok (assert_count remaining invalid_incense_count)
        (λ left. guard (is_spendable (nat requested)) invalid_incense_count >> ok (granted left))
        h in
    let (some_asked, same) =
      guard-eq-ok (is_spendable (nat requested)) invalid_incense_count (ok (granted left)) k in
    let spent_is : granted left ≡ spent = ok-injective same in
    (
      left,
      (assert_count-eq-ok remaining invalid_incense_count counted).0,
      omega (arith, spent_is),
      omega (arith, spent_is),
      omega (arith, spent_is),
      λ finite. omega (arith, spent_is, room_of-le available want finite),
    )
