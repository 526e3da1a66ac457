-- ===== src/Domain/GlobalState/Conservation.antt =====
-- Accepted votes are counted once each, in their direction.
use dsh_liangxiang.Prelude.{
  ℕ, ◌+◌, ◌≤◌, ◌≡◌, refl, true, sym, ap, ◌∙◌, Bool, false, arith, nat, max_safe_integer, ok, err,
  leb, if◌then◌else◌, le→leb,
}
use mathlib.Core.Path.{subst}
use dsh_liangxiang.Prelude.{guard-if, ok-injective}
use dsh_liangxiang.Domain.Errors.{assert_count-nat, invalid_vote_count}
use dsh_liangxiang.Domain.Vote.{VoteType, up, down}
use dsh_liangxiang.Domain.GlobalState.{
  GlobalVoteAggregate, total, assert_valid_aggregate, add_votes, apply_accepted_votes,
}

pub record IsValid (a : GlobalVoteAggregate) : Type 0 where
  pub up_safe : a.up_votes ≤ max_safe_integer
  pub down_safe : a.down_votes ≤ max_safe_integer
  pub voters_safe : a.unique_voters ≤ max_safe_integer
  pub voters_bounded : a.unique_voters ≤ total a

pub assert_valid_aggregate-IsValid :
    (a : GlobalVoteAggregate) → assert_valid_aggregate a ≡ ok tt → IsValid a
unfolding assert_valid_aggregate
assert_valid_aggregate-IsValid a h = ground arith

pub IsValid-assert_valid : (a : GlobalVoteAggregate) → IsValid a → assert_valid_aggregate a ≡ ok tt
unfolding assert_valid_aggregate
IsValid-assert_valid a v =
    rw
      (
        assert_count-nat a.up_votes invalid_vote_count v.up_safe,
        assert_count-nat a.down_votes invalid_vote_count v.down_safe,
        assert_count-nat a.unique_voters invalid_vote_count v.voters_safe,
      )
      (rw (le→leb a.unique_voters (total a) v.voters_bounded))

add_votes-IsValid :
    (a : GlobalVoteAggregate) (v : VoteType) (count : ℕ) (first : Bool)
    → IsValid a
    → 1 ≤ count
    → total a + count ≤ max_safe_integer
    → IsValid (add_votes a v count first)
add_votes-IsValid a up count first v h fits = ground arith
add_votes-IsValid a down count first v h fits = ground arith

total-add_votes :
    (a : GlobalVoteAggregate) (v : VoteType) (count : ℕ) (first : Bool)
    → total (add_votes a v count first) ≡ total a + count
total-add_votes a up count first = omega arith
total-add_votes a down count first = omega arith

-- The votes of one direction, and those of the other.
abbrev pub votes_for : VoteType → GlobalVoteAggregate → ℕ
votes_for up a = a.up_votes
votes_for down a = a.down_votes

abbrev pub votes_against : VoteType → GlobalVoteAggregate → ℕ
votes_against up a = a.down_votes
votes_against down a = a.up_votes

-- The votes are counted once, in their direction, and the voter where it is the first vote.
pub record IsCounted (a : GlobalVoteAggregate) (v : VoteType) (count : ℕ) (first : Bool)
    (b : GlobalVoteAggregate) : Type 0 where
  pub towards : votes_for v b ≡ votes_for v a + count
  pub against : votes_against v b ≡ votes_against v a
  pub known_voter : first ≡ false → b.unique_voters ≡ a.unique_voters
  pub new_voter : first ≡ true → b.unique_voters ≡ a.unique_voters + 1
  pub policy_kept : b.liangzi_policy_version ≡ a.liangzi_policy_version

add_votes-IsCounted :
    (a : GlobalVoteAggregate) (v : VoteType) (count : ℕ) (first : Bool)
    → IsCounted a v count first (add_votes a v count first)
add_votes-IsCounted a up count true = ground arith
add_votes-IsCounted a up count false = ground arith
add_votes-IsCounted a down count true = ground arith
add_votes-IsCounted a down count false = ground arith

applied :
    (a : GlobalVoteAggregate) (v : VoteType) (count : ℕ) (first : Bool)
    → IsValid a
    → total a + count ≤ max_safe_integer
    → apply_accepted_votes a v (nat count) first
      ≡ (if leb 1 count then ok (add_votes a v count first) else err invalid_vote_count)
unfolding apply_accepted_votes
applied a v count first valid fits =
    rw (IsValid-assert_valid a valid, assert_count-nat count invalid_vote_count (omega arith))
      (guard-if (leb 1 count) invalid_vote_count _)

-- On a valid aggregate, while the total stays a safe integer: a count of 0 is refused; one of at least 1 is
-- accepted, and in what is returned the votes of that direction are more by the count, those of the other
-- direction the same, the voters one more for a first vote and else the same, and the policy the same; it
-- is valid again, and its total is more by the count.
pub apply_lem :
    (a : GlobalVoteAggregate) (v : VoteType) (count : ℕ) (first : Bool)
    → IsValid a
    → total a + count ≤ max_safe_integer
    → (count ≡ 0 → apply_accepted_votes a v (nat count) first ≡ err invalid_vote_count)
      × (1 ≤ count
          → (b : GlobalVoteAggregate) × (apply_accepted_votes a v (nat count) first ≡ ok b)
            × IsCounted a v count first b
            × IsValid b
            × (total b ≡ total a + count))
apply_lem a v count first valid fits = (
  λ h. applied a v count first valid fits ∙ rw h refl,
  λ h. (
    add_votes a v count first,
    applied a v count first valid fits ∙ rw (le→leb 1 count h) refl,
    add_votes-IsCounted a v count first,
    add_votes-IsValid a v count first valid h fits,
    total-add_votes a v count first,
  ),
)

-- A dump of `m + n` sticks is the same as a dump of `m` and then one of `n` by a known voter.
pub apply_split :
    (a b : GlobalVoteAggregate) (v : VoteType) (m n : ℕ) (first : Bool)
    → IsValid a
    → 1 ≤ m
    → 1 ≤ n
    → total a + m + n ≤ max_safe_integer
    → apply_accepted_votes a v (nat m) first ≡ ok b
    → apply_accepted_votes b v (nat n) false ≡ apply_accepted_votes a v (nat (m + n)) first
apply_split a b v m n first valid hm hn fits h =
    let e : add_votes a v m first ≡ b =
      ok-injective (sym (some_applied a v m first valid hm (omega arith)) ∙ h) in
    subst
      (λ c. apply_accepted_votes c v (nat n) false ≡ apply_accepted_votes a v (nat (m + n)) first) e
      (some_applied (add_votes a v m first) v n false
          (add_votes-IsValid a v m first valid hm (omega arith)) hn
          (omega (arith, total-add_votes a v m first))
        ∙ ap (λ c. ok c) (regroup v)
        ∙ sym (some_applied a v (m + n) first valid (omega arith) (omega arith)))
  where
    some_applied :
        (a : GlobalVoteAggregate) (v : VoteType) (count : ℕ) (first : Bool)
        → IsValid a
        → 1 ≤ count
        → total a + count ≤ max_safe_integer
        → apply_accepted_votes a v (nat count) first ≡ ok (add_votes a v count first)
    some_applied a v count first valid h fits =
        applied a v count first valid fits ∙ rw (le→leb 1 count h) refl

    regroup :
        (v : VoteType) → add_votes (add_votes a v m first) v n false ≡ add_votes a v (m + n) first
    regroup up = ground arith
    regroup down = ground arith
