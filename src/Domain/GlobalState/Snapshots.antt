-- ===== src/Domain/GlobalState/Snapshots.antt =====
-- One snapshot never mixes two sets of counts.
use dsh_liangxiang.Prelude.{
  ℕ, ◌+◌, ◌≤◌, ◌<◌, ◌≡◌, refl, Bool, true, false, Option, none, some, arith, nat, is_finite, Result,
  ok, err, ◌>>=◌, ◌>>◌, guard, eq_test, ne_test, ok-injective, >>=-eq-ok,
}
use mathlib.Core.Path.{subst}
use dsh_liangxiang.Domain.Errors.{
  DomainErrorCode, assert_count, assert_count-eq-ok, invalid_vote_count,
}
use dsh_liangxiang.Domain.Liangzi.{LiangziState, LiangziThresholdPolicy, derive_liangzi_state}
use dsh_liangxiang.Domain.GlobalState.{
  total, assert_valid_aggregate, SnapshotBuildInput, PublicLiangSnapshot, snapshot_of, policy_of,
  build_public_snapshot,
}
use dsh_liangxiang.Domain.GlobalState.Conservation.{IsValid, assert_valid_aggregate-IsValid}

-- The counts and the voters are the aggregate's, the ratios are null exactly on an empty case and otherwise have
-- these counts for parts, and the tier is the policy's for these counts.
pub record IsConsistent (input : SnapshotBuildInput) (s : PublicLiangSnapshot) : Type 0 where
  pub ups : s.up_votes ≡ input.aggregate.up_votes
  pub downs : s.down_votes ≡ input.aggregate.down_votes
  pub sum : s.total_incense ≡ s.up_votes + s.down_votes
  pub voters : s.unique_voters ≡ input.aggregate.unique_voters
  pub voters_bounded : s.unique_voters ≤ s.total_incense
  pub names :
      (s.case_id ≡ input.case_id)
      × (s.liangzi_policy_version ≡ input.policy_version)
      × (s.captured_at ≡ input.captured_at)
  pub no_votes : s.total_incense ≡ 0 → (s.up_ratio ≡ none) × (s.down_ratio ≡ none)
  pub votes :
      0 < s.total_incense
      → (s.up_ratio ≡ some (record { num = s.up_votes; den = s.total_incense }))
        × (s.down_ratio ≡ some (record { num = s.down_votes; den = s.total_incense }))
  pub version : input.sequence ≡ nat s.sequence
  pub tier :
      (p : LiangziThresholdPolicy) × (policy_of input.policy input.policy_version ≡ ok p)
      × (derive_liangzi_state (nat s.up_votes) (nat s.down_votes) p ≡ ok s.liangzi_state)

-- The steps of a build that succeeded.
steps-eq-ok {ℓ κ μ} :
    {P : Type ℓ} {S : Type κ} {B : Type μ} (valid : Result DomainErrorCode (Unit {0}))
    (sequence : Result DomainErrorCode ℕ) (test : Bool) (code : DomainErrorCode)
    (policy : Result DomainErrorCode P) (state : P → Result DomainErrorCode S) (build : ℕ → S → B)
    {b : B}
    → ◌≡◌ {A = Result DomainErrorCode B}
        (valid
          >> (sequence >>= λ n.
              guard test code >> (policy >>= λ p. state p >>= λ s. ok (build n s))))
        (ok b)
    → (valid ≡ ok tt)
      × (n : ℕ) × (sequence ≡ ok n)
      × (p : P) × (policy ≡ ok p)
      × (s : S) × (state p ≡ ok s)
      × (build n s ≡ b)
steps-eq-ok (ok u) (ok n) true code (ok p) state build h =
    let (s, e, same) = >>=-eq-ok (state p) (λ s. ok (build n s)) h in
    (refl, n, refl, p, refl, s, e, ok-injective same)
steps-eq-ok (ok u) (ok n) true code (err e) state build h = cc
steps-eq-ok (ok u) (ok n) false code policy state build h = cc
steps-eq-ok (ok u) (err e) test code policy state build h = cc
steps-eq-ok (err e) sequence test code policy state build h = cc

snapshot_of-IsConsistent :
    (input : SnapshotBuildInput) (n : ℕ) (p : LiangziThresholdPolicy) (o : Option LiangziState)
    → IsValid input.aggregate
    → input.sequence ≡ nat n
    → policy_of input.policy input.policy_version ≡ ok p
    → derive_liangzi_state (nat input.aggregate.up_votes) (nat input.aggregate.down_votes) p ≡ ok o
    → IsConsistent input (snapshot_of input n o)
snapshot_of-IsConsistent input n p o v e pe oe = record {
  ups = refl;
  downs = refl;
  sum = refl;
  voters = refl;
  voters_bounded = v.voters_bounded;
  names = (refl, refl, refl);
  no_votes = λ h. (rw (eq_test _ 0 h), rw (eq_test _ 0 h));
  votes = λ h. (
    rw (ne_test (total input.aggregate) 0 (omega arith)),
    rw (ne_test (total input.aggregate) 0 (omega arith)),
  );
  version = e;
  tier = (p, pe, oe);
}

-- Every snapshot that is built is of the case, the policy version, the time and the sequence that it was built
-- from; its counts of up votes, down votes and voters are the aggregate's, and the voters no more than the
-- votes; its total is the sum of both directions; the ratios are null where there are no votes, and else
-- have these counts for parts; and its tier is the one derived from these counts under the policy.
pub build-IsConsistent :
    (input : SnapshotBuildInput) (s : PublicLiangSnapshot)
    → build_public_snapshot input ≡ ok s
    → IsConsistent input s
unfolding build_public_snapshot
build-IsConsistent input s h =
    let (valid, n, e, p, pe, o, oe, same) =
      steps-eq-ok (assert_valid_aggregate input.aggregate)
        (assert_count input.sequence invalid_vote_count) (is_finite input.captured_at)
        invalid_vote_count (policy_of input.policy input.policy_version)
        (λ p.
          derive_liangzi_state (nat input.aggregate.up_votes) (nat input.aggregate.down_votes) p)
        (snapshot_of input) h in
    subst (IsConsistent input) same (
      snapshot_of-IsConsistent input n p o (assert_valid_aggregate-IsValid input.aggregate valid)
        (assert_count-eq-ok input.sequence invalid_vote_count e).0 pe oe)
