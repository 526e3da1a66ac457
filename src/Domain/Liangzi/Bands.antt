-- ===== src/Domain/Liangzi/Bands.antt =====
-- The tier that a ratio is given and the band that the interface shows for it agree.
use dsh_liangxiang.Prelude.{
  ℕ, zero, suc, ◌+◌, ◌≤◌, ◌<◌, ◌≡◌, refl, ap, ◌∙◌, inl, inr, Bool, true, not, ◌||◌, Option, none,
  some, List, [], ◌∷◌, arith, nat, max_safe_integer, ok, ◌==◌, le→leb, eq_test, ne_test, Bool-cases,
  length, get_elem?,
}
use dsh_liangxiang.Domain.Errors.{assert_count-nat, invalid_vote_count}
use dsh_liangxiang.Domain.Liangzi.{
  ActiveLiangziState, waiting, active, Ratio, ratio_ltb, LiangziThresholdPolicy, LiangziUpRatioBand,
  find_index, state_at, states_for_policy, band_at, band_of, index_of, liangzi_state_for_up_ratio,
  liangzi_up_ratio_band, derive_liangzi_state, assert_valid_threshold_policy, active_liangzi_states,
  xiao_nan_liang, liang_gong, liang_zong, liang_shen, liang_sheng, liang_zu, active_liangzi_states,
}

-- At or above the lower end, where there is one, and below the upper end, where there is one.
abbrev pub at_least : Option Ratio → Ratio → Bool
at_least none r = true
at_least (some a) r = not (ratio_ltb r a)

abbrev pub below : Option Ratio → Ratio → Bool
below none r = true
below (some b) r = ratio_ltb r b

pub record InBand (band : LiangziUpRatioBand) (r : Ratio) : Type 0 where
  pub from_min : at_least band.min_inclusive r ≡ true
  pub to_max : below band.max_exclusive r ≡ true

find_index-below :
    (r : Ratio) (bs : List Ratio) (i : ℕ)
    → find_index (ratio_ltb r) bs ≡ some i
    → below (get_elem? bs i) r ≡ true
unfolding find_index
find_index-below r [] i h = cc
find_index-below r (b ∷ bs) zero h = ground arith
find_index-below r (b ∷ bs) (suc i) h = ground (arith, find_index-below r bs i)

find_index-at_least :
    (r : Ratio) (bs : List Ratio) (i : ℕ)
    → find_index (ratio_ltb r) bs ≡ some (suc i)
    → at_least (get_elem? bs i) r ≡ true
unfolding find_index
find_index-at_least r [] i h = cc
find_index-at_least r (b ∷ bs) zero h = ground arith
find_index-at_least r (b ∷ bs) (suc i) h = ground (arith, find_index-at_least r bs i)

find_index-none :
    (r : Ratio) (bs : List Ratio) (i : ℕ)
    → find_index (ratio_ltb r) bs ≡ none
    → at_least (get_elem? bs i) r ≡ true
unfolding find_index
find_index-none r [] i h = refl
find_index-none r (b ∷ bs) zero h = ground arith
find_index-none r (b ∷ bs) (suc i) h = ground (arith, find_index-none r bs i)

get_elem?-length {ℓ} : {A : Type ℓ} (xs : List A) → get_elem? xs (length xs) ≡ none
get_elem?-length [] = refl
get_elem?-length (x ∷ xs) = get_elem?-length xs

-- Where the first boundary above `r` stands, `r` lies between it and the one before.
band_at-InBand :
    (r : Ratio) (bs : List Ratio) (i : ℕ)
    → find_index (ratio_ltb r) bs ≡ some i
    → InBand (band_at bs i) r
band_at-InBand r bs zero h = record { from_min = refl; to_max = find_index-below r bs zero h }
band_at-InBand r bs (suc i) h = record {
  from_min = find_index-at_least r bs i h;
  to_max = find_index-below r bs (suc i) h;
}

-- Above all boundaries it lies in the last band.
last-InBand :
    (r : Ratio) (b : Ratio) (bs : List Ratio)
    → find_index (ratio_ltb r) (b ∷ bs) ≡ none
    → InBand (band_at (b ∷ bs) (length (b ∷ bs))) r
last-InBand r b bs h = record {
  from_min = find_index-none r (b ∷ bs) (length bs) h;
  to_max = rw (get_elem?-length bs);
}

-- The position at which `state_at` reads.
abbrev pub index_or_last : LiangziThresholdPolicy → Option ℕ → ℕ
index_or_last policy none = length policy.boundaries
index_or_last policy (some i) = i

abbrev pub slot : LiangziThresholdPolicy → Ratio → ℕ
slot policy r = index_or_last policy (find_index (ratio_ltb r) policy.boundaries)

pub index-below-length {ℓ} :
    {A : Type ℓ} (p : A → Bool) (xs : List A) (i : ℕ) → find_index p xs ≡ some i → i < length xs
unfolding find_index
index-below-length p [] i h = cc
index-below-length p (x ∷ xs) zero h = omega arith
index-below-length p (x ∷ xs) (suc i) h = ground (arith, index-below-length p xs i)

legacy_slot :
    (i : ℕ)
    → i < 5
    → (s : ActiveLiangziState) × (get_elem?
          (liang_gong ∷ liang_zong ∷ liang_shen ∷ liang_sheng ∷ liang_zu ∷ [])
          i
        ≡ some s)
      × (index_of (liang_gong ∷ liang_zong ∷ liang_shen ∷ liang_sheng ∷ liang_zu ∷ []) s ≡ some i)
unfolding index_of find_index
legacy_slot zero h = (liang_gong, refl, refl)
legacy_slot (suc zero) h = (liang_zong, refl, refl)
legacy_slot (suc (suc zero)) h = (liang_shen, refl, refl)
legacy_slot (suc (suc (suc zero))) h = (liang_sheng, refl, refl)
legacy_slot (suc (suc (suc (suc zero)))) h = (liang_zu, refl, refl)
legacy_slot (suc (suc (suc (suc (suc i))))) h = absurd (omega arith)

current_slot :
    (i : ℕ)
    → i < 6
    → (s : ActiveLiangziState) × (get_elem? active_liangzi_states i ≡ some s)
      × (index_of active_liangzi_states s ≡ some i)
unfolding index_of find_index
current_slot zero h = (xiao_nan_liang, refl, refl)
current_slot (suc zero) h = (liang_gong, refl, refl)
current_slot (suc (suc zero)) h = (liang_zong, refl, refl)
current_slot (suc (suc (suc zero))) h = (liang_shen, refl, refl)
current_slot (suc (suc (suc (suc zero)))) h = (liang_sheng, refl, refl)
current_slot (suc (suc (suc (suc (suc zero))))) h = (liang_zu, refl, refl)
current_slot (suc (suc (suc (suc (suc (suc i)))))) h = absurd (omega arith)

-- On both lengths that a policy may have, each slot holds a state that stands at that slot.
index_of-states :
    (policy : LiangziThresholdPolicy) (i : ℕ)
    → (length policy.boundaries == 4 || length policy.boundaries == 5) ≡ true
    → i ≤ length policy.boundaries
    → (s : ActiveLiangziState) × (get_elem? (states_for_policy policy) i ≡ some s)
      × (index_of (states_for_policy policy) s ≡ some i)
unfolding index_of find_index
index_of-states policy i l h = elim (Bool-cases (length policy.boundaries == 4)) [
  | inl four ↦ rw four (legacy_slot i (ground arith))
  | inr other ↦ rw other (current_slot i (ground arith))
]

state_at-index :
    (policy : LiangziThresholdPolicy) (o : Option ℕ)
    → (length policy.boundaries == 4 || length policy.boundaries == 5) ≡ true
    → state_at (states_for_policy policy) o
      ≡ get_elem? (states_for_policy policy) (index_or_last policy o)
state_at-index policy (some i) l = refl
state_at-index policy none l = elim (Bool-cases (length policy.boundaries == 4)) [
  | inl four ↦ rw (four, four_of four) refl
  | inr other ↦ rw (other, five_of (ground arith)) refl
]
  where
    four_of : (length policy.boundaries == 4) ≡ true → length policy.boundaries ≡ 4
    four_of e = ground arith

    five_of : (length policy.boundaries == 5) ≡ true → length policy.boundaries ≡ 5
    five_of e = ground arith

pub state_at-slot :
    (policy : LiangziThresholdPolicy) (r : Ratio)
    → (length policy.boundaries == 4 || length policy.boundaries == 5) ≡ true
    → state_at (states_for_policy policy) (find_index (ratio_ltb r) policy.boundaries)
      ≡ get_elem? (states_for_policy policy) (slot policy r)
state_at-slot policy r l = state_at-index policy (find_index (ratio_ltb r) policy.boundaries) l

slot_in-InBand :
    (bs : List Ratio) (r : Ratio) (o : Option ℕ)
    → 0 < length bs
    → find_index (ratio_ltb r) bs ≡ o
    → (index_or_last (record { boundaries = bs }) o ≤ length bs)
      × InBand (band_at bs (index_or_last (record { boundaries = bs }) o)) r
slot_in-InBand [] r o pos e = absurd (omega arith)
slot_in-InBand (b ∷ bs) r none pos e = (omega arith, last-InBand r b bs e)
slot_in-InBand (b ∷ bs) r (some i) pos e =
    (omega (arith, index-below-length (ratio_ltb r) (b ∷ bs) i e), band_at-InBand r (b ∷ bs) i e)

pub slot-InBand :
    (policy : LiangziThresholdPolicy) (r : Ratio)
    → (length policy.boundaries == 4 || length policy.boundaries == 5) ≡ true
    → (slot policy r ≤ length policy.boundaries)
      × InBand (band_at policy.boundaries (slot policy r)) r
slot-InBand policy r l = slot_in-InBand policy.boundaries r _ (ground arith) refl

band_of-active :
    (policy : LiangziThresholdPolicy) (s : ActiveLiangziState) (i : ℕ)
    → index_of (states_for_policy policy) s ≡ some i
    → band_of policy (active s) ≡ ok (band_at policy.boundaries i)
band_of-active policy s i e = unfold band_of in rw (e, band_of) refl

pub assert_valid-length :
    (policy : LiangziThresholdPolicy)
    → assert_valid_threshold_policy policy ≡ ok tt
    → (length policy.boundaries == 4 || length policy.boundaries == 5) ≡ true
unfolding assert_valid_threshold_policy
assert_valid-length policy v = ground arith

-- Under a valid policy every ratio from 0 to 1 has a tier, never an undefined one, and the band
-- that the interface shows for this tier contains the ratio.
pub tier-InBand :
    (policy : LiangziThresholdPolicy) (r : Ratio)
    → assert_valid_threshold_policy policy ≡ ok tt
    → r.num ≤ r.den
    → (s : ActiveLiangziState) × (band : LiangziUpRatioBand) × (liangzi_state_for_up_ratio r policy
        ≡ ok (some s))
      × (liangzi_up_ratio_band (active s) policy ≡ ok band)
      × InBand band r
unfolding liangzi_state_for_up_ratio liangzi_up_ratio_band
tier-InBand policy r v h =
    let l = assert_valid-length policy v in
    let (fits, inside) = slot-InBand policy r l in
    let (s, here, back) = index_of-states policy (slot policy r) l fits in
    (
      s,
      band_at policy.boundaries (slot policy r),
      rw (v, le→leb r.num r.den h) (ap (λ o. ok o) (state_at-slot policy r l ∙ here)),
      rw v (band_of-active policy s _ back),
      inside,
    )

-- With a valid policy and safe counts: no votes give the placeholder, and any votes give a tier
-- whose displayed band contains the share of up votes.
pub derive_lem :
    (policy : LiangziThresholdPolicy) (up down : ℕ)
    → assert_valid_threshold_policy policy ≡ ok tt
    → up ≤ max_safe_integer
    → down ≤ max_safe_integer
    → (up + down ≡ 0 → derive_liangzi_state (nat up) (nat down) policy ≡ ok (some waiting))
      × (0 < up + down
          → (s : ActiveLiangziState) × (band : LiangziUpRatioBand) × (derive_liangzi_state
                (nat up)
                (nat down)
                policy
              ≡ ok (some (active s)))
            × (liangzi_up_ratio_band (active s) policy ≡ ok band)
            × InBand band (record { num = up; den = up + down }))
derive_lem policy up down v safe_up safe_down = (
  λ zero_total.
      unfold derive_liangzi_state in
      rw (
        assert_count-nat up invalid_vote_count safe_up,
        assert_count-nat down invalid_vote_count safe_down,
        eq_test (up + down) 0 zero_total,
      ),
  λ some_votes.
      let (s, band, here, shown, inside) =
        tier-InBand policy (record { num = up; den = up + down }) v (omega arith) in
      (
        s,
        band,
        unfold derive_liangzi_state in
            rw
              (
                assert_count-nat up invalid_vote_count safe_up,
                assert_count-nat down invalid_vote_count safe_down,
                ne_test (up + down) 0 (omega arith),
              )
              (rw here),
        shown,
        inside,
      ),
)
