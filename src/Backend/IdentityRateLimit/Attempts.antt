-- ===== src/Backend/IdentityRateLimit/Attempts.antt =====
-- After an attempt that src/backend/identity-rate-limit.ts allows, its key is shut for the window of its kind.
use dsh_liangxiang.Prelude.{
  ℕ, ◌+◌, ◌≤◌, ◌<◌, String, ◌≡◌, refl, inl, inr, true, some, List, [], ◌∷◌, arith, str_eq, ltb, leb,
  if◌then◌else◌, lt→ltb, Bool-cases, Option-cases, length, find, Bool, false, ◌&&◌, ◌-◌, keep_where,
  some-eq, ap, sym, ◌∙◌, find-passes,
}
use text.Mathlib.TextEquality.{eq_iff as text_eq_iff}
use dsh_liangxiang.Backend.IdentityRateLimit.{
  IdentityRateKind, hit, miss, Attempt, window_of, key_of, is_at, set_attempt, evict, check,
  identity_rate_limit_max_keys, identity_hit_window_ms, identity_miss_window_ms,
}
use dsh_liangxiang.Backend.IdentityRateLimit.Keys.{key_of-miss-starts, key_of-kind}
use text.Mathlib.Text.{starts_with}

-- An attempt of a run, some time after the one before.
pub record Try : Type 0 where
  pub wait : ℕ
  pub ip : String
  pub installation_id : String
  pub kind : IdentityRateKind

abbrev pub waited : List Try → ℕ
waited [] = 0
waited (t ∷ tries) = t.wait + waited tries

abbrev pub has_key : String → Try → Bool
has_key key t = str_eq (key_of t.kind t.ip t.installation_id) key

-- How many attempts with the key are allowed in a run of attempts with any keys.
unfoldable pub allowed_in : String → List Attempt → ℕ → List Try → ℕ
unfolding check
allowed_in key last clock [] = 0
allowed_in key last clock (t ∷ tries) =
    let (decision, left) = check last (clock + t.wait) t.ip t.installation_id t.kind in
    let later = allowed_in key left (clock + t.wait) tries in
    if decision.allowed && has_key key t then later + 1 else later

find-set_attempt :
    (a : Attempt) (bs : List Attempt) → find (is_at a.key) (set_attempt a bs) ≡ some a
find-set_attempt a [] = rw ((text_eq_iff a.key a.key).1 refl) refl
find-set_attempt a (b ∷ bs) = elim (Bool-cases (str_eq b.key a.key)) [
  | inl same ↦ rw same (rw ((text_eq_iff a.key a.key).1 refl) refl)
  | inr other ↦ rw other (rw other (find-set_attempt a bs))
]

-- The entry of another key changes nothing for a key.
find-set_attempt_other :
    (key : String) (a : Attempt) (bs : List Attempt)
    → str_eq a.key key ≡ false
    → find (is_at key) (set_attempt a bs) ≡ find (is_at key) bs
find-set_attempt_other key a [] other = rw other refl
find-set_attempt_other key a (b ∷ bs) other = elim (Bool-cases (str_eq b.key a.key)) [
  | inr apart ↦ rw (apart, find-set_attempt_other key a bs other) refl
  | inl same ↦ rw (same, (text_eq_iff b.key a.key).0 same) (rw other refl)
]

-- The first entry that is looked for stays where it is kept.
find-keep_where {ℓ} :
    {A : Type ℓ} (p q : A → Bool) (xs : List A) (a : A)
    → find p xs ≡ some a
    → q a ≡ true
    → find p (keep_where q xs) ≡ some a
find-keep_where p q [] a e kept = cc
find-keep_where p q (x ∷ xs) a e kept = elim (Bool-cases (p x)) [
  | inl hits ↦
      let same = some-eq (rw hits at e) in
      let stays : q x ≡ true = ap q same ∙ kept in rw stays (rw hits (ap some same))
  | inr misses ↦
      let rest = find-keep_where p q xs a (rw misses at e) kept in
      elim (Bool-cases (q x)) [ inl stays ↦ rw stays (rw misses rest) | inr goes ↦ rw goes rest ]
]

-- Eviction keeps an entry within the window of its key.
find-evict :
    (kind : IdentityRateKind) (ip id : String) (last : List Attempt) (a : Attempt) (now : ℕ)
    → find (is_at (key_of kind ip id)) last ≡ some a
    → now < a.at + window_of kind
    → find (is_at (key_of kind ip id)) (evict now last) ≡ some a
unfolding evict
find-evict kind ip id last a now e h =
    find-keep_where (is_at (key_of kind ip id))
      (λ (x : Attempt).
        ltb (now - x.at)
          (if starts_with x.key "miss:" then identity_miss_window_ms else identity_hit_window_ms))
      last a e (lt→ltb _ _ (within kind h refl))
  where
    own : a.key ≡ key_of kind ip id
    own = (text_eq_iff a.key (key_of kind ip id)).0 (find-passes (is_at (key_of kind ip id)) last e)

    least :
        (test : Bool)
        → now < a.at + identity_hit_window_ms
        → now - a.at < (if test then identity_miss_window_ms else identity_hit_window_ms)
    least true h = omega (arith, h)
    least false h = omega (arith, h)

    within :
        (kind' : IdentityRateKind)
        → now < a.at + window_of kind'
        → kind' ≡ kind
        → now - a.at
          < (if starts_with a.key "miss:" then identity_miss_window_ms else identity_hit_window_ms)
    within hit h same = least (starts_with a.key "miss:") h
    within miss h same =
        let starts : starts_with a.key "miss:" ≡ true =
          ap (λ (s : String). starts_with s "miss:") (own ∙ ap (λ k. key_of k ip id) (sym same))
          ∙ key_of-miss-starts ip id in
        rw starts omega (arith, h)

-- An attempt with another key leaves the entry of the key.
check-other :
    (kind : IdentityRateKind) (ip id : String) (last : List Attempt) (a : Attempt) (now : ℕ)
    (ip' id' : String) (kind' : IdentityRateKind)
    → find (is_at (key_of kind ip id)) last ≡ some a
    → now < a.at + window_of kind
    → str_eq (key_of kind' ip' id') (key_of kind ip id) ≡ false
    → find (is_at (key_of kind ip id)) (check last now ip' id' kind').1 ≡ some a
unfolding check
check-other kind ip id last a now ip' id' kind' e h other =
    elim (Option-cases (find (is_at (key_of kind' ip' id')) last)) [
      | inl new ↦ elim (Bool-cases (leb identity_rate_limit_max_keys (length last))) [
        | inr room ↦ rw (new, room, check) (set last e)
        | inl full ↦
            elim (Bool-cases (leb identity_rate_limit_max_keys (length (evict now last)))) [
              | inr room ↦ rw (new, full, room, check) (set (evict now last) kept)
              | inl still ↦ rw (new, full, still, check) kept
            ]
      ]
      | inr (previous, held) ↦ elim (Bool-cases (ltb now (previous.at + window_of kind'))) [
        | inl early ↦ rw (held, early, check) (denied kind')
        | inr late ↦ rw (held, late, check) (set last e)
      ]
    ]
  where
    key' : String
    key' = key_of kind' ip' id'

    kept : find (is_at (key_of kind ip id)) (evict now last) ≡ some a
    kept = find-evict kind ip id last a now e h

    set :
        (xs : List Attempt)
        → find (is_at (key_of kind ip id)) xs ≡ some a
        → find (is_at (key_of kind ip id)) (set_attempt (record { key = key'; at = now }) xs)
          ≡ some a
    set xs found =
        find-set_attempt_other (key_of kind ip id) (record { key = key'; at = now }) xs other
        ∙ found

    denied :
        (k : IdentityRateKind)
        → find (is_at (key_of kind ip id)) (elim k as (λ _. List Attempt) [
          | hit ↦ last
          | miss ↦ set_attempt (record { key = key'; at = now }) last
        ])
          ≡ some a
    denied hit = e
    denied miss = set last e

-- What an attempt within the window leaves of its key: a `hit` its time, a `miss` the later one.
check-own :
    (last : List Attempt) (now : ℕ) (ip id : String) (kind : IdentityRateKind) (a : Attempt)
    → find (is_at (key_of kind ip id)) last ≡ some a
    → a.at ≤ now
    → now < a.at + window_of kind
    → ((check last now ip id kind).0.allowed ≡ false)
      × (b : Attempt) × (find (is_at (key_of kind ip id)) (check last now ip id kind).1 ≡ some b)
      × (a.at ≤ b.at)
      × (b.at ≤ now)
unfolding check
check-own last now ip id hit a e old h =
    rw (e, lt→ltb now (a.at + window_of hit) h, check) (refl, a, e, omega arith, old)
check-own last now ip id miss a e old h =
    let attempt : Attempt = record { key = key_of miss ip id; at = now } in
    rw (e, lt→ltb now (a.at + window_of miss) h, check)
      (refl, attempt, find-set_attempt attempt last, old, omega arith)

-- Within the window the key stays shut, whatever other keys are tried.
shut :
    (last : List Attempt) (clock : ℕ) (ip id : String) (kind : IdentityRateKind) (a : Attempt)
    (tries : List Try)
    → find (is_at (key_of kind ip id)) last ≡ some a
    → a.at ≤ clock
    → clock + waited tries < a.at + window_of kind
    → allowed_in (key_of kind ip id) last clock tries ≡ 0
unfolding allowed_in
shut last clock ip id kind a [] e old h = refl
shut last clock ip id kind a (t ∷ tries) e old h =
    elim (Bool-cases (has_key (key_of kind ip id) t)) [
      | inr other ↦
          let left = (check last (clock + t.wait) t.ip t.installation_id t.kind).1 in
          rw
            (
              other,
              shut left (clock + t.wait) ip id kind a tries
                  (check-other kind ip id last a (clock + t.wait) t.ip t.installation_id t.kind e
                    (omega (arith, h)) other)
                  (omega arith) (omega (arith, h)),
              allowed_in,
            )
            (uncounted (check last (clock + t.wait) t.ip t.installation_id t.kind).0.allowed)
      | inl own ↦
          let same = (text_eq_iff _ _).0 own in
          let kind_is = key_of-kind t.kind kind t.ip t.installation_id ip id same in
          let (denied, b, found, up, low) =
            check-own last (clock + t.wait) t.ip t.installation_id t.kind a (rw same e)
              (omega arith) (rw kind_is (omega (arith, h))) in
          rw (own, denied, allowed_in)
            (shut _ (clock + t.wait) ip id kind b tries (rw same at found) low
              (omega (arith, h, up)))
    ]
  where
    uncounted : (b : Bool) → (if b && false then 0 + 1 else 0) ≡ 0
    uncounted true = refl
    uncounted false = refl

check-stamped :
    (last : List Attempt) (now : ℕ) (ip id : String) (kind : IdentityRateKind)
    → (check last now ip id kind).0.allowed ≡ true
    → find (is_at (key_of kind ip id)) (check last now ip id kind).1
      ≡ some (record { key = key_of kind ip id; at = now })
unfolding check
check-stamped last now ip id kind h = elim (Option-cases (find (is_at (key_of kind ip id)) last)) [
  | inl new ↦ elim (Bool-cases (leb identity_rate_limit_max_keys (length last))) [
    | inr room ↦ rw (new, room, check) (find-set_attempt attempt last)
    | inl full ↦ elim (Bool-cases (leb identity_rate_limit_max_keys (length (evict now last)))) [
      | inr room ↦ rw (new, full, room, check) (find-set_attempt attempt (evict now last))
      | inl still ↦ cc (rw (new, full, still, check) at h)
    ]
  ]
  | inr (previous, e) ↦ elim (Bool-cases (ltb now (previous.at + window_of kind))) [
    | inl early ↦ cc (rw (e, early, check) at h)
    | inr late ↦ rw (e, late, check) (find-set_attempt attempt last)
  ]
]
  where
    attempt : Attempt
    attempt = record { key = key_of kind ip id; at = now }

-- After an attempt that is allowed, in any run of attempts with any addresses, installations and kinds that
-- lasts less than the window of its kind: none with the same key, which is the kind and the address, and
-- of a `hit` the installation too, is allowed.
pub check-shut :
    (last : List Attempt) (now : ℕ) (ip id : String) (kind : IdentityRateKind) (tries : List Try)
    → (check last now ip id kind).0.allowed ≡ true
    → waited tries < window_of kind
    → allowed_in (key_of kind ip id) (check last now ip id kind).1 now tries ≡ 0
check-shut last now ip id kind tries h within =
    shut (check last now ip id kind).1 now ip id kind (record { key = key_of kind ip id; at = now })
      tries (check-stamped last now ip id kind h) (omega arith) (omega (arith, within))
