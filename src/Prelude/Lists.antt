-- ===== src/Prelude/Lists.antt =====
-- Lists measured by native numbers, searched and updated by a Boolean test: the tables and the
-- maps of the program are such lists.
use Prim.Native.Nat.{ℕ, zero, suc, ◌+◌, ◌≤◌}
use mathlib.Core.Path.{◌≡◌, refl, subst}
use mathlib.Core.Logic.{inl, inr}
use mathlib.Core.Bool.{Bool, true, false}
use mathlib.Core.List.{List, [], ◌∷◌, ◌++◌}
use mathlib.Core.Option.{Option, none, some}
use native.Mathlib.Omega.{arith}
use dsh_liangxiang.Prelude.Tests.{if◌then◌else◌, Bool-cases}

module _ {ℓ} {A : Type ℓ} where
  abbrev pub length : List A → ℕ
  length [] = 0
  length (x ∷ xs) = suc (length xs)

  pub length-append : (xs ys : List A) → length (xs ++ ys) ≡ length xs + length ys
  length-append [] ys = omega arith
  length-append (x ∷ xs) ys = omega (arith, length-append xs ys)

  abbrev pub get_elem? : List A → ℕ → Option A
  get_elem? [] i = none
  get_elem? (x ∷ xs) zero = some x
  get_elem? (x ∷ xs) (suc i) = get_elem? xs i

  -- The first entry that passes.
  abbrev pub find : (A → Bool) → List A → Option A
  find p [] = none
  find p (x ∷ xs) = if p x then some x else find p xs

  -- Every entry that passes is changed.
  abbrev pub update_where : (A → Bool) → (A → A) → List A → List A
  update_where p f [] = []
  update_where p f (x ∷ xs) = (if p x then f x else x) ∷ update_where p f xs

  -- The entries that pass.
  abbrev pub keep_where : (A → Bool) → List A → List A
  keep_where p [] = []
  keep_where p (x ∷ xs) = let rest = keep_where p xs in if p x then x ∷ rest else rest

  pub length-keep_where-le : (p : A → Bool) (xs : List A) → length (keep_where p xs) ≤ length xs
  length-keep_where-le p [] = omega arith
  length-keep_where-le p (x ∷ xs) = ground (arith, length-keep_where-le p xs)

abbrev pub All {ℓ κ} : {A : Type ℓ} → (A → Type κ) → List A → Type κ
All P [] = Unit
All P (x ∷ xs) = P x × All P xs

pub All-append {ℓ κ} :
    {A : Type ℓ} (P : A → Type κ) (front back : List A)
    → All P front
    → All P back
    → All P (front ++ back)
All-append P [] back _ later = later
All-append P (x ∷ front) back (here, rest) later = (here, All-append P front back rest later)

pub some-eq {ℓ} : {A : Type ℓ} {a b : A} → some a ≡ some b → a ≡ b
some-eq h = cc

abbrev pub or_else {ℓ} : {A : Type ℓ} → Option A → Option A → Option A
or_else none b = b
or_else (some a) b = some a

abbrev pub is_some {ℓ} : {A : Type ℓ} → Option A → Bool
is_some none = false
is_some (some a) = true

abbrev pub map_option {ℓ κ} : {A : Type ℓ} {B : Type κ} → (A → B) → Option A → Option B
map_option f none = none
map_option f (some a) = some (f a)

module _ {ℓ} {A : Type ℓ} where
  pub find-append :
      (p : A → Bool) (xs ys : List A) → find p (xs ++ ys) ≡ or_else (find p xs) (find p ys)
  find-append p [] ys = refl
  find-append p (x ∷ xs) ys = ground (arith, find-append p xs ys)

  -- A change that no test of `q` sees.
  pub find-update_where :
      (p q : A → Bool) (f : A → A) (xs : List A)
      → ((x : A) → q (f x) ≡ q x)
      → find q (update_where p f xs) ≡ map_option (λ x. if p x then f x else x) (find q xs)
  find-update_where p q f [] h = refl
  find-update_where p q f (x ∷ xs) h = ground (arith, h x, find-update_where p q f xs h)

  pub find-passes : (p : A → Bool) (xs : List A) {a : A} → find p xs ≡ some a → p a ≡ true
  find-passes p [] h = cc
  find-passes p (x ∷ xs) h = elim (Bool-cases (p x)) [
    | inl hit ↦ subst (λ y. p y ≡ true) (some-eq (rw hit at h)) hit
    | inr miss ↦ find-passes p xs (rw miss at h)
  ]

  -- The sum of a measure.
  abbrev pub sum_by : (A → ℕ) → List A → ℕ
  sum_by f [] = 0
  sum_by f (x ∷ xs) = f x + sum_by f xs

  pub sum_by-append : (f : A → ℕ) (xs ys : List A) → sum_by f (xs ++ ys) ≡ sum_by f xs + sum_by f ys
  sum_by-append f [] ys = omega arith
  sum_by-append f (x ∷ xs) ys = omega (arith, sum_by-append f xs ys)

pub All-update_where {ℓ κ} :
    {A : Type ℓ} (P : A → Type κ) (p : A → Bool) (f : A → A) (xs : List A)
    → ((x : A) → P x → p x ≡ true → P (f x))
    → All P xs
    → All P (update_where p f xs)
All-update_where P p f [] h all = tt
All-update_where P p f (x ∷ xs) h all = (
  elim (Bool-cases (p x)) [ inl hit ↦ rw hit (h x all.0 hit) | inr miss ↦ rw miss all.0 ],
  All-update_where P p f xs h all.1,
)

pub All-find {ℓ κ} :
    {A : Type ℓ} (P : A → Type κ) (p : A → Bool) (xs : List A) {a : A}
    → All P xs
    → find p xs ≡ some a
    → P a
All-find P p [] all h = cc
All-find P p (x ∷ xs) all h = elim (Bool-cases (p x)) [
  | inl hit ↦ subst P (some-eq (rw hit at h)) all.0
  | inr miss ↦ All-find P p xs all.1 (rw miss at h)
]

pub All-keep_where {ℓ κ} :
    {A : Type ℓ} (P : A → Type κ) (p : A → Bool) (xs : List A) → All P xs → All P (keep_where p xs)
All-keep_where P p [] all = tt
All-keep_where P p (x ∷ xs) all = elim (Bool-cases (p x)) [
  | inl hit ↦ rw hit (all.0, All-keep_where P p xs all.1)
  | inr miss ↦ rw miss (All-keep_where P p xs all.1)
]

pub find-keep_where-none {ℓ} :
    {A : Type ℓ} (p q : A → Bool) (xs : List A) → find p xs ≡ none → find p (keep_where q xs) ≡ none
find-keep_where-none p q [] h = refl
find-keep_where-none p q (x ∷ xs) h = elim (Bool-cases (p x)) [
  | inl hit ↦ cc (rw hit at h)
  | inr miss ↦ elim (Bool-cases (q x)) [
    | inl kept ↦ rw kept (rw miss (find-keep_where-none p q xs (rw miss at h)))
    | inr gone ↦ rw gone (find-keep_where-none p q xs (rw miss at h))
  ]
]

-- Tests that agree on the entries keep the same ones.
pub keep_where-eq {ℓ} :
    {A : Type ℓ} (p q : A → Bool) (xs : List A)
    → All (λ x. p x ≡ q x) xs
    → keep_where p xs ≡ keep_where q xs
keep_where-eq p q [] same = refl
keep_where-eq p q (x ∷ xs) same = elim (Bool-cases (q x)) [
  | inl kept ↦ rw (same.0, kept, keep_where-eq p q xs same.1) refl
  | inr gone ↦ rw (same.0, gone, keep_where-eq p q xs same.1) refl
]

-- No entry passes: nothing is changed.
pub update_where-none {ℓ} :
    {A : Type ℓ} (p : A → Bool) (f : A → A) (xs : List A)
    → All (λ x. p x ≡ false) xs
    → update_where p f xs ≡ xs
update_where-none p f [] missed = refl
update_where-none p f (x ∷ xs) missed = rw (missed.0, update_where-none p f xs missed.1) refl

-- A change that keeps a measure keeps its sum.
pub sum_by-update_where {ℓ} :
    {A : Type ℓ} (measure : A → ℕ) (p : A → Bool) (f : A → A) (xs : List A)
    → ((x : A) → measure (f x) ≡ measure x)
    → sum_by measure (update_where p f xs) ≡ sum_by measure xs
sum_by-update_where measure p f [] keeps = refl
sum_by-update_where measure p f (x ∷ xs) keeps =
    ground (arith, keeps x, sum_by-update_where measure p f xs keeps)
