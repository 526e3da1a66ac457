-- ===== src/Domain/Calendar/Text.antt =====
-- Texts of digits: the parts of a date's text read, and written. A text is the list of its characters' codes.
use dsh_liangxiang.Prelude.{
  ℕ, zero, suc, ◌+◌, ◌-◌, ◌*◌, ◌/◌, ◌%◌, ◌≤◌, ◌<◌, ◌≡◌, refl, ◌∙◌, Bool, true, false, ◌&&◌, Option,
  none, some, List, [], ◌∷◌, ◌++◌, append-nil, append_assoc, not, arith, ltb, leb, ◌==◌,
  if◌then◌else◌, Bool-cases, inl, inr, ap, both, leb→le, length, length-append,
}

abbrev pub Text : Type 0
Text = List ℕ

abbrev pub is_digit : ℕ → Bool
is_digit c = leb b'0' c && leb c b'9'

-- `k` digits, and what follows them.
unfoldable pub read_digits : ℕ → ℕ → Text → Option (ℕ × Text)
read_digits zero value cs = some (value, cs)
read_digits (suc k) value [] = none
read_digits (suc k) value (c ∷ cs) =
    if is_digit c then read_digits k (value * 10 + (c - b'0')) cs else none

abbrev pub read_dash : Text → Option Text
read_dash [] = none
read_dash (c ∷ cs) = if c == b'-' then some cs else none

abbrev pub read_end : Text → Option (Unit {0})
read_end [] = some tt
read_end (c ∷ cs) = none

-- String(n).padStart(k, '0'), for n below 10^k.
unfoldable pub pad : ℕ → ℕ → Text
pad zero n = []
pad (suc k) n = pad k (n / 10) ++ (b'0' + n % 10) ∷ []

pub length-pad : (k n : ℕ) → length (pad k n) ≡ k
unfolding pad
length-pad zero n = refl
length-pad (suc k) n =
    omega (arith, length-append (pad k (n / 10)) ((b'0' + n % 10) ∷ []), length-pad k (n / 10))

module _ where
  pub read_two :
      (n value : ℕ) (rest : Text)
      → n < 100
      → read_digits 2 value (pad 2 n ++ rest) ≡ some (value * 100 + n, rest)
  unfolding read_digits pad
  read_two n value rest h = ground arith

  pub read_four :
      (n : ℕ) (rest : Text) → n < 10000 → read_digits 4 0 (pad 4 n ++ rest) ≡ some (n, rest)
  unfolding read_digits pad
  read_four n rest h = ground arith

record NextDigit (k value : ℕ) (cs : Text) (out : ℕ × Text) : Type 0 where
  digit : ℕ
  after : Text
  small : digit < 10
  splits : cs ≡ (b'0' + digit) ∷ after
  reads : read_digits k (value * 10 + digit) after ≡ some out

next_digit :
    (k value : ℕ) (cs : Text) (out : ℕ × Text)
    → read_digits (suc k) value cs ≡ some out
    → NextDigit k value cs out
unfolding read_digits
next_digit k value [] out h = cc
next_digit k value (c ∷ cs) out h = elim (Bool-cases (is_digit c)) [
  | inl fine ↦
      let (lo, hi) = both (leb b'0' c) (leb c b'9') fine in
      let low : b'0' ≤ c = leb→le _ _ lo in
      let high : c ≤ b'9' = leb→le _ _ hi in
      record {
        digit = c - b'0';
        after = cs;
        small = omega arith;
        splits = ap (λ d. d ∷ cs) (omega arith);
        reads = rw fine at h;
      }
  | inr wrong ↦ cc (rw wrong at h)
]

pub two_read :
    (cs rest : Text) (n : ℕ)
    → read_digits 2 0 cs ≡ some (n, rest)
    → (n < 100) × (cs ≡ pad 2 n ++ rest)
unfolding read_digits pad
two_read cs rest n h =
    let a = next_digit 1 0 cs (n, rest) h in
    let b = next_digit 0 (0 * 10 + a.digit) a.after (n, rest) a.reads in
    ground (arith, a.small, b.small, a.splits, b.splits, b.reads)

pub four_read :
    (cs rest : Text) (n : ℕ)
    → read_digits 4 0 cs ≡ some (n, rest)
    → (n < 10000) × (cs ≡ pad 4 n ++ rest)
unfolding read_digits pad
four_read cs rest n h =
    let a = next_digit 3 0 cs (n, rest) h in
    let b = next_digit 2 (0 * 10 + a.digit) a.after (n, rest) a.reads in
    let c = next_digit 1 ((0 * 10 + a.digit) * 10 + b.digit) b.after (n, rest) b.reads in
    let d =
      next_digit 0 (((0 * 10 + a.digit) * 10 + b.digit) * 10 + c.digit) c.after (n, rest) c.reads in
    ground
      (arith, a.small, b.small, c.small, d.small, a.splits, b.splits, c.splits, d.splits, d.reads)

pub read_dash-eq : (cs rest : Text) → read_dash cs ≡ some rest → cs ≡ b'-' ∷ rest
read_dash-eq [] rest h = cc
read_dash-eq (c ∷ cs) rest h = ground arith

pub read_end-eq : (cs : Text) → read_end cs ≡ some tt → cs ≡ []
read_end-eq [] h = refl
read_end-eq (c ∷ cs) h = cc

infixl 5 ◌>>=◌
abbrev ◌>>=◌ {ℓ κ} : {A : Type ℓ} {B : Type κ} → Option A → (A → Option B) → Option B
none >>= next = none
some value >>= next = next value

-- /^\d{4}-\d{2}-\d{2}$/, and the numbers of the three parts.
unfoldable pub read_date : Text → Option (ℕ × ℕ × ℕ)
unfolding read_digits
read_date text = do
  (year, after_year) ← read_digits 4 0 text
  month_text ← read_dash after_year
  (month, after_month) ← read_digits 2 0 month_text
  day_text ← read_dash after_month
  (day, after_day) ← read_digits 2 0 day_text
  _ ← read_end after_day
  some (year, month, day)

-- `${year}-${month}-${day}`, padded.
unfoldable pub write_date : ℕ → ℕ → ℕ → Text
unfolding pad
write_date year month day = pad 4 year ++ (b'-' ∷ (pad 2 month ++ (b'-' ∷ pad 2 day)))

pub read_date-write_date :
    (year month day : ℕ)
    → year < 10000
    → month < 100
    → day < 100
    → read_date (write_date year month day) ≡ some (year, month, day)
unfolding read_date write_date
read_date-write_date year month day hy hm hd = ground arith

some_of_bind {ℓ κ} :
    {A : Type ℓ} {B : Type κ} (first : Option A) (next : A → Option B) {out : B}
    → (first >>= next) ≡ some out
    → (value : A) × (first ≡ some value) × (next value ≡ some out)
some_of_bind none next h = cc
some_of_bind (some value) next h = (value, refl, h)

abbrev IsWritten : Text → ℕ → ℕ → ℕ → Type 0
IsWritten text year month day =
    (year < 10000) × (month < 100) × (day < 100) × (text ≡ write_date year month day)

IsWritten-eq :
    (text : Text) (y m d year month day : ℕ)
    → (y ≡ year) × (m ≡ month) × (d ≡ day)
    → IsWritten text y m d
    → IsWritten text year month day
IsWritten-eq text y m d year month day same w = rw (← same.0, ← same.1, ← same.2) w

pub read_date-eq :
    (text : Text) (year month day : ℕ)
    → read_date text ≡ some (year, month, day)
    → IsWritten text year month day
unfolding read_date write_date
read_date-eq text year month day h =
    let ((y, t1), four, h1) = some_of_bind (read_digits 4 0 text) _ h in
    let (t2, dash1, h2) = some_of_bind (read_dash t1) _ h1 in
    let ((m, t3), two1, h3) = some_of_bind (read_digits 2 0 t2) _ h2 in
    let (t4, dash2, h4) = some_of_bind (read_dash t3) _ h3 in
    let ((d, t5), two2, h5) = some_of_bind (read_digits 2 0 t4) _ h4 in
    let (u, ends, h6) = some_of_bind (read_end t5) _ h5 in
    let all : (y ≡ year) × (m ≡ month) × (d ≡ day) = ground arith in
    let (hy, e1) = four_read text t1 y four in
    let (hm, e3) = two_read t2 t3 m two1 in
    let (hd, e5) = two_read t4 t5 d two2 in
    let e6 = read_end-eq t5 ends in
    let last : t4 ≡ pad 2 d = e5 ∙ ap (λ (t : Text). pad 2 d ++ t) e6 ∙ append-nil (pad 2 d) in
    let middle : t2 ≡ pad 2 m ++ (b'-' ∷ pad 2 d) =
      e3
      ∙ ap (λ (t : Text). pad 2 m ++ t) (read_dash-eq t3 t4 dash2)
      ∙ ap (λ (t : Text). pad 2 m ++ (b'-' ∷ t)) last in
    let whole : text ≡ pad 4 y ++ (b'-' ∷ (pad 2 m ++ (b'-' ∷ pad 2 d))) =
      e1
      ∙ ap (λ (t : Text). pad 4 y ++ t) (read_dash-eq t1 t2 dash1)
      ∙ ap (λ (t : Text). pad 4 y ++ (b'-' ∷ t)) middle in
    IsWritten-eq text y m d year month day all (hy, hm, hd, whole)

-- `a < b` of two strings
unfoldable pub text_ltb : Text → Text → Bool
text_ltb [] [] = false
text_ltb [] (d ∷ ds) = true
text_ltb (c ∷ cs) [] = false
text_ltb (c ∷ cs) (d ∷ ds) =
    let rest = text_ltb cs ds in if ltb c d then true else if c == d then rest else false

-- `a <= b`
abbrev pub text_leb : Text → Text → Bool
text_leb a b = not (text_ltb b a)

-- `n` is written with `k` digits.
abbrev pub Fits : ℕ → ℕ → Type 0
Fits zero n = n ≡ 0
Fits (suc k) n = Fits k (n / 10)

-- Padded numbers are ordered as numbers, and then by what follows them.
pub text_ltb-pad :
    (k n m : ℕ) (r s : Text)
    → Fits k n
    → Fits k m
    → text_ltb (pad k n ++ r) (pad k m ++ s)
      ≡ (if ltb n m then true else if n == m then text_ltb r s else false)
unfolding text_ltb pad
text_ltb-pad zero n m r s hn hm = rw (hn, hm) refl
text_ltb-pad (suc k) n m r s hn hm =
    rw (append_assoc (pad k (n / 10)) _ r, append_assoc (pad k (m / 10)) _ s)
      (text_ltb-pad k (n / 10) (m / 10) ((b'0' + n % 10) ∷ r) ((b'0' + m % 10) ∷ s) hn hm
        ∙ digits n m (text_ltb r s))
  where
    digits :
        (n m : ℕ) (later : Bool)
        → (if ltb (n / 10) (m / 10)
            then true
            else if (n / 10) == (m / 10)
            then (if ltb (b'0' + n % 10) (b'0' + m % 10)
                then true
                else if (b'0' + n % 10) == (b'0' + m % 10)
                then later
                else false)
            else false)
          ≡ (if ltb n m then true else if n == m then later else false)
    digits n m later = ground arith

-- `a === b`
unfoldable pub text_eq : Text → Text → Bool
text_eq [] [] = true
text_eq [] (d ∷ ds) = false
text_eq (c ∷ cs) [] = false
text_eq (c ∷ cs) (d ∷ ds) = let rest = text_eq cs ds in if c == d then rest else false

pub text_eq-eq : (a b : Text) → text_eq a b ≡ true → a ≡ b
unfolding text_eq
text_eq-eq [] [] h = refl
text_eq-eq [] (d ∷ ds) h = cc
text_eq-eq (c ∷ cs) [] h = cc
text_eq-eq (c ∷ cs) (d ∷ ds) h = ground (arith, text_eq-eq cs ds)

pub text_eq_self : (a : Text) → text_eq a a ≡ true
unfolding text_eq
text_eq_self [] = refl
text_eq_self (c ∷ cs) = ground (arith, text_eq_self cs)
