-- ===== src/Domain/Vote.antt =====
-- src/domain/vote.ts: the vote vocabulary and the shape of a request id.
use dsh_liangxiang.Prelude.{
  ℕ, String, ◌≡◌, refl, ◌↔◌, Bool, true, false, not, ◌&&◌, ◌||◌, List, [], ◌∷◌, str_eq, Result, ok,
  err, leb, ◌==◌, if◌then◌else◌, length,
}
use Prim.Native.Char.{code}
use dsh_liangxiang.Domain.Errors.{DomainErrorCode, invalid_vote_type, invalid_request_id}

pub data VoteType : Type 0 where
  up down : VoteType

abbrev pub is_up : VoteType → Bool
is_up up = true
is_up down = false

abbrev pub vote_type_eq : VoteType → VoteType → Bool
vote_type_eq up v = is_up v
vote_type_eq down v = not (is_up v)

pub vote_type_eq_iff : (a b : VoteType) → (vote_type_eq a b ≡ true) ↔ (a ≡ b)
vote_type_eq_iff up up = (λ _. refl, λ _. refl)
vote_type_eq_iff up down = (λ h. cc, λ h. cc)
vote_type_eq_iff down up = (λ h. cc, λ h. cc)
vote_type_eq_iff down down = (λ _. refl, λ _. refl)

-- The value is a text; any other value is refused too.
unfoldable pub assert_vote_type : String → Result DomainErrorCode VoteType
assert_vote_type value =
    if str_eq value "up"
    then ok up
    else if str_eq value "down"
    then ok down
    else err invalid_vote_type

-- The code units of a text, as the source's patterns read it.
abbrev pub codes : String → List ℕ
codes String.[] = []
codes (String.◌∷◌ c s) = code c ∷ codes s

-- [A-Za-z0-9._-]
pub is_id_char : ℕ → Bool
is_id_char c =
    (leb b'A' c && leb c b'Z')
    || (leb b'a' c && leb c b'z')
    || (leb b'0' c && leb c b'9')
    || c == b'.'
    || c == b'_'
    || c == b'-'

unfoldable pub all_chars : (ℕ → Bool) → List ℕ → Bool
all_chars p [] = true
all_chars p (c ∷ cs) = p c && all_chars p cs

-- REQUEST_ID_PATTERN
pub is_request_id : String → Bool
unfolding is_id_char all_chars
is_request_id value =
    let cs = codes value in leb 8 (length cs) && leb (length cs) 128 && all_chars is_id_char cs

unfoldable pub assert_request_id : String → Result DomainErrorCode String
unfolding is_request_id
assert_request_id value = if is_request_id value then ok value else err invalid_request_id

abbrev pub vote_count_min : ℕ
vote_count_min = 1

abbrev pub vote_count_max : ℕ
vote_count_max = 500
