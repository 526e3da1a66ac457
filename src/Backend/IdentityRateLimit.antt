-- ===== src/Backend/IdentityRateLimit.antt =====
-- src/backend/identity-rate-limit.ts: the last attempt of each key, by kind of the attempt.
pub mod Keys
pub mod Attempts
mod Examples
use dsh_liangxiang.Prelude.{
  ℕ, ◌+◌, ◌-◌, ◌/◌, String, Bool, true, false, not, none, some, List, [], ◌∷◌, str_eq, ltb, leb,
  if◌then◌else◌, length, find, keep_where,
}
use Prim.Native.String.{◌++◌ as join}
use text.Mathlib.Text.{starts_with}

abbrev pub identity_hit_window_ms : ℕ
identity_hit_window_ms = 600000

abbrev pub identity_miss_window_ms : ℕ
identity_miss_window_ms = 1800000

abbrev pub identity_rate_limit_max_keys : ℕ
identity_rate_limit_max_keys = 4096

pub data IdentityRateKind : Type 0 where
  hit miss : IdentityRateKind

pub record IdentityRateDecision : Type 0 where
  pub allowed : Bool
  pub kind : IdentityRateKind
  pub retry_after_ms : ℕ

pub record Attempt : Type 0 where
  pub key : String
  pub at : ℕ

abbrev pub window_of : IdentityRateKind → ℕ
window_of hit = identity_hit_window_ms
window_of miss = identity_miss_window_ms

unfoldable pub key_of : IdentityRateKind → String → String → String
key_of hit ip installation_id = join (join (join "hit:" ip) ":") installation_id
key_of miss ip installation_id = join "miss:" ip

abbrev pub is_at : String → Attempt → Bool
is_at key a = str_eq a.key key

-- Map.set
abbrev pub set_attempt : Attempt → List Attempt → List Attempt
set_attempt a [] = a ∷ []
set_attempt a (b ∷ bs) =
    let rest = set_attempt a bs in if str_eq b.key a.key then a ∷ bs else b ∷ rest

unfoldable pub evict : ℕ → List Attempt → List Attempt
evict now last =
    keep_where
      (λ a.
        ltb (now - a.at)
          (if starts_with a.key "miss:" then identity_miss_window_ms else identity_hit_window_ms))
      last

-- A denied attempt of kind `miss` is recorded, one of kind `hit` is not.
unfoldable pub check :
    List Attempt → ℕ → String → String → IdentityRateKind → IdentityRateDecision × List Attempt
unfolding evict key_of
check last now ip installation_id kind =
    let window_ms = window_of kind in
    let key = key_of kind ip installation_id in
    let attempt : Attempt = record { key = key; at = now } in
    let allow : List Attempt → IdentityRateDecision × List Attempt = λ attempts.
      (record { allowed = true; kind = kind; retry_after_ms = 0 }, set_attempt attempt attempts) in
    elim (find (is_at key) last) [
      | none ↦
          if leb identity_rate_limit_max_keys (length last)
          then (let kept = evict now last in
              if leb identity_rate_limit_max_keys (length kept)
              then (record { allowed = false; kind = kind; retry_after_ms = window_ms }, kept)
              else allow kept)
          else allow last
      | some previous ↦
          -- `now - previous`, which is below the window where the clock went back
          if ltb now (previous.at + window_ms)
          then (
            record { allowed = false; kind = kind; retry_after_ms = previous.at + window_ms - now },
            elim kind [ hit ↦ last | miss ↦ set_attempt attempt last ],
          )
          else allow last
    ]

abbrev pub reset : List Attempt → List Attempt
reset last = []

abbrev pub active_keys : List Attempt → ℕ
active_keys last = length last
