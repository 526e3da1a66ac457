-- ===== src/Domain/IncenseWeight.antt =====
-- src/domain/incense-weight.ts: the earning rates. Model ids are lists of character codes; trimming and
-- lower-casing are the language's, and `canonical_model_id` starts behind them.
pub mod Scaling
mod Examples
use dsh_liangxiang.Prelude.{
  ℕ, ◌+◌, ◌-◌, ◌*◌, ◌/◌, ◌%◌, ◌^◌, ◌<◌, String, Bool, true, false, ◌&&◌, ◌||◌, Option, none, some,
  List, [], ◌∷◌, leb, ◌==◌, if◌then◌else◌, length, find,
}
use dsh_liangxiang.Domain.Vote.{codes, all_chars}

abbrev pub incense_weight_scale : ℕ
incense_weight_scale = 10000

pub record IncenseWeightRule : Type 0 where
  pub label : String
  pub model : List ℕ
  pub weight_bps : ℕ

pub record IncenseWeightPolicy : Type 0 where
  pub version : String
  pub revision : ℕ
  pub effective_from : String
  pub fallback_weight_bps : ℕ
  pub rules : List IncenseWeightRule

abbrev rule : String → String → ℕ → IncenseWeightRule
rule label model bps = record { label = label; model = codes model; weight_bps = bps }

abbrev pub default_incense_weight_policy : IncenseWeightPolicy
default_incense_weight_policy = record {
  version = "incense-weight-v4-static-pro1-others0.5";
  revision = 4;
  effective_from = "1970-01-01";
  fallback_weight_bps = 5000;
  rules =
      rule "Flash" "deepseek-flash" 5000
      ∷ rule "Flash" "deepseek-*-flash" 5000
      ∷ rule "Flash" "deepseek-*-flash-*" 5000
      ∷ rule "Pro" "deepseek-pro" 10000
      ∷ rule "Pro" "deepseek-*-pro" 10000
      ∷ rule "Pro" "deepseek-*-pro-*" 10000
      ∷ [];
}

-- value === pattern
pub codes_eq : List ℕ → List ℕ → Bool
codes_eq [] [] = true
codes_eq [] (d ∷ ds) = false
codes_eq (c ∷ cs) [] = false
codes_eq (c ∷ cs) (d ∷ ds) = c == d && codes_eq cs ds

-- value.startsWith(prefix), and what follows it
pub after_prefix : List ℕ → List ℕ → Option (List ℕ)
after_prefix [] value = some value
after_prefix (c ∷ cs) [] = none
after_prefix (c ∷ cs) (d ∷ ds) = let rest = after_prefix cs ds in if c == d then rest else none

-- value.indexOf(part, offset), as the text behind the first occurrence
pub after_first : List ℕ → List ℕ → Option (List ℕ)
unfolding after_prefix
after_first part [] = after_prefix part []
after_first part (d ∷ ds) =
    let later = after_first part ds in
    elim (after_prefix part (d ∷ ds)) [ some rest ↦ some rest | none ↦ later ]

-- value.endsWith(suffix)
pub ends_with : List ℕ → List ℕ → Bool
unfolding codes_eq
ends_with suffix [] = codes_eq suffix []
ends_with suffix (d ∷ ds) = codes_eq suffix (d ∷ ds) || ends_with suffix ds

-- pattern.split('*'): the part up to the first star, and the parts behind it
pub split_stars : List ℕ → List ℕ × List (List ℕ)
split_stars [] = ([], [])
split_stars (c ∷ cs) =
    let (part, parts) = split_stars cs in
    if c == b'*' then ([], part ∷ parts) else (c ∷ part, parts)

-- parts.at(-1), of the parts behind the first star
pub last_part : List ℕ → List (List ℕ) → List ℕ
last_part part [] = part
last_part part (next ∷ parts) = last_part next parts

-- The loop over the inner parts. `offset` is kept as the text that stands behind it.
pub skip_inner : List ℕ → List (List ℕ) → List ℕ → Option (List ℕ)
unfolding after_first
skip_inner part [] rest = some rest
skip_inner part (next ∷ parts) rest = elim (after_first part rest) [
  | none ↦ none
  | some later ↦ skip_inner next parts later
]

-- `offset <= value.length - last.length`, by what stands behind the offset
pub room_for : List ℕ → Option (List ℕ) → Bool
room_for last none = false
room_for last (some rest) = leb (length last) (length rest)

match_stars : List ℕ → List ℕ → List (List ℕ) → List ℕ → Bool
unfolding after_prefix ends_with last_part skip_inner room_for
match_stars first part parts value = elim (after_prefix first value) [
  | none ↦ false
  | some rest ↦
      if ends_with (last_part part parts) value
      then room_for (last_part part parts) (skip_inner part parts rest)
      else false
]

pub matches : List ℕ → List ℕ → Bool
unfolding codes_eq split_stars match_stars
matches pattern value = elim (split_stars pattern).1 [
  | [] ↦ codes_eq value pattern
  | part ∷ parts ↦ match_stars (split_stars pattern).0 part parts value
]

-- ^[a-z0-9][a-z0-9._-]{0,159}$
is_model_char : ℕ → Bool
is_model_char c = (leb b'a' c && leb c b'z') || (leb b'0' c && leb c b'9')

is_route_char : ℕ → Bool
unfolding is_model_char
is_route_char c = is_model_char c || c == b'.' || c == b'_' || c == b'-'

pub is_route_id : List ℕ → Bool
unfolding is_route_char all_chars
is_route_id [] = false
is_route_id (c ∷ cs) = is_model_char c && leb (length cs) 159 && all_chars is_route_char cs

-- The first rule that matches, or the fallback. The id is trimmed, in lower case and without its
-- context suffix; null, undefined and the blank id are the empty list.
pub incense_weight_bps_for_model : List ℕ → ℕ
unfolding is_route_id matches
incense_weight_bps_for_model canonical =
    if is_route_id canonical
    then elim (find (λ r. matches r.model canonical) default_incense_weight_policy.rules) [
      | none ↦ default_incense_weight_policy.fallback_weight_bps
      | some r ↦ r.weight_bps
    ]
    else default_incense_weight_policy.fallback_weight_bps

-- Split first, so that a product stays below the safe integers.
pub scale_tokens_by_weight_bps : ℕ → ℕ → ℕ → ℕ × ℕ
scale_tokens_by_weight_bps raw_count weight_bps carry =
    let total = raw_count % incense_weight_scale * weight_bps + carry in
    (
      raw_count / incense_weight_scale * weight_bps + total / incense_weight_scale,
      total % incense_weight_scale,
    )

pub split_scaled_tokens : ℕ → ℕ → ℕ → ℕ × ℕ
split_scaled_tokens scaled delta_input delta_output =
    let raw = delta_input + delta_output in
    let input = scaled * delta_input / raw in
    if scaled == 0 || raw == 0 then (0, 0) else (input, scaled - input)
