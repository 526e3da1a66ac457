-- ===== src/Backend/IdentityRateLimit/Keys.antt =====
-- The keys of src/backend/identity-rate-limit.ts tell the kinds apart.
use Prim.Native.String.{◌++◌ as join, slice}
use text.Mathlib.Text.{starts_with}
use text.Mathlib.TextPositions.{starts_with-append, slice-append_left}
use text.Mathlib.TextLemmas.{append_assoc as join_assoc}
use dsh_liangxiang.Prelude.{String, ◌≡◌, refl, sym, ap, ◌∙◌, true, eq_iff}
use dsh_liangxiang.Backend.IdentityRateLimit.{IdentityRateKind, hit, miss, key_of}

pub key_of-miss-starts : (ip id : String) → starts_with (key_of miss ip id) "miss:" ≡ true
unfolding key_of
key_of-miss-starts ip id = starts_with-append "miss:" ip

start_of_hit : (ip id : String) → slice (key_of hit ip id) 0 4 ≡ "hit:"
unfolding key_of
start_of_hit ip id =
    ap (λ (s : String). slice s 0 4)
      (join_assoc (join "hit:" ip) ":" id ∙ join_assoc "hit:" ip (join ":" id))
    ∙ slice-append_left "hit:" (join ip (join ":" id))

start_of_miss : (ip id : String) → slice (key_of miss ip id) 0 4 ≡ "miss"
unfolding key_of
start_of_miss ip id =
    ap (λ (s : String). slice s 0 4) (join_assoc "miss" ":" ip)
    ∙ slice-append_left "miss" (join ":" ip)

differ : (a b c d : String) → key_of hit a b ≡ key_of miss c d → ⊥
differ a b c d same =
    absurd_text (sym (start_of_hit a b) ∙ ap (λ (s : String). slice s 0 4) same ∙ start_of_miss c d)
  where
    absurd_text : ◌≡◌ {A = String} "hit:" "miss" → ⊥
    absurd_text e = cc ((eq_iff "hit:" "miss").1 e)

-- Equal keys are of one kind.
pub key_of-kind : (k l : IdentityRateKind) (a b c d : String) → key_of k a b ≡ key_of l c d → k ≡ l
key_of-kind hit hit a b c d same = refl
key_of-kind miss miss a b c d same = refl
key_of-kind hit miss a b c d same = absurd (differ a b c d same)
key_of-kind miss hit a b c d same = absurd (differ c d a b (sym same))
