-- ===== src/Backend/IdentityRateLimit/Examples.antt =====
-- The identity limiter at concrete inputs.
use dsh_liangxiang.Prelude.{ℕ, ◌≡◌, refl, [], ◌∷◌, arith, String}
use dsh_liangxiang.Backend.IdentityRateLimit.{IdentityRateKind, hit, miss, key_of, check}
use dsh_liangxiang.Backend.IdentityRateLimit.Attempts.{Try, allowed_in, check-shut}

abbrev try_at : ℕ → String → IdentityRateKind → Try
try_at wait installation_id kind = record {
  wait = wait;
  ip = "ip";
  installation_id = installation_id;
  kind = kind;
}

after_the_window :
    allowed_in
      (key_of hit "ip" "lx-1")
      (check [] 1000 "ip" "lx-1" hit).1
      1000
      (try_at 300000 "lx-1" hit ∷ (try_at 300000 "lx-1" hit ∷ []))
    ≡ 1
unfolding allowed_in check key_of
after_the_window = refl

check-shut_example :
    allowed_in
      (key_of miss "ip" "lx-1")
      (check [] 1000 "ip" "lx-1" miss).1
      1000
      (try_at 900000 "lx-1" miss ∷ (try_at 1000 "lx-2" hit ∷ (try_at 800000 "lx-3" miss ∷ [])))
    ≡ 0
unfolding check
check-shut_example =
    check-shut [] 1000 "ip" "lx-1" miss
      (try_at 900000 "lx-1" miss ∷ (try_at 1000 "lx-2" hit ∷ (try_at 800000 "lx-3" miss ∷ []))) refl
      (omega arith)
