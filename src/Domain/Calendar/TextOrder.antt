-- ===== src/Domain/Calendar/TextOrder.antt =====
-- The order of texts is a strict total order.
use dsh_liangxiang.Prelude.{◌≡◌, refl, true, false, [], ◌∷◌, arith}
use dsh_liangxiang.Domain.Calendar.Text.{Text, text_ltb, text_eq}

pub text_ltb_self : (a : Text) → text_ltb a a ≡ false
unfolding text_ltb
text_ltb_self [] = refl
text_ltb_self (c ∷ cs) = ground (arith, text_ltb_self cs)

pub text_ltb_total : (a b : Text) → text_ltb a b ≡ false → text_ltb b a ≡ false → text_eq a b ≡ true
unfolding text_ltb text_eq
text_ltb_total [] [] h k = refl
text_ltb_total [] (d ∷ ds) h k = cc
text_ltb_total (c ∷ cs) [] h k = cc
text_ltb_total (c ∷ cs) (d ∷ ds) h k = ground (arith, text_ltb_total cs ds)

pub text_ltb_trans :
    (a b c : Text) → text_ltb a b ≡ true → text_ltb b c ≡ true → text_ltb a c ≡ true
unfolding text_ltb
text_ltb_trans [] [] c h k = cc
text_ltb_trans [] (y ∷ ys) [] h k = cc
text_ltb_trans [] (y ∷ ys) (z ∷ zs) h k = refl
text_ltb_trans (x ∷ xs) [] c h k = cc
text_ltb_trans (x ∷ xs) (y ∷ ys) [] h k = cc
text_ltb_trans (x ∷ xs) (y ∷ ys) (z ∷ zs) h k = ground (arith, text_ltb_trans xs ys zs)
