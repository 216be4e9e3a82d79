-- ===== src/Text/Equality.antt =====
-- The equality test on texts.
use ai_kaeyris.Prelude.{◌≡◌, refl, true, [], ◌∷◌, arith, ==_refl}
use ai_kaeyris.Text.{Text, text_eq}

pub text_eq_refl : (t : Text) → text_eq t t ≡ true
unfolding text_eq
text_eq_refl [] = refl
text_eq_refl (c ∷ t) = ground (arith, ==_refl c, text_eq_refl t)

pub text_eq_sym : (s t : Text) → text_eq s t ≡ text_eq t s
unfolding text_eq
text_eq_sym [] [] = refl
text_eq_sym [] (d ∷ t) = refl
text_eq_sym (c ∷ s) [] = refl
text_eq_sym (c ∷ s) (d ∷ t) = ground (arith, text_eq_sym s t)

pub text_eq-eq : (s t : Text) → text_eq s t ≡ true → s ≡ t
unfolding text_eq
text_eq-eq [] [] h = refl
text_eq-eq [] (d ∷ t) h = cc
text_eq-eq (c ∷ s) [] h = cc
text_eq-eq (c ∷ s) (d ∷ t) h = ground (arith, text_eq-eq s t)
