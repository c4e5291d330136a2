-- ===== src/Text/Equality.antt =====
-- What `===` on texts says.
use backend.Prelude.{◌≡◌, true, [], ◌∷◌, refl, arith}
use backend.Text.{Text, text_eq}

pub text_eq_refl : (s : Text) → text_eq s s ≡ true
unfolding text_eq
text_eq_refl [] = refl
text_eq_refl (c ∷ s) = ground (arith, text_eq_refl s)

pub text_eq-eq : (s t : Text) → text_eq s t ≡ true → s ≡ t
unfolding text_eq
text_eq-eq [] [] h = refl
text_eq-eq [] (c ∷ t) h = absurd (cc)
text_eq-eq (c ∷ s) [] h = absurd (cc)
text_eq-eq (c ∷ s) (d ∷ t) h = ground (arith, text_eq-eq s t)
