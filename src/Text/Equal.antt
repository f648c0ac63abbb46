-- ===== src/Text/Equal.antt =====
-- Comparison of texts.
use tunator.Prelude.{◌≡◌, ◌↔◌, true, ◌∷◌, arith}
use tunator.Text.{Text, text_eq}

pub text_eq_iff : (a b : Text) → (text_eq a b ≡ true) ↔ (a ≡ b)
unfolding text_eq
text_eq_iff (x ∷ a) (y ∷ b) = ground (arith, text_eq_iff a b)
text_eq_iff _ _ = ground arith
