-- ===== src/Text/Laws.antt =====
-- Laws of the text operations.
use sqlx_turso.Base.{◌≡◌, ◌↔◌, refl, true, [], ◌∷◌, ◌++◌, arith, some}
use sqlx_turso.Text.{Text, text_eq, strip_prefix}

pub text_eq_iff : (a b : Text) → (text_eq a b ≡ true) ↔ (a ≡ b)
unfolding text_eq
text_eq_iff (x ∷ a) (y ∷ b) = ground (arith, text_eq_iff a b)
text_eq_iff _ _ = ground arith

pub text_eq_refl : (a : Text) → text_eq a a ≡ true
text_eq_refl a = (text_eq_iff a a).1 refl

pub strip_prefix-append : (p s : Text) → strip_prefix p (p ++ s) ≡ some s
unfolding strip_prefix
strip_prefix-append [] s = refl
strip_prefix-append (c ∷ cs) s = ground (arith, strip_prefix-append cs s)
