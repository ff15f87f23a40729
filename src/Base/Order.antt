-- ===== src/Base/Order.antt =====
-- The order of texts by code units.
use mathlib.Core.Path.{◌≡◌, refl}
use mathlib.Core.Bool.{true, false}
use mathlib.Core.List.{[], ◌∷◌}
use native.Mathlib.Omega.{arith}
use db_migrate.Base.Strings.{Text, text_lt, text_eq}

-- Of two texts, one comes first or they are the same.
pub text_lt-connected :
    (a b : Text) → text_lt b a ≡ false → text_eq b a ≡ false → text_lt a b ≡ true
unfolding text_lt text_eq
text_lt-connected [] [] h k = absurd (ground arith)
text_lt-connected [] (d ∷ b) h k = refl
text_lt-connected (c ∷ a) [] h k = absurd (ground arith)
text_lt-connected (c ∷ a) (d ∷ b) h k = ground (arith, text_lt-connected a b)

-- What comes in no order with a third text comes in none with each other.
pub text_lt-cotrans :
    (a b c : Text) → text_lt b a ≡ false → text_lt c b ≡ false → text_lt c a ≡ false
unfolding text_lt
text_lt-cotrans [] b [] h k = refl
text_lt-cotrans [] b (z ∷ c) h k = refl
text_lt-cotrans (x ∷ a) [] c h k = absurd (ground arith)
text_lt-cotrans (x ∷ a) (y ∷ b) [] h k = absurd (ground arith)
text_lt-cotrans (x ∷ a) (y ∷ b) (z ∷ c) h k = ground (arith, text_lt-cotrans a b c)

pub text_lt-asym : (a b : Text) → text_lt a b ≡ true → text_lt b a ≡ false
unfolding text_lt
text_lt-asym a [] h = absurd (ground arith)
text_lt-asym [] (d ∷ b) h = refl
text_lt-asym (c ∷ a) (d ∷ b) h = ground (arith, text_lt-asym a b)
