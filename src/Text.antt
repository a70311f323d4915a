-- ===== src/Text.antt =====
-- Go's strings as lists of bytes, and their `==`.
pub mod Lower
pub mod Fields
use Prim.Native.Char.{code}
use Prim.Native.String.{String}
use remotemoe.Prelude.{ℕ, ◌≡◌, refl, ◌↔◌, Bool, true, false, ◌&&◌, List, [], ◌∷◌, ◌++◌, ◌==◌, arith}

abbrev pub Text : Type 0
Text = List ℕ

-- The bytes of an ASCII literal.
abbrev pub bytes : String → Text
bytes String.[] = []
bytes (String.◌∷◌ c s) = code c ∷ bytes s

unfoldable pub text_eq : Text → Text → Bool
text_eq [] [] = true
text_eq (c ∷ s) (d ∷ t) = c == d && text_eq s t
text_eq _ _ = false

to_eq : (s t : Text) → text_eq s t ≡ true → s ≡ t
unfolding text_eq
to_eq [] [] h = refl
to_eq (c ∷ s) (d ∷ t) h = ground (arith, to_eq s t)
to_eq [] (d ∷ t) h = ground arith
to_eq (c ∷ s) [] h = ground arith

pub text_eq_refl : (s : Text) → text_eq s s ≡ true
unfolding text_eq
text_eq_refl [] = refl
text_eq_refl (c ∷ s) = ground (arith, text_eq_refl s)

from_eq : (s t : Text) → s ≡ t → text_eq s t ≡ true
from_eq s t e = rw e (text_eq_refl t)

-- The comparison decides equality.
pub text_eq_iff : (s t : Text) → (text_eq s t ≡ true) ↔ (s ≡ t)
text_eq_iff s t = (to_eq s t, from_eq s t)
