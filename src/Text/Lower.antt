-- ===== src/Text/Lower.antt =====
-- strings.ToLower: a text of ASCII bytes is lowered byte by byte, any other rune by rune by the
-- Unicode tables, which are a parameter.
use remotemoe.Prelude.{ℕ, ◌+◌, Bool, true, ◌&&◌, [], ◌∷◌, map, ltb, leb, if◌then◌else◌}
use remotemoe.Text.{Text}

unfoldable pub is_ascii : Text → Bool
is_ascii [] = true
is_ascii (c ∷ s) = ltb c 128 && is_ascii s

unfoldable pub lower_byte : ℕ → ℕ
lower_byte c = if leb b'A' c && leb c b'Z' then c + 32 else c

module _ (unicode_lower : Text → Text) where
  unfoldable pub to_lower : Text → Text
  unfolding is_ascii lower_byte
  to_lower s = if is_ascii s then map lower_byte s else unicode_lower s
