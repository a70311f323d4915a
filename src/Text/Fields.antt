-- ===== src/Text/Fields.antt =====
-- strings.Fields, and the test whether strings.TrimSpace leaves nothing. Texts of ASCII bytes are
-- taken apart at the six spaces of ASCII; for any other text the tables of Unicode are a parameter.
use remotemoe.Prelude.{
  ℕ, ◌==◌, ◌≡◌, Bool, true, false, ◌&&◌, ◌||◌, List, [], ◌∷◌, leb, if◌then◌else◌, arith, ◌↔◌, ◌≢◌,
}
use remotemoe.Text.{Text}
use remotemoe.Text.Lower.{is_ascii}

-- tab, newline, vertical tab, form feed, return and space
abbrev pub is_space : ℕ → Bool
is_space c = (leb 9 c && leb c 13) || (c == 32)

abbrev pub all_space : Text → Bool
all_space [] = true
all_space (c ∷ s) = is_space c && all_space s

-- A byte that belongs to the first field, given the fields of what follows; `open` tells that what
-- follows does not begin with a space.
abbrev extend : ℕ → Bool → List Text → List Text
extend c true [] = (c ∷ []) ∷ []
extend c true (f ∷ fs) = (c ∷ f) ∷ fs
extend c false fs = (c ∷ []) ∷ fs

abbrev pub begins_field : Text → Bool
begins_field [] = false
begins_field (c ∷ s) = if is_space c then false else true

unfoldable pub ascii_fields : Text → List Text
ascii_fields [] = []
ascii_fields (c ∷ s) =
    let rest = ascii_fields s in if is_space c then rest else extend c (begins_field s) rest

-- What the tables of Unicode are used for.
pub record Unicode : Type 0 where
  pub fields_of : Text → List Text
  pub blank : Text → Bool

unfoldable pub fields : Unicode → Text → List Text
unfolding ascii_fields is_ascii
fields u s = if is_ascii s then ascii_fields s else u.fields_of s

-- `strings.TrimSpace(s) == ""`
unfoldable pub is_blank : Unicode → Text → Bool
unfolding is_ascii
is_blank u s = if is_ascii s then all_space s else u.blank s

extend-ne-nil : (c : ℕ) (b : Bool) (fs : List Text) → extend c b fs ≢ []
extend-ne-nil c true [] e = cc
extend-ne-nil c true (f ∷ fs) e = cc
extend-ne-nil c false fs e = cc

-- A blank text is one without fields.
pub ascii_fields-eq-nil_iff : (s : Text) → (ascii_fields s ≡ []) ↔ (all_space s ≡ true)
unfolding ascii_fields
ascii_fields-eq-nil_iff [] = ground arith
ascii_fields-eq-nil_iff (c ∷ s) =
    ground (arith, ascii_fields-eq-nil_iff s, extend-ne-nil c (begins_field s) (ascii_fields s))
