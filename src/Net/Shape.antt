-- ===== src/Net/Shape.antt =====
-- Package net: what SplitHostPort accepts.
use remotemoe.Prelude.{ℕ, ◌≡◌, refl, sym, ◌∙◌, false, [], ◌∷◌, ◌++◌, Option, none, some, arith}
use remotemoe.Text.{Text}
use remotemoe.Net.{
  split, contains, cut_first, cut_last, cut_later, split_bracketed, split_plain, split_host_port,
}
use remotemoe.Net.RoundTrip.{IsPlain, contains-append}

cut_last-eq-none : (b : ℕ) (s : Text) → cut_last b s ≡ none → contains b s ≡ false
unfolding cut_last contains
cut_last-eq-none b [] e = refl
cut_last-eq-none b (c ∷ s) e = ground (arith, cut_last-eq-none b s)

pub cut_last-eq-some :
    (b : ℕ) (s u v : Text) → cut_last b s ≡ some (u, v) → (s ≡ u ++ b ∷ v) × (contains b v ≡ false)
unfolding cut_last
cut_last-eq-some b [] u v e = cc
cut_last-eq-some b (c ∷ s) u v e = part (cut_last b s) refl e (λ x y. cut_last-eq-some b s x y)
  where
    part :
        (o : Option (Text × Text))
        → cut_last b s ≡ o
        → cut_later b c s o ≡ some (u, v)
        → ((x y : Text) → cut_last b s ≡ some (x, y) → (s ≡ x ++ b ∷ y) × (contains b y ≡ false))
        → (c ∷ s ≡ u ++ b ∷ v) × (contains b v ≡ false)
    part none h e ih = ground (arith, cut_last-eq-none b s h)
    part (some (x, y)) h e ih = ground (arith, ih x y h)

cut_first-eq-some : (b : ℕ) (s u v : Text) → cut_first b s ≡ some (u, v) → s ≡ u ++ b ∷ v
unfolding cut_first
cut_first-eq-some b [] u v e = cc
cut_first-eq-some b (c ∷ s) u v e = part (cut_first b s) refl (λ x y. cut_first-eq-some b s x y)
  where
    part :
        (o : Option (Text × Text))
        → cut_first b s ≡ o
        → ((x y : Text) → cut_first b s ≡ some (x, y) → s ≡ x ++ b ∷ y)
        → c ∷ s ≡ u ++ b ∷ v
    part none h ih = ground arith
    part (some (x, y)) h ih = ground (arith, ih x y h)

contains_suffix :
    (b c : ℕ) (s u v : Text) → s ≡ u ++ c ∷ v → contains b s ≡ false → contains b v ≡ false
unfolding contains
contains_suffix b c s u v e h = ground (arith, contains-append b u (c ∷ v))

split_plain-IsPlain :
    (s u v host port : Text)
    → s ≡ u ++ b':' ∷ v
    → contains b':' v ≡ false
    → split_plain s u v ≡ split host port
    → IsPlain port × (contains b':' port ≡ false)
unfolding split_plain
split_plain-IsPlain s u v host port e d h =
    ground (arith, contains_suffix b'[' b':' s u v e, contains_suffix b']' b':' s u v e)

split_bracketed-IsPlain :
    (s host port : Text)
    → split_bracketed s ≡ split host port
    → IsPlain port × (contains b':' port ≡ false)
unfolding split_bracketed contains
split_bracketed-IsPlain s host port h = part (cut_first b']' s) refl
  where
    part :
        (o : Option (Text × Text))
        → cut_first b']' s ≡ o
        → IsPlain port × (contains b':' port ≡ false)
    part none e = ground arith
    part (some (u, [])) e = ground arith
    part (some (u, c ∷ t)) e =
        ground (arith, contains_suffix b'[' b']' s u (c ∷ t) (cut_first-eq-some b']' s u (c ∷ t) e))

-- The port of an accepted address holds neither brackets nor a colon.
pub split_host_port-IsPlain :
    (s host port : Text)
    → split_host_port s ≡ split host port
    → IsPlain port × (contains b':' port ≡ false)
unfolding split_host_port
split_host_port-IsPlain s host port h = part (cut_last b':' s) refl s refl
  where
    part :
        (o : Option (Text × Text))
        → cut_last b':' s ≡ o
        → (t : Text) → s ≡ t
        → IsPlain port × (contains b':' port ≡ false)
    part none e t q = ground arith
    part (some (u, v)) e [] q = ground arith
    part (some (u, v)) e (c ∷ t) q =
        let (whole, d) = cut_last-eq-some b':' s u v e in
        ground (
          arith,
          split_bracketed-IsPlain t host port,
          split_plain-IsPlain (c ∷ t) u v host port (sym q ∙ whole) d,
        )
