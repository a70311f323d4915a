-- ===== src/Net/RoundTrip.antt =====
-- Package net: an address that is joined is split into its host and port again.
use remotemoe.Prelude.{
  ℕ, ◌≡◌, refl, false, ◌||◌, [], ◌∷◌, ◌++◌, none, some, arith, Bool-cases, inl, inr, subst,
}
use mathlib.Core.List.{append_assoc}
use remotemoe.Text.{Text}
use remotemoe.Net.{
  split, contains, cut_last, cut_first, split_host_port, join_host_port, split_plain,
  split_bracketed,
}

pub contains-append : (b : ℕ) (s t : Text) → contains b (s ++ t) ≡ (contains b s || contains b t)
unfolding contains
contains-append b [] t = refl
contains-append b (c ∷ s) t = ground (arith, contains-append b s t)

pub cut_last-absent : (b : ℕ) (s : Text) → contains b s ≡ false → cut_last b s ≡ none
unfolding cut_last contains
cut_last-absent b [] h = refl
cut_last-absent b (c ∷ s) h = ground (arith, cut_last-absent b s)

cut_last-append :
    (b : ℕ) (s t : Text) → contains b t ≡ false → cut_last b (s ++ b ∷ t) ≡ some (s, t)
unfolding cut_last
cut_last-append b [] t h = ground (arith, cut_last-absent b t h)
cut_last-append b (c ∷ s) t h = rw (cut_last-append b s t h)

pub cut_first-append :
    (b : ℕ) (s t : Text) → contains b s ≡ false → cut_first b (s ++ b ∷ t) ≡ some (s, t)
unfolding cut_first contains
cut_first-append b [] t h = ground arith
cut_first-append b (c ∷ s) t h = ground (arith, cut_first-append b s t)

-- A text without brackets.
abbrev pub IsPlain : Text → Type 0
IsPlain s = (contains b'[' s ≡ false) × (contains b']' s ≡ false)

split-join_plain :
    (host port : Text)
    → IsPlain host
    → IsPlain port
    → contains b':' host ≡ false
    → contains b':' port ≡ false
    → split_host_port (host ++ b':' ∷ port) ≡ split host port
unfolding split_host_port split_plain contains
split-join_plain [] port h p c d = ground (arith, cut_last-append b':' [] port d)
split-join_plain (x ∷ host) port h p c d = ground (
  arith,
  cut_last-append b':' (x ∷ host) port d,
  contains-append b'[' host (b':' ∷ port),
  contains-append b']' host (b':' ∷ port),
)

cut_last-bracketed :
    (host port : Text)
    → contains b':' port ≡ false
    → cut_last b':' (b'[' ∷ host ++ b']' ∷ b':' ∷ port) ≡ some (b'[' ∷ host ++ b']' ∷ [], port)
cut_last-bracketed host port d =
    subst (λ t. cut_last b':' (b'[' ∷ t) ≡ some (b'[' ∷ host ++ b']' ∷ [], port))
      (append_assoc host (b']' ∷ []) (b':' ∷ port))
      (cut_last-append b':' (b'[' ∷ host ++ b']' ∷ []) port d)

split-join_bracketed :
    (host port : Text)
    → IsPlain host
    → IsPlain port
    → contains b':' port ≡ false
    → split_host_port (b'[' ∷ host ++ b']' ∷ b':' ∷ port) ≡ split host port
unfolding split_host_port split_bracketed contains
split-join_bracketed host port h p d = ground (
  arith,
  cut_last-bracketed host port d,
  cut_first-append b']' host (b':' ∷ port) h.1,
  contains-append b'[' host (b']' ∷ b':' ∷ port),
)

-- A host and a port without brackets, and the port without colon, survive JoinHostPort and
-- SplitHostPort, also where the host has colons.
pub split_host_port-join_host_port :
    (host port : Text)
    → IsPlain host
    → IsPlain port
    → contains b':' port ≡ false
    → split_host_port (join_host_port host port) ≡ split host port
unfolding join_host_port
split_host_port-join_host_port host port h p d = elim (Bool-cases (contains b':' host)) [
  | inl colons ↦ rw colons (split-join_bracketed host port h p d)
  | inr plain ↦ rw plain (split-join_plain host port h p plain d)
]
