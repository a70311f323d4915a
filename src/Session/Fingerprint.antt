-- ===== src/Session/Fingerprint.antt =====
-- ssh/defaultconfig.go: fingerprintIsh, with encoding/base32 without padding over its alphabet. The hash
-- and the form of a key are crypto/sha256's and golang.org/x/crypto/ssh's.
pub mod Laws
pub mod Shape
use remotemoe.Prelude.{
  ℕ, zero, suc, ◌+◌, ◌*◌, ◌/◌, ◌%◌, ◌==◌, Bool, true, false, List, [], ◌∷◌, ◌++◌, map,
  if◌then◌else◌,
}
use remotemoe.Text.{Text, bytes}

abbrev pub bit : Bool → ℕ
bit true = 1
bit false = 0

abbrev pub is_odd : ℕ → Bool
is_odd n = n % 2 == 1

-- The bits of a byte, and of several, highest first.
abbrev pub bits : ℕ → List Bool
bits n =
    is_odd (n / 128)
    ∷ is_odd (n / 64)
    ∷ is_odd (n / 32)
    ∷ is_odd (n / 16)
    ∷ is_odd (n / 8)
    ∷ is_odd (n / 4)
    ∷ is_odd (n / 2)
    ∷ is_odd n
    ∷ []

unfoldable pub all_bits : List ℕ → List Bool
all_bits [] = []
all_bits (n ∷ ns) = bits n ++ all_bits ns

abbrev pub quintet : Bool → Bool → Bool → Bool → Bool → ℕ
quintet a b c d e = 16 * bit a + 8 * bit b + 4 * bit c + 2 * bit d + bit e

-- The bits five by five; the last are filled up with zeros.
unfoldable pub quintets : List Bool → List ℕ
quintets [] = []
quintets (a ∷ []) = quintet a false false false false ∷ []
quintets (a ∷ b ∷ []) = quintet a b false false false ∷ []
quintets (a ∷ b ∷ c ∷ []) = quintet a b c false false ∷ []
quintets (a ∷ b ∷ c ∷ d ∷ []) = quintet a b c d false ∷ []
quintets (a ∷ b ∷ c ∷ d ∷ e ∷ rest) = quintet a b c d e ∷ quintets rest

abbrev pub alphabet : Text
alphabet = bytes "abcdefghijklmnopqrstuvwxyz234567"

-- The byte at an index; 0 behind the end, which no quintet reaches.
unfoldable pub byte_at : ℕ → Text → ℕ
byte_at n [] = 0
byte_at zero (c ∷ s) = c
byte_at (suc n) (c ∷ s) = byte_at n s

-- EncodeToString
unfoldable pub encode_to_string : List ℕ → Text
unfolding all_bits quintets byte_at
encode_to_string sum = map (λ n. byte_at n alphabet) (quintets (all_bits sum))

module _ (PublicKey : Type 0) (marshal : PublicKey → List ℕ) (sha256_sum : List ℕ → List ℕ) where
  unfoldable pub fingerprint_ish : PublicKey → Text
  unfolding encode_to_string
  fingerprint_ish pub_key = encode_to_string (sha256_sum (marshal pub_key))
