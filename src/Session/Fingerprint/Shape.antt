-- ===== src/Session/Fingerprint/Shape.antt =====
-- ssh/defaultconfig.go: which bytes a name of a session holds.
use remotemoe.Prelude.{
  ℕ, ◌+◌, ◌*◌, ◌/◌, ◌<◌, ◌≡◌, refl, ap, ◌∙◌, ◌==◌, Bool, true, false, List, [], ◌∷◌, map, length,
  arith, not, ◌&&◌, ◌||◌, ltb, leb,
}
use remotemoe.Text.{Text}
use remotemoe.Text.Lower.{is_ascii, lower_byte, to_lower}
use remotemoe.Net.{contains}
use remotemoe.Net.RoundTrip.{IsPlain, contains-append}
use remotemoe.Session.{session_fqdn}
use remotemoe.Session.Fingerprint.{
  all_bits, quintets, alphabet, byte_at, encode_to_string, fingerprint_ish,
}
use remotemoe.Session.Fingerprint.Laws.{all_below_lem, AreFives, quintets-AreFives, length-encode}

-- A byte that names may hold and that is its own lower case.
abbrev plain_byte : ℕ → Bool
plain_byte c =
    not (c == b'[' || c == b']' || c == b':' || c == b'/' || c == b'.')
    && ltb c 128
    && lower_byte c == c

abbrev all_plain : Text → Bool
all_plain [] = true
all_plain (c ∷ s) = plain_byte c && all_plain s

-- The lower-case letters and the digits 2 to 7.
abbrev pub is_letter_or_digit : ℕ → Bool
is_letter_or_digit c = leb b'a' c && leb c b'z' || leb b'2' c && leb c b'7'

abbrev pub are_letters_or_digits : Text → Bool
are_letters_or_digits [] = true
are_letters_or_digits (c ∷ s) = is_letter_or_digit c && are_letters_or_digits s

letter-exact : (n : ℕ) → n < 32 → is_letter_or_digit (byte_at n alphabet) ≡ true
unfolding byte_at
letter-exact n l = all_below_lem 32 (λ m. is_letter_or_digit (byte_at m alphabet)) refl n l

letters-exact :
    (ns : List ℕ) → AreFives ns → are_letters_or_digits (map (λ n. byte_at n alphabet) ns) ≡ true
letters-exact [] v = refl
letters-exact (n ∷ ns) (l, v) = ground (arith, letter-exact n l, letters-exact ns v)

encode-exact : (sum : List ℕ) → are_letters_or_digits (encode_to_string sum) ≡ true
unfolding encode_to_string
encode-exact sum = letters-exact (quintets (all_bits sum)) (quintets-AreFives (all_bits sum))

letter-plain : (n : ℕ) → n < 32 → plain_byte (byte_at n alphabet) ≡ true
unfolding byte_at lower_byte
letter-plain n l = all_below_lem 32 (λ m. plain_byte (byte_at m alphabet)) refl n l

letters-plain : (ns : List ℕ) → AreFives ns → all_plain (map (λ n. byte_at n alphabet) ns) ≡ true
letters-plain [] v = refl
letters-plain (n ∷ ns) (l, v) = ground (arith, letter-plain n l, letters-plain ns v)

encode-plain : (sum : List ℕ) → all_plain (encode_to_string sum) ≡ true
unfolding encode_to_string
encode-plain sum = letters-plain (quintets (all_bits sum)) (quintets-AreFives (all_bits sum))

plain-contains :
    (s : Text)
    → all_plain s ≡ true
    → (contains b'[' s ≡ false)
      × (contains b']' s ≡ false)
      × (contains b':' s ≡ false)
      × (contains b'/' s ≡ false)
      × (contains b'.' s ≡ false)
unfolding contains
plain-contains [] e = (refl, refl, refl, refl, refl)
plain-contains (c ∷ s) e = ground (arith, e, plain-contains s)

plain-is_ascii : (s : Text) → all_plain s ≡ true → is_ascii s ≡ true
unfolding is_ascii
plain-is_ascii [] e = refl
plain-is_ascii (c ∷ s) e = ground (arith, e, plain-is_ascii s)

plain-lower : (s : Text) → all_plain s ≡ true → map lower_byte s ≡ s
plain-lower [] e = refl
plain-lower (c ∷ s) e = ground (arith, e, plain-lower s)

to_lower-plain :
    (unicode_lower : Text → Text) (s : Text) → all_plain s ≡ true → to_lower unicode_lower s ≡ s
unfolding to_lower
to_lower-plain unicode_lower s e = rw (plain-is_ascii s e) (plain-lower s e)

contains-fqdn :
    (b : ℕ) (ish hostname : Text)
    → (b'.' == b) ≡ false
    → contains b ish ≡ false
    → contains b hostname ≡ false
    → contains b (session_fqdn ish hostname) ≡ false
unfolding session_fqdn contains
contains-fqdn b ish hostname n e h =
    ground (arith, n, e, h, contains-append b ish (b'.' ∷ hostname))

-- The fingerprint of a 32-byte hash, which is the first label of the name of a session, has 52
-- characters, fewer than the 63 of a DNS label, each of them a lower-case letter or a digit from 2 to
-- 7. It holds no slash and no dot, and is its own lower case; and if the name of the server holds no
-- colon or bracket, neither does the name of the session.
pub fqdn_shape :
    (PublicKey : Type 0) (marshal : PublicKey → List ℕ) (sha256_sum : List ℕ → List ℕ)
    (unicode_lower : Text → Text) (hostname : Text) (key : PublicKey)
    → length (sha256_sum (marshal key)) ≡ 32
    → IsPlain hostname
    → contains b':' hostname ≡ false
    → let ish = fingerprint_ish PublicKey marshal sha256_sum key in
      (length ish ≡ 52)
      × (are_letters_or_digits ish ≡ true)
      × (contains b'/' ish ≡ false)
      × (contains b'.' ish ≡ false)
      × (to_lower unicode_lower ish ≡ ish)
      × IsPlain (session_fqdn ish hostname)
      × (contains b':' (session_fqdn ish hostname) ≡ false)
unfolding fingerprint_ish
fqdn_shape PublicKey marshal sha256_sum unicode_lower hostname key size (no_left, no_right)
      no_colon =
    let sum = sha256_sum (marshal key) in
    let plain = encode-plain sum in
    let (left, right, colon, slash, dot) = plain-contains (encode_to_string sum) plain in
    (
      length-encode sum ∙ ap (λ k. (8 * k + 4) / 5) size,
      encode-exact sum,
      slash,
      dot,
      to_lower-plain unicode_lower (encode_to_string sum) plain,
      (
        contains-fqdn b'[' (encode_to_string sum) hostname refl left no_left,
        contains-fqdn b']' (encode_to_string sum) hostname refl right no_right,
      ),
      contains-fqdn b':' (encode_to_string sum) hostname refl colon no_colon,
    )
