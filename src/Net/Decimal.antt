-- ===== src/Net/Decimal.antt =====
-- The verb %d for unsigned numbers and strconv.ParseUint(s, 10, 32).
use remotemoe.Prelude.{
  ℕ, zero, suc, ◌+◌, ◌-◌, ◌*◌, ◌/◌, ◌%◌, ◌<◌, ◌≡◌, refl, ap, ◌∙◌, ◌≢◌, Bool, false, ◌&&◌, [], ◌∷◌,
  Option, none, some, ltb, leb, if◌then◌else◌, arith, Bool-cases, inl, inr,
}
use remotemoe.Text.{Text}
use remotemoe.Net.{contains}

-- The digits of `n`, most significant first; one digit a round.
unfoldable pub digits_from : ℕ → ℕ → Text → Text
digits_from zero n acc = acc
digits_from (suc fuel) n acc =
    let d = b'0' + n % 10 in
    let more = digits_from fuel (n / 10) (d ∷ acc) in if ltb n 10 then d ∷ acc else more

-- `n + 1` rounds are enough.
unfoldable pub decimal : ℕ → Text
unfolding digits_from
decimal n = digits_from (suc n) n []

unfoldable pub is_digit : ℕ → Bool
is_digit c = leb b'0' c && leb c b'9'

-- The value of a row of digits, behind a value read so far; `none` for any other byte.
unfoldable pub parse_from : ℕ → Text → Option ℕ
unfolding is_digit
parse_from acc [] = some acc
parse_from acc (c ∷ s) =
    let rest = parse_from (acc * 10 + (c - b'0')) s in if is_digit c then rest else none

abbrev pub u32_mod : ℕ
u32_mod = 4294967296

abbrev in_range : Option ℕ → Option ℕ
in_range none = none
in_range (some n) = if ltb n u32_mod then some n else none

-- ParseUint with base 10 and 32 bits; `none` is a syntax or a range error.
unfoldable pub parse_uint32 : Text → Option ℕ
unfolding parse_from
parse_uint32 [] = none
parse_uint32 (c ∷ s) = in_range (parse_from 0 (c ∷ s))

parse_from_digit :
    (m d : ℕ) (acc : Text) → d < 10 → parse_from m ((b'0' + d) ∷ acc) ≡ parse_from (m * 10 + d) acc
unfolding parse_from
parse_from_digit m d acc h =
    let e : m * 10 + (b'0' + d - b'0') ≡ m * 10 + d = omega arith in
    ground (arith, ap (λ k. parse_from k acc) e)

parse_from-digits_from :
    (fuel n : ℕ) (acc : Text) → n < fuel → parse_from 0 (digits_from fuel n acc) ≡ parse_from n acc
unfolding digits_from
parse_from-digits_from zero n acc h = elim h [ ]
parse_from-digits_from (suc fuel) n acc h =
    let last : n / 10 * 10 + n % 10 ≡ n = omega arith in
    let read =
      parse_from_digit (n / 10) (n % 10) acc (omega arith) ∙ ap (λ k. parse_from k acc) last in
    let only = parse_from_digit 0 (n % 10) acc (omega arith) in
    elim (Bool-cases (ltb n 10)) [
      | inl small ↦
          let whole : 0 * 10 + n % 10 ≡ n = ground arith in
          rw small (only ∙ ap (λ k. parse_from k acc) whole)
      | inr large ↦
          rw large
            (parse_from-digits_from fuel (n / 10) ((b'0' + n % 10) ∷ acc) (ground arith) ∙ read)
    ]

digits_from-ne-nil : (fuel n c : ℕ) (acc : Text) → digits_from fuel n (c ∷ acc) ≢ []
unfolding digits_from
digits_from-ne-nil zero n c acc e = cc
digits_from-ne-nil (suc fuel) n c acc e =
    ground (arith, digits_from-ne-nil fuel (n / 10) (b'0' + n % 10) (c ∷ acc))

pub decimal-ne-nil : (n : ℕ) → decimal n ≢ []
unfolding decimal
decimal-ne-nil n = ground (arith, digits_from-ne-nil n (n / 10) (b'0' + n % 10) [])

pub decimal_value : (n : ℕ) → parse_from 0 (decimal n) ≡ some n
unfolding decimal parse_from
decimal_value n = parse_from-digits_from (suc n) n [] (omega arith)

parse_uint32_ne : (s : Text) → s ≢ [] → parse_uint32 s ≡ in_range (parse_from 0 s)
unfolding parse_uint32
parse_uint32_ne [] h = absurd (h refl)
parse_uint32_ne (c ∷ s) h = refl

-- A port below 2^32 that is printed is read again.
pub parse_uint32-decimal : (n : ℕ) → n < u32_mod → parse_uint32 (decimal n) ≡ some n
parse_uint32-decimal n h =
    ground (arith, parse_uint32_ne (decimal n) (decimal-ne-nil n), decimal_value n)

-- What ParseUint accepts holds digits alone.
pub contains_of_parse_from :
    (b m k : ℕ) (s : Text) → is_digit b ≡ false → parse_from m s ≡ some k → contains b s ≡ false
unfolding parse_from contains
contains_of_parse_from b m k [] h e = refl
contains_of_parse_from b m k (c ∷ s) h e =
    ground (arith, contains_of_parse_from b (m * 10 + (c - b'0')) k s h)

pub contains-decimal : (b n : ℕ) → is_digit b ≡ false → contains b (decimal n) ≡ false
contains-decimal b n h = contains_of_parse_from b 0 n (decimal n) h (decimal_value n)
