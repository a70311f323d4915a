-- ===== src/Session/Fingerprint/Laws.antt =====
-- ssh/defaultconfig.go: names of sessions are as long as a DNS label may be, made of plain characters,
-- and as different as the hashes of their keys.
use remotemoe.Prelude.{
  ℕ, zero, suc, ◌+◌, ◌*◌, ◌/◌, ◌<◌, ◌≡◌, refl, sym, ap, ◌∙◌, ◌==◌, ==_iff, Bool, true, false, List,
  [], ◌∷◌, ◌++◌, map, length, take, arith, if◌then◌else◌, ◌↔◌, Bool-cases, inl, inr,
}
use remotemoe.Text.{Text}
use remotemoe.Session.{session_fqdn}
use remotemoe.Session.Fingerprint.{
  bit, is_odd, all_bits, quintet, quintets, alphabet, byte_at, encode_to_string, fingerprint_ish,
}

-- The test holds below a bound.
abbrev pub all_below : ℕ → (ℕ → Bool) → Bool
all_below zero test = true
all_below (suc n) test = let rest = all_below n test in if test n then rest else false

pub all_below_lem :
    (bound : ℕ) (test : ℕ → Bool)
    → all_below bound test ≡ true
    → (n : ℕ) → n < bound
    → test n ≡ true
all_below_lem zero test e n l = absurd (omega (arith, l))
all_below_lem (suc m) test e n l = elim (Bool-cases (n == m)) [
  | inl same ↦ ground (arith, same, e)
  | inr other ↦ all_below_lem m test (ground (arith, e)) n (ground (arith, l, other))
]

bits_quintet :
    (a b c d e : Bool)
    → let n = quintet a b c d e in
      (is_odd (n / 16) ≡ a)
      × (is_odd (n / 8) ≡ b)
      × (is_odd (n / 4) ≡ c)
      × (is_odd (n / 2) ≡ d)
      × (is_odd n ≡ e)
bits_quintet a b c d e = ground arith

quintet_bound : (a b c d e : Bool) → quintet a b c d e < 32
quintet_bound a b c d e = ground arith

-- Decoding, which the program never does: the bits of a quintet, the value of a byte's bits, and the
-- index of a letter.
abbrev five : ℕ → List Bool
five n = is_odd (n / 16) ∷ is_odd (n / 8) ∷ is_odd (n / 4) ∷ is_odd (n / 2) ∷ is_odd n ∷ []

abbrev all_fives : List ℕ → List Bool
all_fives [] = []
all_fives (n ∷ ns) = five n ++ all_fives ns

five-quintet : (a b c d e : Bool) → five (quintet a b c d e) ≡ a ∷ b ∷ c ∷ d ∷ e ∷ []
five-quintet a b c d e = let (p, q, r, s, t) = bits_quintet a b c d e in rw (p, q, r, s, t) refl

all_fives-quintets : (bs : List Bool) → take (length bs) (all_fives (quintets bs)) ≡ bs
unfolding quintets
all_fives-quintets [] = refl
all_fives-quintets (a ∷ []) = ap (λ bs. take 1 (bs ++ [])) (five-quintet a false false false false)
all_fives-quintets (a ∷ b ∷ []) = ap (λ bs. take 2 (bs ++ [])) (five-quintet a b false false false)
all_fives-quintets (a ∷ b ∷ c ∷ []) = ap (λ bs. take 3 (bs ++ [])) (five-quintet a b c false false)
all_fives-quintets (a ∷ b ∷ c ∷ d ∷ []) = ap (λ bs. take 4 (bs ++ [])) (five-quintet a b c d false)
all_fives-quintets (a ∷ b ∷ c ∷ d ∷ e ∷ rest) =
    ap (λ bs. take (suc (suc (suc (suc (suc (length rest)))))) (bs ++ all_fives (quintets rest)))
      (five-quintet a b c d e)
    ∙ ap (λ bs. a ∷ b ∷ c ∷ d ∷ e ∷ bs) (all_fives-quintets rest)

abbrev octet : Bool → Bool → Bool → Bool → Bool → Bool → Bool → Bool → ℕ
octet a b c d e f g h =
    128 * bit a + 64 * bit b + 32 * bit c + 16 * bit d + 8 * bit e + 4 * bit f + 2 * bit g + bit h

abbrev own_octet : ℕ → ℕ
own_octet n =
    octet (is_odd (n / 128)) (is_odd (n / 64)) (is_odd (n / 32)) (is_odd (n / 16)) (is_odd (n / 8))
      (is_odd (n / 4)) (is_odd (n / 2)) (is_odd n)

octet_lem : (n : ℕ) → n < 256 → own_octet n ≡ n
octet_lem n l = (==_iff (own_octet n) n).0 (all_below_lem 256 (λ m. own_octet m == m) refl n l)

octets : List Bool → List ℕ
octets (a ∷ b ∷ c ∷ d ∷ e ∷ f ∷ g ∷ h ∷ rest) = octet a b c d e f g h ∷ octets rest
octets _ = []

abbrev pub AreBytes : List ℕ → Type 0
AreBytes [] = Unit {0}
AreBytes (n ∷ ns) = (n < 256) × AreBytes ns

octets-all_bits : (ns : List ℕ) → AreBytes ns → octets (all_bits ns) ≡ ns
unfolding all_bits octets
octets-all_bits [] v = refl
octets-all_bits (n ∷ ns) (l, v) =
    ap (λ m. m ∷ octets (all_bits ns)) (octet_lem n l) ∙ ap (λ ms. n ∷ ms) (octets-all_bits ns v)

length-all_bits : (ns : List ℕ) → length (all_bits ns) ≡ 8 * length ns
unfolding all_bits
length-all_bits [] = refl
length-all_bits (n ∷ ns) = omega (arith, length-all_bits ns)

abbrev index_in : ℕ → Text → ℕ
index_in c [] = 0
index_in c (d ∷ s) = let rest = index_in c s in if c == d then 0 else suc rest

index_in-byte_at : (n : ℕ) → n < 32 → index_in (byte_at n alphabet) alphabet ≡ n
unfolding byte_at
index_in-byte_at n l =
    (==_iff (index_in (byte_at n alphabet) alphabet) n).0
      (all_below_lem 32 (λ m. index_in (byte_at m alphabet) alphabet == m) refl n l)

abbrev pub AreFives : List ℕ → Type 0
AreFives [] = Unit {0}
AreFives (n ∷ ns) = (n < 32) × AreFives ns

pub quintets-AreFives : (bs : List Bool) → AreFives (quintets bs)
unfolding quintets
quintets-AreFives [] = tt
quintets-AreFives (a ∷ []) = (quintet_bound a false false false false, tt)
quintets-AreFives (a ∷ b ∷ []) = (quintet_bound a b false false false, tt)
quintets-AreFives (a ∷ b ∷ c ∷ []) = (quintet_bound a b c false false, tt)
quintets-AreFives (a ∷ b ∷ c ∷ d ∷ []) = (quintet_bound a b c d false, tt)
quintets-AreFives (a ∷ b ∷ c ∷ d ∷ e ∷ rest) = (quintet_bound a b c d e, quintets-AreFives rest)

length-quintets : (bs : List Bool) → length (quintets bs) ≡ (length bs + 4) / 5
unfolding quintets
length-quintets [] = refl
length-quintets (a ∷ []) = refl
length-quintets (a ∷ b ∷ []) = refl
length-quintets (a ∷ b ∷ c ∷ []) = refl
length-quintets (a ∷ b ∷ c ∷ d ∷ []) = refl
length-quintets (a ∷ b ∷ c ∷ d ∷ e ∷ rest) = omega (arith, length-quintets rest)

abbrev indexes : Text → List ℕ
indexes s = map (λ c. index_in c alphabet) s

indexes-letters : (ns : List ℕ) → AreFives ns → indexes (map (λ n. byte_at n alphabet) ns) ≡ ns
indexes-letters [] v = refl
indexes-letters (n ∷ ns) (l, v) =
    ap (λ m. m ∷ indexes (map (λ n. byte_at n alphabet) ns)) (index_in-byte_at n l)
    ∙ ap (λ ms. n ∷ ms) (indexes-letters ns v)

-- Decoding.
abbrev decoded : ℕ → Text → List ℕ
decoded size s = octets (take (8 * size) (all_fives (indexes s)))

decoded-encode : (sum : List ℕ) → AreBytes sum → decoded (length sum) (encode_to_string sum) ≡ sum
unfolding encode_to_string
decoded-encode sum v =
    ap (λ ns. octets (take (8 * length sum) (all_fives ns)))
      (indexes-letters (quintets (all_bits sum)) (quintets-AreFives (all_bits sum)))
    ∙ ap (λ k. octets (take k (all_fives (quintets (all_bits sum))))) (sym (length-all_bits sum))
    ∙ ap octets (all_fives-quintets (all_bits sum))
    ∙ octets-all_bits sum v

take-append : {A : Type 0} (xs ys : List A) → take (length xs) (xs ++ ys) ≡ xs
take-append [] ys = refl
take-append (x ∷ xs) ys = ap (λ zs. x ∷ zs) (take-append xs ys)

cut_back : (s t u : Text) → length s ≡ length t → s ++ u ≡ t ++ u → s ≡ t
cut_back s t u l e =
    sym (take-append s u)
    ∙ ap (λ x. take (length s) x) e
    ∙ ap (λ k. take k (t ++ u)) l
    ∙ take-append t u

length-letters : (ns : List ℕ) → length (map (λ n. byte_at n alphabet) ns) ≡ length ns
length-letters [] = refl
length-letters (n ∷ ns) = ap suc (length-letters ns)

pub length-encode : (sum : List ℕ) → length (encode_to_string sum) ≡ (8 * length sum + 4) / 5
unfolding encode_to_string
length-encode sum =
    length-letters (quintets (all_bits sum))
    ∙ length-quintets (all_bits sum)
    ∙ ap (λ k. (k + 4) / 5) (length-all_bits sum)

-- Two keys have the same name if and only if their hashes, of 32 bytes each, are the same: the names
-- of sessions with different hashes differ.
pub same_fqdn_iff :
    (PublicKey : Type 0) (marshal : PublicKey → List ℕ) (sha256_sum : List ℕ → List ℕ)
    (hostname : Text) (key other : PublicKey)
    → ((form : List ℕ) → AreBytes (sha256_sum form) × (length (sha256_sum form) ≡ 32))
    → (session_fqdn (fingerprint_ish PublicKey marshal sha256_sum key) hostname
        ≡ session_fqdn (fingerprint_ish PublicKey marshal sha256_sum other) hostname)
      ↔ (sha256_sum (marshal key) ≡ sha256_sum (marshal other))
unfolding fingerprint_ish session_fqdn
same_fqdn_iff PublicKey marshal sha256_sum hostname key other sums =
    let sum = sha256_sum (marshal key) in
    let sum' = sha256_sum (marshal other) in
    let as_long : length sum ≡ length sum' =
      (sums (marshal key)).1 ∙ sym (sums (marshal other)).1 in
    (
      λ e.
          sym (decoded-encode sum (sums (marshal key)).0)
          ∙ ap (λ k. decoded k (encode_to_string sum)) as_long
          ∙ ap (λ s. decoded (length sum') s)
              (cut_back (encode_to_string sum) (encode_to_string sum') (b'.' ∷ hostname)
                (length-encode sum ∙ ap (λ k. (8 * k + 4) / 5) as_long ∙ sym (length-encode sum'))
                e)
          ∙ decoded-encode sum' (sums (marshal other)).0,
      λ e. ap (λ s. encode_to_string s ++ b'.' ∷ hostname) e,
    )
