-- ===== src/Commands/Access/Reading/Laws.antt =====
-- ssh/command/access.go: its lines read as the addresses and jumps that they are for.
use remotemoe.Prelude.{
  ℕ, ◌==◌, ◌<◌, ==_iff, ◌≡◌, refl, sym, ap, false, [], ◌∷◌, ◌++◌, none, some, inl, inr, arith,
  if◌then◌else◌, Bool-cases,
}
use mathlib.Core.List.{append_assoc, append-nil}
use remotemoe.Text.{Text, bytes, text_eq}
use remotemoe.Net.{contains, cut_first, join_host_port}
use remotemoe.Net.RoundTrip.{cut_first-append, contains-append}
use remotemoe.Net.Decimal.{decimal, is_digit, u32_mod, parse_uint32-decimal, contains-decimal}
use remotemoe.Proxy.Laws.{IsHostOf}
use remotemoe.Services.{http, https}
use remotemoe.Session.Dials.{decimal_colon, decimal-IsPlain}
use remotemoe.Commands.Snippets.Arguments.{strip_prefix}
use remotemoe.Commands.Access.{url_line, jump_line}
use remotemoe.Commands.Access.Reading.{IsWeb, port_of, read_url, read_jump_to, read_jump}

cut_first-none : (b : ℕ) (s : Text) → contains b s ≡ false → cut_first b s ≡ none
unfolding cut_first contains
cut_first-none b [] h = refl
cut_first-none b (c ∷ s) h = ground (arith, h, cut_first-none b s)

-- The authority of a URL for a port.
abbrev pub authority_of : ℕ → ℕ → Text → Text
authority_of standard p host = if p == standard then host else host ++ b':' ∷ decimal p

digits_lack : (b p : ℕ) → is_digit b ≡ false → contains b (decimal p) ≡ false
digits_lack b p e = contains-decimal b p e

authority_slash :
    (standard p : ℕ) (host : Text)
    → contains b'/' host ≡ false
    → contains b'/' (authority_of standard p host) ≡ false
unfolding contains is_digit
authority_slash standard p host c = elim (Bool-cases (p == standard)) [
  | inl e ↦ rw e c
  | inr e ↦ rw (e, contains-append b'/' host (b':' ∷ decimal p), c) (contains-decimal b'/' p refl)
]

authority_port :
    (standard p : ℕ) (host : Text)
    → contains b':' host ≡ false
    → p < u32_mod
    → port_of (some standard) (cut_first b':' (authority_of standard p host)) ≡ some p
authority_port standard p host c l = elim (Bool-cases (p == standard)) [
  | inl e ↦ rw (e, cut_first-none b':' host c) (ap some (sym ((==_iff p standard).0 e)))
  | inr e ↦ rw (e, cut_first-append b':' host (decimal p) c) (parse_uint32-decimal p l)
]

url_line-authority :
    (scheme host : Text) (standard p : ℕ)
    → url_line scheme standard p host
      ≡ scheme ++ bytes "://" ++ authority_of standard p host ++ b'/' ∷ b'\n' ∷ []
unfolding url_line
url_line-authority scheme host standard p = elim (Bool-cases (p == standard)) [
  | inl e ↦ rw (e, append-nil (scheme ++ bytes "://" ++ host)) refl
  | inr e ↦ rw (e, append_assoc (scheme ++ bytes "://") host (b':' ∷ decimal p)) refl
]

pub authority-IsHostOf :
    (standard p : ℕ) (host : Text)
    → contains b':' host ≡ false
    → IsHostOf host (authority_of standard p host)
unfolding join_host_port
authority-IsHostOf standard p host c = elim (Bool-cases (p == standard)) [
  | inl e ↦ rw e (inl refl)
  | inr e ↦ rw e (inr (decimal p, decimal-IsPlain p, decimal_colon p, rw c refl))
]

read_http :
    (a : Text) (p : ℕ)
    → contains b'/' a ≡ false
    → port_of (some 80) (cut_first b':' a) ≡ some p
    → read_url (http ++ bytes "://" ++ a ++ b'/' ∷ b'\n' ∷ [])
      ≡ some (record { scheme = http; authority = a; port = p })
unfolding read_url cut_first strip_prefix text_eq
read_http a p c e = rw (cut_first-append b'/' a (b'\n' ∷ []) c, e) refl

read_https :
    (a : Text) (p : ℕ)
    → contains b'/' a ≡ false
    → port_of (some 443) (cut_first b':' a) ≡ some p
    → read_url (https ++ bytes "://" ++ a ++ b'/' ∷ b'\n' ∷ [])
      ≡ some (record { scheme = https; authority = a; port = p })
unfolding read_url cut_first strip_prefix text_eq
read_https a p c e = rw (cut_first-append b'/' a (b'\n' ∷ []) c, e) refl

-- The line for a port reads as the address of the host at that port.
pub read_url-url_line :
    (scheme host : Text) (standard p : ℕ)
    → IsWeb scheme standard
    → contains b':' host ≡ false
    → contains b'/' host ≡ false
    → p < u32_mod
    → read_url (url_line scheme standard p host)
      ≡ some (record { scheme = scheme; authority = authority_of standard p host; port = p })
read_url-url_line scheme host standard p (inl (e, q)) c d l =
    rw (url_line-authority scheme host standard p, e, q)
      (read_http (authority_of 80 p host) p (authority_slash 80 p host d)
        (authority_port 80 p host c l))
read_url-url_line scheme host standard p (inr (e, q)) c d l =
    rw (url_line-authority scheme host standard p, e, q)
      (read_https (authority_of 443 p host) p (authority_slash 443 p host d)
        (authority_port 443 p host c l))

-- A name as ssh can read it as a word.
abbrev pub IsWord : Text → Type 0
IsWord s = (contains b' ' s ≡ false) × (contains b'\n' s ≡ false) × (contains b':' s ≡ false)

jump_to_22 :
    (hostname host : Text)
    → IsWord hostname
    → IsWord host
    → read_jump_to 22 (hostname ++ b' ' ∷ host ++ b'\n' ∷ [])
      ≡ some (record { server = hostname; server_port = 22; host = host; port = 22 })
unfolding read_jump_to
jump_to_22 hostname host (a, b, c) (d, e, f) =
    rw
      (
        append_assoc hostname (b' ' ∷ host) (b'\n' ∷ []),
        cut_first-append b' ' hostname (host ++ b'\n' ∷ []) a,
        cut_first-append b'\n' host [] e,
        cut_first-none b':' hostname c,
      )
      refl

jump_to_port :
    (hostname host : Text) (p : ℕ)
    → IsWord hostname
    → IsWord host
    → p < u32_mod
    → read_jump_to p (hostname ++ b':' ∷ decimal p ++ b' ' ∷ host ++ b'\n' ∷ [])
      ≡ some (record { server = hostname; server_port = p; host = host; port = p })
unfolding read_jump_to contains is_digit
jump_to_port hostname host p (a, b, c) (d, e, f) l =
    let no_space : contains b' ' (hostname ++ b':' ∷ decimal p) ≡ false =
      rw (contains-append b' ' hostname (b':' ∷ decimal p), a) (contains-decimal b' ' p refl) in
    rw
      (
        append_assoc (hostname ++ b':' ∷ decimal p) (b' ' ∷ host) (b'\n' ∷ []),
        cut_first-append b' ' (hostname ++ b':' ∷ decimal p) (host ++ b'\n' ∷ []) no_space,
        cut_first-append b'\n' host [] e,
        cut_first-append b':' hostname (decimal p) c,
        parse_uint32-decimal p l,
      )
      refl

abbrev behind : Text → ℕ → Text → Text
behind hostname p host = hostname ++ b':' ∷ decimal p ++ b' ' ∷ host ++ b'\n' ∷ []

jump_line-port :
    (hostname host : Text) (p : ℕ)
    → (p == 22) ≡ false
    → jump_line hostname p host
      ≡ bytes "ssh -p" ++ (decimal p ++ b' ' ∷ (bytes "-J " ++ behind hostname p host))
unfolding jump_line
jump_line-port hostname host p e = rw e (simp append_assoc)

read_port :
    (hostname host : Text) (p : ℕ)
    → IsWord hostname
    → IsWord host
    → p < u32_mod
    → read_jump (bytes "ssh -p" ++ (decimal p ++ b' ' ∷ (bytes "-J " ++ behind hostname p host)))
      ≡ some (record { server = hostname; server_port = p; host = host; port = p })
unfolding read_jump strip_prefix is_digit
read_port hostname host p a b l =
    rw
      (
        cut_first-append b' ' (decimal p) (bytes "-J " ++ behind hostname p host)
            (contains-decimal b' ' p refl),
        parse_uint32-decimal p l,
      )
      (jump_to_port hostname host p a b l)

read_22 :
    (hostname host : Text)
    → IsWord hostname
    → IsWord host
    → read_jump (jump_line hostname 22 host)
      ≡ some (record { server = hostname; server_port = 22; host = host; port = 22 })
unfolding read_jump jump_line strip_prefix
read_22 hostname host a b = jump_to_22 hostname host a b

-- The line for a port reads as the jump to the host at that port, through the server at that port.
pub read_jump-jump_line :
    (hostname host : Text) (p : ℕ)
    → IsWord hostname
    → IsWord host
    → p < u32_mod
    → read_jump (jump_line hostname p host)
      ≡ some (record { server = hostname; server_port = p; host = host; port = p })
read_jump-jump_line hostname host p a b l = elim (Bool-cases (p == 22)) [
  | inl e ↦ rw ((==_iff p 22).0 e) (read_22 hostname host a b)
  | inr e ↦ rw (jump_line-port hostname host p e) (read_port hostname host p a b l)
]
