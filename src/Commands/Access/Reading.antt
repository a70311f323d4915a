-- ===== src/Commands/Access/Reading.antt =====
-- ssh/command/access.go: its lines as a browser and ssh read them, by the general forms of URLs and of
-- ssh's options -p and -J.
pub mod Laws
use remotemoe.Prelude.{
  ℕ, ◌==◌, ◌<◌, ==_iff, ◌≡◌, refl, sym, ap, false, [], ◌∷◌, ◌++◌, Option, none, some, ◌>>=◌, inl,
  inr, ◌⊎◌, arith, if◌then◌else◌, Bool-cases,
}
use mathlib.Core.List.{append_assoc, append-nil}
use remotemoe.Text.{Text, bytes, text_eq}
use remotemoe.Net.{contains, cut_first, join_host_port}
use remotemoe.Net.RoundTrip.{cut_first-append, contains-append}
use remotemoe.Net.Decimal.{
  decimal, is_digit, parse_uint32, u32_mod, parse_uint32-decimal, contains-decimal,
}
use remotemoe.Proxy.Laws.{IsHostOf}
use remotemoe.Services.{http, https}
use remotemoe.Session.Dials.{decimal_colon, decimal-IsPlain}
use remotemoe.Commands.Snippets.Arguments.{strip_prefix}
use remotemoe.Commands.Access.{url_line, jump_line}

-- The services that have URLs, with their standard ports.
abbrev pub IsWeb : Text → ℕ → Type 0
IsWeb scheme standard = ((scheme ≡ http) × (standard ≡ 80)) ⊎ ((scheme ≡ https) × (standard ≡ 443))

-- What a browser takes from a URL: the scheme, the authority, which it sends as the host, and the port
-- to which it connects.
pub record Address : Type 0 where
  pub scheme : Text
  pub authority : Text
  pub port : ℕ

abbrev pub default_port : Text → Option ℕ
default_port scheme =
    if text_eq scheme http then some 80 else if text_eq scheme https then some 443 else none

abbrev pub port_of : Option ℕ → Option (Text × Text) → Option ℕ
port_of default none = default
port_of default (some (host, port)) = parse_uint32 port

-- A line `scheme://authority/`.
unfoldable pub read_url : Text → Option Address
unfolding cut_first strip_prefix text_eq
read_url line = do
  (scheme, rest) ← cut_first b':' line
  after ← strip_prefix (bytes "//") rest
  (authority, path) ← cut_first b'/' after
  port ← port_of (default_port scheme) (cut_first b':' authority)
  if text_eq path (b'\n' ∷ [])
      then some (record { scheme = scheme; authority = authority; port = port })
      else none

-- What ssh takes from a command with the option -J: the server of the jump and its port, and the host
-- and its port.
pub record Jump : Type 0 where
  pub server : Text
  pub server_port : ℕ
  pub host : Text
  pub port : ℕ

abbrev pub host_before : Text → Option (Text × Text) → Text
host_before s none = s
host_before s (some (host, port)) = host

-- The words behind `-J`.
unfoldable pub read_jump_to : ℕ → Text → Option Jump
unfolding cut_first
read_jump_to port words = do
  (server, rest) ← cut_first b' ' words
  (host, end) ← cut_first b'\n' rest
  server_port ← port_of (some 22) (cut_first b':' server)
  some (record {
    server = host_before server (cut_first b':' server);
    server_port = server_port;
    host = host;
    port = port;
  })

abbrev after_port : Option (Text × Text) → Option Jump
after_port none = none
after_port (some (digits, rest)) = do
  port ← parse_uint32 digits
  words ← strip_prefix (bytes "-J ") rest
  read_jump_to port words

-- A line `ssh -J server host` or `ssh -pport -J server host`.
unfoldable pub read_jump : Text → Option Jump
unfolding strip_prefix cut_first read_jump_to
read_jump line = do
  options ← strip_prefix (bytes "ssh -") line
  elim (strip_prefix (bytes "J ") options) [
    | some words ↦ read_jump_to 22 words
    | none ↦ strip_prefix (bytes "p") options >>= (λ s. after_port (cut_first b' ' s))
  ]
