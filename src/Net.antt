-- ===== src/Net.antt =====
-- Addresses of Go's package net: SplitHostPort and JoinHostPort, and strconv.ParseUint and the verb
-- %d for ports.
pub mod RoundTrip
pub mod Decimal
pub mod Shape
use remotemoe.Prelude.{
  ℕ, zero, suc, ◌+◌, ◌-◌, Bool, true, false, not, ◌&&◌, ◌||◌, List, [], ◌∷◌, ◌++◌, Option, none,
  some, ◌==◌, if◌then◌else◌, arith,
}
use remotemoe.Text.{Text}

pub data AddrError : Type 0 where
  missing_port too_many_colons missing_bracket unexpected_open unexpected_close : AddrError

pub data Split : Type 0 where
  split : Text → Text → Split
  addr_error : AddrError → Split

unfoldable pub contains : ℕ → Text → Bool
contains b [] = false
contains b (c ∷ s) = c == b || contains b s

abbrev cut_more : ℕ → Option (Text × Text) → Option (Text × Text)
cut_more c none = none
cut_more c (some (s, t)) = some (c ∷ s, t)

-- What stands before and behind the first byte `b`.
unfoldable pub cut_first : ℕ → Text → Option (Text × Text)
cut_first b [] = none
cut_first b (c ∷ s) = let rest = cut_first b s in if c == b then some ([], s) else cut_more c rest

-- What stands before and behind the last byte `b`.
abbrev cut_later : ℕ → ℕ → Text → Option (Text × Text) → Option (Text × Text)
cut_later b c s (some (u, v)) = some (c ∷ u, v)
cut_later b c s none = if c == b then some ([], s) else none

unfoldable pub cut_last : ℕ → Text → Option (Text × Text)
cut_last b [] = none
cut_last b (c ∷ s) = cut_later b c s (cut_last b s)

-- The checks that both forms share: no '[' in the address behind the first bracket, no ']' behind
-- the host.
abbrev checked : Bool → Bool → Text → Text → Split
checked opens closes host port =
    if opens
    then addr_error unexpected_open
    else if closes
    then addr_error unexpected_close
    else split host port

-- `[host]:port`; `s` is the address without its first bracket.
abbrev after_bracket : Text → Text → Text → Split
after_bracket s host [] = addr_error missing_port
after_bracket s host (c ∷ t) =
    if c == b':'
    then (if contains b':' t
        then addr_error too_many_colons
        else checked (contains b'[' s) (contains b']' (c ∷ t)) host t)
    else addr_error missing_port

unfoldable pub split_bracketed : Text → Split
unfolding contains cut_first
split_bracketed s = elim (cut_first b']' s) [
  | none ↦ addr_error missing_bracket
  | some (host, t) ↦ after_bracket s host t
]

unfoldable pub split_plain : Text → Text → Text → Split
unfolding contains
split_plain s host port =
    if contains b':' host
    then addr_error too_many_colons
    else checked (contains b'[' s) (contains b']' s) host port

abbrev split_at : Text → Text → Text → Split
split_at [] host port = addr_error missing_port
split_at (c ∷ s) host port = if c == b'[' then split_bracketed s else split_plain (c ∷ s) host port

unfoldable pub split_host_port : Text → Split
split_host_port s = elim (cut_last b':' s) [
  | none ↦ addr_error missing_port
  | some (host, port) ↦ split_at s host port
]

unfoldable pub join_host_port : Text → Text → Text
unfolding contains
join_host_port host port =
    if contains b':' host then b'[' ∷ host ++ b']' ∷ b':' ∷ port else host ++ b':' ∷ port
