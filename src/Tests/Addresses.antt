-- ===== src/Tests/Addresses.antt =====
-- Addresses and ports at concrete texts.
use remotemoe.Prelude.{◌≡◌, refl, some, none}
use remotemoe.Text.{bytes}
use remotemoe.Net.{
  split, addr_error, too_many_colons, split_host_port, cut_last, split_bracketed, split_plain,
}
use remotemoe.Net.Decimal.{decimal, parse_uint32}

name_and_port : split_host_port (bytes "a.b:80") ≡ split (bytes "a.b") (bytes "80")
unfolding split_host_port cut_last split_bracketed split_plain
name_and_port = refl

ip_v6_and_port : split_host_port (bytes "[::1]:80") ≡ split (bytes "::1") (bytes "80")
unfolding split_host_port cut_last split_bracketed split_plain
ip_v6_and_port = refl

bare_ip_v6 : split_host_port (bytes "::1:80") ≡ addr_error too_many_colons
unfolding split_host_port cut_last split_bracketed split_plain
bare_ip_v6 = refl

printed : decimal 8080 ≡ bytes "8080"
unfolding decimal
printed = refl

printed_zero : decimal 0 ≡ bytes "0"
unfolding decimal
printed_zero = refl

largest : parse_uint32 (bytes "4294967295") ≡ some 4294967295
unfolding parse_uint32
largest = refl

too_large : parse_uint32 (bytes "4294967296") ≡ none
unfolding parse_uint32
too_large = refl
