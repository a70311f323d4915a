-- ===== src/Proxy.antt =====
-- http/proxy.go: the director of the reverse proxy, which finds from the host of a request and the
-- local address of its connection where the request goes.
pub mod Laws
pub mod Server
use remotemoe.Prelude.{ℕ, List, [], ◌∷◌, ◌++◌, Option, none, some, ◌==◌, if◌then◌else◌}
use remotemoe.Text.{Text}
use remotemoe.Net.{Split, split, addr_error, split_host_port}
use remotemoe.Net.Decimal.{parse_from}
use remotemoe.Services.{service_of, ports}

-- The host and the scheme of the URL that the request goes to.
pub record Url : Type 0 where
  pub host : Text
  pub scheme : Text

-- The host of an address; `whole` where it cannot be split.
abbrev pub host_or : Text → Split → Text
host_or whole (addr_error e) = whole
host_or whole (split host port) = host

-- The port of an address; "" where it cannot be split.
abbrev pub port_or : Split → Text
port_or (addr_error e) = []
port_or (split host port) = port

-- strconv.Atoi, as far as `Ports` knows the result: digits behind an optional plus sign. The
-- negative numbers, and 0 and the largest number, which stand for errors, have no service.
unfoldable pub atoi : Text → Option ℕ
unfolding parse_from
atoi [] = none
atoi (c ∷ s) = if c == b'+' then parse_from 0 s else parse_from 0 (c ∷ s)

abbrev pub scheme_of : Option ℕ → Text
scheme_of none = []
scheme_of (some p) = elim (service_of p ports) [ none ↦ [] | some s ↦ s ]

-- The director, on `r.Host` and the local address of the connection.
unfoldable pub director : Text → Text → Url
unfolding atoi
director request_host local_addr =
    let host = host_or request_host (split_host_port request_host) in
    let dst_port = port_or (split_host_port local_addr) in
    record { host = host ++ b':' ∷ dst_port; scheme = scheme_of (atoi dst_port) }
