-- ===== src/Router/Dial.antt =====
-- routertwo/router.go, routertwo/namedroute.go and routertwo/host.go: the three DialContext
-- methods, which call one another.
use remotemoe.Prelude.{ℕ, zero, suc, Option, none, some, if◌then◌else◌}
use remotemoe.Text.{Text}
use remotemoe.Net.{AddrError, Split, split, addr_error, split_host_port, join_host_port}
use remotemoe.Route.{Peer, Host, NamedRoute, Route, host_route, name_route}
use remotemoe.Router.{Router, find}

-- How a dial ends: at a session's DialContext with an address, or with an error. The panic is that
-- of a nil router in a NamedRoute.
pub data Dialed : Type 0 where
  reaches : Peer → Text → Dialed
  bad_address : AddrError → Dialed
  unknown_host : Text → Dialed
  peer_offline : Dialed
  nil_router : Dialed

-- Host.DialContext
unfoldable pub dial_host : Host → Text → Dialed
dial_host h address = elim h.routable [ none ↦ peer_offline | some p ↦ reaches p address ]

-- NamedRoute.DialContext, over the Router.DialContext that it calls.
abbrev pub redial : (Text → Option Dialed) → NamedRoute → Split → Option Dialed
redial router n (addr_error e) = some (bad_address e)
redial router n (split host port) =
    let rest = router (join_host_port n.owner port) in if n.wired then rest else some nil_router

unfoldable pub dial_name : (Text → Option Dialed) → NamedRoute → Text → Option Dialed
dial_name router n address = redial router n (split_host_port address)

-- Router.DialContext; `none` tells that the calls are deeper than the fuel.
abbrev pub dial_route : (Text → Option Dialed) → Text → Text → Option Route → Option Dialed
dial_route router host address none = some (unknown_host host)
dial_route router host address (some (host_route h)) = some (dial_host h address)
dial_route router host address (some (name_route n)) = dial_name router n address

abbrev pub dial_split : (Text → Option Dialed) → Router → Text → Split → Option Dialed
dial_split router r address (addr_error e) = some (bad_address e)
dial_split router r address (split host port) = dial_route router host address (find host r)

unfoldable pub dial : ℕ → Router → Text → Option Dialed
dial zero r address = none
dial (suc fuel) r address =
    let again : Text → Option Dialed = λ a. dial fuel r a in
    dial_split again r address (split_host_port address)
