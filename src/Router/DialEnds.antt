-- ===== src/Router/DialEnds.antt =====
-- routertwo/router.go, namedroute.go and host.go: where a dial that reaches a session ends.
use remotemoe.Prelude.{ℕ, zero, suc, ◌≡◌, refl, Option, none, some, arith}
use remotemoe.Text.{Text}
use remotemoe.Route.{Peer, Host, NamedRoute, Route, host_route, name_route}
use remotemoe.Router.{Router, find}
use remotemoe.Net.{Split, split, addr_error, split_host_port, join_host_port}
use remotemoe.Router.Dial.{
  Dialed, reaches, dial, dial_host, dial_name, redial, dial_route, dial_split,
}

-- Where a dial that reaches a session has ended.
abbrev Ends : Router → Peer → Type 0
Ends r p = (k : Text) × (h : Host) × (find k r ≡ some (host_route h)) × (h.routable ≡ some p)

dial_host-Ends :
    (h : Host) (address target : Text) (p : Peer)
    → some (dial_host h address) ≡ some (reaches p target)
    → h.routable ≡ some p
unfolding dial_host
dial_host-Ends h address target p e = ground (arith, e)

redial-Ends :
    (r : Router) (again : Text → Option Dialed) (n : NamedRoute) (s : Split) (target : Text)
    (p : Peer)
    → ((a : Text) → again a ≡ some (reaches p target) → Ends r p)
    → redial again n s ≡ some (reaches p target)
    → Ends r p
redial-Ends r again n (addr_error x) target p ih e = absurd (ground (arith, e))
redial-Ends r again n (split host port) target p ih e =
    ih (join_host_port n.owner port) (ground (arith, e))

route-Ends :
    (r : Router) (again : Text → Option Dialed) (host address target : Text) (p : Peer)
    (o : Option Route)
    → find host r ≡ o
    → ((a : Text) → again a ≡ some (reaches p target) → Ends r p)
    → dial_route again host address o ≡ some (reaches p target)
    → Ends r p
unfolding dial_name
route-Ends r again host address target p none f ih e = absurd (ground (arith, e))
route-Ends r again host address target p (some (host_route h)) f ih e =
    (host, h, f, dial_host-Ends h address target p e)
route-Ends r again host address target p (some (name_route n)) f ih e =
    redial-Ends r again n (split_host_port address) target p ih e

split-Ends :
    (r : Router) (again : Text → Option Dialed) (address target : Text) (p : Peer) (s : Split)
    → ((a : Text) → again a ≡ some (reaches p target) → Ends r p)
    → dial_split again r address s ≡ some (reaches p target)
    → Ends r p
split-Ends r again address target p (addr_error x) ih e = absurd (ground (arith, e))
split-Ends r again address target p (split host port) ih e =
    route-Ends r again host address target p (find host r) refl ih e

pub dial-Ends :
    (fuel : ℕ) (r : Router) (address target : Text) (p : Peer)
    → dial fuel r address ≡ some (reaches p target)
    → Ends r p
unfolding dial
dial-Ends zero r address target p e = absurd (ground (arith, e))
dial-Ends (suc fuel) r address target p e =
    split-Ends r (λ a. dial fuel r a) address target p (split_host_port address)
      (λ a q. dial-Ends fuel r a target p q) e
