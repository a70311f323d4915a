-- ===== src/Route.antt =====
-- routertwo/host.go, routertwo/namedroute.go and routertwo/intermediate.go: what the router routes
-- to, and the form in which a route is kept in a file.
use remotemoe.Prelude.{ℕ, Bool, true, false, Option, none, some}
use mathlib.Core.Option
use remotemoe.Text.{Text}
use remotemoe.Text.Lower.{to_lower}

-- A Routable that calls the router, in the program a *Session: `id` is the pointer's identity,
-- `fqdn` the answer of FQDN(), which does not change.
pub record Peer : Type 0 where
  pub id : ℕ
  pub fqdn : Text

pub record Host : Type 0 where
  pub routable : Option Peer
  pub name : Text
  pub last_seen : ℕ
  pub created : ℕ

-- `ref` is the identity of the *NamedRoute, `wired` tells that its router has been set.
pub record NamedRoute : Type 0 where
  pub ref : ℕ
  pub name : Text
  pub owner : Text
  pub wired : Bool

pub data Route : Type 0 where
  host_route : Host → Route
  name_route : NamedRoute → Route

-- FQDN() of either kind.
abbrev pub fqdn : Route → Text
fqdn (host_route h) = h.name
fqdn (name_route n) = n.name

-- The session on which Host.Replaced calls Replaced, if any.
unfoldable pub replaced : Host → Option Peer
replaced h = h.routable

-- NewName, at the address `ref`.
unfoldable pub new_name : (Text → Text) → ℕ → Text → Peer → NamedRoute
new_name unicode_lower ref s p = record {
  ref = ref;
  name = to_lower unicode_lower s;
  owner = p.fqdn;
  wired = false;
}

pub record Intermediate : Type 0 where
  pub host : Option Host
  pub named_route : Option NamedRoute

abbrev pub of_host : Host → Intermediate
of_host h = record { host = some h; named_route = none }

abbrev pub of_name : NamedRoute → Intermediate
of_name n = record { host = none; named_route = some n }

-- The exported fields, which the JSON form keeps: neither the session of a host nor the router of
-- a name, and no address.
unfoldable pub exported : Intermediate → Intermediate
exported i = record {
  host = Option.map (λ (h : Host). record h { routable = none }) i.host;
  named_route = Option.map (λ (n : NamedRoute). record n { ref = 0; wired = false }) i.named_route;
}

-- Decoding allocates a new NamedRoute at `ref`.
unfoldable pub allocated : ℕ → Intermediate → Intermediate
allocated ref i = record {
  host = i.host;
  named_route = Option.map (λ (n : NamedRoute). record n { ref = ref }) i.named_route;
}

-- Wake, whose error is `none`.
abbrev wake_parts : Option Host → Option NamedRoute → Option Route
wake_parts (some h) n = some (host_route h)
wake_parts none (some n) = some (name_route (record n { wired = true }))
wake_parts none none = none

unfoldable pub wake : Intermediate → Option Route
wake i = wake_parts i.host i.named_route
