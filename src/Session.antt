-- ===== src/Session.antt =====
-- ssh/session.go and ssh/msgs.go: a session's ports, its idle timer, its messages to the user, the
-- global requests that it serves, and the dials that it takes.
pub mod Idle
pub mod Requests
pub mod Dials
pub mod Lifetime
pub mod Fingerprint
use remotemoe.Prelude.{
  ℕ, ◌+◌, ◌==◌, Bool, true, false, List, [], ◌∷◌, ◌++◌, Option, none, some, if◌then◌else◌, length,
  ltb,
}
use remotemoe.Text.{Text, bytes}
use remotemoe.Route.{Peer}

-- A timer of AfterFunc: it runs, it has called its function, or it was stopped before.
pub data Timer : Type 0 where
  running fired stopped : Timer

pub record Session : Type 0 where
  pub peer : Peer
  pub services : List ℕ
  pub msgs : List Text
  pub registered : Bool
  pub idle_timeout : Timer
  pub idle_disabled : Bool
  pub closed : Bool

-- Handle, up to the loops over the channels. `peer` has the FQDN of the public key.
abbrev pub new_session : Peer → Session
new_session p = record {
  peer = p;
  services = [];
  msgs = [];
  registered = false;
  idle_timeout = running;
  idle_disabled = false;
  closed = false;
}

abbrev pub msgs_capacity : ℕ
msgs_capacity = 50

-- FQDN: the extension "pubkey-ish" of the permissions and the name of the server.
unfoldable pub session_fqdn : Text → Text → Text
session_fqdn pubkey_ish hostname = pubkey_ish ++ b'.' ∷ hostname

-- Timer.Stop: whether it stopped the timer, and the timer afterwards.
abbrev pub stop : Timer → Bool × Timer
stop running = (true, stopped)
stop fired = (false, fired)
stop stopped = (false, stopped)

-- PokeTimeout
unfoldable pub poke_timeout : Session → Session
poke_timeout s =
    if s.idle_disabled
    then s
    else (if (stop s.idle_timeout).0
        then record s { idle_timeout = running }
        else record s { idle_timeout = (stop s.idle_timeout).1 })

-- DisableTimeout
unfoldable pub disable_timeout : Session → Session
disable_timeout s = record s { idle_timeout = (stop s.idle_timeout).1; idle_disabled = true }

-- The timer runs out, if it runs, and calls Timeout, which closes the connection.
unfoldable pub time_out : Session → Session
time_out s = elim s.idle_timeout [
  | running ↦ record s { idle_timeout = fired; closed = true }
  | fired ↦ s
  | stopped ↦ s
]

-- Whether the ports of a session hold a port.
abbrev pub has_port : ℕ → List ℕ → Bool
has_port p [] = false
has_port p (q ∷ ps) = if q == p then true else has_port p ps

-- `services[p] = struct{}{}`
abbrev pub add_port : ℕ → List ℕ → List ℕ
add_port p ps = if has_port p ps then ps else p ∷ ps
