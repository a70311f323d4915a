-- ===== src/Session/Lifetime/Waits.antt =====
-- ssh/session.go: handleChannels while another client leaves a request for a channel without an answer.
use remotemoe.Prelude.{suc, ℕ, ◌<◌, ◌≡◌, refl, Bool, true, false, List, [], ◌∷◌, Option, none, some}
use remotemoe.Net.{contains}
use remotemoe.Net.RoundTrip.{IsPlain}
use remotemoe.Net.Decimal.{u32_mod}
use remotemoe.Route.{Peer, Host, host_route}
use remotemoe.Router.{find}
use remotemoe.Session.{Session, has_port}
use remotemoe.Session.Dials.{DirectTcpip, waits_for_ever, served, forward_reaches_host}
use remotemoe.Session.Lifetime.{
  NewChannel, direct_tcpip, Met, ChannelEnd, forwarded, handle_channel, handle_channels,
  after_round,
}

served_waits :
    (session_of : Peer → Session) (accepts : Bool) (p : Peer) (q : ℕ) (s : Session)
    → has_port q (session_of p).services ≡ true
    → served session_of none accepts p q s ≡ (s, waits_for_ever)
served_waits session_of accepts p q s e = rw e refl

after_wait :
    (s : Session) (o : Option (Session × List ChannelEnd))
    → after_round (forwarded waits_for_ever) s o ≡ some (s, forwarded waits_for_ever ∷ [])
after_wait s none = refl
after_wait s (some x) = refl

-- The bug: the channels of a session wait for the client of another. When the session serves a
-- direct-tcpip request to the name of a host with a session, without colon or bracket, for a port
-- below 2^32 that it provides, and the client of that session does not answer the request for a
-- channel, then no request behind it is served, whatever it is, and the session stays as it was.
pub open_waits :
    (m : Met) (qs : List (Met × NewChannel)) (fuel : ℕ) (s : Session) (f : DirectTcpip) (h : Host)
    (p : Peer)
    → m.opens ≡ none
    → IsPlain f.addr
    → contains b':' f.addr ≡ false
    → f.rport < u32_mod
    → find f.addr m.router ≡ some (host_route h)
    → h.routable ≡ some p
    → has_port f.rport (m.session_of p).services ≡ true
    → handle_channels (suc fuel) ((m, direct_tcpip (some f)) ∷ qs) s
      ≡ some (s, forwarded waits_for_ever ∷ [])
unfolding handle_channels handle_channel
open_waits m qs fuel s f h p silent plain c l there online provided =
    let met =
      forward_reaches_host m.session_of none m.accepts fuel m.router f s h p plain c l there
        online in
    rw (silent, met, served_waits m.session_of m.accepts p f.rport s provided)
      (after_wait s (handle_channels (suc fuel) qs s))
