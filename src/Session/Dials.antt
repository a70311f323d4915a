-- ===== src/Session/Dials.antt =====
-- ssh/session.go and ssh/msgs.go: Session.DialContext, and the direct-tcpip requests that
-- acceptForwardRequest serves.
use remotemoe.Prelude.{
  ℕ, suc, ◌<◌, ◌≡◌, refl, Bool, true, false, ◌∷◌, ◌++◌, Option, none, some, if◌then◌else◌,
}
use remotemoe.Text.{Text}
use remotemoe.Net.{AddrError, Split, split, addr_error, split_host_port, contains, join_host_port}
use remotemoe.Net.Decimal.{
  decimal, is_digit, parse_uint32, u32_mod, parse_uint32-decimal, contains-decimal,
}
use remotemoe.Net.RoundTrip.{IsPlain, split_host_port-join_host_port}
use remotemoe.Route.{Peer, Host, host_route}
use remotemoe.Router.{Router, find}
use remotemoe.Router.Dial.{
  Dialed, reaches, bad_address, unknown_host, peer_offline, nil_router, dial, dial_host,
}
use remotemoe.Router.DialLaws.{dial_join}
use remotemoe.Session.{Session, disable_timeout, has_port}

-- How Session.DialContext ends: with a channel "forwarded-tcpip" for a port, or with an error; or it
-- does not end, since OpenChannel waits for an answer that the client does not give.
pub data Opened : Type 0 where
  channel not_provided : ℕ → Opened
  no_host_port : AddrError → Opened
  bad_port open_failed no_answer : Opened

-- OpenChannel, whose answer is `none` if the client gives none.
abbrev pub opened_channel : ℕ → Option Bool → Opened
opened_channel p none = no_answer
opened_channel p (some true) = channel p
opened_channel p (some false) = open_failed

abbrev pub opened_port : Option Bool → Session → Option ℕ → Opened
opened_port opens s none = bad_port
opened_port opens s (some p) =
    if has_port p s.services then opened_channel p opens else not_provided p

abbrev pub opened_split : Option Bool → Session → Split → Opened
opened_split opens s (addr_error e) = no_host_port e
opened_split opens s (split host port) = opened_port opens s (parse_uint32 port)

-- Session.DialContext; `opens` tells whether the client's end opens the channel, if it answers.
unfoldable pub session_dial : Option Bool → Session → Text → Opened
session_dial opens s address = opened_split opens s (split_host_port address)

-- The parts of a direct-tcpip request that the program reads.
pub record DirectTcpip : Type 0 where
  pub addr : Text
  pub rport : ℕ

-- To
unfoldable pub to : DirectTcpip → Text
to f = f.addr ++ b':' ∷ decimal f.rport

-- The end of acceptForwardRequest, which waits for ever if Session.DialContext does.
pub data Accepted : Type 0 where
  connected : Peer → ℕ → Accepted
  bad_payload accept_failed waits_for_ever : Accepted
  not_dialed : Dialed → Accepted
  not_opened : Opened → Accepted

-- What the request meets: the sessions that the router's routes stand for, whether their channels
-- open, if their clients answer, and whether the caller's channel is accepted.
module _ (session_of : Peer → Session) (opens : Option Bool) (accepts : Bool) where
  abbrev pub accept_opened : Peer → Opened → Session → Session × Accepted
  accept_opened p (channel q) s =
      if accepts then (disable_timeout s, connected p q) else (s, accept_failed)
  accept_opened p (not_provided q) s = (s, not_opened (not_provided q))
  accept_opened p (no_host_port e) s = (s, not_opened (no_host_port e))
  accept_opened p bad_port s = (s, not_opened bad_port)
  accept_opened p open_failed s = (s, not_opened open_failed)
  accept_opened p no_answer s = (s, waits_for_ever)

  abbrev pub accept_dialed : Dialed → Session → Session × Accepted
  accept_dialed (reaches p address) s =
      accept_opened p (session_dial opens (session_of p) address) s
  accept_dialed (bad_address e) s = (s, not_dialed (bad_address e))
  accept_dialed (unknown_host h) s = (s, not_dialed (unknown_host h))
  accept_dialed peer_offline s = (s, not_dialed peer_offline)
  accept_dialed nil_router s = (s, not_dialed nil_router)

  abbrev accept_payload : Option Dialed → Session → Option (Session × Accepted)
  accept_payload none s = none
  accept_payload (some d) s = some (accept_dialed d s)

  -- acceptForwardRequest of the session `s`. `none` in place of the result tells that the dial is deeper than the fuel.
  unfoldable pub accept_forward_request :
      ℕ → Router → Option DirectTcpip → Session → Option (Session × Accepted)
  unfolding session_dial
  accept_forward_request fuel r none s = some (s, bad_payload)
  accept_forward_request fuel r (some f) s = accept_payload (dial fuel r (to f)) s

pub decimal-IsPlain : (q : ℕ) → IsPlain (decimal q)
unfolding is_digit
decimal-IsPlain q = (contains-decimal b'[' q refl, contains-decimal b']' q refl)

pub decimal_colon : (q : ℕ) → contains b':' (decimal q) ≡ false
unfolding is_digit
decimal_colon q = contains-decimal b':' q refl

module _ (session_of : Peer → Session) (opens : Option Bool) (accepts : Bool) where
  -- How a request for `q` ends at the session of `p`.
  abbrev pub served : Peer → ℕ → Session → Session × Accepted
  served p q s =
      accept_opened session_of opens accepts p (opened_port opens (session_of p) (some q)) s

  pub served_lem :
      (p : Peer) (host : Text) (q : ℕ) (s : Session)
      → IsPlain host
      → q < u32_mod
      → accept_dialed session_of opens accepts (reaches p (join_host_port host (decimal q))) s
        ≡ served p q s
  unfolding session_dial
  served_lem p host q s h l = rw (
    split_host_port-join_host_port host (decimal q) h (decimal-IsPlain q) (decimal_colon q),
    parse_uint32-decimal q l,
  )

  pub to_lem :
      (f : DirectTcpip)
      → contains b':' f.addr ≡ false
      → to f ≡ join_host_port f.addr (decimal f.rport)
  unfolding to join_host_port
  to_lem f c = rw c

  -- A direct-tcpip request to the name of a host with a session, without colon or bracket, for a
  -- port below 2^32, ends at that session.
  pub forward_reaches_host :
      (fuel : ℕ) (r : Router) (f : DirectTcpip) (s : Session) (h : Host) (p : Peer)
      → IsPlain f.addr
      → contains b':' f.addr ≡ false
      → f.rport < u32_mod
      → find f.addr r ≡ some (host_route h)
      → h.routable ≡ some p
      → accept_forward_request session_of opens accepts (suc fuel) r (some f) s
        ≡ some (served p f.rport s)
  unfolding accept_forward_request dial_host
  forward_reaches_host fuel r f s h p plain c l e q = rw (
    to_lem f c,
    dial_join fuel r f.addr (decimal f.rport) plain (decimal-IsPlain f.rport)
        (decimal_colon f.rport),
    e,
    q,
    served_lem p f.addr f.rport s plain l,
  )
