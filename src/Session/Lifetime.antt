-- ===== src/Session/Lifetime.antt =====
-- ssh/session.go: the life of a session: handleChannels, KeepAlive, Replaced and the end of Handle.
pub mod Channels
pub mod Takeover
pub mod Waits
mod KeepAlive
use remotemoe.Prelude.{
  ℕ, Bool, true, false, ◌||◌, List, [], ◌∷◌, ◌++◌, Option, none, some, if◌then◌else◌, ◌>>=◌,
}
use remotemoe.Text.{Text, bytes}
use remotemoe.Route.{Peer}
use remotemoe.Disk.{Env}
use remotemoe.Router.{Router}
use remotemoe.Router.Calls.{offline}
use remotemoe.Session.{Session, Timer, running, fired, stopped, stop, disable_timeout}
use remotemoe.Session.Requests.{Handler, Progress, goes, blocks, ◌then◌, send}
use remotemoe.Session.Dials.{
  DirectTcpip, Accepted, connected, bad_payload, accept_failed, waits_for_ever, not_dialed,
  not_opened, accept_forward_request,
}

-- A request for a channel, by its type.
pub data NewChannel : Type 0 where
  direct_tcpip : Option DirectTcpip → NewChannel
  session_channel unknown_channel : NewChannel

-- What a request for a channel meets: the router and the sessions at that time, whether the other
-- session's client opens a channel, if it answers, and whether the own one can be accepted.
pub record Met : Type 0 where
  pub router : Router
  pub session_of : Peer → Session
  pub opens : Option Bool
  pub accepts : Bool

-- What handleChannels does with it: the end of acceptForwardRequest, a console, or only a line in the
-- log.
pub data ChannelEnd : Type 0 where
  forwarded : Accepted → ChannelEnd
  console no_console ignored : ChannelEnd

abbrev forwarded_end : Option (Session × Accepted) → Option (Session × ChannelEnd)
forwarded_end none = none
forwarded_end (some (s, a)) = some (s, forwarded a)

-- One round of handleChannels. `none` tells that a dial is deeper than the fuel.
unfoldable pub handle_channel : ℕ → Met → NewChannel → Session → Option (Session × ChannelEnd)
unfolding accept_forward_request
handle_channel fuel m (direct_tcpip payload) s =
    forwarded_end (accept_forward_request m.session_of m.opens m.accepts fuel m.router payload s)
handle_channel fuel m session_channel s = some (s, if m.accepts then console else no_console)
handle_channel fuel m unknown_channel s = some (s, ignored)

abbrev pub is_waiting : ChannelEnd → Bool
is_waiting (forwarded waits_for_ever) = true
is_waiting (forwarded (connected p q)) = false
is_waiting (forwarded bad_payload) = false
is_waiting (forwarded accept_failed) = false
is_waiting (forwarded (not_dialed d)) = false
is_waiting (forwarded (not_opened o)) = false
is_waiting console = false
is_waiting no_console = false
is_waiting ignored = false

-- A round and what follows it, if it ends.
abbrev pub after_round :
    ChannelEnd → Session → Option (Session × List ChannelEnd) → Option (Session × List ChannelEnd)
after_round e t none = if is_waiting e then some (t, e ∷ []) else none
after_round e t (some (u, es)) = if is_waiting e then some (t, e ∷ []) else some (u, e ∷ es)

-- handleChannels, until the connection ends, or a round of it does not.
unfoldable pub handle_channels :
    ℕ → List (Met × NewChannel) → Session → Option (Session × List ChannelEnd)
unfolding handle_channel
handle_channels fuel [] s = some (s, [])
handle_channels fuel ((m, q) ∷ qs) s = do
  (t, e) ← handle_channel fuel m q s
  after_round e t (handle_channels fuel qs t)

-- Forwards: a copy of the ports.
unfoldable pub forwarded_ports : Session → List ℕ
forwarded_ports s = s.services

-- A session with the timer that calls KeepAlive.
pub record Life : Type 0 where
  pub session : Session
  pub keep_alive_timer : Timer

-- How SendRequest ends: whether the race was lost before, and whether it failed.
pub record Answer : Type 0 where
  pub late : Bool
  pub failed : Bool

abbrev closed_life : Life → Life
closed_life l = record l { session = record l.session { closed = true } }

-- KeepAlive
unfoldable pub keep_alive : Answer → Life → Life
keep_alive a l =
    let raced = if a.late then closed_life l else l in
    if a.failed then closed_life raced else record raced { keep_alive_timer = running }

-- KeepAlive each time the timer runs out, by the answers.
unfoldable pub keep_alives : List Answer → Life → Life
unfolding keep_alive
keep_alives [] l = l
keep_alives (a ∷ rest) l = elim l.keep_alive_timer [
  | running ↦ keep_alives rest (keep_alive a (record l { keep_alive_timer = fired }))
  | fired ↦ l
  | stopped ↦ l
]

-- The end of Handle.
unfoldable pub end_handle : Env → Life → Router → Life × Router
unfolding offline disable_timeout
end_handle env l r = (
  record { session = disable_timeout l.session; keep_alive_timer = (stop l.keep_alive_timer).1 },
  offline env l.session.peer r,
)

module _ (warning : Text → Text) where
  abbrev pub bye : Text
  bye =
      warning (bytes "warn")
      ++ bytes
          ": this session will be closed, another session just opened with the same publickey, bye!"

  -- Replaced, but for the half second that it leaves the consoles before it closes.
  unfoldable pub tell_replaced : Handler → Progress
  unfolding send
  tell_replaced h =
      send bye h then (λ g. goes (record g { session = record g.session { closed = true } }))
