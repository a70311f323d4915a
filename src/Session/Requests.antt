-- ===== src/Session/Requests.antt =====
-- ssh/session.go: handleRequests and informForward, with the channel of messages to the user, in
-- which a send waits while 50 messages are there.
pub mod Sends
pub mod Replies
pub mod Blocking
pub mod Appends
use remotemoe.Prelude.{
  ℕ, ◌==◌, Bool, true, false, List, [], ◌∷◌, ◌++◌, Option, none, some, if◌then◌else◌, length, ltb,
}
use remotemoe.Text.{Text, bytes, text_eq}
use remotemoe.Net.Decimal.{decimal}
use remotemoe.Services.{http, https, ssh, ports, service_of}
use remotemoe.Disk.{Env}
use remotemoe.Router.{Router, Result, ok, err}
use remotemoe.Router.Calls.{Onlined, online}
use remotemoe.Session.{Session, msgs_capacity, add_port, disable_timeout}

-- A global request. A tcpip-forward has the port of its payload, if that can be read.
pub data Request : Type 0 where
  keepalive : Request
  tcpip_forward : Option ℕ → Request
  unknown_request : Request

pub record Handler : Type 0 where
  pub session : Session
  pub router : Router
  pub replies : List Bool

-- The handler goes on, or waits for ever for a console that takes messages.
pub data Progress : Type 0 where
  goes blocks : Handler → Progress

infixl 5 ◌then◌
abbrev pub ◌then◌ : Progress → (Handler → Progress) → Progress
(goes h) then f = f h
(blocks h) then f = blocks h

-- `s.msgs <- m`, where nobody receives.
unfoldable pub send : Text → Handler → Progress
send m h =
    if ltb (length h.session.msgs) msgs_capacity
    then goes (record h { session = record h.session { msgs = h.session.msgs ++ m ∷ [] } })
    else blocks h

unfoldable pub reply : Bool → Handler → Handler
reply b h = record h { replies = h.replies ++ b ∷ [] }

-- The colours are package color's: how it prints a text bold, and as a warning. `hostname` is the
-- name of the server, `env` what Online meets.
module _ (bold warning : Text → Text) (hostname : Text) where
  abbrev colon_port : ℕ → Text
  colon_port p = b':' ∷ decimal p

  abbrev titled : Text → ℕ → Text
  titled s p = bold s ++ bytes " (" ++ decimal p ++ bytes ")" ++ b'\n' ∷ []

  abbrev url : Text → Text → ℕ → Text → Text
  url scheme fqdn p port =
      titled scheme p ++ scheme ++ bytes "://" ++ fqdn ++ port ++ b'/' ∷ b'\n' ∷ []

  abbrev jump : Text → ℕ → Text
  jump fqdn p =
      titled ssh p
      ++ (if p == 22
          then bytes "ssh -J " ++ hostname ++ b' ' ∷ fqdn
          else bytes "ssh -p"
            ++ decimal p
            ++ bytes " -J "
            ++ hostname
            ++ colon_port p
            ++ b' ' ∷ fqdn)
      ++ b'\n' ∷ []

  abbrev tunnel : Text → ℕ → Text
  tunnel fqdn p =
      titled (bytes "other") p
      ++ bytes "ssh -L"
      ++ decimal p
      ++ b':' ∷ fqdn
      ++ colon_port p
      ++ b' ' ∷ hostname
      ++ b'\n' ∷ []

  abbrev ashamed : ℕ → Text
  ashamed p =
      bytes "erhm port "
      ++ decimal p
      ++ bytes " - a certain developer must be ashamed of it self :)"

  -- informForward: its message, by the service of the port.
  abbrev inform_text : Text → ℕ → Option Text → Text
  inform_text fqdn p none = tunnel fqdn p
  inform_text fqdn p (some s) =
      if text_eq s http
      then url http fqdn p (if p == 80 then [] else colon_port p)
      else (if text_eq s https
          then url https fqdn p (if p == 443 then [] else colon_port p)
          else (if text_eq s ssh then jump fqdn p else ashamed p))

  unfoldable pub inform_forward : ℕ → Handler → Progress
  unfolding send
  inform_forward p h = send (inform_text h.session.peer.fqdn p (service_of p ports)) h

  abbrev pub replaced_text : Text
  replaced_text =
      warning (bytes "warn")
      ++ bytes ": this session replaced another session with the same publickey"
      ++ b'\n' ∷ []

  -- What follows Online in registerOnce.
  abbrev pub welcomed : Result Bool → Handler → Progress
  welcomed (ok true) h = send replaced_text h
  welcomed (ok false) h = goes h
  welcomed (err e) h = goes (record h { session = record h.session { closed = true } })

  unfoldable pub register : Env → Handler → Progress
  unfolding send
  register env h =
      let onlined = online env h.session.peer h.router in
      let once = record h {
        session = record h.session { registered = true };
        router = onlined.router;
      } in
      if h.session.registered then goes h else welcomed onlined.result once

  -- One round of handleRequests.
  unfoldable pub handle_request : Env → Request → Handler → Progress
  unfolding reply register inform_forward disable_timeout
  handle_request env keepalive h = goes (reply true h)
  handle_request env unknown_request h = goes (reply false h)
  handle_request env (tcpip_forward none) h = goes (reply false h)
  handle_request env (tcpip_forward (some p)) h =
      let stored = record h.session { services = add_port p h.session.services } in
      (register env (record h { session = disable_timeout stored }) then inform_forward p)
      then (λ g. goes (reply true g))

  -- handleRequests, on the requests that come in before the connection ends.
  unfoldable pub handle_requests : Env → List Request → Handler → Progress
  handle_requests env [] h = goes h
  handle_requests env (q ∷ qs) h = handle_request env q h then (λ g. handle_requests env qs g)
