-- ===== src/Commands/Access/Jumps.antt =====
-- ssh/command/access.go, ssh/session.go and routertwo: where the ssh commands lead that access prints.
use remotemoe.Prelude.{
  ℕ, suc, ◌<◌, ◌≡◌, ◌≢◌, refl, ap, ◌∙◌, Bool, true, ◌++◌, some, In, In-append_right, inl, inr,
  arith,
}
use remotemoe.Text.{Text, bytes, text_eq}
use remotemoe.Dict.{lookup}
use remotemoe.Net.RoundTrip.{IsPlain}
use remotemoe.Net.Decimal.{u32_mod}
use remotemoe.Route.{Peer, Host, host_route}
use remotemoe.Services.{ssh}
use remotemoe.Session.{Session, Timer, running, fired, stopped, stop, has_port, disable_timeout}
use remotemoe.Router.{Router, find}
use remotemoe.Router.History.{World, IsValid}
use remotemoe.Session.Dials.{connected, accept_forward_request, served, served_lem, to_lem}
use remotemoe.Commands.Access.{
  jump_line, service_ports, hosts_of, access, http_part, https_part, ssh_part, ssh_hint, opening,
}
use remotemoe.Commands.Access.Laws.{In-section_iff}
use remotemoe.Commands.Access.Reading.{read_jump}
use remotemoe.Commands.Access.Reading.Laws.{IsWord, read_jump-jump_line}
use remotemoe.Commands.Access.Urls.{dial-hosts_of}

ssh_port : (p : ℕ) → In p (service_ports ssh) → p < u32_mod
unfolding service_ports text_eq lookup
ssh_port p (inl e) = rw e (omega arith)
ssh_port p (inr (inl e)) = rw e (omega arith)
ssh_port p (inr (inr (inl e))) = rw e (omega arith)
ssh_port p (inr (inr (inr m))) = absurd m

jump_listed :
    (hostname : Text) (s : Session) (r : Router) (host : Text) (p : ℕ)
    → In p (service_ports ssh)
    → has_port p s.services ≡ true
    → In host (hosts_of s r)
    → In (jump_line hostname p host) (access hostname s r)
unfolding access
jump_listed hostname s r host p i f j =
    In-append_right (jump_line hostname p host)
      ((opening s.services ++ http_part (hosts_of s r) s.services)
        ++ https_part (hosts_of s r) s.services)
      (ssh_part hostname (hosts_of s r) s.services)
      ((In-section_iff (λ q k. jump_line hostname q k) ssh (bytes "SSH") ssh_hint (hosts_of s r)
          s.services (jump_line hostname p host)).1
        (inr (inl (p, host, i, f, j, refl))))

timer_stops : (t : Timer) → (stop t).1 ≢ running
timer_stops running e = cc
timer_stops fired e = cc
timer_stops stopped e = cc

served_there :
    (session_of : Peer → Session) (q : Peer) (p : ℕ) (caller : Session)
    → has_port p (session_of q).services ≡ true
    → served session_of (some true) true q p caller ≡ (disable_timeout caller, connected q p)
served_there session_of q p caller f = rw f refl

-- Every ssh command of `access` works. In a well-formed router in which the session is online, with a
-- name without brackets: for each ssh port that the session forwards, and each of its names (without
-- bracket, and a word without colon, as the name of the server is), `access` prints a line that ssh
-- reads as a jump to that name and port, through the server at the same port, 22 if none is written.
-- The direct-tcpip request for that host and port, which the jump makes in a session of its own, is
-- connected to the session, if the channels open, and the idle timer of the caller does not run
-- afterwards, and is disabled.
pub access_jumps_open :
    (unicode_lower : Text → Text) (is_key : Text → Bool) (session_of : Peer → Session)
    (hostname host : Text) (p : ℕ) (w : World) (fuel : ℕ) (s caller : Session) (h : Host)
    → IsValid unicode_lower is_key w
    → find s.peer.fqdn w.router ≡ some (host_route h)
    → h.routable ≡ some s.peer
    → IsPlain s.peer.fqdn
    → session_of s.peer ≡ s
    → In p (service_ports ssh)
    → has_port p s.services ≡ true
    → In host (hosts_of s w.router)
    → IsPlain host
    → IsWord host
    → IsWord hostname
    → (line : Text) × In line (access hostname s w.router)
      × (read_jump line
          ≡ some (record { server = hostname; server_port = p; host = host; port = p }))
      × (t : Session) × (accept_forward_request session_of
            (some true)
            true
            (suc (suc fuel))
            w.router
            (some (record { addr = host; rport = p }))
            caller
          ≡ some (t, connected s.peer p))
      × (t.idle_timeout ≢ running)
      × (t.idle_disabled ≡ true)
unfolding accept_forward_request disable_timeout
access_jumps_open unicode_lower is_key session_of hostname host p w fuel s caller h v online here
      plain own i f j c d e =
    (
      jump_line hostname p host,
      jump_listed hostname s w.router host p i f j,
      read_jump-jump_line hostname host p e d (ssh_port p i),
      disable_timeout caller,
      rw
          (
            to_lem session_of (some true) true (record { addr = host; rport = p }) d.2,
            dial-hosts_of unicode_lower is_key w v fuel s h online here plain host p c j,
            served_lem session_of (some true) true s.peer s.peer.fqdn p caller plain (ssh_port p i),
            served_there session_of s.peer p caller (ap (λ x. has_port p x.services) own ∙ f),
          )
          refl,
      timer_stops caller.idle_timeout,
      refl,
    )
