-- ===== src/Commands/Snippets/Laws.antt =====
-- ssh/command/autossh.go, unitfile.go and ssh/session.go: a client that follows the snippets of a session
-- forwards the same ports.
use remotemoe.Prelude.{
  ℕ, ◌+◌, ◌≤◌, ◌≡◌, refl, ap, ◌∙◌, false, [], ◌∷◌, ◌++◌, some, map, arith, length,
}
use remotemoe.Text.{Text, bytes}
use remotemoe.Disk.{Env}
use remotemoe.Net.{contains}
use remotemoe.Net.RoundTrip.{contains-append}
use remotemoe.Session.{Session, msgs_capacity, has_port}
use remotemoe.Session.Requests.{tcpip_forward, Handler, goes, handle_requests}
use remotemoe.Session.Requests.Replies.{handle_requests-goes}
use remotemoe.Session.Requests.Sends.{pending}
use remotemoe.Commands.Snippets.{
  autossh_template, autossh_begin, autossh_end, autossh, unitfile_begin, unitfile_end, unitfile,
}
use remotemoe.Commands.Snippets.Arguments.{
  argument_port, asked_ports, AreU32, argument_port-absent, asked_snippet, asks_port-asked,
  forwards-asked,
}

line_colon :
    (before hostname after : Text)
    → contains b':' before ≡ false
    → contains b':' after ≡ false
    → contains b':' hostname ≡ false
    → contains b':' (before ++ hostname ++ after) ≡ false
line_colon before hostname after b a h =
    rw
      (
        contains-append b':' (before ++ hostname) after,
        contains-append b':' before hostname,
        b,
        a,
        h,
      )
      refl

asked_autossh :
    (hostname : Text) (s : Session)
    → contains b':' hostname ≡ false
    → AreU32 s.services
    → asked_ports (autossh hostname s) ≡ s.services
unfolding autossh argument_port contains
asked_autossh hostname s c v =
    asked_snippet (autossh_template s.services ∷ autossh_begin) autossh_end s.services
      (bytes "  " ++ hostname ++ bytes " -N\r\n") v refl
      (argument_port-absent (bytes "  " ++ hostname ++ bytes " -N\r\n")
        (line_colon (bytes "  ") hostname (bytes " -N\r\n") refl refl c))
      refl

asked_unitfile :
    (hostname : Text) (s : Session)
    → contains b':' hostname ≡ false
    → AreU32 s.services
    → asked_ports (unitfile hostname s) ≡ s.services
unfolding unitfile argument_port contains
asked_unitfile hostname s c v =
    asked_snippet unitfile_begin unitfile_end s.services (bytes "  " ++ hostname ++ bytes " -N\n") v
      refl
      (argument_port-absent (bytes "  " ++ hostname ++ bytes " -N\n")
        (line_colon (bytes "  ") hostname (bytes " -N\n") refl refl c))
      refl

-- The arguments -R in what `session autossh` and `session unitfile` print ask for exactly the ports
-- that the session forwards (of which each fits into 32 bits, while the server's name holds no colon).
-- A session without ports that serves these requests, while their messages fit, provides exactly the
-- same ports.
pub snippets_restore :
    (bold warning : Text → Text) (hostname : Text) (env : Env) (s : Session) (h : Handler)
    → contains b':' hostname ≡ false
    → AreU32 s.services
    → h.session.services ≡ []
    → length h.session.msgs + pending h + length s.services ≤ msgs_capacity
    → (asked_ports (autossh hostname s) ≡ s.services)
      × (asked_ports (unitfile hostname s) ≡ s.services)
      × (g : Handler) × (handle_requests bold warning hostname env
            (map (λ p. tcpip_forward (some p)) (asked_ports (autossh hostname s)))
            h
          ≡ goes g)
      × ((p : ℕ) → has_port p g.session.services ≡ has_port p s.services)
snippets_restore bold warning hostname env s h c v empty room =
    let asked = asked_autossh hostname s c v in
    let requests = map (λ p. tcpip_forward (some p)) s.services in
    let (g, e, replies, provides) =
      handle_requests-goes bold warning hostname env requests h
        (rw (forwards-asked s.services) room) in
    (
      asked,
      asked_unitfile hostname s c v,
      g,
      ap (λ ps. handle_requests bold warning hostname env (map (λ p. tcpip_forward (some p)) ps) h)
            asked
          ∙ e,
      λ p. ground (arith, provides p, asks_port-asked p s.services, empty),
    )
