-- ===== src/System/Late.antt =====
-- ssh/session.go: a request that is served after the end of its session.
use remotemoe.Prelude.{◌≡◌, ap, ◌∙◌, ℕ, false, true, some, arith}
use remotemoe.Text.{Text, text_eq_refl}
use remotemoe.Route.{Host, host_route}
use remotemoe.Disk.{Env}
use remotemoe.Router.{Router, find}
use remotemoe.Router.Calls.{online_host, offline}
use remotemoe.Router.Effects.{stores, find-online, offline-IsSynced}
use remotemoe.Router.Invariant.{IsSynced}
use remotemoe.Session.{disable_timeout}
use remotemoe.Session.Lifetime.{Life, end_handle}
use remotemoe.Session.Requests.{tcpip_forward, handle_request}
use remotemoe.System.{reached, handler}
use remotemoe.System.Live.{routable-online_host}
use remotemoe.System.Requests.{forward-ComesOnline}

-- The bug: if a session ends before it has registered, and its goroutine of requests then serves a
-- tcpip-forward that still waits in the channel of requests, while the file can be written, the name of
-- the session leads to it, although its Handle, and with it the only call of Offline, is over.
pub late_request_revives :
    (bold warning : Text → Text) (hostname : Text) (env env' : Env) (l : Life) (r : Router)
    (port : ℕ)
    → IsSynced r
    → l.session.registered ≡ false
    → stores env' ≡ true
    → (h : Host) × (find l.session.peer.fqdn
          (reached (
            handle_request bold warning hostname env'
              (tcpip_forward (some port))
              (handler (end_handle env l r).0.session (end_handle env l r).1))).router
        ≡ some (host_route h))
      × (h.routable ≡ some l.session.peer)
unfolding end_handle disable_timeout
late_request_revives bold warning hostname env env' l r port synced first can =
    let ended = offline env l.session.peer r in
    let came =
      forward-ComesOnline bold warning hostname env' port
        (handler (disable_timeout l.session) ended) first in
    let before = find l.session.peer.fqdn ended in
    (
      online_host env' l.session.peer before,
      ap (λ x. find l.session.peer.fqdn x) came.router
          ∙ find-online env' l.session.peer ended (offline-IsSynced env l.session.peer r synced)
              l.session.peer.fqdn
          ∙ ground (arith, can, text_eq_refl l.session.peer.fqdn),
      routable-online_host env' l.session.peer before,
    )
