-- ===== src/Session/Requests/Blocking.antt =====
-- ssh/session.go: when a session without a console stops to be served.
use remotemoe.Prelude.{ℕ, ◌≤◌, ◌≡◌, refl, true, List, ◌∷◌, some, length}
use remotemoe.Text.{Text}
use remotemoe.Disk.{Env}
use remotemoe.Session.{msgs_capacity, disable_timeout}
use remotemoe.Session.Requests.{
  Request, tcpip_forward, Handler, goes, blocks, inform_forward, register, handle_request,
  handle_requests,
}
use remotemoe.Session.Requests.Sends.{stored, not_sent}

module _ (bold warning : Text → Text) (hostname : Text) (env : Env) where
  register_again :
      (h : Handler) → h.session.registered ≡ true → register bold warning hostname env h ≡ goes h
  unfolding register
  register_again h before = rw before

  inform_forward-full :
      (p : ℕ) (h : Handler)
      → msgs_capacity ≤ length h.session.msgs
      → inform_forward bold warning hostname p h ≡ blocks h
  unfolding inform_forward
  inform_forward-full p h l = not_sent _ h l

  request-blocks :
      (p : ℕ) (h : Handler)
      → h.session.registered ≡ true
      → msgs_capacity ≤ length h.session.msgs
      → handle_request bold warning hostname env (tcpip_forward (some p)) h ≡ blocks (stored p h)
  unfolding handle_request disable_timeout
  request-blocks p h before l =
      rw (register_again (stored p h) before, inform_forward-full p (stored p h) l)

  -- A registered session to which 50 messages wait is not served any more: its next tcpip-forward
  -- is never answered, nor is any request behind it.
  pub handle_requests-blocks :
      (p : ℕ) (qs : List Request) (h : Handler)
      → h.session.registered ≡ true
      → msgs_capacity ≤ length h.session.msgs
      → (g : Handler) × (handle_requests bold warning hostname env (tcpip_forward (some p) ∷ qs) h
          ≡ blocks g)
        × (g.replies ≡ h.replies)
  unfolding handle_requests
  handle_requests-blocks p qs h before l = (stored p h, rw (request-blocks p h before l), refl)
