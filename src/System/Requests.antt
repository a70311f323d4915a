-- ===== src/System/Requests.antt =====
-- ssh/session.go: what a request does to the router, wherever its handler comes.
use remotemoe.Prelude.{
  ℕ, ◌≡◌, refl, ap, ◌∙◌, Bool, true, false, none, some, inl, inr, ◌⊎◌, arith, if◌then◌else◌,
  Bool-cases,
}
use remotemoe.Text.{Text}
use remotemoe.Disk.{Env}
use remotemoe.Router.{Result, ok, err}
use remotemoe.Router.Calls.{online}
use remotemoe.Session.{disable_timeout}
use remotemoe.Session.Requests.{
  Request, keepalive, tcpip_forward, unknown_request, Handler, Progress, goes, blocks, ◌then◌, send,
  reply, inform_forward, register, welcomed, handle_request,
}
use remotemoe.Session.Requests.Sends.{stored}
use remotemoe.System.{reached}

-- The handler has the same session, registered or not, and the same router.
pub record SameRoutes (h g : Handler) : Type 0 where
  pub peer : g.session.peer ≡ h.session.peer
  pub once : g.session.registered ≡ h.session.registered
  pub router : g.router ≡ h.router

-- Or it has registered the session, by one call of Online.
pub record ComesOnline (env : Env) (h g : Handler) : Type 0 where
  pub first : h.session.registered ≡ false
  pub peer : g.session.peer ≡ h.session.peer
  pub once : g.session.registered ≡ true
  pub router : g.router ≡ (online env h.session.peer h.router).router

abbrev pub Leaves : Env → Handler → Handler → Type 0
Leaves env h g = SameRoutes h g ⊎ ComesOnline env h g

reached-then :
    (w : Progress) (f : Handler → Progress)
    → ((h : Handler) → SameRoutes h (reached (f h)))
    → SameRoutes (reached w) (reached (w then f))
reached-then (goes h) f s = s h
reached-then (blocks h) f s = record { peer = refl; once = refl; router = refl }

then_online :
    (env : Env) (h g f : Handler) → ComesOnline env h g → SameRoutes g f → ComesOnline env h f
then_online env h g f s t = record {
  first = s.first;
  peer = t.peer ∙ s.peer;
  once = t.once ∙ s.once;
  router = t.router ∙ s.router;
}

then_same : (env : Env) (h g f : Handler) → Leaves env h g → SameRoutes g f → Leaves env h f
then_same env h g f (inl s) t =
    inl (record { peer = t.peer ∙ s.peer; once = t.once ∙ s.once; router = t.router ∙ s.router })
then_same env h g f (inr s) t = inr (then_online env h g f s t)

send-SameRoutes : (m : Text) (h : Handler) → SameRoutes h (reached (send m h))
unfolding send
send-SameRoutes m h = record { peer = ground arith; once = ground arith; router = ground arith }

reply-SameRoutes : (h : Handler) (b : Bool) → SameRoutes h (reply b h)
unfolding reply
reply-SameRoutes h b = record { peer = refl; once = refl; router = refl }

module _ (bold warning : Text → Text) (hostname : Text) (env : Env) where
  welcomed-SameRoutes :
      (r : Result Bool) (h : Handler) → SameRoutes h (reached (welcomed bold warning hostname r h))
  welcomed-SameRoutes (ok true) h = send-SameRoutes _ h
  welcomed-SameRoutes (ok false) h = record { peer = refl; once = refl; router = refl }
  welcomed-SameRoutes (err e) h = record { peer = refl; once = refl; router = refl }

  register-ComesOnline :
      (h : Handler)
      → h.session.registered ≡ false
      → ComesOnline env h (reached (register bold warning hostname env h))
  unfolding register
  register-ComesOnline h first =
      let onlined = online env h.session.peer h.router in
      let once : Handler = record h {
        session = record h.session { registered = true };
        router = onlined.router;
      } in
      let same = welcomed-SameRoutes onlined.result once in
      let goes_on : register bold warning hostname env h
          ≡ welcomed bold warning hostname onlined.result once =
        rw first refl in
      record {
        first = first;
        peer = ap (λ w. (reached w).session.peer) goes_on ∙ same.peer;
        once = ap (λ w. (reached w).session.registered) goes_on ∙ same.once;
        router = ap (λ w. (reached w).router) goes_on ∙ same.router;
      }

  register-Leaves : (h : Handler) → Leaves env h (reached (register bold warning hostname env h))
  unfolding register
  register-Leaves h = elim (Bool-cases h.session.registered) [
    | inl before ↦ inl (record {
      peer = ground (arith, before);
      once = ground (arith, before);
      router = ground (arith, before);
    })
    | inr first ↦ inr (register-ComesOnline h first)
  ]

  inform_forward-SameRoutes :
      (p : ℕ) (h : Handler) → SameRoutes h (reached (inform_forward bold warning hostname p h))
  unfolding inform_forward
  inform_forward-SameRoutes p h = send-SameRoutes _ h

  of_stored : (p : ℕ) (h g : Handler) → Leaves env (stored p h) g → Leaves env h g
  unfolding disable_timeout
  of_stored p h g (inl s) = inl (record { peer = s.peer; once = s.once; router = s.router })
  of_stored p h g (inr s) =
      inr (record { first = s.first; peer = s.peer; once = s.once; router = s.router })

  after_register :
      (p : ℕ) (h : Handler)
      → SameRoutes
          (reached (register bold warning hostname env (stored p h)))
          (reached (handle_request bold warning hostname env (tcpip_forward (some p)) h))
  unfolding handle_request
  after_register p h =
      let registering = register bold warning hostname env (stored p h) in
      let informed =
        reached-then registering (inform_forward bold warning hostname p)
          (λ g. inform_forward-SameRoutes p g) in
      let replied =
        reached-then (registering then inform_forward bold warning hostname p)
          (λ g. goes (reply true g)) (λ g. reply-SameRoutes g true) in
      record {
        peer = replied.peer ∙ informed.peer;
        once = replied.once ∙ informed.once;
        router = replied.router ∙ informed.router;
      }

  -- A request leaves the routes alone or registers the session, wherever its handler comes.
  pub handle_request-Leaves :
      (q : Request) (h : Handler)
      → Leaves env h (reached (handle_request bold warning hostname env q h))
  unfolding handle_request
  handle_request-Leaves keepalive h = inl (reply-SameRoutes h true)
  handle_request-Leaves unknown_request h = inl (reply-SameRoutes h false)
  handle_request-Leaves (tcpip_forward none) h = inl (reply-SameRoutes h false)
  handle_request-Leaves (tcpip_forward (some p)) h =
      of_stored p h _
        (then_same env (stored p h) _ _ (register-Leaves (stored p h)) (after_register p h))

  -- A tcpip-forward registers a session that is not registered yet.
  pub forward-ComesOnline :
      (p : ℕ) (h : Handler)
      → h.session.registered ≡ false
      → ComesOnline env h
          (reached (handle_request bold warning hostname env (tcpip_forward (some p)) h))
  unfolding disable_timeout
  forward-ComesOnline p h first =
      let came =
        then_online env (stored p h) _ _ (register-ComesOnline (stored p h) first)
          (after_register p h) in
      record { first = first; peer = came.peer; once = came.once; router = came.router }
