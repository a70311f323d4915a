-- ===== src/Session/Requests/Replies.antt =====
-- ssh/session.go: what handleRequests replies, and which ports a session has
-- afterwards.
use remotemoe.Prelude.{
  ℕ, suc, ◌+◌, ◌≤◌, ◌<◌, ◌==◌, ◌≡◌, refl, sym, ap, ◌∙◌, Bool, true, false, List, [], ◌∷◌, ◌++◌,
  none, some, if◌then◌else◌, length, map, arith, inl, inr, Bool-cases,
}
use mathlib.Core.List.{append_assoc, append-nil}
use remotemoe.Text.{Text}
use remotemoe.Services.{ports, service_of}
use remotemoe.Disk.{Env}
use remotemoe.Session.{msgs_capacity, add_port, has_port, disable_timeout}
use remotemoe.Session.Requests.{
  Request, keepalive, tcpip_forward, unknown_request, Handler, goes, ◌then◌, reply, inform_text,
  inform_forward, register, handle_request, handle_requests,
}
use remotemoe.Session.Requests.Sends.{pending, stored, Registered, send-Goes, register-goes}

-- What a request is answered.
abbrev pub answer : Request → Bool
answer keepalive = true
answer (tcpip_forward (some p)) = true
answer (tcpip_forward none) = false
answer unknown_request = false

-- How many messages a request brings about at least.
abbrev pub forwards : List Request → ℕ
forwards [] = 0
forwards (tcpip_forward (some p) ∷ qs) = suc (forwards qs)
forwards (tcpip_forward none ∷ qs) = forwards qs
forwards (keepalive ∷ qs) = forwards qs
forwards (unknown_request ∷ qs) = forwards qs

abbrev pub asks_port : ℕ → List Request → Bool
asks_port p [] = false
asks_port p (tcpip_forward (some q) ∷ qs) = if q == p then true else asks_port p qs
asks_port p (tcpip_forward none ∷ qs) = asks_port p qs
asks_port p (keepalive ∷ qs) = asks_port p qs
asks_port p (unknown_request ∷ qs) = asks_port p qs

has_port-add_port :
    (p q : ℕ) (ps : List ℕ) → has_port p (add_port q ps) ≡ (if q == p then true else has_port p ps)
has_port-add_port p q ps = elim (Bool-cases (has_port q ps)) [
  | inl there ↦ ground (arith, there)
  | inr absent ↦ rw absent
]

module _ (bold warning : Text → Text) (hostname : Text) (env : Env) where
  -- The handler after one request that does not block.
  record Served (q : Request) (h g : Handler) : Type 0 where
    replied : g.replies ≡ h.replies ++ answer q ∷ []
    provides :
        (p : ℕ)
        → has_port p g.session.services
          ≡ (if asks_port p (q ∷ []) then true else has_port p h.session.services)
    room : length g.session.msgs + pending g ≤ length h.session.msgs + pending h + forwards (q ∷ [])

  abbrev Serves : Request → Handler → Type 0
  Serves q h =
      (g : Handler) × (handle_request bold warning hostname env q h ≡ goes g) × Served q h g

  forward_done :
      (p : ℕ) (h k : Handler)
      → length h.session.msgs + pending h < msgs_capacity
      → register bold warning hostname env (stored p h) ≡ goes k
      → Registered (stored p h) k
      → (g : Handler) → inform_forward bold warning hostname p k ≡ goes g
      → g.replies ≡ k.replies
      → g.session.services ≡ k.session.services
      → g.session.registered ≡ k.session.registered
      → length g.session.msgs ≤ suc (length k.session.msgs)
      → Serves (tcpip_forward (some p)) h
  unfolding handle_request reply disable_timeout
  forward_done p h k l e v g f replies services registered room = (
    reply true g,
    rw (e, f),
    record {
      replied = rw (replies, v.replies);
      provides =
          λ q. ground (arith, services, v.services, has_port-add_port q p h.session.services);
      room = ground (arith, room, v.room, registered, v.once);
    },
  )

  forward-goes :
      (p : ℕ) (h : Handler)
      → length h.session.msgs + pending h < msgs_capacity
      → Serves (tcpip_forward (some p)) h
  unfolding inform_forward disable_timeout
  forward-goes p h l =
      part (register-goes bold warning hostname env (stored p h) (omega (arith, l)))
    where
      part :
          ((k : Handler) × (register bold warning hostname env (stored p h) ≡ goes k)
            × Registered (stored p h) k)
          → Serves (tcpip_forward (some p)) h
      part (k, e, v) =
          let (g, f, replies, services, registered, room) =
            send-Goes (inform_text bold warning hostname k.session.peer.fqdn p (service_of p ports))
              k (omega (arith, l, v.room)) in
          forward_done p h k l e v g f replies services registered room

  request-goes :
      (q : Request) (h : Handler)
      → length h.session.msgs + pending h + forwards (q ∷ []) ≤ msgs_capacity
      → Serves q h
  unfolding handle_request reply
  request-goes keepalive h l =
      (_, refl, record { replied = refl; provides = λ p. refl; room = omega arith })
  request-goes unknown_request h l =
      (_, refl, record { replied = refl; provides = λ p. refl; room = omega arith })
  request-goes (tcpip_forward none) h l =
      (_, refl, record { replied = refl; provides = λ p. refl; room = omega arith })
  request-goes (tcpip_forward (some p)) h l = forward-goes p h (omega (arith, l))

  forwards-cons :
      (q : Request) (qs : List Request) → forwards (q ∷ qs) ≡ forwards (q ∷ []) + forwards qs
  forwards-cons keepalive qs = omega arith
  forwards-cons unknown_request qs = omega arith
  forwards-cons (tcpip_forward none) qs = omega arith
  forwards-cons (tcpip_forward (some p)) qs = omega arith

  asks_port-cons :
      (p : ℕ) (q : Request) (qs : List Request)
      → asks_port p (q ∷ qs) ≡ (if asks_port p (q ∷ []) then true else asks_port p qs)
  asks_port-cons p keepalive qs = refl
  asks_port-cons p unknown_request qs = refl
  asks_port-cons p (tcpip_forward none) qs = refl
  asks_port-cons p (tcpip_forward (some q)) qs = ground arith

  -- While the messages of the requests, and one about a replaced session, fit into the channel, the
  -- handler serves all requests: each is answered, in order, and a port is provided afterwards if
  -- it was before or a tcpip-forward has asked for it.
  pub handle_requests-goes :
      (qs : List Request) (h : Handler)
      → length h.session.msgs + pending h + forwards qs ≤ msgs_capacity
      → (g : Handler) × (handle_requests bold warning hostname env qs h ≡ goes g)
        × (g.replies ≡ h.replies ++ map answer qs)
        × ((p : ℕ)
            → has_port p g.session.services
              ≡ (if asks_port p qs then true else has_port p h.session.services))
  unfolding handle_requests
  handle_requests-goes [] h l = (h, refl, sym (append-nil h.replies), λ p. refl)
  handle_requests-goes (q ∷ qs) h l =
      part (request-goes q h (omega (arith, l, forwards-cons q qs)))
        (λ g. handle_requests-goes qs g)
    where
      part :
          Serves q h
          → ((g : Handler)
              → length g.session.msgs + pending g + forwards qs ≤ msgs_capacity
              → (f : Handler) × (handle_requests bold warning hostname env qs g ≡ goes f)
                × (f.replies ≡ g.replies ++ map answer qs)
                × ((p : ℕ)
                    → has_port p f.session.services
                      ≡ (if asks_port p qs then true else has_port p g.session.services)))
          → (f : Handler) × (handle_requests bold warning hostname env (q ∷ qs) h ≡ goes f)
            × (f.replies ≡ h.replies ++ map answer (q ∷ qs))
            × ((p : ℕ)
                → has_port p f.session.services
                  ≡ (if asks_port p (q ∷ qs) then true else has_port p h.session.services))
      part (g, e, v) rest =
          let (f, d, replies, provides) = rest g (omega (arith, l, v.room, forwards-cons q qs)) in
          (
            f,
            rw e d,
            replies
                ∙ ap (λ x. x ++ map answer qs) v.replied
                ∙ append_assoc h.replies (answer q ∷ []) (map answer qs),
            λ p. ground (arith, provides p, v.provides p, asks_port-cons p q qs),
          )
