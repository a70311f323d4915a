-- ===== src/Session/Requests/Sends.antt =====
-- ssh/session.go: sends to the user while there is room, and registering.
use remotemoe.Prelude.{
  ℕ, suc, ◌+◌, ◌≤◌, ◌<◌, ◌≡◌, refl, Bool, true, false, [], ◌∷◌, ◌++◌, if◌then◌else◌, length,
  length-append, arith, inl, inr, Bool-cases,
}
use remotemoe.Text.{Text}
use remotemoe.Disk.{Env}
use remotemoe.Router.{Result, ok, err}
use remotemoe.Router.Calls.{online}
use remotemoe.Session.{msgs_capacity, add_port, disable_timeout}
use remotemoe.Session.Requests.{Handler, Progress, goes, blocks, ◌then◌, send, register, welcomed}

-- The message about a replaced session is still possible.
abbrev pub pending : Handler → ℕ
pending h = if h.session.registered then 0 else 1

pub sent :
    (m : Text) (h : Handler)
    → length h.session.msgs < msgs_capacity
    → send m h ≡ goes (record h { session = record h.session { msgs = h.session.msgs ++ m ∷ [] } })
unfolding send
sent m h l = ground (arith, l)

pub not_sent :
    (m : Text) (h : Handler) → msgs_capacity ≤ length h.session.msgs → send m h ≡ blocks h
unfolding send
not_sent m h l = ground (arith, l)

-- The handler as it registers.
abbrev pub stored : ℕ → Handler → Handler
stored p h = record h {
  session = disable_timeout (record h.session { services = add_port p h.session.services });
}

-- Registering, with room for its message.
pub record Registered (h g : Handler) : Type 0 where
  pub replies : g.replies ≡ h.replies
  pub services : g.session.services ≡ h.session.services
  pub once : g.session.registered ≡ true
  pub room : length g.session.msgs ≤ length h.session.msgs + pending h

-- The program goes on, and only the messages change.
abbrev Goes : Progress → Handler → Type 0
Goes w h =
    (g : Handler) × (w ≡ goes g)
    × (g.replies ≡ h.replies)
    × (g.session.services ≡ h.session.services)
    × (g.session.registered ≡ h.session.registered)
    × (length g.session.msgs ≤ suc (length h.session.msgs))

pub send-Goes : (m : Text) (h : Handler) → length h.session.msgs < msgs_capacity → Goes (send m h) h
send-Goes m h l =
    (_, sent m h l, refl, refl, refl, omega (arith, length-append h.session.msgs (m ∷ [])))

module _ (bold warning : Text → Text) (hostname : Text) (env : Env) where
  welcomed-Goes :
      (r : Result Bool) (h : Handler)
      → length h.session.msgs < msgs_capacity
      → Goes (welcomed bold warning hostname r h) h
  welcomed-Goes (ok true) h l = send-Goes _ h l
  welcomed-Goes (ok false) h l = (h, refl, refl, refl, refl, omega arith)
  welcomed-Goes (err e) h l = (_, refl, refl, refl, refl, omega arith)

  pub register-goes :
      (h : Handler)
      → length h.session.msgs + pending h ≤ msgs_capacity
      → (g : Handler) × (register bold warning hostname env h ≡ goes g) × Registered h g
  unfolding register
  register-goes h l = elim (Bool-cases h.session.registered) [
    | inl before ↦ (
      h,
      rw before,
      record { replies = refl; services = refl; once = before; room = omega arith },
    )
    | inr first ↦
        let onlined = online env h.session.peer h.router in
        let once = record h {
          session = record h.session { registered = true };
          router = onlined.router;
        } in
        let space : length h.session.msgs < msgs_capacity = ground (arith, l, first) in
        let (g, e, replies, services, registered, room) = welcomed-Goes onlined.result once space in
        (
          g,
          rw first e,
          record {
            replies = replies;
            services = services;
            once = registered;
            room = ground (arith, room, first);
          },
        )
  ]
