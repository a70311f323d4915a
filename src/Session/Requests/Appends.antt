-- ===== src/Session/Requests/Appends.antt =====
-- ssh/session.go: the handler of requests only appends to the messages, and never beyond their number.
use remotemoe.Prelude.{
  ℕ, ◌≤◌, ◌<◌, ◌≡◌, refl, sym, ap, ◌∙◌, Bool, true, false, List, [], ◌∷◌, ◌++◌, none, some, length,
  length-append, arith, if◌then◌else◌, inl, inr, Bool-cases,
}
use mathlib.Core.List.{append_assoc, append-nil}
use remotemoe.Text.{Text}
use remotemoe.Disk.{Env}
use remotemoe.Router.{Result, ok, err}
use remotemoe.Router.Calls.{online}
use remotemoe.Session.{msgs_capacity, disable_timeout}
use remotemoe.Session.Requests.{
  Request, keepalive, tcpip_forward, unknown_request, Handler, Progress, goes, blocks, ◌then◌, send,
  reply, inform_forward, register, welcomed, handle_request,
}
use remotemoe.Session.Requests.Sends.{stored}

-- The messages of `g` are those of `h`, and others behind them that fit.
abbrev pub Appends : Handler → Handler → Type 0
Appends h g =
    (s : List Text) × (g.session.msgs ≡ h.session.msgs ++ s)
    × (length h.session.msgs ≤ msgs_capacity → length g.session.msgs ≤ msgs_capacity)

same-Appends : (h g : Handler) → g.session.msgs ≡ h.session.msgs → Appends h g
same-Appends h g e = ([], e ∙ sym (append-nil h.session.msgs), λ l. rw e l)

next-Appends : (h g f : Handler) → Appends h g → Appends g f → Appends h f
next-Appends h g f (s, e, b) (t, q, c) =
    (s ++ t, q ∙ ap (λ x. x ++ t) e ∙ append_assoc h.session.msgs s t, λ l. c (b l))

pub send_lem :
    (m : Text) (g h : Handler)
    → send m g ≡ goes h
    → (h.session.msgs ≡ g.session.msgs ++ m ∷ []) × (length g.session.msgs < msgs_capacity)
unfolding send
send_lem m g h e = ground (arith, e)

send-Appends : (m : Text) (h g : Handler) → send m h ≡ goes g → Appends h g
send-Appends m h g e =
    let (stored, room) = send_lem m h g e in
    (m ∷ [], stored, λ l. rw (stored, length-append h.session.msgs (m ∷ [])) (omega (arith, room)))

goes_injective : (h g : Handler) → goes h ≡ goes g → h ≡ g
goes_injective h g e = cc

then-goes :
    (w : Progress) (f : Handler → Progress) (g : Handler)
    → w then f ≡ goes g
    → (h : Handler) × (w ≡ goes h) × (f h ≡ goes g)
then-goes (goes h) f g e = (h, refl, e)
then-goes (blocks h) f g e = cc

module _ (bold warning : Text → Text) (hostname : Text) (env : Env) where
  welcomed-Appends :
      (r : Result Bool) (h g : Handler) → welcomed bold warning hostname r h ≡ goes g → Appends h g
  welcomed-Appends (ok true) h g e = send-Appends _ h g e
  welcomed-Appends (ok false) h g e =
      same-Appends h g (ap (λ x. x.session.msgs) (sym (goes_injective h g e)))
  welcomed-Appends (err x) h g e = same-Appends h g (ground (arith, e))

  register-Appends : (h g : Handler) → register bold warning hostname env h ≡ goes g → Appends h g
  unfolding register
  register-Appends h g e = elim (Bool-cases h.session.registered) [
    | inl before ↦ same-Appends h g (ground (arith, e, before))
    | inr first ↦
        let onlined = online env h.session.peer h.router in
        let once = record h {
          session = record h.session { registered = true };
          router = onlined.router;
        } in
        let (s, q, b) = welcomed-Appends onlined.result once g (rw first at e) in (s, q, b)
  ]

  inform_forward-Appends :
      (p : ℕ) (h g : Handler) → inform_forward bold warning hostname p h ≡ goes g → Appends h g
  unfolding inform_forward
  inform_forward-Appends p h g e = send-Appends _ h g e

  -- A request that is served appends its messages.
  pub handle_request-Appends :
      (q : Request) (h g : Handler)
      → handle_request bold warning hostname env q h ≡ goes g
      → Appends h g
  unfolding handle_request inform_forward disable_timeout reply
  handle_request-Appends keepalive h g e = same-Appends h g (ground (arith, e))
  handle_request-Appends unknown_request h g e = same-Appends h g (ground (arith, e))
  handle_request-Appends (tcpip_forward none) h g e = same-Appends h g (ground (arith, e))
  handle_request-Appends (tcpip_forward (some p)) h g e =
      let (b, e_b, last) =
        then-goes
          (register bold warning hostname env (stored p h)
            then inform_forward bold warning hostname p)
          (λ k. goes (reply true k)) g e in
      let (a, e_a, informed) =
        then-goes (register bold warning hostname env (stored p h))
          (inform_forward bold warning hostname p) b e_b in
      next-Appends h a g (register-Appends (stored p h) a e_a) (
        next-Appends a b g (inform_forward-Appends p a b informed) (
          same-Appends b g
            (ap (λ (x : Handler). x.session.msgs) (sym (goes_injective (reply true b) g last)))))
