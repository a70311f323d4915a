-- ===== src/Console/Loop/Messages.antt =====
-- ssh/session.go and ssh/console.go: the messages to a session reach its consoles, each once and in order.
use remotemoe.Prelude.{
  ℕ, ◌==◌, ==_iff, ◌≤◌, ◌≡◌, refl, sym, ap, ◌∙◌, Bool, Bool-cases, inl, inr, List, [], ◌∷◌, ◌++◌,
  none, some, length, length-append, drop, arith,
}
use mathlib.Core.List.{append_assoc, append-nil}
use remotemoe.Text.{Text}
use remotemoe.Route.{Peer}
use remotemoe.Router.{Router}
use remotemoe.Session.{Session, msgs_capacity, poke_timeout}
use remotemoe.Disk.{Env}
use remotemoe.Session.Requests.{Request, Handler, goes, send, handle_request}
use remotemoe.Session.Requests.Appends.{send_lem, handle_request-Appends}
use remotemoe.Console.Loop.{new_loop, take_message, print_message}
use remotemoe.Console.Loop.Talk.{
  Line, Talk, new_talk, texts, taken_by, printed_by, written, in_hand, sent_since, holding, take,
  print, TalkStep, sends, serves, takes, prints, continues, Talks, here, next,
}

texts-append : (ms ns : List (ℕ × Text)) → texts (ms ++ ns) ≡ texts ms ++ texts ns
texts-append [] ns = refl
texts-append ((i, m) ∷ ms) ns = ap (λ l. m ∷ l) (texts-append ms ns)

taken_by-append :
    (i : ℕ) (ms ns : List (ℕ × Text)) → taken_by i (ms ++ ns) ≡ taken_by i ms ++ taken_by i ns
taken_by-append i [] ns = refl
taken_by-append i ((j, m) ∷ ms) ns = ground (arith, taken_by-append i ms ns)

printed_by-append :
    (i : ℕ) (ms ns : List Line) → printed_by i (ms ++ ns) ≡ printed_by i ms ++ printed_by i ns
printed_by-append i [] ns = refl
printed_by-append i (l ∷ ms) ns = ground (arith, printed_by-append i ms ns)

written-append : (ms ns : List Line) → written (ms ++ ns) ≡ written ms ++ written ns
written-append [] ns = refl
written-append (l ∷ ms) ns = ground (arith, written-append ms ns)

-- What was received, by whichever console, and what waits are together what was sent, in order, and no
-- more than 50 wait; each console has printed what it has received, in order, but for what it has in
-- hand; and the terminals show what was written.
pub record IsInOrder (t : Talk) : Type 0 where
  pub sent : t.sent ≡ texts t.taken ++ t.handler.session.msgs
  pub room : length t.handler.session.msgs ≤ msgs_capacity
  pub printed : (i : ℕ) → taken_by i t.taken ≡ printed_by i t.lines ++ in_hand (t.hands i)
  pub shown : t.shown ≡ written t.lines

module _ (bold warning : Text → Text) (hostname : Text) where
  append-IsInOrder :
      (t : Talk) (g : Handler) (s : List Text)
      → IsInOrder t
      → g.session.msgs ≡ t.handler.session.msgs ++ s
      → length g.session.msgs ≤ msgs_capacity
      → IsInOrder (record t { handler = g; sent = t.sent ++ s })
  append-IsInOrder t g s o stored room = record {
    sent = rw (stored, o.sent) (append_assoc (texts t.taken) t.handler.session.msgs s);
    room = room;
    printed = o.printed;
    shown = o.shown;
  }

  send-IsInOrder :
      (m : Text) (t : Talk) (h : Handler)
      → IsInOrder t
      → send m t.handler ≡ goes h
      → IsInOrder (record t { handler = h; sent = t.sent ++ m ∷ [] })
  send-IsInOrder m t h o q =
      let (stored, room) = send_lem m t.handler h q in
      append-IsInOrder t h (m ∷ []) o stored
        (rw (stored, length-append t.handler.session.msgs (m ∷ [])) (omega (arith, room)))

  drop-append : (xs ys : List Text) → drop (length xs) (xs ++ ys) ≡ ys
  drop-append [] ys = refl
  drop-append (x ∷ xs) ys = drop-append xs ys

  serve-IsInOrder :
      (env : Env) (q : Request) (t : Talk) (g : Handler)
      → IsInOrder t
      → handle_request bold warning hostname env q t.handler ≡ goes g
      → IsInOrder (record t { handler = g; sent = t.sent ++ sent_since t.handler g })
  serve-IsInOrder env q t g o e =
      let (s, stored, room) = handle_request-Appends bold warning hostname env q t.handler g e in
      let since : sent_since t.handler g ≡ s =
        ap (λ x. drop (length t.handler.session.msgs) x) stored
        ∙ drop-append t.handler.session.msgs s in
      append-IsInOrder t g (sent_since t.handler g) o
        (stored ∙ ap (λ x. t.handler.session.msgs ++ x) (sym since)) (room o.room)

  take_message_lem :
      (s : Session) (m : Text) (ms : List Text)
      → s.msgs ≡ m ∷ ms
      → ((take_message (new_loop s)).session.msgs ≡ ms)
        × ((take_message (new_loop s)).in_hand ≡ some m)
  unfolding take_message
  take_message_lem s m ms e = ground (arith, e)

  nothing_in_hand :
      {i : ℕ} (j : ℕ) (t : Talk)
      → j ≡ i
      → t.hands i ≡ none
      → IsInOrder t
      → taken_by j t.taken ≡ printed_by j t.lines
  nothing_in_hand j t same free o =
      o.printed j
      ∙ ap (λ x. printed_by j t.lines ++ in_hand x) (ap t.hands same ∙ free)
      ∙ append-nil (printed_by j t.lines)

  take-IsInOrder :
      (i : ℕ) (m : Text) (ms : List Text) (t : Talk)
      → t.handler.session.msgs ≡ m ∷ ms
      → t.hands i ≡ none
      → IsInOrder t
      → IsInOrder (take i m t)
  take-IsInOrder i m ms t e free o =
      let (left, hand) = take_message_lem t.handler.session m ms e in
      record {
        sent =
            rw (texts-append t.taken ((i, m) ∷ []), left)
              (o.sent
                ∙ ap (λ x. texts t.taken ++ x) e
                ∙ sym (append_assoc (texts t.taken) (m ∷ []) ms));
        room = omega (arith, o.room, ap length left, ap length e);
        printed = λ j. elim (Bool-cases (j == i)) [
          | inl same ↦
              rw (taken_by-append j t.taken ((i, m) ∷ []), same, hand)
                (ap (λ x. x ++ m ∷ []) (nothing_in_hand j t ((==_iff j i).0 same) free o))
          | inr other ↦
              rw (taken_by-append j t.taken ((i, m) ∷ []), other, append-nil (taken_by j t.taken))
                (o.printed j)
        ];
        shown = o.shown;
      }

  print_message_lem :
      (m : Text) (writes : Bool) (s : Session)
      → let l = print_message writes (holding m s) in
        (l.session.msgs ≡ s.msgs)
        × (l.in_hand ≡ none)
        × (l.printed ≡ written (record { console = 0; text = m; written = writes } ∷ []))
  unfolding print_message poke_timeout
  print_message_lem m writes s = ground arith

  print-IsInOrder :
      (i : ℕ) (m : Text) (writes : Bool) (t : Talk)
      → t.hands i ≡ some m
      → IsInOrder t
      → IsInOrder (print i m writes t)
  print-IsInOrder i m writes t held o =
      let (same, empty, out) = print_message_lem m writes t.handler.session in
      record {
        sent = rw same o.sent;
        room = rw same o.room;
        printed = λ j. elim (Bool-cases (j == i)) [
          | inl same ↦
              rw
                (
                  printed_by-append j t.lines
                      ((record { console = i; text = m; written = writes }) ∷ []),
                  same,
                  empty,
                  append-nil (printed_by j t.lines ++ m ∷ []),
                )
                (o.printed j
                  ∙ ap (λ x. printed_by j t.lines ++ in_hand x)
                      (ap t.hands ((==_iff j i).0 same) ∙ held))
          | inr other ↦
              rw
                (
                  printed_by-append j t.lines
                      ((record { console = i; text = m; written = writes }) ∷ []),
                  other,
                  append-nil (printed_by j t.lines),
                )
                (o.printed j)
        ];
        shown =
            rw
              (
                out,
                written-append t.lines ((record { console = i; text = m; written = writes }) ∷ []),
              )
              (ap (λ x. x ++ written ((record { console = i; text = m; written = writes }) ∷ []))
                o.shown);
      }

  step-IsInOrder : (t t' : Talk) → TalkStep bold warning hostname t t' → IsInOrder t → IsInOrder t'
  step-IsInOrder t _ (sends m _ h q) o = send-IsInOrder m t h o q
  step-IsInOrder t _ (serves env q _ g e) o = serve-IsInOrder env q t g o e
  step-IsInOrder t _ (takes i m ms _ e free) o = take-IsInOrder i m ms t e free o
  step-IsInOrder t _ (prints i m writes _ held) o = print-IsInOrder i m writes t held o
  step-IsInOrder t _ (continues _ h q) o = record {
    sent = rw q o.sent;
    room = rw q o.room;
    printed = o.printed;
    shown = o.shown;
  }

  Talks-IsInOrder : (t t' : Talk) → Talks bold warning hostname t t' → IsInOrder t → IsInOrder t'
  Talks-IsInOrder _ _ (here t) o = o
  Talks-IsInOrder _ _ (next t t' t'' s m) o = Talks-IsInOrder t' t'' m (step-IsInOrder t t' s o)

  -- From a new session on, however requests are served, other messages are sent, and several consoles of
  -- it receive messages and later print them, written or not, in any order of these steps: what the
  -- consoles have received, in the order of receiving, and what still waits are exactly the messages that
  -- were sent, once and in order, and at most 50 wait; each console has printed exactly what it has
  -- received, in that order, but for the one message that it may have in hand; and what the terminals
  -- show are the lines that were written, each with a newline.
  pub messages_in_order :
      (p : Peer) (r : Router) (t : Talk)
      → Talks bold warning hostname (new_talk p r) t
      → (t.sent ≡ texts t.taken ++ t.handler.session.msgs)
        × (length t.handler.session.msgs ≤ msgs_capacity)
        × ((i : ℕ) → taken_by i t.taken ≡ printed_by i t.lines ++ in_hand (t.hands i))
        × (t.shown ≡ written t.lines)
  messages_in_order p r t m =
      let o =
        Talks-IsInOrder (new_talk p r) t m
          (record { sent = refl; room = omega arith; printed = λ i. refl; shown = refl }) in
      (o.sent, o.room, o.printed, o.shown)
