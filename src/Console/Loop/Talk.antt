-- ===== src/Console/Loop/Talk.antt =====
-- ssh/session.go and ssh/console.go: the channel of messages between the handlers of a session and its
-- consoles, of which a session can have several, as a step relation.
use remotemoe.Prelude.{
  ℕ, ◌==◌, ◌≡◌, Bool, List, [], ◌∷◌, ◌++◌, Option, none, some, length, drop, if◌then◌else◌,
}
use remotemoe.Text.{Text}
use remotemoe.Route.{Peer}
use remotemoe.Router.{Router}
use remotemoe.Session.{Session, new_session}
use remotemoe.Disk.{Env}
use remotemoe.Session.Requests.{Request, Handler, goes, send, handle_request}
use remotemoe.Console.Loop.{Loop, new_loop, take_message, print_message}

-- A message that a console has tried to print.
pub record Line : Type 0 where
  pub console : ℕ
  pub text : Text
  pub written : Bool

-- A session, the messages that were sent to it, those that its consoles have received, each with the
-- number of the console, what each console has received and not printed yet, the lines in the order of
-- printing, and what the terminals show.
pub record Talk : Type 0 where
  pub handler : Handler
  pub sent : List Text
  pub taken : List (ℕ × Text)
  pub hands : ℕ → Option Text
  pub lines : List Line
  pub shown : List Text

abbrev pub new_talk : Peer → Router → Talk
new_talk p r = record {
  handler = record { session = new_session p; router = r; replies = [] };
  sent = [];
  taken = [];
  hands = λ i. none;
  lines = [];
  shown = [];
}

abbrev pub texts : List (ℕ × Text) → List Text
texts [] = []
texts ((i, m) ∷ ms) = m ∷ texts ms

-- What a console has received.
abbrev pub taken_by : ℕ → List (ℕ × Text) → List Text
taken_by i [] = []
taken_by i ((j, m) ∷ ms) = if i == j then m ∷ taken_by i ms else taken_by i ms

-- What a console has tried to print.
abbrev pub printed_by : ℕ → List Line → List Text
printed_by i [] = []
printed_by i (l ∷ ls) = if i == l.console then l.text ∷ printed_by i ls else printed_by i ls

-- What is written of the lines, each with a newline.
abbrev pub written : List Line → List Text
written [] = []
written (l ∷ ls) = if l.written then (l.text ++ b'\n' ∷ []) ∷ written ls else written ls

abbrev pub in_hand : Option Text → List Text
in_hand none = []
in_hand (some m) = m ∷ []

abbrev pub put_hand : ℕ → Option Text → (ℕ → Option Text) → ℕ → Option Text
put_hand i o hands j = if j == i then o else hands j

-- The messages that the serving of a request has put behind those that waited.
abbrev pub sent_since : Handler → Handler → List Text
sent_since h g = drop (length h.session.msgs) g.session.msgs

-- The goroutine of a console between its receive and its print.
abbrev pub holding : Text → Session → Loop
holding m s = record (new_loop s) { in_hand = some m }

abbrev pub take : ℕ → Text → Talk → Talk
take i m t = record t {
  handler = record t.handler { session = (take_message (new_loop t.handler.session)).session };
  taken = t.taken ++ (i, m) ∷ [];
  hands = put_hand i (take_message (new_loop t.handler.session)).in_hand t.hands;
}

abbrev pub print : ℕ → Text → Bool → Talk → Talk
print i m writes t =
    let l = print_message writes (holding m t.handler.session) in
    record t {
      handler = record t.handler { session = l.session };
      hands = put_hand i l.in_hand t.hands;
      lines = t.lines ++ (record { console = i; text = m; written = writes }) ∷ [];
      shown = t.shown ++ l.printed;
    }

module _ (bold warning : Text → Text) (hostname : Text) where
  -- A send that does not wait, a request that is served, the receive of a console, its print of what it
  -- has received, written or not, and whatever else leaves the messages as they are.
  pub data TalkStep : Talk → Talk → Type 0 where
    sends :
        (m : Text) (t : Talk) (h : Handler)
        → send m t.handler ≡ goes h
        → TalkStep t (record t { handler = h; sent = t.sent ++ m ∷ [] })
    serves :
        (env : Env) (q : Request) (t : Talk) (g : Handler)
        → handle_request bold warning hostname env q t.handler ≡ goes g
        → TalkStep t (record t { handler = g; sent = t.sent ++ sent_since t.handler g })
    takes :
        (i : ℕ) (m : Text) (ms : List Text) (t : Talk)
        → t.handler.session.msgs ≡ m ∷ ms
        → t.hands i ≡ none
        → TalkStep t (take i m t)
    prints :
        (i : ℕ) (m : Text) (writes : Bool) (t : Talk)
        → t.hands i ≡ some m
        → TalkStep t (print i m writes t)
    continues :
        (t : Talk) (h : Handler)
        → h.session.msgs ≡ t.handler.session.msgs
        → TalkStep t (record t { handler = h })

  pub data Talks : Talk → Talk → Type 0 where
    here : (t : Talk) → Talks t t
    next : (t t' t'' : Talk) → TalkStep t t' → Talks t' t'' → Talks t t''
