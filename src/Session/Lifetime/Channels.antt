-- ===== src/Session/Lifetime/Channels.antt =====
-- ssh/session.go: handleChannels serves every request for a channel.
use remotemoe.Prelude.{
  ℕ, suc, ◌≡◌, ◌≢◌, refl, ap, ◌∙◌, Bool, true, false, ◌||◌, List, [], ◌∷◌, Option, none, some,
  arith, length, Bool-cases, inl, inr,
}
use remotemoe.Text.{Text}
use remotemoe.Net.{Split, split, addr_error, split_host_port}
use remotemoe.Net.Decimal.{parse_uint32}
use remotemoe.Net.RoundTrip.{IsPlain}
use remotemoe.Route.{Peer}
use remotemoe.Router.Dial.{Dialed, reaches, bad_address, unknown_host, peer_offline, nil_router}
use remotemoe.Router.DialLaws.{dial_total}
use remotemoe.Router.History.{World, IsValid}
use remotemoe.Session.{Session, Timer, running, fired, stopped, stop, has_port, disable_timeout}
use remotemoe.Session.Dials.{
  to, Accepted, waits_for_ever, connected, bad_payload, accept_failed, not_dialed, not_opened,
  accept_forward_request, accept_opened, accept_dialed, Opened, channel, not_provided, no_host_port,
  bad_port, open_failed, no_answer, opened_channel, opened_port, opened_split, session_dial,
}
use remotemoe.Session.Lifetime.{
  NewChannel, direct_tcpip, session_channel, unknown_channel, Met, ChannelEnd, forwarded, console,
  no_console, ignored, is_waiting, after_round, handle_channel, handle_channels,
}

-- The channel is connected to one of another session.
abbrev pub is_connected : ChannelEnd → Bool
is_connected (forwarded (connected p q)) = true
is_connected (forwarded bad_payload) = false
is_connected (forwarded accept_failed) = false
is_connected (forwarded waits_for_ever) = false
is_connected (forwarded (not_dialed d)) = false
is_connected (forwarded (not_opened o)) = false
is_connected console = false
is_connected no_console = false
is_connected ignored = false

abbrev pub any_connected : List ChannelEnd → Bool
any_connected [] = false
any_connected (e ∷ es) = is_connected e || any_connected es

-- What handling channels leaves of a session: its timer is disabled if it was or if a channel was
-- connected, and then it does not run.
pub record Keeps (s t : Session) (busy : Bool) : Type 0 where
  pub disabled : t.idle_disabled ≡ (s.idle_disabled || busy)
  pub stops : busy ≡ true → t.idle_timeout ≢ running
  pub stays : busy ≡ false → t.idle_timeout ≡ s.idle_timeout
  pub open_still : t.closed ≡ s.closed
  pub services : t.services ≡ s.services
  pub msgs : t.msgs ≡ s.msgs

abbrev Answers : Session → Session × Accepted → Type 0
Answers s (t, a) = Keeps s t (is_connected (forwarded a))

same-Keeps : (s : Session) → Keeps s s false
same-Keeps s = record {
  disabled = ground arith;
  stops = λ b. cc;
  stays = λ b. refl;
  open_still = refl;
  services = refl;
  msgs = refl;
}

stopped_lem : (t : Timer) → (stop t).1 ≢ running
stopped_lem running e = cc
stopped_lem fired e = cc
stopped_lem stopped e = cc

disable_timeout-Keeps : (s : Session) → Keeps s (disable_timeout s) true
unfolding disable_timeout
disable_timeout-Keeps s = record {
  disabled = ground arith;
  stops = λ b. stopped_lem s.idle_timeout;
  stays = λ b. cc;
  open_still = refl;
  services = refl;
  msgs = refl;
}

module _ (session_of : Peer → Session) (opens : Option Bool) (accepts : Bool) (s : Session) where
  accept_opened-Answers :
      (p : Peer) (o : Opened) → Answers s (accept_opened session_of opens accepts p o s)
  accept_opened-Answers p (channel q) = elim (Bool-cases accepts) [
    | inl on ↦ rw on (disable_timeout-Keeps s)
    | inr off ↦ rw off (same-Keeps s)
  ]
  accept_opened-Answers p (not_provided q) = same-Keeps s
  accept_opened-Answers p (no_host_port e) = same-Keeps s
  accept_opened-Answers p bad_port = same-Keeps s
  accept_opened-Answers p open_failed = same-Keeps s
  accept_opened-Answers p no_answer = same-Keeps s

  accept_dialed-Answers : (d : Dialed) → Answers s (accept_dialed session_of opens accepts d s)
  accept_dialed-Answers (reaches p address) =
      accept_opened-Answers p (session_dial opens (session_of p) address)
  accept_dialed-Answers (bad_address e) = same-Keeps s
  accept_dialed-Answers (unknown_host h) = same-Keeps s
  accept_dialed-Answers peer_offline = same-Keeps s
  accept_dialed-Answers nil_router = same-Keeps s

module _ (session_of : Peer → Session) (b accepts : Bool) (s : Session) where
  abbrev Ends : Session × Accepted → Type 0
  Ends (t, a) = is_waiting (forwarded a) ≡ false

  opened-Ends :
      (p : Peer) (t : Session) (o : Option ℕ)
      → Ends (accept_opened session_of (some b) accepts p (opened_port (some b) t o) s)
  opened-Ends p t none = refl
  opened-Ends p t (some q) = elim (Bool-cases (has_port q t.services)) [
    | inl on ↦ rw on (answered b)
    | inr off ↦ rw off refl
  ]
    where
      answered :
          (x : Bool)
          → Ends (accept_opened session_of (some b) accepts p (opened_channel q (some x)) s)
      answered true = ground arith
      answered false = refl

  split-Ends :
      (p : Peer) (t : Session) (x : Split)
      → Ends (accept_opened session_of (some b) accepts p (opened_split (some b) t x) s)
  split-Ends p t (addr_error e) = refl
  split-Ends p t (split host port) = opened-Ends p t (parse_uint32 port)

  -- A request ends, if the client that is asked for a channel answers.
  accept_dialed-Ends : (d : Dialed) → Ends (accept_dialed session_of (some b) accepts d s)
  unfolding session_dial
  accept_dialed-Ends (reaches p address) = split-Ends p (session_of p) (split_host_port address)
  accept_dialed-Ends (bad_address e) = refl
  accept_dialed-Ends (unknown_host h) = refl
  accept_dialed-Ends peer_offline = refl
  accept_dialed-Ends nil_router = refl

-- The clients that are asked for channels answer.
abbrev pub AllAnswer : List (Met × NewChannel) → Type 0
AllAnswer [] = Unit {0}
AllAnswer ((m, q) ∷ qs) = ((b : Bool) × (m.opens ≡ some b)) × AllAnswer qs

module _ (unicode_lower : Text → Text) (is_key : Text → Bool)
    (plain : (k : Text) → is_key k ≡ true → IsPlain k) where
  -- The request meets a well-formed router.
  abbrev pub MeetsValid : List (Met × NewChannel) → Type 0
  MeetsValid [] = Unit {0}
  MeetsValid ((m, q) ∷ qs) =
      ((w : World) × IsValid unicode_lower is_key w × (w.router ≡ m.router)) × MeetsValid qs

  abbrev Serves : Met → NewChannel → ℕ → Session → Type 0
  Serves m q fuel s =
      (t : Session) × (e : ChannelEnd) × (handle_channel (suc (suc fuel)) m q s ≡ some (t, e))
      × (is_waiting e ≡ false)
      × Keeps s t (is_connected e)

  handle_channel-goes :
      (m : Met) (q : NewChannel) (fuel : ℕ) (s : Session)
      → (w : World) × IsValid unicode_lower is_key w × (w.router ≡ m.router)
      → (b : Bool) × (m.opens ≡ some b)
      → Serves m q fuel s
  unfolding handle_channel accept_forward_request
  handle_channel-goes m unknown_channel fuel s v a = (s, ignored, refl, refl, same-Keeps s)
  handle_channel-goes m session_channel fuel s v a = elim (Bool-cases m.accepts) [
    | inl on ↦ (s, console, rw on refl, refl, same-Keeps s)
    | inr off ↦ (s, no_console, rw off refl, refl, same-Keeps s)
  ]
  handle_channel-goes m (direct_tcpip none) fuel s v a =
      (s, forwarded bad_payload, refl, refl, same-Keeps s)
  handle_channel-goes m (direct_tcpip (some f)) fuel s (w, v, r) (b, a) =
      let (d, e) = dial_total unicode_lower is_key w fuel (to f) v plain in
      let answer = accept_dialed m.session_of (some b) m.accepts d s in
      (
        answer.0,
        forwarded answer.1,
        rw (← r, a, e) refl,
        accept_dialed-Ends m.session_of b m.accepts s d,
        accept_dialed-Answers m.session_of (some b) m.accepts s d,
      )

  next_stops :
      (s t u : Session) (a b : Bool)
      → Keeps s t a
      → Keeps t u b
      → (a || b) ≡ true
      → u.idle_timeout ≢ running
  next_stops s t u a true k l x = l.stops refl
  next_stops s t u a false k l x = rw (l.stays refl) (k.stops (ground (arith, x)))

  next-Keeps : (s t u : Session) (a b : Bool) → Keeps s t a → Keeps t u b → Keeps s u (a || b)
  next-Keeps s t u a b k l = record {
    disabled = ground (arith, k.disabled, l.disabled);
    stops = λ x. next_stops s t u a b k l x;
    stays = λ x. ground (arith, x, k.stays, l.stays);
    open_still = l.open_still ∙ k.open_still;
    services = l.services ∙ k.services;
    msgs = l.msgs ∙ k.msgs;
  }

  after_round-goes :
      (e : ChannelEnd) (t u : Session) (es : List ChannelEnd)
      → is_waiting e ≡ false
      → after_round e t (some (u, es)) ≡ some (u, e ∷ es)
  after_round-goes e t u es ends = rw ends refl

  -- If the routers that handleChannels meets are well formed, the names of sessions hold no brackets,
  -- and every client that is asked for a channel answers, it serves every request for a channel. The
  -- session stays as open as it was, with its ports and messages. Its idle timer is disabled
  -- afterwards if and only if it was before or some request was connected to a channel of a session;
  -- in the latter case the timer does not run, and else it is what it was.
  pub channels_served :
      (qs : List (Met × NewChannel)) (fuel : ℕ) (s : Session)
      → MeetsValid qs
      → AllAnswer qs
      → (t : Session) × (es : List ChannelEnd) × (handle_channels (suc (suc fuel)) qs s
          ≡ some (t, es))
        × (length es ≡ length qs)
        × Keeps s t (any_connected es)
  unfolding handle_channels
  channels_served [] fuel s v a = (s, [], refl, refl, same-Keeps s)
  channels_served ((m, q) ∷ qs) fuel s (v, vs) (a, as_all) =
      let (t, e, goes, ends, kept) = handle_channel-goes m q fuel s v a in
      let (u, es, rest, as_long, kept_then) = channels_served qs fuel t vs as_all in
      (
        u,
        e ∷ es,
        rw (goes, rest) (after_round-goes e t u es ends),
        ap suc as_long,
        next-Keeps s t u (is_connected e) (any_connected es) kept kept_then,
      )
