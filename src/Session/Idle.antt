-- ===== src/Session/Idle.antt =====
-- ssh/session.go: the idle timer of a session.
use remotemoe.Prelude.{◌≡◌, refl, true, arith, ◌≢◌, ◌∙◌}
use remotemoe.Session.{
  Session, Timer, running, fired, stopped, poke_timeout, disable_timeout, time_out, stop,
}

-- What can happen to the timer: a key that is typed, a forward or a dial that disables it, and time.
pub data IdleEvent : Type 0 where
  pokes disables times_out : IdleEvent

unfoldable pub idle_step : IdleEvent → Session → Session
unfolding poke_timeout disable_timeout time_out
idle_step pokes s = poke_timeout s
idle_step disables s = disable_timeout s
idle_step times_out s = time_out s

-- The sessions that idle events lead to.
pub data Reaches : Session → Session → Type 0 where
  here : (s : Session) → Reaches s s
  next : (e : IdleEvent) (s t : Session) → Reaches (idle_step e s) t → Reaches s t

-- A timer that was disabled does not run.
abbrev pub IsQuiet : Session → Type 0
IsQuiet s = (s.idle_disabled ≡ true) × (s.idle_timeout ≢ running)

idle_step-IsQuiet :
    (e : IdleEvent) (s : Session)
    → IsQuiet s
    → IsQuiet (idle_step e s) × ((idle_step e s).closed ≡ s.closed)
unfolding idle_step
idle_step-IsQuiet pokes s q = ground (arith, q.0, q.1)
idle_step-IsQuiet disables s q = ground (arith, q.0, q.1)
idle_step-IsQuiet times_out s q = ground (arith, q.0, q.1)

quiet-Reaches : (s t : Session) → Reaches s t → IsQuiet s → t.closed ≡ s.closed
quiet-Reaches _ _ (here s) q = refl
quiet-Reaches _ _ (next e s t m) q =
    let (q', same) = idle_step-IsQuiet e s q in quiet-Reaches (idle_step e s) t m q' ∙ same

-- After DisableTimeout no sequence of keys, forwards, dials and time closes the session for being
-- idle.
pub disabled_stays_open : (s t : Session) → Reaches (disable_timeout s) t → t.closed ≡ s.closed
unfolding disable_timeout
disabled_stays_open s t m = quiet-Reaches (disable_timeout s) t m (part s.idle_timeout)
  where
    part : (i : Timer) → IsQuiet (record s { idle_timeout = (stop i).1; idle_disabled = true })
    part running = (refl, λ e. cc)
    part fired = (refl, λ e. cc)
    part stopped = (refl, λ e. cc)
