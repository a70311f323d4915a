-- ===== src/Session/Lifetime/KeepAlive.antt =====
-- ssh/session.go: KeepAlive closes a session that does not answer.
use remotemoe.Prelude.{
  ◌≡◌, refl, ◌∙◌, Bool, true, ◌||◌, ◌&&◌, not, List, [], ◌∷◌, arith, if◌then◌else◌, Bool-cases, inl,
  inr,
}
use remotemoe.Session.{running, fired}
use remotemoe.Session.Lifetime.{Life, Answer, keep_alive, keep_alives}

-- The answer comes in time.
abbrev in_time : Answer → Bool
in_time a = not (a.late || a.failed)

abbrev all_in_time : List Answer → Bool
all_in_time [] = true
all_in_time (a ∷ rest) = in_time a && all_in_time rest

abbrev rung : Life → Life
rung l = record l { keep_alive_timer = fired }

keep_alives-running :
    (l : Life) (a : Answer) (rest : List Answer)
    → l.keep_alive_timer ≡ running
    → keep_alives (a ∷ rest) l ≡ keep_alives rest (keep_alive a (rung l))
unfolding keep_alives
keep_alives-running l a rest r = ground (arith, r)

keep_alives-rest :
    (l : Life) (answers : List Answer) → l.keep_alive_timer ≡ fired → keep_alives answers l ≡ l
unfolding keep_alives
keep_alives-rest l [] r = refl
keep_alives-rest l (a ∷ rest) r = ground (arith, r)

keep_alive_closes :
    (a : Answer) (l : Life)
    → (keep_alive a (rung l)).session.closed ≡ (l.session.closed || (a.late || a.failed))
unfolding keep_alive
keep_alive_closes a l = ground arith

keep_alive-timer :
    (a : Answer) (l : Life)
    → (keep_alive a (rung l)).keep_alive_timer ≡ (if a.failed then fired else running)
unfolding keep_alive
keep_alive-timer a l = ground arith

any_late :
    (a : Answer) (rest : List Answer)
    → not (all_in_time (a ∷ rest)) ≡ ((a.late || a.failed) || not (all_in_time rest))
any_late a rest = ground arith

-- While the timer runs, and at each answer that a KeepAlive has, it closes the session if and only if
-- the answer does not come in time or is an error.
keep_alives_lem :
    (l : Life) (answers : List Answer)
    → l.keep_alive_timer ≡ running
    → (keep_alives answers l).session.closed ≡ (l.session.closed || not (all_in_time answers))
unfolding keep_alives
keep_alives_lem l [] r = ground arith
keep_alives_lem l (a ∷ rest) r = elim (Bool-cases a.failed) [
  | inl bad ↦ ground (
    arith,
    bad,
    keep_alives-running l a rest r,
    keep_alives-rest (keep_alive a (rung l)) rest (keep_alive-timer a l ∙ rw bad refl),
    keep_alive_closes a l,
    any_late a rest,
  )
  | inr good ↦ ground (
    arith,
    good,
    keep_alives-running l a rest r,
    keep_alives_lem (keep_alive a (rung l)) rest (keep_alive-timer a l ∙ rw good refl),
    keep_alive_closes a l,
    any_late a rest,
  )
]
