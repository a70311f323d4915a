-- ===== src/Session/Lifetime/Takeover.antt =====
-- ssh/session.go and routertwo/router.go: a session that takes over the name of another.
use remotemoe.Prelude.{
  ◌<◌, ◌≤◌, ◌≡◌, ◌≢◌, refl, sym, subst, ◌∙◌, Bool, true, [], ◌∷◌, ◌++◌, some, arith, length,
}
use remotemoe.Text.{Text, text_eq_iff, text_eq_refl}
use remotemoe.Route.{Peer, Host, host_route, replaced}
use remotemoe.Disk.{Env}
use remotemoe.Router.{Router, find, ok}
use remotemoe.Router.Calls.{online, online_host, offline, told, was_replaced}
use remotemoe.Router.Invariant.{IsSynced, IsKeyed}
use remotemoe.Router.Effects.{stores, parted, find-online, find-offline}
use remotemoe.Router.Answers.{online_calls}
use remotemoe.Router.History.{World, IsValid, step, onlines}
use remotemoe.Router.History.Sessions.{online-IsValid, IsValid-IsKeyed}
use remotemoe.Session.{msgs_capacity}
use remotemoe.Session.Requests.{Handler, goes, blocks}
use remotemoe.Session.Requests.Sends.{sent, not_sent}
use remotemoe.Session.Lifetime.{Life, end_handle, bye, tell_replaced}

parted-other :
    (env : Env) (old new : Peer) (h : Host)
    → h.routable ≡ some new
    → old.id ≢ new.id
    → parted env old (some (host_route h)) ≡ some (host_route h)
parted-other env old new h e two = ground (arith, e, two)

-- Offline of a session whose name leads to another session changes no route.
offline-stale :
    (env : Env) (old new : Peer) (r : Router) (h : Host)
    → IsSynced r
    → IsKeyed r
    → find old.fqdn r ≡ some (host_route h)
    → h.routable ≡ some new
    → old.id ≢ new.id
    → (k : Text) → find k (offline env old r) ≡ find k r
offline-stale env old new r h s keyed routed here two k = ground (
  arith,
  find-offline env old r s keyed k,
  parted-other env old new h here two,
  routed,
  text_eq_iff old.fqdn k,
)

module _ (unicode_lower : Text → Text) (is_key : Text → Bool) where
  module _ (w : World) (v : IsValid unicode_lower is_key w) (env : Env) (new : Peer) (h : Host)
      (routed : find new.fqdn w.router ≡ some (host_route h)) (stored : stores env ≡ true) where
    abbrev taken : World
    taken = step unicode_lower w (onlines env new)

    taken-IsValid : IsValid unicode_lower is_key taken
    taken-IsValid = online-IsValid unicode_lower is_key w v env new (v.hosts new.fqdn h routed).1

    abbrev host : Host
    host = online_host env new (some (host_route h))

    find-taken : find new.fqdn (online env new w.router).router ≡ some (host_route host)
    find-taken =
        find-online env new w.router v.synced new.fqdn
        ∙ rw (stored, routed, text_eq_refl new.fqdn) refl

    taken-stays :
        (env' : Env) (old : Peer) (k : Text)
        → old.fqdn ≡ new.fqdn
        → old.id ≢ new.id
        → find k (offline env' old (online env new w.router).router)
          ≡ find k (online env new w.router).router
    unfolding step online_host
    taken-stays env' old k same two =
        offline-stale env' old new taken.router host taken-IsValid.synced
          (IsValid-IsKeyed unicode_lower is_key taken taken-IsValid env' old)
          (subst (λ f. find f taken.router ≡ some (host_route host)) (sym same) find-taken) refl two
          k

  -- A session takes over the name of another: in a well-formed router in which the name leads to an
  -- older session with another identity, if the host can be stored, Online answers that it has
  -- replaced a session and tells just that one; the name leads to the new session afterwards; and it
  -- still does, as every other route stays, when the older session ends and goes offline.
  pub takeover :
      (w : World) (env env' : Env) (new : Peer) (h : Host) (old : Life)
      → IsValid unicode_lower is_key w
      → find new.fqdn w.router ≡ some (host_route h)
      → h.routable ≡ some old.session.peer
      → old.session.peer.fqdn ≡ new.fqdn
      → old.session.peer.id ≢ new.id
      → stores env ≡ true
      → ((online env new w.router).result ≡ ok true)
        × ((online env new w.router).told ≡ some old.session.peer)
        × ((g : Host) × (find new.fqdn (online env new w.router).router ≡ some (host_route g))
            × (g.routable ≡ some new))
        × ((k : Text)
            → find k (end_handle env' old (online env new w.router).router).1
              ≡ find k (online env new w.router).router)
  unfolding end_handle online_host was_replaced told replaced
  takeover w env env' new h old v routed here same two stored =
      let (who, answer) = online_calls env new w.router v.synced in
      (
        answer ∙ rw (stored, routed, here) refl,
        who ∙ rw (routed, here) refl,
        (host w v env new h routed stored, find-taken w v env new h routed stored, refl),
        λ k. taken-stays w v env new h routed stored env' old.session.peer k same two,
      )

module _ (warning : Text → Text) where
  abbrev told_bye : Handler → Handler
  told_bye h = record h {
    session = record h.session { msgs = h.session.msgs ++ bye warning ∷ []; closed = true };
  }

  -- Replaced closes its session while a message fits, and waits for ever, without closing it, while
  -- 50 messages wait that no console takes.
  pub tell_replaced_lem :
      (h : Handler)
      → (length h.session.msgs < msgs_capacity
          → (g : Handler) × (tell_replaced warning h ≡ goes g) × (g.session.closed ≡ true))
        × (msgs_capacity ≤ length h.session.msgs → tell_replaced warning h ≡ blocks h)
  unfolding tell_replaced
  tell_replaced_lem h = (
    (λ l. (told_bye h, rw (sent (bye warning) h l) refl, refl)),
    λ l. rw (not_sent (bye warning) h l) refl,
  )
