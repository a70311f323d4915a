-- ===== src/System/Steps.antt =====
-- ssh/session.go, ssh/console.go and routertwo/router.go: whatever happens, no host leads to a session that has
-- gone, unless that has registered only afterwards.
use remotemoe.Prelude.{
  ℕ, ◌≡◌, refl, sym, ap, ◌∙◌, subst, Bool, true, false, List, [], ◌∷◌, Option, none, some, inl, inr,
  ◌⊎◌, ◌≢◌, arith,
}
use remotemoe.Text.{Text}
use remotemoe.Route.{Peer, Host, Route, host_route}
use remotemoe.Disk.{Env}
use remotemoe.Router.{find}
use remotemoe.Router.Calls.{online}
use remotemoe.Router.History.{World, IsValid, AllAllowed}
use remotemoe.Router.History.Valid.{empty-IsValid}
use remotemoe.Shell.Tree.{Tree}
use remotemoe.Shell.Texts.{Build}
use remotemoe.Shell.Run.{Shell, Verdict, run_line, run_shell}
use remotemoe.Shell.Owned.{KeptOrOwn}
use remotemoe.Shell.Safe.{line_calls, run_line_lem, typed_keeps_others}
use remotemoe.Dict.{lookup}
use remotemoe.Router.Dial.{reaches, dial}
use remotemoe.System.{
  Member, System, new_system, put, handler, SystemStep, connects, asks, types, changes, ends, Runs,
  at_once, step_more,
}
use remotemoe.System.Live.{IsThere-still, put-AreOwn}
use remotemoe.System.Requests.{handle_request-Leaves}
use remotemoe.Router.DialEnds.{dial-Ends}
use remotemoe.System.Kept.{
  IsLive, none-some, connects-IsLive, asks-IsLive, changes-IsLive, ends-IsLive,
}

-- A route that is a host after the lines was it before.
kept_host :
    (o : Text) (a b : Option Route) (h : Host)
    → KeptOrOwn o a b
    → b ≡ some (host_route h)
    → a ≡ some (host_route h)
kept_host o a b h (inl same) e = sym same ∙ e
kept_host o a b h (inr (f, g)) e = absurd (ground (arith, g, e))

module _ (unicode_lower : Text → Text) (is_key : Text → Bool) (bold warning : Text → Text)
    (hostname : Text) (build : Build) (set : ℕ → Text → Option Text)
    (execute : Tree → List Text → Verdict × Tree) where
  abbrev typed : (ℕ → Env) → List Text → Shell → Shell
  typed = run_line unicode_lower hostname build set execute

  types-IsLive :
      (y : System) (c : Shell) (ended : Option Bool) (env : ℕ → Env) (args : List Text)
      → IsLive unicode_lower is_key y
      → y.members c.session.peer.id ≡ some (record { session = c.session; ended = ended })
      → c.world ≡ y.world
      → c.panicked ≡ false
      → AllAllowed unicode_lower is_key c.world
          (line_calls unicode_lower hostname build set execute env args c)
      → IsLive unicode_lower is_key (record y {
        world = (typed env args c).world;
        members =
            put c.session.peer.id
              (record { session = (typed env args c).session; ended = ended })
              y.members;
      })
  unfolding run_shell
  types-IsLive y c ended env args v here same calm allowed =
      let (world, (peer, once), quiet) =
        run_line_lem unicode_lower hostname build set execute env args c calm in
      let (valid, still, kept) =
        typed_keeps_others unicode_lower hostname build set execute is_key c ((env, args) ∷ [])
          (subst (IsValid unicode_lower is_key) (sym same) v.valid) calm (allowed, tt) in
      let mine = v.own c.session.peer.id (record { session = c.session; ended = ended }) here in
      record {
        valid = valid;
        own =
            put-AreOwn is_key y.members c.session.peer.id
              (record { session = (typed env args c).session; ended = ended }) v.own
              (
                ap (λ (p : Peer). p.id) peer,
                subst (λ (p : Peer). is_key p.fqdn ≡ true) (sym peer) mine.1,
                λ e. once ∙ mine.2 e,
              );
        leads = λ k h p e o.
            IsThere-still y.members (record { session = c.session; ended = ended })
              (typed env args c).session k p here peer (λ b. once ∙ b)
              (v.leads k h p
                (subst (λ (w : World). find k w.router ≡ some (host_route h)) same
                  (kept_host c.session.peer.fqdn (find k c.world.router) _ h (kept k) e))
                o);
      }

  step-IsLive :
      (y z : System)
      → SystemStep unicode_lower is_key bold warning hostname build set execute y z
      → IsLive unicode_lower is_key y
      → IsLive unicode_lower is_key z
  step-IsLive y z (connects p free key) v = connects-IsLive unicode_lower is_key y p v free key
  step-IsLive y z (asks m env q here) v =
      asks-IsLive unicode_lower is_key y m env _ v here
        (handle_request-Leaves bold warning hostname env q (handler m.session y.world.router))
  step-IsLive y z (types c ended env args here same calm allowed) v =
      types-IsLive y c ended env args v here same calm allowed
  step-IsLive y z (changes m t here same once) v =
      changes-IsLive unicode_lower is_key y m t v here same once
  step-IsLive y z (ends l env here) v = ends-IsLive unicode_lower is_key y l env v here

  runs-IsLive :
      (x y : System)
      → Runs unicode_lower is_key bold warning hostname build set execute x y
      → IsLive unicode_lower is_key x
      → IsLive unicode_lower is_key y
  runs-IsLive x y (at_once e) v = subst (IsLive unicode_lower is_key) e v
  runs-IsLive x z (step_more y r s) v = step-IsLive y z s (runs-IsLive x y r v)

  new-IsLive : (db_path : Text) → IsLive unicode_lower is_key (new_system db_path)
  unfolding find lookup
  new-IsLive db_path = record {
    valid = empty-IsValid unicode_lower is_key db_path;
    own = λ i s e. absurd (none-some s e);
    leads = λ k h p e o. cc;
  }

  ended_cases : (o : Option Bool) → o ≢ some true → (o ≡ none) ⊎ (o ≡ some false)
  ended_cases none n = inl refl
  ended_cases (some false) n = inr refl
  ended_cases (some true) n = absurd (n refl)

  -- In every system that is reached from an empty one, by sessions that come, with the names of keys,
  -- serve requests (also where their handler then waits for ever) and allowed lines, both of them also
  -- after the end of their Handle, change, and go: the router is well formed, and a dial, of any
  -- address, that ends at a session ends at one that has registered, under a name by which the router
  -- knows it, and that Handle still serves, or else had not registered yet when Handle ended.
  pub dial_reaches_live :
      (db_path : Text) (y : System) (fuel : ℕ) (address target : Text) (p : Peer)
      → Runs unicode_lower is_key bold warning hostname build set execute (new_system db_path) y
      → dial fuel y.world.router address ≡ some (reaches p target)
      → IsValid unicode_lower is_key y.world
        × (m : Member) × (y.members p.id ≡ some m)
        × (m.session.peer ≡ p)
        × (m.session.registered ≡ true)
        × ((m.ended ≡ none) ⊎ (m.ended ≡ some false))
        × (h : Host) × (find p.fqdn y.world.router ≡ some (host_route h))
        × (h.routable ≡ some p)
  dial_reaches_live db_path y fuel address target p r d =
      let v = runs-IsLive (new_system db_path) y r (new-IsLive db_path) in
      let (k, h, there, online) = dial-Ends fuel y.world.router address target p d in
      let (m, here, own, once, name, open_still) = v.leads k h p there online in
      (
        v.valid,
        m,
        here,
        own,
        once,
        ended_cases m.ended open_still,
        h,
        subst (λ a. find a y.world.router ≡ some (host_route h)) (sym name) there,
        online,
      )
