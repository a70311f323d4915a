-- ===== src/System.antt =====
-- ssh/server.go, ssh/session.go, ssh/console.go and routertwo/router.go together: sessions that come, serve
-- requests and lines, and go, over one router.
pub mod Requests
pub mod Live
pub mod Kept
pub mod Steps
pub mod Late
use remotemoe.Prelude.{
  ℕ, ◌==◌, ◌≡◌, Bool, true, false, List, [], ◌∷◌, Option, none, some, if◌then◌else◌,
}
use remotemoe.Text.{Text}
use remotemoe.Route.{Peer}
use remotemoe.Disk.{Env}
use remotemoe.Router.{Router}
use remotemoe.Router.History.{World, AllAllowed, empty_world}
use remotemoe.Session.{Session, new_session}
use remotemoe.Session.Requests.{Request, Handler, Progress, goes, blocks, handle_request}
use remotemoe.Session.Lifetime.{Life, end_handle}
use remotemoe.Shell.Tree.{Tree}
use remotemoe.Shell.Texts.{Build}
use remotemoe.Shell.Run.{Shell, Verdict, run_line}
use remotemoe.Shell.Safe.{line_calls}

-- A session; once its Handle is over, also whether it had registered by then. Its goroutines that serve
-- requests and lines may still go on.
pub record Member : Type 0 where
  pub session : Session
  pub ended : Option Bool

-- The sessions, by the identity of the pointer, and the router with its files.
pub record System : Type 0 where
  pub world : World
  pub members : ℕ → Option Member

abbrev pub new_system : Text → System
new_system db_path = record { world = empty_world db_path; members = λ i. none }

abbrev pub put : ℕ → Member → (ℕ → Option Member) → ℕ → Option Member
put i m members j = if i == j then some m else members j

-- Where a handler has come, also one that waits for ever.
abbrev pub reached : Progress → Handler
reached (goes h) = h
reached (blocks h) = h

abbrev pub handler : Session → Router → Handler
handler s r = record { session = s; router = r; replies = [] }

module _ (unicode_lower : Text → Text) (is_key : Text → Bool) (bold warning : Text → Text)
    (hostname : Text) (build : Build) (set : ℕ → Text → Option Text)
    (execute : Tree → List Text → Verdict × Tree) where
  abbrev pub handled : Env → Request → Session → Router → Handler
  handled env q s r = reached (handle_request bold warning hostname env q (handler s r))

  -- A session comes, with the name of a key; it serves a request, or a line of one of its consoles,
  -- whose calls are allowed, also after the end of its Handle; it changes as by its timers, its messages
  -- and its channels, which have no part in the router; or its Handle ends.
  pub data SystemStep : System → System → Type 0 where
    connects :
        {y : System} (p : Peer)
        → y.members p.id ≡ none
        → is_key p.fqdn ≡ true
        → SystemStep y (record y {
          members = put p.id (record { session = new_session p; ended = none }) y.members;
        })
    asks :
        {y : System} (m : Member) (env : Env) (q : Request)
        → y.members m.session.peer.id ≡ some m
        → SystemStep y (record {
          world = record y.world { router = (handled env q m.session y.world.router).router };
          members =
              put m.session.peer.id
                (record m { session = (handled env q m.session y.world.router).session })
                y.members;
        })
    types :
        {y : System} (c : Shell) (ended : Option Bool) (env : ℕ → Env) (args : List Text)
        → y.members c.session.peer.id ≡ some (record { session = c.session; ended = ended })
        → c.world ≡ y.world
        → c.panicked ≡ false
        → AllAllowed unicode_lower is_key c.world
            (line_calls unicode_lower hostname build set execute env args c)
        → SystemStep y (record {
          world = (run_line unicode_lower hostname build set execute env args c).world;
          members =
              put c.session.peer.id
                (record {
                  session = (run_line unicode_lower hostname build set execute env args c).session;
                  ended = ended;
                })
                y.members;
        })
    changes :
        {y : System} (m : Member) (t : Session)
        → y.members m.session.peer.id ≡ some m
        → t.peer ≡ m.session.peer
        → t.registered ≡ m.session.registered
        → SystemStep y
            (record y { members = put m.session.peer.id (record m { session = t }) y.members })
    ends :
        {y : System} (l : Life) (env : Env)
        → y.members l.session.peer.id ≡ some (record { session = l.session; ended = none })
        → SystemStep y (record {
          world = record y.world { router = (end_handle env l y.world.router).1 };
          members =
              put l.session.peer.id
                (record {
                  session = (end_handle env l y.world.router).0.session;
                  ended = some l.session.registered;
                })
                y.members;
        })

  pub data Runs : System → System → Type 0 where
    at_once : {x y : System} → x ≡ y → Runs x y
    step_more : {x z : System} (y : System) → Runs x y → SystemStep y z → Runs x z
