-- ===== src/Shell/Calls.antt =====
-- ssh/console.go and ssh/command: the calls that lines make of the router, and what they can change there.
use remotemoe.Prelude.{ℕ, ◌≡◌, refl, Bool, List, [], ◌∷◌, Option, none, some}
use remotemoe.Text.{Text}
use remotemoe.Route.{Peer}
use remotemoe.Disk.{Env}
use remotemoe.Router.{Error, Result, ok, err}
use remotemoe.Router.Calls.{remove_name}
use remotemoe.Router.History.{World, Call, removes_all, removes, step, run, AllAllowed}
use remotemoe.Commands.{Line, remove_hosts, remove_all_hosts}
use remotemoe.Commands.Laws.{adding, add_hosts-run}
use remotemoe.Shell.Tree.{
  firsttime, close, forwards, autossh, unitfile, list, add, remove, remove_all, access, whoami,
  version,
}
use remotemoe.Shell.Texts.{Build}
use remotemoe.Shell.Run.{
  Shell, Verdict, calls_action, only_prints, with_envs, run_action, obey, close_session,
  removed_all,
}

-- The calls that `host remove` makes, up to the first that fails.
abbrev pub removing_until : (Text → Text) → Peer → List (Env × Text) → World → List Call
removing_until unicode_lower p [] w = []
removing_until unicode_lower p ((env, s) ∷ args) w =
    let rest = removing_until unicode_lower p args (step unicode_lower w (removes env s p)) in
    removes env s p ∷ elim (remove_name env s p w.router).1 [ ok d ↦ rest | err e ↦ [] ]

-- The session has the same peer, registered or not.
abbrev pub SameSession : Shell → Shell → Type 0
SameSession s t = (t.session.peer ≡ s.session.peer) × (t.session.registered ≡ s.session.registered)

removed_all_lem :
    (w : World) (a : Option (List Line × Option Error)) (s : Shell)
    → ((removed_all w a s).world ≡ w) × SameSession s (removed_all w a s)
removed_all_lem w none s = (refl, (refl, refl))
removed_all_lem w (some (lines, none)) s = (refl, (refl, refl))
removed_all_lem w (some (lines, some e)) s = (refl, (refl, refl))

module _ (unicode_lower : Text → Text) where
  -- The calls of a command.
  abbrev pub calls_of : Verdict → (ℕ → Env) → Peer → World → List Call
  calls_of (only_prints ts) env p w = []
  calls_of (calls_action add args) env p w = adding p (with_envs env args)
  calls_of (calls_action remove args) env p w =
      removing_until unicode_lower p (with_envs env args) w
  calls_of (calls_action remove_all args) env p w = removes_all (env 0) p ∷ []
  calls_of (calls_action firsttime args) env p w = []
  calls_of (calls_action close args) env p w = []
  calls_of (calls_action forwards args) env p w = []
  calls_of (calls_action autossh args) env p w = []
  calls_of (calls_action unitfile args) env p w = []
  calls_of (calls_action list args) env p w = []
  calls_of (calls_action access args) env p w = []
  calls_of (calls_action whoami args) env p w = []
  calls_of (calls_action version args) env p w = []

  remove_hosts-run :
      (p : Peer) (args : List (Env × Text)) (w : World)
      → (remove_hosts p args w).world ≡ run unicode_lower w (removing_until unicode_lower p args w)
  unfolding remove_hosts run step
  remove_hosts-run p [] w = refl
  remove_hosts-run p ((env, s) ∷ args) w =
      part (remove_name env s p w.router).1 refl
        (remove_hosts-run p args (step unicode_lower w (removes env s p)))
    where
      part :
          (o : Result (Unit {0}))
          → (remove_name env s p w.router).1 ≡ o
          → (remove_hosts p args (step unicode_lower w (removes env s p))).world
            ≡ run unicode_lower
                (step unicode_lower w (removes env s p))
                (removing_until unicode_lower p args (step unicode_lower w (removes env s p)))
          → (remove_hosts p ((env, s) ∷ args) w).world
            ≡ run unicode_lower w (removing_until unicode_lower p ((env, s) ∷ args) w)
      part (ok d) e ih = rw e ih
      part (err x) e ih = rw e refl

  removing_until-allowed :
      (is_key : Text → Bool) (p : Peer) (args : List (Env × Text)) (w : World)
      → AllAllowed unicode_lower is_key w (removing_until unicode_lower p args w)
  removing_until-allowed is_key p [] w = tt
  removing_until-allowed is_key p ((env, s) ∷ args) w =
      part (remove_name env s p w.router).1 refl
        (removing_until-allowed is_key p args (step unicode_lower w (removes env s p)))
    where
      part :
          (o : Result (Unit {0}))
          → (remove_name env s p w.router).1 ≡ o
          → AllAllowed unicode_lower is_key
              (step unicode_lower w (removes env s p))
              (removing_until unicode_lower p args (step unicode_lower w (removes env s p)))
          → AllAllowed unicode_lower is_key w (removing_until unicode_lower p ((env, s) ∷ args) w)
      part (ok d) e ih = rw e (tt, ih)
      part (err x) e ih = rw e (tt, tt)

  module _ (hostname : Text) (build : Build) where
    -- A command changes the router by its calls and no other way, and the session's peer stays.
    pub obey-world :
        (v : Verdict) (env : ℕ → Env) (s : Shell)
        → ((obey unicode_lower hostname build v env s).world
            ≡ run unicode_lower s.world (calls_of v env s.session.peer s.world))
          × SameSession s (obey unicode_lower hostname build v env s)
    unfolding run_action run step remove_all_hosts close_session
    obey-world (only_prints ts) env s = (refl, (refl, refl))
    obey-world (calls_action add args) env s =
        ((add_hosts-run unicode_lower s.session.peer (with_envs env args) s.world).0, (refl, refl))
    obey-world (calls_action remove args) env s =
        (remove_hosts-run s.session.peer (with_envs env args) s.world, (refl, refl))
    obey-world (calls_action remove_all args) env s = removed_all_lem _ _ s
    obey-world (calls_action firsttime args) env s = (refl, (refl, refl))
    obey-world (calls_action close args) env s = (refl, (refl, refl))
    obey-world (calls_action forwards args) env s = (refl, (refl, refl))
    obey-world (calls_action autossh args) env s = (refl, (refl, refl))
    obey-world (calls_action unitfile args) env s = (refl, (refl, refl))
    obey-world (calls_action list args) env s = (refl, (refl, refl))
    obey-world (calls_action access args) env s = (refl, (refl, refl))
    obey-world (calls_action whoami args) env s = (refl, (refl, refl))
    obey-world (calls_action version args) env s = (refl, (refl, refl))
