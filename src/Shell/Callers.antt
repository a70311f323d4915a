-- ===== src/Shell/Callers.antt =====
-- ssh/console.go and ssh/command: the calls of a command are the session's own, and about names only.
use remotemoe.Prelude.{ℕ, ◌≡◌, refl, List, [], ◌∷◌}
use remotemoe.Text.{Text}
use remotemoe.Route.{Peer}
use remotemoe.Disk.{Env}
use remotemoe.Router.{Result, ok, err}
use remotemoe.Router.Calls.{remove_name}
use remotemoe.Router.History.{World, Call, onlines, offlines, removes_all, adds, removes, step}
use remotemoe.Shell.Tree.{
  firsttime, close, forwards, autossh, unitfile, list, add, remove, remove_all, access, whoami,
  version,
}
use remotemoe.Shell.Run.{Verdict, calls_action, only_prints, with_envs}
use remotemoe.Shell.Calls.{calls_of, removing_until}
use remotemoe.Commands.Laws.{adding}

-- Calls that only add and remove names, for one caller.
abbrev pub NamesOnlyBy : Peer → List Call → Type 0
NamesOnlyBy p [] = Unit {0}
NamesOnlyBy p (onlines env q ∷ cs) = ⊥
NamesOnlyBy p (offlines env q ∷ cs) = ⊥
NamesOnlyBy p (removes_all env q ∷ cs) = (q ≡ p) × NamesOnlyBy p cs
NamesOnlyBy p (adds env s q ∷ cs) = (q ≡ p) × NamesOnlyBy p cs
NamesOnlyBy p (removes env s q ∷ cs) = (q ≡ p) × NamesOnlyBy p cs

adding-NamesOnlyBy : (p : Peer) (args : List (Env × Text)) → NamesOnlyBy p (adding p args)
adding-NamesOnlyBy p [] = tt
adding-NamesOnlyBy p ((env, s) ∷ args) = (refl, adding-NamesOnlyBy p args)

module _ (unicode_lower : Text → Text) where
  removing_until-NamesOnlyBy :
      (p : Peer) (args : List (Env × Text)) (w : World)
      → NamesOnlyBy p (removing_until unicode_lower p args w)
  removing_until-NamesOnlyBy p [] w = tt
  removing_until-NamesOnlyBy p ((env, s) ∷ args) w =
      part (remove_name env s p w.router).1 refl
        (removing_until-NamesOnlyBy p args (step unicode_lower w (removes env s p)))
    where
      part :
          (o : Result (Unit {0}))
          → (remove_name env s p w.router).1 ≡ o
          → NamesOnlyBy p
              (removing_until unicode_lower p args (step unicode_lower w (removes env s p)))
          → NamesOnlyBy p (removing_until unicode_lower p ((env, s) ∷ args) w)
      part (ok d) e ih = rw e (refl, ih)
      part (err x) e ih = rw e (refl, tt)

  -- The commands make no other calls.
  pub calls_of-NamesOnlyBy :
      (v : Verdict) (env : ℕ → Env) (p : Peer) (w : World)
      → NamesOnlyBy p (calls_of unicode_lower v env p w)
  calls_of-NamesOnlyBy (only_prints ts) env p w = tt
  calls_of-NamesOnlyBy (calls_action add args) env p w = adding-NamesOnlyBy p (with_envs env args)
  calls_of-NamesOnlyBy (calls_action remove args) env p w =
      removing_until-NamesOnlyBy p (with_envs env args) w
  calls_of-NamesOnlyBy (calls_action remove_all args) env p w = (refl, tt)
  calls_of-NamesOnlyBy (calls_action firsttime args) env p w = tt
  calls_of-NamesOnlyBy (calls_action close args) env p w = tt
  calls_of-NamesOnlyBy (calls_action forwards args) env p w = tt
  calls_of-NamesOnlyBy (calls_action autossh args) env p w = tt
  calls_of-NamesOnlyBy (calls_action unitfile args) env p w = tt
  calls_of-NamesOnlyBy (calls_action list args) env p w = tt
  calls_of-NamesOnlyBy (calls_action access args) env p w = tt
  calls_of-NamesOnlyBy (calls_action whoami args) env p w = tt
  calls_of-NamesOnlyBy (calls_action version args) env p w = tt
