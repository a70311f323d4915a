-- ===== src/Commands.antt =====
-- ssh/command/host.go and ssh/command/host: what the commands `host list`, `host add`,
-- `host remove` and `host remove all` print and do to the router.
pub mod Laws
pub mod Access
pub mod Snippets
pub mod Ports
pub mod RemoveAll
use remotemoe.Prelude.{ℕ, suc, List, [], ◌∷◌, ◌++◌, Option, none, some, map}
use remotemoe.Text.{Text}
use remotemoe.Route.{Peer, NamedRoute, new_name}
use remotemoe.Disk.{Env}
use remotemoe.Router.{Router, Error, Result, ok, err, names}
use remotemoe.Router.Calls.{add_name, remove_name}
use remotemoe.Router.Sweep.{Removed, remove_names}
use remotemoe.Router.History.{World}

-- The lines that the commands print, each with the name or the error in it.
pub data Line : Type 0 where
  no_hostnames active_hostnames : Line
  listed is_active is_removed : Text → Line
  not_added : Text → Error → Line

-- `host list`
unfoldable pub list_hosts : Peer → Router → List Line
unfolding names
list_hosts p r = elim (names p r) [
  | [] ↦ no_hostnames ∷ []
  | n ∷ ns ↦ active_hostnames ∷ map (λ (m : NamedRoute). listed m.name) (n ∷ ns)
]

module _ (unicode_lower : Text → Text) (p : Peer) where
  abbrev added : Text → NamedRoute → Result (Unit {0}) → Line
  added s n (ok done) = is_active n.name
  added s n (err e) = not_added s e

  -- `host add`, which goes on after an error. Each call meets what `env` has for it.
  unfoldable pub add_hosts : List (Env × Text) → World → World × List Line
  unfolding new_name
  add_hosts [] w = (w, [])
  add_hosts ((env, s) ∷ args) w =
      let n = new_name unicode_lower w.next_ref s p in
      let (router, answer) = add_name env n w.router in
      let (end, lines) = add_hosts args (record { router = router; next_ref = suc w.next_ref }) in
      (end, added s n answer ∷ lines)

-- `host remove`, which ends at the first error: the lines printed before it, and the error with the
-- name that it is about.
pub record RemovedHosts : Type 0 where
  pub world : World
  pub lines : List Line
  pub error : Option (Text × Error)

module _ (p : Peer) where
  abbrev remove_rest : Text → World → Result (Unit {0}) → (World → RemovedHosts) → RemovedHosts
  remove_rest s w (ok done) rest = record (rest w) { lines = is_removed s ∷ (rest w).lines }
  remove_rest s w (err e) rest = record { world = w; lines = []; error = some (s, e) }

  unfoldable pub remove_hosts : List (Env × Text) → World → RemovedHosts
  remove_hosts [] w = record { world = w; lines = []; error = none }
  remove_hosts ((env, s) ∷ args) w =
      let (router, answer) = remove_name env s p w.router in
      remove_rest s (record w { router = router }) answer (λ v. remove_hosts args v)

-- `host remove all`: the lines, or the error. After an error nothing is printed.
abbrev pub told_removed : Option Error → List NamedRoute → List Line × Option Error
told_removed (some e) ns = ([], some e)
told_removed none ns = (map (λ (n : NamedRoute). is_removed n.name) ns, none)

abbrev pub removed_answer : Option Removed → Option (List Line × Option Error)
removed_answer none = none
removed_answer (some removed) = some (told_removed removed.error removed.list)

-- `none` is the panic of RemoveNames.
unfoldable pub remove_all_hosts : Env → Peer → World → World × Option (List Line × Option Error)
unfolding remove_names
remove_all_hosts env p w =
    let (router, removed) = remove_names env p w.router in
    (record w { router = router }, removed_answer removed)
