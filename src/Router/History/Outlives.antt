-- ===== src/Router/History/Outlives.antt =====
-- routertwo/router.go: names outlive a restart, whatever other sessions do before and after it.
use remotemoe.Prelude.{
  ℕ, ◌≡◌, refl, sym, ap, subst, ◌∙◌, List, ◌∷◌, Option, none, some, Bool, arith, length,
}
use mathlib.Core.Option
use remotemoe.Text.{Text}
use remotemoe.Dict.{lookup}
use remotemoe.Route.{NamedRoute, Route, host_route, name_route, fqdn}
use remotemoe.Disk.{Disk}
use remotemoe.Router.{Router, find}
use remotemoe.Router.Load.{Entry, up, new_router}
use remotemoe.Router.Restart.{lasting, start}
use remotemoe.Router.Ownership.{NotBy, run-keeps_name}
use remotemoe.Router.History.{World, Call, run, IsValid, AllAllowed, empty_world}
use remotemoe.Router.History.Valid.{run_empty-IsValid, empty-IsValid}
use remotemoe.Router.History.Saved.{
  AllOblige, IsWalk, keyed, run-IsSaved, empty-IsSaved, saved-IsEntry, run-restarts,
}
use remotemoe.Router.History.Restarted.{IsOnceWalk, load-Valid}

-- A router that has just come up, with the addresses that NewRouter has given away.
abbrev pub restarted : List Entry → Router → World
restarted walk u = record { router = u; next_ref = length walk }

up_injective : (r s : Router) → up r ≡ up s → r ≡ s
up_injective r s e = cc

lasting_name :
    (o : Option Route) (n : NamedRoute)
    → Option.map lasting o ≡ some (lasting (name_route n))
    → (m : NamedRoute) × (o ≡ some (name_route m)) × (m.owner ≡ n.owner)
lasting_name none n e = cc
lasting_name (some (host_route h)) n e = cc
lasting_name (some (name_route m)) n e = (m, refl, ground (arith, e))

start-Valid :
    (unicode_lower : Text → Text) (is_key : Text → Bool) (db_path : Text) (disk : Disk)
    → IsValid unicode_lower is_key (record { router = start db_path disk; next_ref = 0 })
unfolding find lookup
start-Valid unicode_lower is_key db_path disk = record {
  synced = λ k. refl;
  trim = λ o e. cc;
  indexed = record {
    owner = λ o n m. absurd m;
    routed = λ o n m. absurd m;
    complete = λ k n e. cc;
    distinct = λ o. tt;
    keyed = λ k n e. cc;
  };
  hosts = λ k h e. cc;
  names = λ k n e. cc;
}

start-find : (db_path : Text) (disk : Disk) (k : Text) → find k (start db_path disk) ≡ none
unfolding find lookup
start-find db_path disk k = refl

module _ (unicode_lower : Text → Text) (is_key : Text → Bool) (c : ℕ) (d : Text) (cs : List Call)
    (walk : List Entry) (u : Router) where
  abbrev before : World
  before = run unicode_lower (empty_world (c ∷ d)) cs

  module _ (allowed : AllAllowed unicode_lower is_key (empty_world (c ∷ d)) cs)
      (obliges : AllOblige unicode_lower cs)
      (visits : IsWalk unicode_lower (c ∷ d) before.router.disk walk)
      (comes_up : new_router (c ∷ d) before.router.disk walk ≡ up u) where
    before-IsValid : IsValid unicode_lower is_key before
    before-IsValid = run_empty-IsValid unicode_lower is_key (c ∷ d) cs allowed

    restarted-IsValid : IsOnceWalk walk → IsValid unicode_lower is_key (restarted walk u)
    unfolding new_router
    restarted-IsValid once =
        let saved =
          run-IsSaved unicode_lower is_key c d (empty_world (c ∷ d)) cs
            (empty-IsValid unicode_lower is_key (c ∷ d)) (empty-IsSaved unicode_lower is_key c d)
            allowed obliges in
        subst (λ k. IsValid unicode_lower is_key (record { router = u; next_ref = k }))
          (omega arith)
          (load-Valid unicode_lower is_key before.router before.next_ref before-IsValid 0 walk
            (start (c ∷ d) before.router.disk) u
            (saved-IsEntry unicode_lower c d before.router walk
              (keyed unicode_lower is_key c d before before-IsValid saved) saved visits)
            once (λ t i e. start-find (c ∷ d) before.router.disk (fqdn t))
            (start-Valid unicode_lower is_key (c ∷ d) before.router.disk) comes_up)

    same_routes :
        (k : Text) → Option.map lasting (find k u) ≡ Option.map lasting (find k before.router)
    same_routes k =
        let (u', e, synced, same) =
          run-restarts unicode_lower is_key c d cs walk allowed obliges visits in
        ap (λ x. Option.map lasting (find k x)) (up_injective u u' (sym comes_up ∙ e)) ∙ same k

-- A name that is routed after an allowed history from an empty router (on a file system that obliges,
-- names without slashes) outlives the program: the router that NewRouter makes of its files, in a walk
-- that visits each once, is well formed, and through every allowed history that follows, in which the
-- owner removes nothing, the name is routed to the same owner.
pub names_outlive_restart :
    (unicode_lower : Text → Text) (is_key : Text → Bool) (c : ℕ) (d : Text) (cs cs' : List Call)
    (walk : List Entry) (u : Router) (k : Text) (n : NamedRoute)
    → AllAllowed unicode_lower is_key (empty_world (c ∷ d)) cs
    → AllOblige unicode_lower cs
    → IsWalk unicode_lower (c ∷ d) (run unicode_lower (empty_world (c ∷ d)) cs).router.disk walk
    → IsOnceWalk walk
    → new_router (c ∷ d) (run unicode_lower (empty_world (c ∷ d)) cs).router.disk walk ≡ up u
    → find k (run unicode_lower (empty_world (c ∷ d)) cs).router ≡ some (name_route n)
    → AllAllowed unicode_lower is_key (restarted walk u) cs'
    → NotBy n.owner cs'
    → IsValid unicode_lower is_key (restarted walk u)
      × (m : NamedRoute) × (find k (run unicode_lower (restarted walk u) cs').router
          ≡ some (name_route m))
      × (m.owner ≡ n.owner)
names_outlive_restart unicode_lower is_key c d cs cs' walk u k n a o visits once e there a' others =
    let valid = restarted-IsValid unicode_lower is_key c d cs walk u a o visits e once in
    let (m, here, own) = lasting_name (find k u) n (
      same_routes unicode_lower is_key c d cs walk u a o visits e k
      ∙ ap (Option.map lasting) there) in
    (
      valid,
      m,
      run-keeps_name unicode_lower is_key (restarted walk u) cs' k m valid a'
          (subst (λ x. NotBy x cs') (sym own) others) here,
      own,
    )
