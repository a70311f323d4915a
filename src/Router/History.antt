-- ===== src/Router/History.antt =====
-- routertwo/router.go: histories of calls, and what holds after each of them.
pub mod Sessions
pub mod Names
pub mod RemoveAll
pub mod Valid
pub mod Saved
pub mod Restarted
pub mod Outlives
use remotemoe.Prelude.{
  ℕ, suc, ◌+◌, ◌<◌, ◌≡◌, refl, List, [], ◌∷◌, Option, none, some, Bool, true, false,
}
use remotemoe.Text.{Text}
use remotemoe.Text.Lower.{to_lower}
use remotemoe.Route.{Peer, Host, NamedRoute, Route, host_route, name_route, new_name}
use remotemoe.Disk.{Env}
use remotemoe.Router.{Router, Table, Side, side_a, find}
use remotemoe.Router.Calls.{online, offline, add_name, remove_name}
use remotemoe.Router.Sweep.{remove_names}
use remotemoe.Router.Invariant.{IsSynced}
use remotemoe.Router.IndexLaws.{names_of, IsTrim}
use remotemoe.Router.Indexes.{Indexes}

-- The router, and the address that the next NewName gets.
pub record World : Type 0 where
  pub router : Router
  pub next_ref : ℕ

-- The calls of the sessions: Online and Offline of a session, and what the commands `host add`,
-- `host remove` and `host remove all` do for one name, or for all.
pub data Call : Type 0 where
  onlines offlines removes_all : Env → Peer → Call
  adds removes : Env → Text → Peer → Call

abbrev pub empty_router : Text → Router
empty_router db_path = record {
  db_path = db_path;
  a = [];
  b = [];
  active = side_a;
  name_index = [];
  disk = [];
}

abbrev pub empty_world : Text → World
empty_world db_path = record { router = empty_router db_path; next_ref = 0 }

module _ (unicode_lower : Text → Text) where
  unfoldable pub step : World → Call → World
  step w (onlines env p) = record w { router = (online env p w.router).router }
  step w (offlines env p) = record w { router = offline env p w.router }
  step w (removes_all env p) = record w { router = (remove_names env p w.router).0 }
  step w (adds env s p) = record {
    router = (add_name env (new_name unicode_lower w.next_ref s p) w.router).0;
    next_ref = suc w.next_ref;
  }
  step w (removes env s p) = record w { router = (remove_name env s p w.router).0 }

  unfoldable pub run : World → List Call → World
  run w [] = w
  run w (c ∷ cs) = run (step w c) cs

  -- `is_key` tells the names of sessions, <hash>.<hostname>, from all others.
  module _ (is_key : Text → Bool) where
    -- Sessions have such a name, nobody adds one, and RemoveNames can remove the first file.
    abbrev pub Allowed : World → Call → Type 0
    Allowed w (onlines env p) = is_key p.fqdn ≡ true
    Allowed w (offlines env p) = Unit {0}
    Allowed w (removes_all env p) =
        (n : NamedRoute) (ns : List NamedRoute)
        → names_of p.fqdn w.router.name_index ≡ n ∷ ns
        → env.can_unlink n.name ≡ true
    Allowed w (adds env s p) = (is_key p.fqdn ≡ true) × (is_key (to_lower unicode_lower s) ≡ false)
    Allowed w (removes env s p) = Unit {0}

    abbrev pub AllAllowed : World → List Call → Type 0
    AllAllowed w [] = Unit {0}
    AllAllowed w (c ∷ cs) = Allowed w c × AllAllowed (step w c) cs

    pub record IsValid (w : World) : Type 0 where
      pub synced : IsSynced w.router
      pub trim : IsTrim w.router.name_index
      pub indexed : Indexes (λ k. find k w.router) w.router.name_index
      pub hosts :
          (k : Text) (h : Host)
          → find k w.router ≡ some (host_route h)
          → (h.name ≡ k) × (is_key k ≡ true)
      pub names :
          (k : Text) (n : NamedRoute)
          → find k w.router ≡ some (name_route n)
          → (is_key k ≡ false) × (is_key n.owner ≡ true) × (n.wired ≡ true) × (n.ref < w.next_ref)
