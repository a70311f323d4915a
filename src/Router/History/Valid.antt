-- ===== src/Router/History/Valid.antt =====
-- routertwo/router.go: the router stays well formed over whole histories.
use remotemoe.Prelude.{◌≡◌, refl, subst, List, [], ◌∷◌, Bool, In, ◌↔◌, some, arith}
use remotemoe.Text.{Text}
use remotemoe.Dict.{lookup}
use remotemoe.Route.{Peer, NamedRoute, name_route}
use remotemoe.Router.{Router, find, names}
use remotemoe.Router.IndexLaws.{names_of}
use remotemoe.Router.History.{
  World, Call, onlines, offlines, removes_all, adds, removes, step, run, IsValid, Allowed,
  AllAllowed, empty_world,
}
use remotemoe.Router.History.Sessions.{online-IsValid, offline-IsValid}
use remotemoe.Router.History.Names.{adds-IsValid, removes-IsValid}
use remotemoe.Router.History.RemoveAll.{removes_all-IsValid}

pub names-names_of : (p : Peer) (r : Router) → names p r ≡ names_of p.fqdn r.name_index
unfolding names
names-names_of p r = ground arith

module _ (unicode_lower : Text → Text) (is_key : Text → Bool) where
  pub step-IsValid :
      (w : World) (c : Call)
      → IsValid unicode_lower is_key w
      → Allowed unicode_lower is_key w c
      → IsValid unicode_lower is_key (step unicode_lower w c)
  step-IsValid w (onlines env p) v a = online-IsValid unicode_lower is_key w v env p a
  step-IsValid w (offlines env p) v a = offline-IsValid unicode_lower is_key w v env p
  step-IsValid w (removes_all env p) v a = removes_all-IsValid unicode_lower is_key w v env p a
  step-IsValid w (adds env s p) v a = adds-IsValid unicode_lower is_key w v env p s a.0 a.1
  step-IsValid w (removes env s p) v a = removes-IsValid unicode_lower is_key w v env p s

  pub run-IsValid :
      (w : World) (cs : List Call)
      → IsValid unicode_lower is_key w
      → AllAllowed unicode_lower is_key w cs
      → IsValid unicode_lower is_key (run unicode_lower w cs)
  unfolding run
  run-IsValid w [] v a = v
  run-IsValid w (c ∷ cs) v a = run-IsValid (step unicode_lower w c) cs (step-IsValid w c v a.0) a.1

  pub empty-IsValid : (db_path : Text) → IsValid unicode_lower is_key (empty_world db_path)
  unfolding find lookup
  empty-IsValid db_path = record {
    synced = λ k. refl;
    trim = λ o e. cc;
    indexed = record {
      owner = λ o n m. absurd m;
      routed = λ o n m. absurd m;
      complete = λ k n e. cc;
      distinct = λ o. tt;
      keyed = λ k n e. cc;
    };
    hosts = λ k h e. cc;
    names = λ k n e. cc;
  }

  -- After every allowed history from an empty router the two tables hold the same routes, each
  -- route stands under its name, and the index lists under each owner exactly its routed names.
  pub run_empty-IsValid :
      (db_path : Text) (cs : List Call)
      → AllAllowed unicode_lower is_key (empty_world db_path) cs
      → IsValid unicode_lower is_key (run unicode_lower (empty_world db_path) cs)
  run_empty-IsValid db_path cs a = run-IsValid (empty_world db_path) cs (empty-IsValid db_path) a

  -- In a well-formed router, Names answers exactly the names that are routed to the caller.
  pub In-names_iff :
      (w : World) (p : Peer) (n : NamedRoute)
      → IsValid unicode_lower is_key w
      → In n (names p w.router)
        ↔ ((find n.name w.router ≡ some (name_route n)) × (n.owner ≡ p.fqdn))
  In-names_iff w p n v = rw (names-names_of p w.router) (
    λ m. (v.indexed.routed p.fqdn n m, v.indexed.owner p.fqdn n m),
    λ e. subst (λ o. In n (names_of o w.router.name_index)) e.1 (v.indexed.complete n.name n e.0),
  )
