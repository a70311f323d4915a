-- ===== src/Router/Faults.antt =====
-- routertwo/router.go: three ways in which the router goes wrong: a name that is the name of a
-- session, RemoveNames when the first file stays, and a name that leads to itself.
use remotemoe.Prelude.{
  ℕ, ◌≡◌, refl, ◌∙◌, ap, List, [], ◌∷◌, Option, none, some, true, false, ◌≢◌, arith,
}
use remotemoe.Text.{Text, text_eq_iff, text_eq_refl}
use remotemoe.Text.Lower.{to_lower}
use remotemoe.Dict.{lookup, lookup-insert}
use remotemoe.Net.{contains, join_host_port}
use remotemoe.Net.RoundTrip.{IsPlain}
use remotemoe.Route.{Peer, NamedRoute, host_route, name_route, new_name}
use remotemoe.Disk.{Env}
use remotemoe.Router.{Router, find, pick, begin, fs_error}
use remotemoe.Router.Calls.{online, online_host}
use remotemoe.Router.Sweep.{remove_names, remove_listed}
use remotemoe.Router.Invariant.{IsSynced}
use remotemoe.Router.IndexLaws.{names_of, listed, names_of-index}
use remotemoe.Router.Effects.{stores, find-online, online-IsSynced, name_index-online}
use remotemoe.Router.Effects.Names.{takes, find-add_name, name_index-add_name, add_name-IsSynced}
use remotemoe.Router.SweepLaws.{
  find-remove_listed, remove_names_listed, remove_listed_stuck_answer, find-remove_listed_stuck,
  idle-remove_listed_stuck,
}
use remotemoe.Router.Dial.{dial}
use remotemoe.Router.DialLaws.{dial_own_name}
use remotemoe.Router.History.{World, onlines, removes_all, adds, step, run}

takes_absent :
    (env : Env) (n : NamedRoute) (r : Router)
    → stores env ≡ true
    → find n.name r ≡ none
    → takes env n r ≡ true
unfolding takes
takes_absent env n r s e = ground arith

lookup_of_names_of :
    (o : Option (List NamedRoute)) (n : NamedRoute) (ns : List NamedRoute)
    → listed o ≡ n ∷ ns
    → o ≡ some (n ∷ ns)
lookup_of_names_of none n ns e = cc
lookup_of_names_of (some ms) n ns e = cc

-- Online after the tables have come apart: the idle table is what readers see next.
find-online_idle :
    (env : Env) (p : Peer) (r : Router) (k : Text)
    → stores env ≡ true
    → p.fqdn ≢ k
    → find k (online env p r).router ≡ lookup k (pick (begin r).0 r)
unfolding online find
find-online_idle env p r k s ne = ground (
  arith,
  text_eq_iff p.fqdn k,
  lookup-insert p.fqdn k (host_route (online_host env p (lookup p.fqdn r.a))) r.a,
  lookup-insert p.fqdn k (host_route (online_host env p (lookup p.fqdn r.b))) r.b,
)

-- With both tables alike, if the file of the caller's first name cannot be removed, RemoveNames
-- answers that name as removed, beside the error. It is routed as before, until a session of
-- another name comes online and can be stored: then it is gone.
pub remove_names_stuck :
    (env later : Env) (p q : Peer) (r : Router) (n : NamedRoute) (ns : List NamedRoute)
    → IsSynced r
    → lookup p.fqdn r.name_index ≡ some (n ∷ ns)
    → env.can_unlink n.name ≡ false
    → stores later ≡ true
    → q.fqdn ≢ n.name
    → ((remove_names env p r).1 ≡ some (record { list = n ∷ []; error = some fs_error }))
      × (find n.name (remove_names env p r).0 ≡ find n.name r)
      × (find n.name (online later q (remove_names env p r).0).router ≡ none)
remove_names_stuck env later p q r n ns s e stays st ne =
    rw (remove_names_listed env p r (n ∷ ns) e) (
      remove_listed_stuck_answer env p n ns r stays,
      find-remove_listed_stuck env p n ns r stays s n.name,
      find-online_idle later q (remove_listed env p (n ∷ ns) r).0 n.name st ne
          ∙ idle-remove_listed_stuck env p n ns r stays n.name
          ∙ rw (text_eq_refl n.name),
    )

module _ (unicode_lower : Text → Text) where
  module _ (w : World) (env : Env) (p : Peer) (name : Text) (s : IsSynced w.router)
      (lower : to_lower unicode_lower name ≡ name) (free : find name w.router ≡ none)
      (st : stores env ≡ true) where
    abbrev squatting : NamedRoute
    squatting = record (new_name unicode_lower w.next_ref name p) { wired = true }

    abbrev squatted : World
    squatted = step unicode_lower w (adds env name p)

    squat_takes : takes env (new_name unicode_lower w.next_ref name p) w.router ≡ true
    unfolding new_name
    squat_takes = takes_absent env _ w.router st (rw lower free)

    squatted-IsSynced : IsSynced squatted.router
    unfolding step
    squatted-IsSynced = add_name-IsSynced env _ w.router s

    find-squatted : find name squatted.router ≡ some (name_route squatting)
    unfolding step new_name
    find-squatted = find-add_name env _ w.router s name ∙ rw (squat_takes, lower, text_eq_refl name)

    names_of-squatted :
        names_of p.fqdn w.router.name_index ≡ []
        → names_of p.fqdn squatted.router.name_index ≡ squatting ∷ []
    unfolding step new_name
    names_of-squatted e =
        ap (names_of p.fqdn) (name_index-add_name env _ w.router s ∙ rw squat_takes)
        ∙ names_of-index squatting w.router.name_index p.fqdn
        ∙ rw (text_eq_refl p.fqdn, e)

    squatting-name : squatting.name ≡ name
    unfolding new_name
    squatting-name = lower

    module _ (q : Peer) (same : q.fqdn ≡ name) (un : env.can_unlink name ≡ true) where
      abbrev usurped : World
      usurped = step unicode_lower squatted (onlines env q)

      usurped-IsSynced : IsSynced usurped.router
      unfolding step
      usurped-IsSynced = online-IsSynced env q squatted.router squatted-IsSynced

      find-usurped : find name usurped.router ≡ some (host_route (online_host env q none))
      unfolding step online_host
      find-usurped = ground (
        arith,
        st,
        find-online env q squatted.router squatted-IsSynced name,
        find-squatted,
        same,
        text_eq_iff q.fqdn name,
      )

      lookup-usurped :
          names_of p.fqdn w.router.name_index ≡ []
          → lookup p.fqdn usurped.router.name_index ≡ some (squatting ∷ [])
      unfolding step
      lookup-usurped e =
          lookup_of_names_of _ squatting []
            (ap (names_of p.fqdn) (name_index-online env q squatted.router) ∙ names_of-squatted e)

      gone-usurped :
          names_of p.fqdn w.router.name_index ≡ []
          → find name (step unicode_lower usurped (removes_all env p)).router ≡ none
      unfolding step
      gone-usurped e =
          let first : env.can_unlink squatting.name ≡ true = rw squatting-name un in
          rw (remove_names_listed env p usurped.router (squatting ∷ []) (lookup-usurped e)) (
            find-remove_listed env p squatting [] usurped.router first usurped-IsSynced name
            ∙ ground (arith, first, squatting-name, text_eq_iff squatting.name name))

  -- With both tables alike, a caller without names who adds the lower-case name of a session, to
  -- which no route leads, can take the session's host away, if the files can be written and
  -- removed: the session comes online under that name, and `host remove all` of the caller deletes
  -- its host.
  pub squatter_removes_host :
      (w : World) (env : Env) (p q : Peer)
      → IsSynced w.router
      → to_lower unicode_lower q.fqdn ≡ q.fqdn
      → find q.fqdn w.router ≡ none
      → names_of p.fqdn w.router.name_index ≡ []
      → stores env ≡ true
      → env.can_unlink q.fqdn ≡ true
      → let v = run unicode_lower w (adds env q.fqdn p ∷ onlines env q ∷ []) in
        (find q.fqdn v.router ≡ some (host_route (online_host env q none)))
        × (find q.fqdn (step unicode_lower v (removes_all env p)).router ≡ none)
  unfolding run
  squatter_removes_host w env p q s lower free mine st un = (
    find-usurped w env p q.fqdn s lower free st q refl un,
    gone-usurped w env p q.fqdn s lower free st q refl un mine,
  )

  -- With both tables alike, a session whose lower-case name, without brackets, leads nowhere adds
  -- that name, and it can be stored: then a dial of it with a plain port does not return, whatever
  -- the depth of calls.
  pub own_name_loops :
      (w : World) (env : Env) (p : Peer) (port : Text)
      → IsSynced w.router
      → to_lower unicode_lower p.fqdn ≡ p.fqdn
      → find p.fqdn w.router ≡ none
      → stores env ≡ true
      → IsPlain p.fqdn
      → IsPlain port
      → contains b':' port ≡ false
      → (fuel : ℕ)
      → dial fuel (step unicode_lower w (adds env p.fqdn p)).router (join_host_port p.fqdn port)
        ≡ none
  unfolding new_name
  own_name_loops w env p port s lower free st h c d fuel =
      dial_own_name fuel _ (squatting w env p p.fqdn s lower free st) port h c d
        (find-squatted w env p p.fqdn s lower free st) refl
