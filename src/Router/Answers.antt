-- ===== src/Router/Answers.antt =====
-- routertwo/router.go: what the answers of the router's calls tell about its routes.
use remotemoe.Prelude.{
  ◌≡◌, refl, ap, ◌∙◌, Option, none, some, Bool, true, false, ◌↔◌, ◌⊎◌, inl, inr, ◌&&◌, arith,
  if◌then◌else◌,
}
use remotemoe.Text.{Text, text_eq, text_eq_refl}
use remotemoe.Route.{Peer, Host, NamedRoute, Route, host_route, name_route, replaced}
use remotemoe.Disk.{Env, unable_to_create, unable_to_encode}
use remotemoe.Router.{Router, Result, Error, unable_to_store, ok, err, find}
use remotemoe.Router.Calls.{
  is_some, online, was_replaced, told, add_name, add_new_name, remove_name, drop_name,
}
use remotemoe.Router.Invariant.{IsSynced}
use remotemoe.Router.Effects.{stores, idle-find}
use remotemoe.Router.Effects.Names.{takes, find-add_name, taken_away, find-remove_name}

-- Whether a route is a name of that owner.
abbrev pub belongs : Text → Option Route → Bool
belongs o none = false
belongs o (some (host_route h)) = false
belongs o (some (name_route n)) = text_eq n.owner o

add_new_name-ok_iff :
    (env : Env) (n : NamedRoute) (r : Router)
    → ((add_new_name env n r).1 ≡ ok tt) ↔ (stores env ≡ true)
unfolding add_new_name
add_new_name-ok_iff env n r = ground arith

module _ (env : Env) (n : NamedRoute) (r : Router) (s : IsSynced r) where
  add_name-ok_found :
      (o : Option Route)
      → find n.name r ≡ o
      → ((add_name env n r).1 ≡ ok tt) ↔ (belongs n.owner (find n.name (add_name env n r).0) ≡ true)
  unfolding add_name takes
  add_name-ok_found none e = ground (
    arith,
    idle-find r s n.name,
    find-add_name env n r s n.name,
    text_eq_refl n.name,
    text_eq_refl n.owner,
    add_new_name-ok_iff env n r,
  )
  add_name-ok_found (some (host_route h)) e =
      ground (arith, idle-find r s n.name, find-add_name env n r s n.name)
  add_name-ok_found (some (name_route m)) e =
      ground (arith, idle-find r s n.name, find-add_name env n r s n.name)

drop_name-ok_iff :
    (env : Env) (k : Text) (from : Peer) (n : NamedRoute) (r : Router)
    → ((drop_name env k from n r).1 ≡ ok tt) ↔ (env.can_unlink k ≡ true)
unfolding drop_name
drop_name-ok_iff env k from n r = ground arith

module _ (env : Env) (k : Text) (from : Peer) (r : Router) (s : IsSynced r) where
  remove_name-ok_found :
      (o : Option Route)
      → find k r ≡ o
      → ((remove_name env k from r).1 ≡ ok tt) ↔ (belongs from.fqdn o && env.can_unlink k ≡ true)
  unfolding remove_name
  remove_name-ok_found none e = ground (arith, idle-find r s k)
  remove_name-ok_found (some (host_route h)) e = ground (arith, idle-find r s k)
  remove_name-ok_found (some (name_route n)) e =
      ground (arith, idle-find r s k, drop_name-ok_iff env k from n r)

  remove_name-find_found :
      (o : Option Route)
      → find k r ≡ o
      → (j : Text)
      → find j (remove_name env k from r).0
        ≡ (if belongs from.fqdn o && env.can_unlink k && text_eq k j then none else find j r)
  unfolding taken_away
  remove_name-find_found none e j = ground (arith, find-remove_name env k from r s j)
  remove_name-find_found (some (host_route h)) e j =
      ground (arith, find-remove_name env k from r s j)
  remove_name-find_found (some (name_route n)) e j =
      ground (arith, find-remove_name env k from r s j)

-- With both tables alike, AddName answers without error exactly if the name afterwards belongs to
-- the caller.
pub add_name-ok_iff :
    (env : Env) (n : NamedRoute) (r : Router)
    → IsSynced r
    → ((add_name env n r).1 ≡ ok tt) ↔ (belongs n.owner (find n.name (add_name env n r).0) ≡ true)
add_name-ok_iff env n r s = add_name-ok_found env n r s (find n.name r) refl

-- With both tables alike, RemoveName answers without error exactly if the name belonged to the
-- caller and its file could be removed. Then that name is gone and no other route has changed, and
-- otherwise no route has.
pub remove_name_answer :
    (env : Env) (k : Text) (from : Peer) (r : Router)
    → IsSynced r
    → (((remove_name env k from r).1 ≡ ok tt)
        ↔ (belongs from.fqdn (find k r) && env.can_unlink k ≡ true))
      × ((j : Text)
          → find j (remove_name env k from r).0 ≡ (
              if belongs from.fqdn (find k r) && env.can_unlink k && text_eq k j
              then none
              else find j r))
remove_name_answer env k from r s = (
  remove_name-ok_found env k from r s (find k r) refl,
  λ j. remove_name-find_found env k from r s (find k r) refl j,
)

-- What Online answers when it cannot store the host.
abbrev pub store_failure : Env → Error
store_failure env = unable_to_store (if env.can_create then unable_to_encode else unable_to_create)

pub online_calls :
    (env : Env) (p : Peer) (r : Router)
    → IsSynced r
    → ((online env p r).told ≡ told (find p.fqdn r))
      × ((online env p r).result
          ≡ (if stores env then ok (was_replaced (find p.fqdn r)) else err (store_failure env)))
unfolding online find
online_calls env p r s = ground (arith, s p.fqdn)

-- The route is a host that has that session.
abbrev pub HasSession : Option Route → Peer → Type 0
HasSession o q = (h : Host) × (o ≡ some (host_route h)) × (h.routable ≡ some q)

same_host : (g h : Host) → some (host_route g) ≡ some (host_route h) → g ≡ h
same_host g h e = cc

told_iff : (o : Option Route) (q : Peer) → (told o ≡ some q) ↔ HasSession o q
unfolding told replaced
told_iff none q = ((λ e. cc), λ (h, e, there). cc)
told_iff (some (name_route n)) q = ((λ e. cc), λ (h, e, there). cc)
told_iff (some (host_route g)) q =
    ((λ e. (g, refl, e)), λ (h, e, there). ap (λ (x : Host). x.routable) (same_host g h e) ∙ there)

was_replaced_found :
    (o : Option Route)
    → ((was_replaced o ≡ true) × (q : Peer) × HasSession o q)
      ⊎ ((was_replaced o ≡ false) × ((q : Peer) → ¬ HasSession o q))
unfolding was_replaced
was_replaced_found none = inr (refl, λ q (h, e, there). cc)
was_replaced_found (some (name_route n)) = inr (refl, λ q (h, e, there). cc)
was_replaced_found (some (host_route g)) = of_session g.routable refl
  where
    of_session :
        (x : Option Peer)
        → g.routable ≡ x
        → ((was_replaced (some (host_route g)) ≡ true)
            × (q : Peer) × HasSession (some (host_route g)) q)
          ⊎ ((was_replaced (some (host_route g)) ≡ false)
              × ((q : Peer) → ¬ HasSession (some (host_route g)) q))
    of_session (some q) e = inl (ap is_some e, q, (g, refl, e))
    of_session none e = inr (
      ap is_some e,
      λ q (h, same, there).
          absurd (ground (arith, e, there, ap (λ (x : Host). x.routable) (same_host g h same))),
    )

answers_lem :
    (stored : Bool) (e : Error) (o : Option Route) (a : Result Bool)
    → a ≡ (if stored then ok (was_replaced o) else err e)
    → ((a ≡ ok true) ↔ ((stored ≡ true) × (q : Peer) × HasSession o q))
      × ((a ≡ ok false) ↔ ((stored ≡ true) × ((q : Peer) → ¬ HasSession o q)))
      × ((a ≡ err e) ↔ (stored ≡ false))
answers_lem stored e o a answers = elim (was_replaced_found o) [
  | inl (had, q, there) ↦ (
    (
      (λ x. (ground (arith, x, answers), q, there)),
      λ (can, x, y). ground (arith, answers, can, had),
    ),
    (
      (λ x. absurd (ground (arith, x, answers, had))),
      λ (can, none_there). absurd (none_there q there),
    ),
    ground (arith, answers),
  )
  | inr (had, none_there) ↦ (
    (
      (λ x. absurd (ground (arith, x, answers, had))),
      λ (can, q, there). absurd (none_there q there),
    ),
    (
      (λ x. (ground (arith, x, answers), none_there)),
      λ (can, x). ground (arith, answers, can, had),
    ),
    ground (arith, answers),
  )
]

-- Online, with both tables alike, tells a session of its replacement if and only if that is the
-- session of the host of its name, also if storing fails. It answers true exactly if the host could
-- be stored and had a session, false exactly if it could be stored and there was no host with a
-- session, and with the error of the file exactly if it could not be stored.
pub online_answer :
    (env : Env) (p : Peer) (r : Router)
    → IsSynced r
    → ((q : Peer) → ((online env p r).told ≡ some q) ↔ HasSession (find p.fqdn r) q)
      × (((online env p r).result ≡ ok true)
          ↔ ((stores env ≡ true) × (q : Peer) × HasSession (find p.fqdn r) q))
      × (((online env p r).result ≡ ok false)
          ↔ ((stores env ≡ true) × ((q : Peer) → ¬ HasSession (find p.fqdn r) q)))
      × (((online env p r).result ≡ err (store_failure env)) ↔ (stores env ≡ false))
online_answer env p r s =
    let (tells, answers) = online_calls env p r s in
    let (replaced_one, first, fails) =
      answers_lem (stores env) (store_failure env) (find p.fqdn r) (online env p r).result
        answers in
    ((λ q. rw tells (told_iff (find p.fqdn r) q)), replaced_one, first, fails)
