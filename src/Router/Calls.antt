-- ===== src/Router/Calls.antt =====
-- routertwo/router.go: Online, Offline, AddName, RemoveName and RemoveNames.
use remotemoe.Prelude.{◌==◌, Bool, true, false, Option, none, some, if◌then◌else◌}
use remotemoe.Text.{Text, text_eq}
use remotemoe.Dict.{lookup, insert, delete}
use remotemoe.Route.{
  Peer, Host, NamedRoute, Route, host_route, name_route, replaced, of_host, of_name,
}
use remotemoe.Disk.{Env, store, unlink}
use remotemoe.Router.{
  Router, unable_to_store, occupied, not_existing, not_named, not_yours, fs_error, Result, ok, err,
  pick, current, begin, publish, index, reduce_index,
}

abbrev pub is_some {ℓ} : {A : Type ℓ} → Option A → Bool
is_some none = false
is_some (some _) = true

-- The Host that Online stores, by the route that stood under the name.
unfoldable pub online_host : Env → Peer → Option Route → Host
online_host env p (some (host_route h)) = record {
  routable = some p;
  name = p.fqdn;
  last_seen = env.seen;
  created = h.created;
}
online_host env p (some (name_route n)) = record {
  routable = some p;
  name = p.fqdn;
  last_seen = env.seen;
  created = env.created;
}
online_host env p none = record {
  routable = some p;
  name = p.fqdn;
  last_seen = env.seen;
  created = env.created;
}

-- What Online answers if the host is stored, and the session that a goroutine tells of its
-- replacement, which is started before that.
unfoldable pub was_replaced : Option Route → Bool
was_replaced (some (host_route h)) = is_some h.routable
was_replaced (some (name_route n)) = false
was_replaced none = false

unfoldable pub told : Option Route → Option Peer
unfolding replaced
told (some (host_route h)) = replaced h
told (some (name_route n)) = none
told none = none

pub record Onlined : Type 0 where
  pub router : Router
  pub result : Result Bool
  pub told : Option Peer

unfoldable pub online : Env → Peer → Router → Onlined
unfolding begin store publish online_host was_replaced told
online env p r =
    let (next, old) = begin r in
    let found = lookup p.fqdn (pick next r) in
    let host = online_host env p found in
    let (disk, failure) = store env r.db_path p.fqdn (of_host host) r.disk in
    let stored = record r { disk = disk } in
    elim failure [
      | some e ↦ record { router = stored; result = err (unable_to_store e); told = told found }
      | none ↦ record {
        router = publish next old (insert p.fqdn (host_route host)) stored;
        result = ok (was_replaced found);
        told = told found;
      }
    ]

-- Offline below its guards: `host` is the active host, whose session is the caller. An error of
-- store is only logged.
unfoldable pub go_offline : Env → Host → Router → Router
unfolding begin store publish
go_offline env host r =
    let (next, old) = begin r in
    let seen = record host { last_seen = env.seen } in
    let (disk, failure) = store env r.db_path host.name (of_host seen) r.disk in
    let gone = record seen { routable = none } in
    publish next old (insert host.name (host_route gone)) (record r { disk = disk })

abbrev pub is_peer : Peer → Option Peer → Bool
is_peer p none = false
is_peer p (some q) = p.id == q.id

unfoldable pub offline : Env → Peer → Router → Router
unfolding go_offline
offline env p r = elim (lookup p.fqdn (current r)) [
  | none ↦ r
  | some (name_route n) ↦ r
  | some (host_route host) ↦ if is_peer p host.routable then go_offline env host r else r
]

-- AddName below its check for an existing route.
unfoldable pub add_new_name : Env → NamedRoute → Router → Router × Result (Unit {0})
unfolding begin store publish index
add_new_name env n r =
    let (next, old) = begin r in
    let wired = record n { wired = true } in
    let (disk, failure) = store env r.db_path n.name (of_name wired) r.disk in
    let stored = record r { disk = disk } in
    elim failure [
      | some e ↦ (stored, err (unable_to_store e))
      | none ↦ (
        publish next old (insert n.name (name_route wired))
            (record stored { name_index = index wired r.name_index }),
        ok tt,
      )
    ]

unfoldable pub add_name : Env → NamedRoute → Router → Router × Result (Unit {0})
unfolding begin add_new_name
add_name env n r = elim (lookup n.name (pick (begin r).0 r)) [
  | none ↦ add_new_name env n r
  | some (name_route m) ↦ if text_eq m.owner n.owner then (r, ok tt) else (r, err (occupied n.name))
  | some (host_route h) ↦ (r, err (occupied n.name))
]

-- RemoveName below its guards.
unfoldable pub drop_name : Env → Text → Peer → NamedRoute → Router → Router × Result (Unit {0})
unfolding begin unlink publish reduce_index
drop_name env s from n r =
    let (next, old) = begin r in
    let (disk, removed) = unlink env r.db_path s r.disk in
    if removed
    then (
      publish next old (delete s)
          (record r { disk = disk; name_index = reduce_index from.fqdn n r.name_index }),
      ok tt,
    )
    else (record r { disk = disk }, err fs_error)

unfoldable pub remove_name : Env → Text → Peer → Router → Router × Result (Unit {0})
unfolding begin drop_name
remove_name env s from r = elim (lookup s (pick (begin r).0 r)) [
  | none ↦ (r, err (not_existing s))
  | some (host_route h) ↦ (r, err (not_named s))
  | some (name_route n) ↦
      if text_eq n.owner from.fqdn then drop_name env s from n r else (r, err (not_yours s))
]
