-- ===== src/Router/Effects.antt =====
-- What Online and Offline do to the routes that readers see, on every branch, and that they leave both
-- tables alike.
pub mod Names
use remotemoe.Prelude.{◌≡◌, refl, Option, none, some, Bool, true, false, ◌&&◌, arith, if◌then◌else◌}
use remotemoe.Text.{Text, text_eq, text_eq_iff}
use remotemoe.Dict.{lookup, insert, delete, lookup-insert, lookup-delete}
use remotemoe.Route.{Peer, Host, NamedRoute, Route, host_route, name_route}
use remotemoe.Disk.{Env}
use remotemoe.Router.{Router, begin, pick, current, find, index, reduce_index}
use remotemoe.Router.Calls.{
  online, online_host, go_offline, offline, add_new_name, add_name, drop_name, remove_name, is_peer,
}
use remotemoe.Router.Invariant.{IsSynced, IsKeyed}

-- Whether a call can store a route.
abbrev pub stores : Env → Bool
stores env = env.can_create && env.can_encode

pub idle-find : (r : Router) → IsSynced r → (k : Text) → lookup k (pick (begin r).0 r) ≡ find k r
unfolding begin find
idle-find r s k = ground (arith, s k)

module _ (k : Text) (v : Route) where
  abbrev pub written : Text → Option Route → Option Route
  written j o = if text_eq k j then some v else o

module _ (k : Text) where
  abbrev pub erased : Text → Option Route → Option Route
  erased j o = if text_eq k j then none else o

-- Online
module _ (env : Env) (p : Peer) (r : Router) (s : IsSynced r) where
  pub online-IsSynced : IsSynced (online env p r).router
  unfolding online
  online-IsSynced k = ground (
    arith,
    s k,
    lookup-insert p.fqdn k (host_route (online_host env p (lookup p.fqdn r.a))) r.a,
    lookup-insert p.fqdn k (host_route (online_host env p (lookup p.fqdn r.b))) r.a,
    lookup-insert p.fqdn k (host_route (online_host env p (lookup p.fqdn r.a))) r.b,
    lookup-insert p.fqdn k (host_route (online_host env p (lookup p.fqdn r.b))) r.b,
  )

  -- Online, with both tables alike: if the host can be stored, the caller's name leads to it, and
  -- no other route changes. Else no route changes.
  pub find-online :
      (k : Text)
      → find k (online env p r).router ≡ (
          if stores env
          then written p.fqdn (host_route (online_host env p (find p.fqdn r))) k (find k r)
          else find k r)
  unfolding online find
  find-online k = ground (
    arith,
    s k,
    s p.fqdn,
    lookup-insert p.fqdn k (host_route (online_host env p (lookup p.fqdn r.a))) r.b,
    lookup-insert p.fqdn k (host_route (online_host env p (lookup p.fqdn r.b))) r.a,
  )

pub name_index-online :
    (env : Env) (p : Peer) (r : Router) → (online env p r).router.name_index ≡ r.name_index
unfolding online
name_index-online env p r = ground arith

-- What Offline makes of the route under the caller's name: only a host that has the caller's very
-- session changes.
abbrev pub parted : Env → Peer → Option Route → Option Route
parted env p (some (host_route h)) =
    if is_peer p h.routable
    then some (host_route (record h { routable = none; last_seen = env.seen }))
    else some (host_route h)
parted env p (some (name_route n)) = some (name_route n)
parted env p none = none

module _ (env : Env) (p : Peer) (r : Router) (s : IsSynced r) where
  go_offline-IsSynced : (h : Host) → IsSynced (go_offline env h r)
  unfolding go_offline
  go_offline-IsSynced h k = ground (
    arith,
    s k,
    lookup-insert h.name k (host_route (record h { routable = none; last_seen = env.seen })) r.a,
    lookup-insert h.name k (host_route (record h { routable = none; last_seen = env.seen })) r.b,
  )

  pub find-go_offline :
      (h : Host) (k : Text)
      → find k (go_offline env h r)
        ≡ written h.name
            (host_route (record h { routable = none; last_seen = env.seen }))
            k
            (find k r)
  unfolding go_offline find
  find-go_offline h k = ground (
    arith,
    s k,
    lookup-insert h.name k (host_route (record h { routable = none; last_seen = env.seen })) r.a,
    lookup-insert h.name k (host_route (record h { routable = none; last_seen = env.seen })) r.b,
  )

  pub offline-IsSynced : IsSynced (offline env p r)
  unfolding offline
  offline-IsSynced = part (lookup p.fqdn (current r)) refl
    where
      part : (o : Option Route) → lookup p.fqdn (current r) ≡ o → IsSynced (offline env p r)
      part none e k = ground (arith, s k)
      part (some (name_route n)) e k = ground (arith, s k)
      part (some (host_route h)) e k = ground (arith, s k, go_offline-IsSynced h k)

  module _ (keyed : IsKeyed r) (k : Text) where
    find-offline_found :
        (o : Option Route)
        → find p.fqdn r ≡ o
        → find k (offline env p r) ≡ (if text_eq p.fqdn k then parted env p o else find k r)
    unfolding offline find
    find-offline_found none e = ground (arith, text_eq_iff p.fqdn k)
    find-offline_found (some (name_route n)) e = ground (arith, text_eq_iff p.fqdn k)
    find-offline_found (some (host_route h)) e =
        ground (arith, text_eq_iff p.fqdn k, find-go_offline h k, keyed p.fqdn (host_route h) e)

    -- Offline, with both tables alike and each route under its own name: the host of the caller's
    -- name loses its session, if that is the caller, and nothing else changes.
    pub find-offline :
        find k (offline env p r)
        ≡ (if text_eq p.fqdn k then parted env p (find p.fqdn r) else find k r)
    find-offline = find-offline_found (find p.fqdn r) refl

  pub name_index-offline : (offline env p r).name_index ≡ r.name_index
  unfolding offline go_offline
  name_index-offline = ground arith
