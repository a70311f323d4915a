-- ===== src/Router/Spec/Single.antt =====
-- routertwo/router.go: Online, Offline, AddName and RemoveName do in the tables what the registry
-- promises, on every branch.
use remotemoe.Prelude.{◌≡◌, refl, Option, none, some, arith, if◌then◌else◌}
use remotemoe.Text.{Text, text_eq_iff}
use remotemoe.Route.{Peer, NamedRoute, Route, host_route, name_route}
use remotemoe.Disk.{Env}
use remotemoe.Router.{Router, ok, err, find, fs_error}
use remotemoe.Router.Calls.{
  online, online_host, was_replaced, offline, add_new_name, add_name, drop_name, remove_name,
}
use remotemoe.Router.Invariant.{IsSynced, IsKeyed}
use remotemoe.Router.Effects.{stores, idle-find, find-online, find-offline, parted}
use remotemoe.Router.Effects.Names.{takes, find-add_name, taken_away, find-remove_name}
use remotemoe.Router.Answers.{online_calls, store_failure}
use remotemoe.Router.Spec.{
  session, alias, assign, is_busy, is_session, add_answer, is_free, remove_answer, is_alias_of,
  target, registry,
}

is_busy-target : (o : Option Route) → is_busy (target o) ≡ was_replaced o
unfolding was_replaced
is_busy-target none = refl
is_busy-target (some (host_route h)) = ground arith
is_busy-target (some (name_route n)) = refl

target-online_host :
    (env : Env) (p : Peer) (o : Option Route)
    → target (some (host_route (online_host env p o))) ≡ some (session (some p))
unfolding online_host
target-online_host env p none = refl
target-online_host env p (some (host_route h)) = refl
target-online_host env p (some (name_route n)) = refl

target-parted :
    (env : Env) (p : Peer) (o : Option Route)
    → target (parted env p o) ≡ (if is_session p (target o) then some (session none) else target o)
target-parted env p none = refl
target-parted env p (some (host_route h)) = ground arith
target-parted env p (some (name_route n)) = refl

module _ (env : Env) (r : Router) (s : IsSynced r) where
  module _ (p : Peer) where
    pub online-result :
        (online env p r).result
        ≡ (if stores env then ok (is_busy (registry r p.fqdn)) else err (store_failure env))
    online-result = ground (arith, (online_calls env p r s).1, is_busy-target (find p.fqdn r))

    pub registry-online :
        (k : Text)
        → registry (online env p r).router k ≡ (
            if stores env
            then assign p.fqdn (some (session (some p))) (registry r) k
            else registry r k)
    registry-online k =
        ground (arith, find-online env p r s k, target-online_host env p (find p.fqdn r))

    pub registry-offline :
        IsKeyed r
        → (k : Text)
        → registry (offline env p r) k ≡ (
            if is_session p (registry r p.fqdn)
            then assign p.fqdn (some (session none)) (registry r) k
            else registry r k)
    registry-offline keyed k = ground (
      arith,
      find-offline env p r s keyed k,
      target-parted env p (find p.fqdn r),
      text_eq_iff p.fqdn k,
    )

  module _ (n : NamedRoute) where
    add_new_name-answer :
        (add_new_name env n r).1 ≡ (if stores env then ok tt else err (store_failure env))
    unfolding add_new_name
    add_new_name-answer = ground arith

    add_name-found :
        (o : Option Route)
        → find n.name r ≡ o
        → (add_name env n r).1 ≡ add_answer env n.name n.owner (target o)
    unfolding add_name
    add_name-found none e = ground (arith, idle-find r s n.name, add_new_name-answer)
    add_name-found (some (host_route h)) e = ground (arith, idle-find r s n.name)
    add_name-found (some (name_route m)) e = ground (arith, idle-find r s n.name)

    pub add_name-answer : (add_name env n r).1 ≡ add_answer env n.name n.owner (registry r n.name)
    add_name-answer = add_name-found (find n.name r) refl

    registry-add_name_found :
        (j : Text) (o : Option Route)
        → find n.name r ≡ o
        → registry (add_name env n r).0 j ≡ (
            if is_free (target o)
            then (if stores env
                then assign n.name (some (alias n.owner)) (registry r) j
                else registry r j)
            else registry r j)
    unfolding takes
    registry-add_name_found j none e = ground (arith, find-add_name env n r s j)
    registry-add_name_found j (some (host_route h)) e = ground (arith, find-add_name env n r s j)
    registry-add_name_found j (some (name_route m)) e = ground (arith, find-add_name env n r s j)

    pub registry-add_name :
        (j : Text)
        → registry (add_name env n r).0 j ≡ (
            if is_free (registry r n.name)
            then (if stores env
                then assign n.name (some (alias n.owner)) (registry r) j
                else registry r j)
            else registry r j)
    registry-add_name j = registry-add_name_found j (find n.name r) refl

  module _ (k : Text) (p : Peer) where
    drop_name-answer :
        (n : NamedRoute)
        → (drop_name env k p n r).1 ≡ (if env.can_unlink k then ok tt else err fs_error)
    unfolding drop_name
    drop_name-answer n = ground arith

    remove_name-found :
        (o : Option Route)
        → find k r ≡ o
        → (remove_name env k p r).1 ≡ remove_answer env k p.fqdn (target o)
    unfolding remove_name
    remove_name-found none e = ground (arith, idle-find r s k)
    remove_name-found (some (host_route h)) e = ground (arith, idle-find r s k)
    remove_name-found (some (name_route n)) e = ground (arith, idle-find r s k, drop_name-answer n)

    pub remove_name-answer : (remove_name env k p r).1 ≡ remove_answer env k p.fqdn (registry r k)
    remove_name-answer = remove_name-found (find k r) refl

    registry-remove_name_found :
        (j : Text) (o : Option Route)
        → find k r ≡ o
        → registry (remove_name env k p r).0 j ≡ (
            if is_alias_of p.fqdn (target o)
            then (if env.can_unlink k then assign k none (registry r) j else registry r j)
            else registry r j)
    unfolding taken_away
    registry-remove_name_found j none e = ground (arith, find-remove_name env k p r s j)
    registry-remove_name_found j (some (host_route h)) e =
        ground (arith, find-remove_name env k p r s j)
    registry-remove_name_found j (some (name_route n)) e =
        ground (arith, find-remove_name env k p r s j)

    pub registry-remove_name :
        (j : Text)
        → registry (remove_name env k p r).0 j ≡ (
            if is_alias_of p.fqdn (registry r k)
            then (if env.can_unlink k then assign k none (registry r) j else registry r j)
            else registry r j)
    registry-remove_name j = registry-remove_name_found j (find k r) refl
