-- ===== src/Router/Effects/Names.antt =====
-- What AddName and RemoveName do to the routes that readers see and to the index, on every branch, and
-- that they leave both tables alike.
use remotemoe.Prelude.{◌≡◌, refl, Option, none, some, Bool, true, false, arith, if◌then◌else◌}
use remotemoe.Text.{Text, text_eq, text_eq_iff}
use remotemoe.Dict.{lookup, lookup-insert, lookup-delete}
use remotemoe.Route.{Peer, NamedRoute, Route, host_route, name_route}
use remotemoe.Disk.{Env}
use remotemoe.Router.{Router, begin, pick, find, index, reduce_index}
use remotemoe.Router.Calls.{add_new_name, add_name, drop_name, remove_name}
use remotemoe.Router.Invariant.{IsSynced}
use remotemoe.Router.Effects.{stores, idle-find, written, erased}

module _ (env : Env) (n : NamedRoute) (r : Router) (s : IsSynced r) where
  add_new_name-IsSynced : IsSynced (add_new_name env n r).0
  unfolding add_new_name
  add_new_name-IsSynced k = ground (
    arith,
    s k,
    lookup-insert n.name k (name_route (record n { wired = true })) r.a,
    lookup-insert n.name k (name_route (record n { wired = true })) r.b,
  )

  pub find-add_new_name :
      (k : Text)
      → find k (add_new_name env n r).0 ≡ (
          if stores env
          then written n.name (name_route (record n { wired = true })) k (find k r)
          else find k r)
  unfolding add_new_name find
  find-add_new_name k = ground (
    arith,
    s k,
    lookup-insert n.name k (name_route (record n { wired = true })) r.a,
    lookup-insert n.name k (name_route (record n { wired = true })) r.b,
  )

  name_index-add_new_name :
      (add_new_name env n r).0.name_index
      ≡ (if stores env then index (record n { wired = true }) r.name_index else r.name_index)
  unfolding add_new_name
  name_index-add_new_name = ground arith

module _ (env : Env) (k : Text) (from : Peer) (n : NamedRoute) (r : Router) (s : IsSynced r) where
  drop_name-IsSynced : IsSynced (drop_name env k from n r).0
  unfolding drop_name
  drop_name-IsSynced j = ground (arith, s j, lookup-delete k j r.a, lookup-delete k j r.b)

  pub find-drop_name :
      (j : Text)
      → find j (drop_name env k from n r).0
        ≡ (if env.can_unlink k then erased k j (find j r) else find j r)
  unfolding drop_name find
  find-drop_name j = ground (arith, s j, lookup-delete k j r.a, lookup-delete k j r.b)

  name_index-drop_name :
      (drop_name env k from n r).0.name_index
      ≡ (if env.can_unlink k then reduce_index from.fqdn n r.name_index else r.name_index)
  unfolding drop_name
  name_index-drop_name = ground arith

-- AddName takes a new name if it can be stored.
unfoldable pub takes : Env → NamedRoute → Router → Bool
takes env n r = elim (find n.name r) [ none ↦ stores env | some _ ↦ false ]

module _ (env : Env) (n : NamedRoute) (r : Router) (s : IsSynced r) where
  pub add_name-IsSynced : IsSynced (add_name env n r).0
  unfolding add_name
  add_name-IsSynced k = ground (arith, s k, add_new_name-IsSynced env n r s k)

  pub find-add_name :
      (k : Text)
      → find k (add_name env n r).0 ≡ (
          if takes env n r
          then written n.name (name_route (record n { wired = true })) k (find k r)
          else find k r)
  unfolding add_name takes
  find-add_name k = ground (arith, s n.name, idle-find r s n.name, find-add_new_name env n r s k)

  pub name_index-add_name :
      (add_name env n r).0.name_index
      ≡ (if takes env n r then index (record n { wired = true }) r.name_index else r.name_index)
  unfolding add_name takes
  name_index-add_name = ground (arith, idle-find r s n.name, name_index-add_new_name env n r s)

-- RemoveName: a name goes if the caller owns it and its file can be removed.
abbrev pub owned_by : Peer → Option Route → Option NamedRoute
owned_by p none = none
owned_by p (some (host_route h)) = none
owned_by p (some (name_route n)) = if text_eq n.owner p.fqdn then some n else none

-- The name that the call removes.
unfoldable pub taken_away : Env → Text → Peer → Router → Option NamedRoute
taken_away env k from r = if env.can_unlink k then owned_by from (find k r) else none

module _ (env : Env) (k : Text) (from : Peer) (r : Router) (s : IsSynced r) where
  pub remove_name-IsSynced : IsSynced (remove_name env k from r).0
  unfolding remove_name
  remove_name-IsSynced = part (lookup k (pick (begin r).0 r)) refl
    where
      part :
          (o : Option Route)
          → lookup k (pick (begin r).0 r) ≡ o
          → IsSynced (remove_name env k from r).0
      part none e j = ground (arith, s j)
      part (some (host_route h)) e j = ground (arith, s j)
      part (some (name_route n)) e j = ground (arith, s j, drop_name-IsSynced env k from n r s j)

  module _ (j : Text) where
    find-remove_name_found :
        (o : Option Route)
        → find k r ≡ o
        → find j (remove_name env k from r).0
          ≡ elim (taken_away env k from r) [ none ↦ find j r | some _ ↦ erased k j (find j r) ]
    unfolding remove_name taken_away
    find-remove_name_found none e = ground (arith, idle-find r s k)
    find-remove_name_found (some (host_route h)) e = ground (arith, idle-find r s k)
    find-remove_name_found (some (name_route n)) e =
        ground (arith, idle-find r s k, find-drop_name env k from n r s j)

    pub find-remove_name :
        find j (remove_name env k from r).0
        ≡ elim (taken_away env k from r) [ none ↦ find j r | some _ ↦ erased k j (find j r) ]
    find-remove_name = find-remove_name_found (find k r) refl

  name_index-remove_name_found :
      (o : Option Route)
      → find k r ≡ o
      → (remove_name env k from r).0.name_index ≡ elim (taken_away env k from r) [
        | none ↦ r.name_index
        | some n ↦ reduce_index from.fqdn n r.name_index
      ]
  unfolding remove_name taken_away
  name_index-remove_name_found none e = ground (arith, idle-find r s k)
  name_index-remove_name_found (some (host_route h)) e = ground (arith, idle-find r s k)
  name_index-remove_name_found (some (name_route n)) e =
      ground (arith, idle-find r s k, name_index-drop_name env k from n r s)

  pub name_index-remove_name :
      (remove_name env k from r).0.name_index ≡ elim (taken_away env k from r) [
        | none ↦ r.name_index
        | some n ↦ reduce_index from.fqdn n r.name_index
      ]
  name_index-remove_name = name_index-remove_name_found (find k r) refl

owned_by-eq-some :
    (p : Peer) (o : Option Route) (n : NamedRoute)
    → owned_by p o ≡ some n
    → (o ≡ some (name_route n)) × (n.owner ≡ p.fqdn)
owned_by-eq-some p none n e = cc
owned_by-eq-some p (some (host_route h)) n e = cc
owned_by-eq-some p (some (name_route m)) n e = ground (arith, text_eq_iff m.owner p.fqdn)

-- What goes is the caller's.
pub taken_away-eq-some :
    (env : Env) (k : Text) (p : Peer) (r : Router) (n : NamedRoute)
    → taken_away env k p r ≡ some n
    → (find k r ≡ some (name_route n)) × (n.owner ≡ p.fqdn)
unfolding taken_away
taken_away-eq-some env k p r n e = ground (arith, owned_by-eq-some p (find k r) n)
