-- ===== src/Router/Saved.antt =====
-- routertwo/router.go: through a history on a file system that obliges, the directory holds exactly
-- the files of the routes.
use mathlib.Core.Option
use remotemoe.Prelude.{
  ℕ, ◌≡◌, refl, sym, subst, ◌∙◌, true, List, [], ◌∷◌, Option, none, some, arith, Bool-cases, inl,
  inr,
}
use remotemoe.Text.{Text, text_eq, text_eq_iff}
use remotemoe.Dict.{lookup, insert, delete}
use remotemoe.Files.Laws.{IsSlashFree}
use remotemoe.Disk.{Env, file}
use remotemoe.Route.{Peer, Host, NamedRoute, Route, host_route, name_route}
use remotemoe.Router.{Router, find}
use remotemoe.Router.Calls.{
  online, online_host, go_offline, offline, is_peer, add_name, add_new_name, remove_name, drop_name,
}
use remotemoe.Router.Sweep.{remove_listed}
use remotemoe.Router.Invariant.{IsSynced, IsKeyed}
use remotemoe.Router.SweepLaws.{gone, disk-remove_listed, find-remove_listed}
use remotemoe.Router.Effects.{stores, written, erased, idle-find, find-online, find-go_offline}
use remotemoe.Router.Effects.Names.{find-add_new_name, find-drop_name}
use remotemoe.Router.Restart.{content}
use remotemoe.Router.Persist.{
  AllSlashFree, lookup-file-insert, lookup-file-delete, lookup-file-delete_files, disk-online,
  disk-go_offline, disk-add_new_name, disk-drop_name,
}

-- The directory of a router stays.
db_path-online : (env : Env) (p : Peer) (r : Router) → (online env p r).router.db_path ≡ r.db_path
unfolding online
db_path-online env p r = ground arith

db_path-go_offline : (env : Env) (h : Host) (r : Router) → (go_offline env h r).db_path ≡ r.db_path
unfolding go_offline
db_path-go_offline env h r = ground arith

db_path-add_new_name :
    (env : Env) (n : NamedRoute) (r : Router) → (add_new_name env n r).0.db_path ≡ r.db_path
unfolding add_new_name
db_path-add_new_name env n r = ground arith

db_path-drop_name :
    (env : Env) (k : Text) (p : Peer) (n : NamedRoute) (r : Router)
    → (drop_name env k p n r).0.db_path ≡ r.db_path
unfolding drop_name
db_path-drop_name env k p n r = ground arith

db_path-remove_listed :
    (env : Env) (p : Peer) (ns : List NamedRoute) (r : Router)
    → (remove_listed env p ns r).0.db_path ≡ r.db_path
unfolding remove_listed
db_path-remove_listed env p [] r = ground arith
db_path-remove_listed env p (n ∷ ns) r = ground arith

module _ (c : ℕ) (d : Text) where
  -- The router's directory is `c ∷ d`, and holds for each name the file of its route, if any.
  pub record IsSaved (r : Router) : Type 0 where
    pub directory : r.db_path ≡ c ∷ d
    pub names : (k : Text) (t : Route) → find k r ≡ some t → IsSlashFree k
    pub files :
        (k : Text) → IsSlashFree k → lookup (file (c ∷ d) k) r.disk ≡ Option.map content (find k r)

  -- A route that is written, with its file.
  written-IsSaved :
      (j : Text) (t : Route) (r s : Router)
      → IsSaved r
      → IsSlashFree j
      → s.db_path ≡ r.db_path
      → ((k : Text) → find k s ≡ written j t k (find k r))
      → s.disk ≡ insert (file r.db_path j) (content t) r.disk
      → IsSaved s
  written-IsSaved j t r s v free same routes disk = record {
    directory = same ∙ v.directory;
    names = λ k u e. elim (Bool-cases (text_eq j k)) [
      | inl here ↦ subst IsSlashFree ((text_eq_iff j k).0 here) free
      | inr other ↦ v.names k u (ground (arith, routes k, e, other))
    ];
    files = λ k h. ground (
      arith,
      routes k,
      disk,
      v.directory,
      v.files k h,
      lookup-file-insert c d j k (content t) r.disk free h,
    );
  }

  -- A route that is erased, with its file.
  erased-IsSaved :
      (j : Text) (r s : Router)
      → IsSaved r
      → IsSlashFree j
      → s.db_path ≡ r.db_path
      → ((k : Text) → find k s ≡ erased j k (find k r))
      → s.disk ≡ delete (file r.db_path j) r.disk
      → IsSaved s
  erased-IsSaved j r s v free same routes disk = record {
    directory = same ∙ v.directory;
    names = λ k u e. v.names k u (ground (arith, routes k, e));
    files = λ k h.
        ground (
          arith,
          routes k,
          disk,
          v.directory,
          v.files k h,
          lookup-file-delete c d j k r.disk free h,
        );
  }

  moved : (t u : Router) → IsSaved u → t ≡ u → IsSaved t
  moved t u w e = subst IsSaved (sym e) w

  module _ (env : Env) (r : Router) (v : IsSaved r) (s : IsSynced r) (st : stores env ≡ true) where
    pub online-IsSaved : (p : Peer) → IsSlashFree p.fqdn → IsSaved (online env p r).router
    online-IsSaved p free =
        written-IsSaved p.fqdn (host_route (online_host env p (find p.fqdn r))) r
          (online env p r).router v free (db_path-online env p r)
          (λ k. find-online env p r s k ∙ rw st) (disk-online env p r s st)

    pub offline-IsSaved : (p : Peer) → IsKeyed r → IsSaved (offline env p r)
    unfolding offline find
    offline-IsSaved p keyed = part (find p.fqdn r) refl
      where
        part : (o : Option Route) → find p.fqdn r ≡ o → IsSaved (offline env p r)
        part none e = moved _ r v (ground (arith, e))
        part (some (name_route n)) e = moved _ r v (ground (arith, e))
        part (some (host_route h)) e = elim (Bool-cases (is_peer p h.routable)) [
          | inr other ↦ moved _ r v (ground (arith, e, other))
          | inl same ↦
              let spelt : h.name ≡ p.fqdn = keyed p.fqdn (host_route h) e in
              let free = subst IsSlashFree (sym spelt) (v.names p.fqdn (host_route h) e) in
              moved _ (go_offline env h r)
                (written-IsSaved h.name
                  (host_route (record h { routable = none; last_seen = env.seen })) r
                  (go_offline env h r) v free (db_path-go_offline env h r)
                  (find-go_offline env p r s h) (disk-go_offline env h r st))
                (ground (arith, e, same))
        ]

    add_new_name-IsSaved : (n : NamedRoute) → IsSlashFree n.name → IsSaved (add_new_name env n r).0
    add_new_name-IsSaved n free =
        written-IsSaved n.name (name_route (record n { wired = true })) r (add_new_name env n r).0 v
          free (db_path-add_new_name env n r) (λ k. find-add_new_name env n r s k ∙ rw st)
          (disk-add_new_name env n r st)

    pub add_name-IsSaved : (n : NamedRoute) → IsSlashFree n.name → IsSaved (add_name env n r).0
    unfolding add_name
    add_name-IsSaved n free = part (find n.name r) refl
      where
        part : (o : Option Route) → find n.name r ≡ o → IsSaved (add_name env n r).0
        part none e =
            moved _ (add_new_name env n r).0 (add_new_name-IsSaved n free)
              (ground (arith, idle-find r s n.name, e))
        part (some (host_route h)) e = moved _ r v (ground (arith, idle-find r s n.name, e))
        part (some (name_route m)) e = elim (Bool-cases (text_eq m.owner n.owner)) [
          | inl same ↦ moved _ r v (ground (arith, idle-find r s n.name, e, same))
          | inr other ↦ moved _ r v (ground (arith, idle-find r s n.name, e, other))
        ]

  module _ (env : Env) (r : Router) (v : IsSaved r) (s : IsSynced r)
      (un : (k : Text) → env.can_unlink k ≡ true) where
    drop_name-IsSaved :
        (k : Text) (p : Peer) (n : NamedRoute) → IsSlashFree k → IsSaved (drop_name env k p n r).0
    drop_name-IsSaved k p n free =
        erased-IsSaved k r (drop_name env k p n r).0 v free (db_path-drop_name env k p n r)
          (λ j. find-drop_name env k p n r s j ∙ rw (un k)) (disk-drop_name env k p n r (un k))

    pub remove_name-IsSaved : (k : Text) (p : Peer) → IsSaved (remove_name env k p r).0
    unfolding remove_name
    remove_name-IsSaved k p = part (find k r) refl
      where
        part : (o : Option Route) → find k r ≡ o → IsSaved (remove_name env k p r).0
        part none e = moved _ r v (ground (arith, idle-find r s k, e))
        part (some (host_route h)) e = moved _ r v (ground (arith, idle-find r s k, e))
        part (some (name_route n)) e = elim (Bool-cases (text_eq n.owner p.fqdn)) [
          | inl own ↦
              moved _ (drop_name env k p n r).0
                (drop_name-IsSaved k p n (v.names k (name_route n) e))
                (ground (arith, idle-find r s k, e, own))
          | inr other ↦ moved _ r v (ground (arith, idle-find r s k, e, other))
        ]

    pub remove_listed-IsSaved :
        (p : Peer) (n : NamedRoute) (ns : List NamedRoute)
        → AllSlashFree c d (gone env (n ∷ ns))
        → IsSaved (remove_listed env p (n ∷ ns) r).0
    remove_listed-IsSaved p n ns free = record {
      directory = db_path-remove_listed env p (n ∷ ns) r ∙ v.directory;
      names =
          λ k t e. v.names k t (ground (arith, find-remove_listed env p n ns r (un n.name) s k, e));
      files = λ k h. ground (
        arith,
        disk-remove_listed env p n ns r (un n.name),
        v.directory,
        v.files k h,
        find-remove_listed env p n ns r (un n.name) s k,
        lookup-file-delete_files c d k (gone env (n ∷ ns)) r.disk free h,
      );
    }
