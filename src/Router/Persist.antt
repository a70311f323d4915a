-- ===== src/Router/Persist.antt =====
-- routertwo/router.go: while the file system obliges, the files are those of the routes.
use remotemoe.Prelude.{ℕ, ◌≡◌, refl, ◌∙◌, true, List, [], ◌∷◌, none, some, arith, if◌then◌else◌}
use remotemoe.Text.{Text, text_eq, text_eq_iff}
use remotemoe.Dict.{lookup, insert, delete, lookup-insert, lookup-delete}
use remotemoe.Files.Laws.{IsSlashFree}
use remotemoe.Disk.{Env, Disk, Content, file}
use remotemoe.Disk.Laws.{file-injective}
use remotemoe.Route.{Peer, Host, NamedRoute, host_route, name_route, exported}
use remotemoe.Router.{Router, find}
use remotemoe.Router.Calls.{online, online_host, go_offline, add_new_name, drop_name}
use remotemoe.Router.Invariant.{IsSynced}
use remotemoe.Router.SweepLaws.{delete_files, is_name}
use remotemoe.Router.Effects.{stores}
use remotemoe.Router.Restart.{content}

module _ (c : ℕ) (d : Text) where
  text_eq-file :
      (j k : Text)
      → IsSlashFree j
      → IsSlashFree k
      → text_eq (file (c ∷ d) j) (file (c ∷ d) k) ≡ text_eq j k
  text_eq-file j k h i = ground (
    arith,
    text_eq_iff (file (c ∷ d) j) (file (c ∷ d) k),
    text_eq_iff j k,
    file-injective c d j k h i,
  )

  pub lookup-file-insert :
      (j k : Text) (x : Content) (disk : Disk)
      → IsSlashFree j
      → IsSlashFree k
      → lookup (file (c ∷ d) k) (insert (file (c ∷ d) j) x disk)
        ≡ (if text_eq j k then some x else lookup (file (c ∷ d) k) disk)
  lookup-file-insert j k x disk h i =
      lookup-insert (file (c ∷ d) j) (file (c ∷ d) k) x disk ∙ rw (text_eq-file j k h i)

  pub lookup-file-delete :
      (j k : Text) (disk : Disk)
      → IsSlashFree j
      → IsSlashFree k
      → lookup (file (c ∷ d) k) (delete (file (c ∷ d) j) disk)
        ≡ (if text_eq j k then none else lookup (file (c ∷ d) k) disk)
  lookup-file-delete j k disk h i =
      lookup-delete (file (c ∷ d) j) (file (c ∷ d) k) disk ∙ rw (text_eq-file j k h i)

  -- The names of a list hold no slash.
  abbrev pub AllSlashFree : List NamedRoute → Type 0
  AllSlashFree [] = Unit {0}
  AllSlashFree (n ∷ ns) = IsSlashFree n.name × AllSlashFree ns

  pub lookup-file-delete_files :
      (k : Text) (ns : List NamedRoute) (disk : Disk)
      → AllSlashFree ns
      → IsSlashFree k
      → lookup (file (c ∷ d) k) (delete_files (c ∷ d) ns disk)
        ≡ (if is_name k ns then none else lookup (file (c ∷ d) k) disk)
  unfolding delete_files
  lookup-file-delete_files k [] disk h i = refl
  lookup-file-delete_files k (n ∷ ns) disk h i = ground (
    arith,
    lookup-file-delete_files k ns (delete (file (c ∷ d) n.name) disk) h.1 i,
    lookup-file-delete n.name k disk h.0 i,
  )

-- The disk that each call leaves.
pub disk-online :
    (env : Env) (p : Peer) (r : Router)
    → IsSynced r
    → stores env ≡ true
    → (online env p r).router.disk
      ≡ insert
          (file r.db_path p.fqdn)
          (content (host_route (online_host env p (find p.fqdn r))))
          r.disk
unfolding online find
disk-online env p r s st = ground (arith, s p.fqdn)

pub disk-go_offline :
    (env : Env) (h : Host) (r : Router)
    → stores env ≡ true
    → (go_offline env h r).disk
      ≡ insert
          (file r.db_path h.name)
          (content (host_route (record h { routable = none; last_seen = env.seen })))
          r.disk
unfolding go_offline exported
disk-go_offline env h r st = ground arith

pub disk-add_new_name :
    (env : Env) (n : NamedRoute) (r : Router)
    → stores env ≡ true
    → (add_new_name env n r).0.disk
      ≡ insert (file r.db_path n.name) (content (name_route (record n { wired = true }))) r.disk
unfolding add_new_name
disk-add_new_name env n r st = ground arith

pub disk-drop_name :
    (env : Env) (k : Text) (p : Peer) (n : NamedRoute) (r : Router)
    → env.can_unlink k ≡ true
    → (drop_name env k p n r).0.disk ≡ delete (file r.db_path k) r.disk
unfolding drop_name
disk-drop_name env k p n r u = ground arith
