-- ===== src/Router/SweepLaws.antt =====
-- routertwo/router.go: RemoveNames removes the longest row of names whose files go.
use remotemoe.Prelude.{
  ℕ, suc, ◌+◌, ◌<◌, ◌≤◌, ◌≡◌, refl, ap, List, [], ◌∷◌, none, some, Bool, true, false, ◌||◌, arith,
  if◌then◌else◌, take, length, ltb,
}
use remotemoe.Text.{Text, text_eq}
use remotemoe.Dict.{lookup, delete, lookup-delete}
use remotemoe.Route.{Peer, NamedRoute}
use remotemoe.Disk.{Env, Disk, file, unlink}
use remotemoe.Router.{Router, Table, Index, fs_error, current, find, begin, pick, reduce_index}
use remotemoe.Router.Sweep.{
  Sweep, sweep_all, sweep, swept, delete_names, remove_listed, remove_names, nothing_removed,
}
use remotemoe.Router.Invariant.{IsSynced}

-- How many names of a list can be unlinked before the first that cannot.
abbrev pub removable : Env → List NamedRoute → ℕ
removable env [] = 0
removable env (n ∷ ns) =
    let rest = removable env ns in if env.can_unlink n.name then suc rest else 0

pub removable-le : (env : Env) (ns : List NamedRoute) → removable env ns ≤ length ns
removable-le env [] = omega arith
removable-le env (n ∷ ns) = ground (arith, removable-le env ns)

abbrev pub reduce_all : Text → List NamedRoute → Index → Index
reduce_all owner [] idx = idx
reduce_all owner (n ∷ ns) idx = reduce_all owner ns (reduce_index owner n idx)

-- A name of the list.
abbrev pub is_name : Text → List NamedRoute → Bool
is_name k [] = false
is_name k (n ∷ ns) = text_eq n.name k || is_name k ns

pub lookup-delete_names :
    (k : Text) (ns : List NamedRoute) (m : Table)
    → lookup k (delete_names ns m) ≡ (if is_name k ns then none else lookup k m)
unfolding delete_names
lookup-delete_names k [] m = refl
lookup-delete_names k (n ∷ ns) m =
    ground (arith, lookup-delete n.name k m, lookup-delete_names k ns (delete n.name m))

-- The files of the first names of a list are gone.
unfoldable pub delete_files : Text → List NamedRoute → Disk → Disk
delete_files d [] disk = disk
delete_files d (n ∷ ns) disk = delete_files d ns (delete (file d n.name) disk)

-- What the loop leaves, by the number of names that it could remove.
pub record Swept (env : Env) (d owner : Text) (i : ℕ) (ns : List NamedRoute) (s t : Sweep)
    : Type 0 where
  pub next : t.next ≡ delete_names (take (removable env ns) ns) s.next
  pub disk : t.disk ≡ delete_files d (take (removable env ns) ns) s.disk
  pub name_index : t.name_index ≡ reduce_all owner (take (removable env ns) ns) s.name_index
  pub none_gone : removable env ns ≡ 0 → t.successes ≡ s.successes
  pub some_gone : 0 < removable env ns → t.successes + 1 ≡ i + removable env ns
  pub failed : s.failed ≡ false → t.failed ≡ ltb (removable env ns) (length ns)

pub sweep-Swept :
    (env : Env) (d owner : Text) (i : ℕ) (ns : List NamedRoute) (s : Sweep)
    → Swept env d owner i ns s (sweep env d owner i ns s)
unfolding sweep delete_names delete_files swept unlink
sweep-Swept env d owner i [] s = ground arith
sweep-Swept env d owner i (n ∷ ns) s = ground (
  arith,
  sweep-Swept env d owner (suc i) ns (swept i owner n (unlink env d n.name s.disk).0 s),
  removable-le env ns,
)

-- The names that the loop removes.
abbrev pub gone : Env → List NamedRoute → List NamedRoute
gone env ns = take (removable env ns) ns

module _ (env : Env) (from : Peer) (n : NamedRoute) (ns : List NamedRoute) (r : Router) where
  sweep_all-Swept :
      Swept env r.db_path from.fqdn 0
        (n ∷ ns)
        (record {
          disk = r.disk;
          name_index = r.name_index;
          next = pick (begin r).0 r;
          successes = 0;
          failed = false;
        })
        (sweep_all env from (n ∷ ns) r)
  unfolding sweep_all
  sweep_all-Swept = sweep-Swept env r.db_path from.fqdn 0 (n ∷ ns) _

  module _ (first : env.can_unlink n.name ≡ true) where
    some_removable : 0 < removable env (n ∷ ns)
    some_removable = ground arith

    last_success : suc (sweep_all env from (n ∷ ns) r).successes ≡ removable env (n ∷ ns)
    last_success = omega (arith, sweep_all-Swept.some_gone some_removable)

    taken : take (suc (sweep_all env from (n ∷ ns) r).successes) (n ∷ ns) ≡ gone env (n ∷ ns)
    taken = ap (λ k. take k (n ∷ ns)) last_success

    -- The answer names what is gone, with an error unless that is all.
    pub remove_listed_answer :
        (remove_listed env from (n ∷ ns) r).1
        ≡ some (record {
          list = gone env (n ∷ ns);
          error = if ltb (removable env (n ∷ ns)) (length (n ∷ ns)) then some fs_error else none;
        })
    unfolding remove_listed
    remove_listed_answer = ground (arith, taken, sweep_all-Swept.failed refl)

    pub name_index-remove_listed :
        (remove_listed env from (n ∷ ns) r).0.name_index
        ≡ reduce_all from.fqdn (gone env (n ∷ ns)) r.name_index
    unfolding remove_listed
    name_index-remove_listed = ground (arith, sweep_all-Swept.name_index)

    pub disk-remove_listed :
        (remove_listed env from (n ∷ ns) r).0.disk
        ≡ delete_files r.db_path (gone env (n ∷ ns)) r.disk
    unfolding remove_listed
    disk-remove_listed = ground (arith, sweep_all-Swept.disk)

    pub find-remove_listed :
        IsSynced r
        → (k : Text)
        → find k (remove_listed env from (n ∷ ns) r).0
          ≡ (if is_name k (gone env (n ∷ ns)) then none else find k r)
    unfolding remove_listed find
    find-remove_listed s k = ground (
      arith,
      s k,
      sweep_all-Swept.next,
      lookup-delete_names k (gone env (n ∷ ns)) r.a,
      lookup-delete_names k (gone env (n ∷ ns)) r.b,
    )

    pub remove_listed-IsSynced : IsSynced r → IsSynced (remove_listed env from (n ∷ ns) r).0
    unfolding remove_listed
    remove_listed-IsSynced s k = ground (
      arith,
      s k,
      taken,
      sweep_all-Swept.next,
      lookup-delete_names k (gone env (n ∷ ns)) r.a,
      lookup-delete_names k (gone env (n ∷ ns)) r.b,
    )

  -- The bug: the first file stays, and yet its name is answered, and deleted from the idle table.
  module _ (first : env.can_unlink n.name ≡ false) where
    none_removable : removable env (n ∷ ns) ≡ 0
    none_removable = ground arith

    pub remove_listed_stuck_answer :
        (remove_listed env from (n ∷ ns) r).1
        ≡ some (record { list = n ∷ []; error = some fs_error })
    unfolding remove_listed
    remove_listed_stuck_answer =
        ground (arith, sweep_all-Swept.none_gone none_removable, sweep_all-Swept.failed refl)

    pub find-remove_listed_stuck :
        IsSynced r → (k : Text) → find k (remove_listed env from (n ∷ ns) r).0 ≡ find k r
    unfolding remove_listed find delete_names
    find-remove_listed_stuck s k = ground (arith, s k, sweep_all-Swept.next)

    pub idle-remove_listed_stuck :
        (k : Text)
        → lookup k (
            pick
              (begin (remove_listed env from (n ∷ ns) r).0).0
              (remove_listed env from (n ∷ ns) r).0)
          ≡ (if text_eq n.name k then none else lookup k (current r))
    unfolding remove_listed delete_names
    idle-remove_listed_stuck k = ground (
      arith,
      sweep_all-Swept.none_gone none_removable,
      lookup-delete n.name k r.a,
      lookup-delete n.name k r.b,
    )

module _ (env : Env) (from : Peer) (r : Router) where
  pub remove_names_unlisted :
      lookup from.fqdn r.name_index ≡ none → remove_names env from r ≡ (r, some nothing_removed)
  unfolding remove_names
  remove_names_unlisted e = rw (e, remove_names)

  pub remove_names_listed :
      (list : List NamedRoute)
      → lookup from.fqdn r.name_index ≡ some list
      → remove_names env from r ≡ remove_listed env from list r
  unfolding remove_names
  remove_names_listed list e = rw (e, remove_names)
