-- ===== src/Router/Sweep.antt =====
-- routertwo/router.go: RemoveNames, which removes the names of an owner one by one up to the first
-- error.
use remotemoe.Prelude.{
  ℕ, suc, Bool, true, false, List, [], ◌∷◌, Option, none, some, if◌then◌else◌, take,
}
use remotemoe.Text.{Text}
use remotemoe.Dict.{lookup, delete}
use remotemoe.Route.{Peer, NamedRoute}
use remotemoe.Disk.{Env, Disk, unlink}
use remotemoe.Router.{
  Table, Index, Router, Error, fs_error, pick, put, begin, exchange, reduce_index,
}

-- What the loop changes: the files, the index, the idle table, the index of the last name that was
-- removed (0 at the start) and whether the loop stopped on an error.
pub record Sweep : Type 0 where
  pub disk : Disk
  pub name_index : Index
  pub next : Table
  pub successes : ℕ
  pub failed : Bool

-- One round, after unlink succeeded for the `i`-th name.
unfoldable pub swept : ℕ → Text → NamedRoute → Disk → Sweep → Sweep
unfolding reduce_index
swept i owner n disk s = record {
  disk = disk;
  name_index = reduce_index owner n s.name_index;
  next = delete n.name s.next;
  successes = i;
  failed = false;
}

unfoldable pub sweep : Env → Text → Text → ℕ → List NamedRoute → Sweep → Sweep
unfolding unlink swept
sweep env db_path owner i [] s = s
sweep env db_path owner i (n ∷ ns) s =
    let (disk, removed) = unlink env db_path n.name s.disk in
    let rest = sweep env db_path owner (suc i) ns (swept i owner n disk s) in
    if removed then rest else record s { disk = disk; failed = true }

-- `delete((*old), list[i].FQDN())` for the first names of a list.
unfoldable pub delete_names : List NamedRoute → Table → Table
delete_names [] m = m
delete_names (n ∷ ns) m = delete_names ns (delete n.name m)

pub record Removed : Type 0 where
  pub list : List NamedRoute
  pub error : Option Error

-- The loop over the whole list.
unfoldable pub sweep_all : Env → Peer → List NamedRoute → Router → Sweep
unfolding begin
sweep_all env from list r =
    let start : Sweep = record {
      disk = r.disk;
      name_index = r.name_index;
      next = pick (begin r).0 r;
      successes = 0;
      failed = false;
    } in
    sweep env r.db_path from.fqdn 0 list start

-- RemoveNames below its check of the index. `none` is the panic on `list[0]` of an empty list.
unfoldable pub remove_listed : Env → Peer → List NamedRoute → Router → Router × Option Removed
unfolding begin exchange
remove_listed env from list r =
    let (next, old) = begin r in
    let s = sweep_all env from list r in
    let edited = put next s.next (record r { disk = s.disk; name_index = s.name_index }) in
    let exchanged = exchange next edited in
    let removed = take (suc s.successes) list in
    let cleared = put old (delete_names removed (pick old exchanged)) exchanged in
    let error : Option Error = if s.failed then some fs_error else none in
    let answer : Removed = record { list = removed; error = error } in
    elim list [ [] ↦ (exchanged, none) | _ ∷ _ ↦ (cleared, some answer) ]

abbrev pub nothing_removed : Removed
nothing_removed = record { list = []; error = none }

unfoldable pub remove_names : Env → Peer → Router → Router × Option Removed
remove_names env from r = elim (lookup from.fqdn r.name_index) [
  | none ↦ (r, some nothing_removed)
  | some list ↦ remove_listed env from list r
]
