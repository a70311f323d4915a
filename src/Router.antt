-- ===== src/Router.antt =====
-- routertwo/router.go: the router's two tables of routes, of which one is active, its index of
-- names by owner, and the calls that read and change them. A call holds the edit lock from begin to
-- finish, so a history is a sequence of calls.
pub mod Calls
pub mod Sweep
pub mod Invariant
pub mod Effects
pub mod IndexLaws
pub mod Indexes
pub mod SweepLaws
pub mod History
pub mod Dial
pub mod DialLaws
pub mod DialEnds
pub mod Answers
pub mod Ownership
pub mod Faults
pub mod Emptied
pub mod Load
pub mod Restart
pub mod Persist
pub mod Saved
pub mod Locks
pub mod Spec
use remotemoe.Prelude.{
  ℕ, suc, ◌==◌, Bool, true, false, not, List, [], ◌∷◌, ◌++◌, Option, none, some, if◌then◌else◌,
  arith,
}
use remotemoe.Text.{Text, text_eq}
use remotemoe.Dict.{Dict, lookup, insert, delete}
use remotemoe.Route.{Peer, Host, NamedRoute, Route, host_route, name_route}
use remotemoe.Disk.{Disk, StoreError}

abbrev pub Table : Type 0
Table = Dict Route

abbrev pub Index : Type 0
Index = Dict (List NamedRoute)

-- Which of the tables `a` and `b` a pointer denotes.
pub data Side : Type 0 where
  side_a side_b : Side

pub record Router : Type 0 where
  pub db_path : Text
  pub a : Table
  pub b : Table
  pub active : Side
  pub name_index : Index
  pub disk : Disk

pub data Error : Type 0 where
  unable_to_store : StoreError → Error
  occupied not_existing not_named not_yours not_found : Text → Error
  fs_error : Error

pub data Result {ℓ} (A : Type ℓ) : Type ℓ where
  ok : A → Result A
  err : Error → Result A

abbrev pub other : Side → Side
other side_a = side_b
other side_b = side_a

abbrev pub pick : Side → Router → Table
pick side_a r = r.a
pick side_b r = r.b

abbrev pub put : Side → Table → Router → Router
put side_a m r = record r { a = m }
put side_b m r = record r { b = m }

-- The table that readers see.
abbrev pub current : Router → Table
current r = pick r.active r

-- begin: the table to edit, and the active one. (The edit lock is taken.)
unfoldable pub begin : Router → Side × Side
begin r = elim r.active [ side_a ↦ (side_b, side_a) | side_b ↦ (side_a, side_b) ]

unfoldable pub exchange : Side → Router → Router
exchange s r = record r { active = s }

-- Edit the idle table, make it the active one, and edit the other in the same way.
unfoldable pub publish : Side → Side → (Table → Table) → Router → Router
unfolding exchange
publish next old edit r =
    let edited = put next (edit (pick next r)) r in
    let exchanged = exchange next edited in put old (edit (pick old exchanged)) exchanged

-- index: the names of an owner, in the order in which they were added.
unfoldable pub index : NamedRoute → Index → Index
index n idx = elim (lookup n.owner idx) [
  | some ns ↦ insert n.owner (ns ++ n ∷ []) idx
  | none ↦ insert n.owner (n ∷ []) idx
]

-- The first pointer that is equal to the given one is left out; `none` if there is no such.
unfoldable pub without : ℕ → List NamedRoute → Option (List NamedRoute)
without ref [] = none
without ref (n ∷ ns) =
    let rest = without ref ns in
    if n.ref == ref then some ns else elim rest [ none ↦ none | some ms ↦ some (n ∷ ms) ]

abbrev reduced : Text → Option (List NamedRoute) → Index → Index
reduced key none idx = idx
reduced key (some []) idx = delete key idx
reduced key (some (n ∷ ns)) idx = insert key (n ∷ ns) idx

-- reduceIndex
unfoldable pub reduce_index : Text → NamedRoute → Index → Index
unfolding without
reduce_index key value idx = elim (lookup key idx) [
  | none ↦ idx
  | some ns ↦ reduced key (without value.ref ns) idx
]

-- Find
unfoldable pub find : Text → Router → Option Route
find n r = lookup n (current r)

-- Exists: `none` stands for no error.
unfoldable pub exists : Text → Router → Option Error
exists n r = elim (lookup n (current r)) [ none ↦ some (not_found n) | some _ ↦ none ]

-- Names, which never fails.
unfoldable pub names : Peer → Router → List NamedRoute
names p r = elim (lookup p.fqdn r.name_index) [ none ↦ [] | some ns ↦ ns ]
