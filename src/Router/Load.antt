-- ===== src/Router/Load.antt =====
-- routertwo/router.go: NewRouter, which reads the routes from the files of its directory.
use remotemoe.Prelude.{ℕ, suc, List, [], ◌∷◌, Option, none, some, In, inl, inr, ◌≢◌}
use remotemoe.Text.{Text}
use remotemoe.Dict.{insert}
use remotemoe.Route.{Route, host_route, name_route, fqdn, allocated, wake}
use remotemoe.Disk.{Disk, Content, json, torn}
use remotemoe.Router.{Router, Index, side_a, index}

-- What WalkDir hands over for one path, os.Open included.
pub data Entry : Type 0 where
  walk_failed directory not_opened : Entry
  opened : Content → Entry

pub data LoadError : Type 0 where
  walk_error unable_to_open unable_to_decode invalid_json : LoadError

pub data Loaded : Type 0 where
  up : Router → Loaded
  failed : LoadError → Loaded

abbrev indexed : Route → Index → Index
indexed (host_route h) idx = idx
indexed (name_route n) idx = index n idx

abbrev pub with_route : Route → Router → Router
with_route t r = record r {
  a = insert (fqdn t) t r.a;
  b = insert (fqdn t) t r.b;
  name_index = indexed t r.name_index;
}

abbrev woken : Option Route → Router → Loaded
woken none r = failed invalid_json
woken (some t) r = up (with_route t r)

-- The function that NewRouter gives to WalkDir; a decoded NamedRoute gets the address `ref`.
unfoldable pub load_entry : ℕ → Entry → Router → Loaded
unfolding wake allocated
load_entry ref walk_failed r = failed walk_error
load_entry ref directory r = up r
load_entry ref not_opened r = failed unable_to_open
load_entry ref (opened torn) r = failed unable_to_decode
load_entry ref (opened (json i)) r = woken (wake (allocated ref i)) r

-- The walk ends at the first error.
unfoldable pub load : ℕ → List Entry → Router → Loaded
load ref [] r = up r
load ref (e ∷ es) r = elim (load_entry ref e r) [ failed x ↦ failed x | up s ↦ load (suc ref) es s ]

-- NewRouter on a directory with the files `disk`, in the order of the walk.
unfoldable pub new_router : Text → Disk → List Entry → Loaded
new_router db_path disk walk =
    load 0 walk
      (record { db_path = db_path; a = []; b = []; active = side_a; name_index = []; disk = disk })

-- A file that does not decode keeps the router from coming up, wherever it stands in the walk.
pub load_torn :
    (ref : ℕ) (walk : List Entry) (r s : Router) → In (opened torn) walk → load ref walk r ≢ up s
unfolding load load_entry
load_torn ref [] r s i e = absurd i
load_torn ref (walk_failed ∷ es) r s i e = cc
load_torn ref (not_opened ∷ es) r s i e = cc
load_torn ref (opened torn ∷ es) r s i e = cc
load_torn ref (directory ∷ es) r s (inl q) e = cc
load_torn ref (directory ∷ es) r s (inr i) e = load_torn (suc ref) es r s i e
load_torn ref (opened (json i) ∷ es) r s (inl q) e = cc
load_torn ref (opened (json i) ∷ es) r s (inr m) e =
    part (wake (allocated ref i)) (λ t. load_torn (suc ref) es (with_route t r) s m) e
  where
    part :
        (o : Option Route)
        → ((t : Route) → load (suc ref) es (with_route t r) ≢ up s)
        → elim (woken o r) [ failed x ↦ failed x | up u ↦ load (suc ref) es u ] ≢ up s
    part none h q = cc
    part (some t) h q = h t q
