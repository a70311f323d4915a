-- ===== src/Router/Restart.antt =====
-- routertwo/router.go: a router that is started again on the files of another has its routes.
use remotemoe.Prelude.{
  ℕ, suc, ◌≡◌, refl, sym, subst, ◌∙◌, List, [], ◌∷◌, Option, none, some, true, In, inl, inr, arith,
  ◌≢◌, ◌⊎◌, if◌then◌else◌,
}
use mathlib.Core.Option
use remotemoe.Text.{Text, text_eq, text_eq_iff, text_eq_refl}
use remotemoe.Dict.{lookup, lookup-insert}
use remotemoe.Route.{Route, host_route, name_route, fqdn, Intermediate, of_host, of_name, exported}
use remotemoe.Disk.{Disk, Content, json}
use remotemoe.Router.{Router, side_a, find}
use remotemoe.Router.Invariant.{IsSynced, IsKeyed}
use remotemoe.Router.Load.{Entry, directory, opened, up, with_route, load_entry, load, new_router}

abbrev pub intermediate : Route → Intermediate
intermediate (host_route h) = of_host h
intermediate (name_route n) = of_name n

-- The file of a route.
abbrev pub content : Route → Content
content t = json (exported (intermediate t))

-- What of a route outlives the process: a host has no session, a name has some address.
abbrev pub lasting : Route → Route
lasting (host_route h) = host_route (record h { routable = none })
lasting (name_route n) = name_route (record n { ref = 0 })

-- The router of a name is set.
abbrev pub IsWired : Route → Type 0
IsWired (host_route h) = Unit {0}
IsWired (name_route n) = n.wired ≡ true

abbrev pub AreWired : Router → Type 0
AreWired r = (k : Text) (t : Route) → find k r ≡ some t → IsWired t

abbrev pub revived : ℕ → Route → Route
revived ref (host_route h) = host_route (record h { routable = none })
revived ref (name_route n) = name_route (record n { ref = ref; wired = true })

pub load_entry-content :
    (ref : ℕ) (t : Route) (r : Router)
    → load_entry ref (opened (content t)) r ≡ up (with_route (revived ref t) r)
unfolding load_entry exported
load_entry-content ref (host_route h) r = refl
load_entry-content ref (name_route n) r = refl

pub fqdn-revived : (ref : ℕ) (t : Route) → fqdn (revived ref t) ≡ fqdn t
fqdn-revived ref (host_route h) = refl
fqdn-revived ref (name_route n) = refl

lasting-revived : (ref : ℕ) (t : Route) → IsWired t → lasting (revived ref t) ≡ lasting t
lasting-revived ref (host_route h) w = refl
lasting-revived ref (name_route n) w = ground (arith, w)

pub find-with_route :
    (t : Route) (r : Router) (k : Text)
    → IsSynced r
    → find k (with_route t r) ≡ (if text_eq (fqdn t) k then some t else find k r)
unfolding find
find-with_route t r k s =
    ground (arith, s k, lookup-insert (fqdn t) k t r.a, lookup-insert (fqdn t) k t r.b)

pub with_route-IsSynced : (t : Route) (r : Router) → IsSynced r → IsSynced (with_route t r)
with_route-IsSynced t r s k =
    ground (arith, s k, lookup-insert (fqdn t) k t r.a, lookup-insert (fqdn t) k t r.b)

pub load_entry-directory : (ref : ℕ) (r : Router) → load_entry ref directory r ≡ up r
unfolding load_entry
load_entry-directory ref r = refl

pub load_one :
    (ref : ℕ) (e : Entry) (es : List Entry) (r s : Router)
    → load_entry ref e r ≡ up s
    → load ref (e ∷ es) r ≡ load (suc ref) es s
unfolding load
load_one ref e es r s q = rw (q, load)

content-fqdn : (t u : Route) → content t ≡ content u → fqdn t ≡ fqdn u
unfolding exported
content-fqdn (host_route h) (host_route g) e = cc
content-fqdn (name_route n) (name_route m) e = cc
content-fqdn (host_route h) (name_route m) e = cc
content-fqdn (name_route n) (host_route g) e = cc

-- An entry of the walk over the files of `r`: a directory, or the file of one of its routes.
abbrev pub IsEntry : Router → Entry → Type 0
IsEntry r e =
    (e ≡ directory) ⊎ ((t : Route) × (e ≡ opened (content t)) × (find (fqdn t) r ≡ some t))

-- The routes read so far are those of `r`, as far as they last.
record Restores (r s : Router) : Type 0 where
  synced : IsSynced s
  sound :
      (k : Text) (t : Route) → find k s ≡ some t → Option.map lasting (find k r) ≡ some (lasting t)

-- The names that are routed stay so.
abbrev Extends : Router → Router → Type 0
Extends s u = (k : Text) → find k u ≡ none → find k s ≡ none

module _ (r : Router) where
  entry-Restores :
      (ref : ℕ) (t : Route) (s : Router)
      → find (fqdn t) r ≡ some t
      → IsWired t
      → Restores r s
      → Restores r (with_route (revived ref t) s)
  entry-Restores ref t s there wired v = record {
    synced = with_route-IsSynced (revived ref t) s v.synced;
    sound = λ k u e. ground (
      arith,
      find-with_route (revived ref t) s k v.synced,
      fqdn-revived ref t,
      lasting-revived ref t wired,
      there,
      text_eq_iff (fqdn t) k,
      v.sound k u,
    );
  }

  entry-Extends :
      (ref : ℕ) (t : Route) (s : Router) → IsSynced s → Extends s (with_route (revived ref t) s)
  entry-Extends ref t s v k e = ground (arith, find-with_route (revived ref t) s k v)

  abbrev Reads : List Entry → Router → Type 0
  Reads walk u =
      (t : Route) → In (opened (content t)) walk → find (fqdn t) r ≡ some t → find (fqdn t) u ≢ none

  abbrev Restored : ℕ → List Entry → Router → Type 0
  Restored ref walk s =
      (u : Router) × (load ref walk s ≡ up u) × Restores r u × Extends s u × Reads walk u

  -- One entry, before the rest of the walk.
  one_more :
      (ref : ℕ) (e : Entry) (es : List Entry) (s s' : Router)
      → load_entry ref e s ≡ up s'
      → Extends s s'
      → ((t : Route) → opened (content t) ≡ e → find (fqdn t) s' ≢ none)
      → Restored (suc ref) es s'
      → Restored ref (e ∷ es) s
  one_more ref e es s s' q x here (u, l, v, y, reads) = (
    u,
    load_one ref e es s s' q ∙ l,
    v,
    (λ k n. x k (y k n)),
    λ t i there. elim i [
      | inl same ↦ λ n. here t same (y (fqdn t) n)
      | inr later ↦ reads t later there
    ],
  )

  -- Loading succeeds and reads every route of the walk.
  load-Restores :
      (ref : ℕ) (walk : List Entry) (s : Router)
      → AreWired r
      → ((e : Entry) → In e walk → IsEntry r e)
      → Restores r s
      → Restored ref walk s
  unfolding load
  load-Restores ref [] s wired all v = (s, refl, v, (λ k e. e), (λ t i e q. absurd i))
  load-Restores ref (e ∷ es) s wired all v = elim (all e (inl refl)) [
    | inl d ↦
        one_more ref e es s s (rw d (load_entry-directory ref s)) (λ k n. n)
          (λ t same. absurd (ground arith))
          (load-Restores (suc ref) es s wired (λ x i. all x (inr i)) v)
    | inr (t, q, there) ↦
        let s' = with_route (revived ref t) s in
        one_more ref e es s s' (rw q (load_entry-content ref t s)) (entry-Extends ref t s v.synced)
          (λ u same n. ground (
            arith,
            same,
            q,
            content-fqdn u t,
            fqdn-revived ref t,
            n,
            find-with_route (revived ref t) s (fqdn u) v.synced,
            text_eq_refl (fqdn t),
          ))
          (load-Restores (suc ref) es s' wired (λ x i. all x (inr i))
            (entry-Restores ref t s there (wired (fqdn t) t there) v))
  ]

abbrev pub start : Text → Disk → Router
start db_path disk = record {
  db_path = db_path;
  a = [];
  b = [];
  active = side_a;
  name_index = [];
  disk = disk;
}

start-Restores : (r : Router) (db_path : Text) (disk : Disk) → Restores r (start db_path disk)
unfolding find lookup
start-Restores r db_path disk = record { synced = λ k. refl; sound = λ k t e. cc }

same_routes :
    (r u : Router)
    → Restores r u
    → ((t : Route) → find (fqdn t) r ≡ some t → find (fqdn t) u ≢ none)
    → IsKeyed r
    → (k : Text) → Option.map lasting (find k u) ≡ Option.map lasting (find k r)
same_routes r u v reads keyed k = part (find k u) (find k r) refl refl
  where
    part :
        (o p : Option Route)
        → find k u ≡ o
        → find k r ≡ p
        → Option.map lasting o ≡ Option.map lasting p
    part (some t) p e q =
        sym (subst (λ x. Option.map lasting x ≡ some (lasting t)) q (v.sound k t e))
    part none none e q = refl
    part none (some t) e q = let named = keyed k t q in absurd (reads t (rw named q) (rw named e))

-- NewRouter, on a walk that visits the file of every route of a router whose routes stand under
-- their names, the names with their router set, and nothing but directories beside those, comes up with both tables alike and with
-- these routes, but for the sessions of hosts and the addresses of names.
pub new_router-find :
    (r : Router) (db_path : Text) (disk : Disk) (walk : List Entry)
    → IsKeyed r
    → AreWired r
    → ((e : Entry) → In e walk → IsEntry r e)
    → ((k : Text) (t : Route) → find k r ≡ some t → In (opened (content t)) walk)
    → (u : Router) × (new_router db_path disk walk ≡ up u)
      × IsSynced u
      × ((k : Text) → Option.map lasting (find k u) ≡ Option.map lasting (find k r))
unfolding new_router
new_router-find r db_path disk walk keyed wired all covers =
    let (u, l, v, x, reads) =
      load-Restores r 0 walk (start db_path disk) wired all (start-Restores r db_path disk) in
    (u, l, v.synced, λ k. same_routes r u v (λ t e. reads t (covers (fqdn t) t e) e) keyed k)
