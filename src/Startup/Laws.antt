-- ===== src/Startup/Laws.antt =====
-- main.go and services/server.go: when the program serves, and on which ports.
use remotemoe.Prelude.{
  ℕ, ◌≡◌, ◌≢◌, refl, sym, subst, Bool, true, ◌↔◌, ◌⊎◌, inl, inr, List, [], ◌∷◌, ◌++◌, Option, none,
  some, In, In-append, In-append_left, In-append_right, arith,
}
use remotemoe.Text.{Text, bytes, text_eq}
use remotemoe.Files.{path_join}
use remotemoe.Services.{http, https, ssh}
use remotemoe.Router.{Router}
use remotemoe.Router.Load.{Loaded, up, failed, new_router}
use remotemoe.Commands.Access.{service_ports}
use remotemoe.Startup.{
  Made, made, already_exists, not_made, Machine, data_directory, is_usable, acme_cache, serve_ports,
  serve, serves, configured, with_cache, with_router, router_data, main,
}

In-serve_ports :
    (can_listen : ℕ → Bool) (t s : Text) (p : ℕ) (ps : List ℕ)
    → In (s, p) (serve_ports can_listen t ps) ↔ ((s ≡ t) × In p ps × (can_listen p ≡ true))
unfolding serve_ports
In-serve_ports can_listen t s p [] = ground arith
In-serve_ports can_listen t s p (q ∷ ps) = ground (arith, In-serve_ports can_listen t s p ps)

-- The services, and the ports on which the program accepts connections for them.
abbrev pub IsService : Text → Type 0
IsService s = (s ≡ http) ⊎ ((s ≡ https) ⊎ (s ≡ ssh))

abbrev pub accepted : Machine → List (Text × ℕ)
accepted m = serve m.can_listen http ++ serve m.can_listen https ++ serve m.can_listen ssh

In-serve :
    (m : Machine) (t s : Text) (p : ℕ)
    → In (s, p) (serve m.can_listen t)
      ↔ ((s ≡ t) × In p (service_ports t) × (m.can_listen p ≡ true))
unfolding serve
In-serve m t s p = In-serve_ports m.can_listen t s p (service_ports t)

of_In-accepted :
    (m : Machine) (s : Text) (p : ℕ)
    → In (s, p) (accepted m)
    → IsService s × In p (service_ports s) × (m.can_listen p ≡ true)
of_In-accepted m s p i =
    elim (In-append (s, p) (serve m.can_listen http ++ serve m.can_listen https)
      (serve m.can_listen ssh) i) [
        | inl j ↦ elim (In-append (s, p) (serve m.can_listen http) (serve m.can_listen https) j) [
          | inl k ↦ served http (inl refl) ((In-serve m http s p).0 k)
          | inr k ↦ served https (inr (inl refl)) ((In-serve m https s p).0 k)
        ]
        | inr j ↦ served ssh (inr (inr refl)) ((In-serve m ssh s p).0 j)
      ]
  where
    served :
        (t : Text)
        → IsService t
        → (s ≡ t) × In p (service_ports t) × (m.can_listen p ≡ true)
        → IsService s × In p (service_ports s) × (m.can_listen p ≡ true)
    served t v (e, k, l) =
        (subst IsService (sym e) v, subst (λ x. In p (service_ports x)) (sym e) k, l)

to_In-accepted :
    (m : Machine) (s : Text) (p : ℕ)
    → IsService s
    → In p (service_ports s)
    → m.can_listen p ≡ true
    → In (s, p) (accepted m)
to_In-accepted m s p (inl e) i l =
    In-append_left (s, p) (serve m.can_listen http ++ serve m.can_listen https)
      (serve m.can_listen ssh)
      (In-append_left (s, p) (serve m.can_listen http) (serve m.can_listen https)
        ((In-serve m http s p).1 (e, subst (λ x. In p (service_ports x)) e i, l)))
to_In-accepted m s p (inr (inl e)) i l =
    In-append_left (s, p) (serve m.can_listen http ++ serve m.can_listen https)
      (serve m.can_listen ssh)
      (In-append_right (s, p) (serve m.can_listen http) (serve m.can_listen https)
        ((In-serve m https s p).1 (e, subst (λ x. In p (service_ports x)) e i, l)))
to_In-accepted m s p (inr (inr e)) i l =
    In-append_right (s, p) (serve m.can_listen http ++ serve m.can_listen https)
      (serve m.can_listen ssh)
      ((In-serve m ssh s p).1 (e, subst (λ x. In p (service_ports x)) e i, l))

configured_iff :
    (m : Machine) (r q : Router) (cache c : Text) (ls : List (Text × ℕ))
    → (configured m q c ≡ serves r cache ls)
      ↔ ((m.has_host_keys ≡ true) × (q ≡ r) × (c ≡ cache) × (accepted m ≡ ls))
configured_iff m r q cache c ls = ground arith

with_cache_iff :
    (m : Machine) (r q : Router) (cache : Text) (o : Option Text) (ls : List (Text × ℕ))
    → (with_cache m q o ≡ serves r cache ls)
      ↔ ((o ≡ some cache) × (m.has_host_keys ≡ true) × (q ≡ r) × (accepted m ≡ ls))
with_cache_iff m r q cache none ls = ground arith
with_cache_iff m r q cache (some c) ls = ground (arith, configured_iff m r q cache c ls)

with_router_iff :
    (m : Machine) (r : Router) (cache : Text) (l : Loaded) (ls : List (Text × ℕ))
    → (with_router m l ≡ serves r cache ls)
      ↔ ((l ≡ up r) × (acme_cache m ≡ some cache) × (m.has_host_keys ≡ true) × (accepted m ≡ ls))
with_router_iff m r cache (failed e) ls = ground arith
with_router_iff m r cache (up q) ls = ground (arith, with_cache_iff m r q cache (acme_cache m) ls)

main_serves_calls :
    (m : Machine) (r : Router) (cache : Text) (ls : List (Text × ℕ))
    → (main m ≡ serves r cache ls) ↔ (
        (is_usable (m.mkdir (router_data m)) ≡ true)
        × (new_router (router_data m) (m.disk_of (router_data m)) (m.walk_of (router_data m))
            ≡ up r)
        × (acme_cache m ≡ some cache)
        × (m.has_host_keys ≡ true)
        × (accepted m ≡ ls))
unfolding main
main_serves_calls m r cache ls = ground (
  arith,
  with_router_iff m r cache
      (new_router (router_data m) (m.disk_of (router_data m)) (m.walk_of (router_data m))) ls,
)

-- The directory of that name: below the state directory, if the environment names one, and else in the
-- working directory.
abbrev pub IsDirectory : Text → Text → Text → Type 0
IsDirectory state name dir =
    ((state ≡ []) × (dir ≡ name)) ⊎ ((state ≢ []) × (dir ≡ path_join state name))

-- The directory has been made, or was there.
abbrev pub IsThere : Machine → Text → Type 0
IsThere m dir = (m.mkdir dir ≡ made) ⊎ (m.mkdir dir ≡ already_exists)

IsDirectory-iff :
    (state name dir : Text) → (data_directory state name ≡ dir) ↔ IsDirectory state name dir
unfolding data_directory text_eq
IsDirectory-iff [] name dir =
    ((λ e. inl (refl, sym e)), λ d. elim d [ inl (e, f) ↦ sym f | inr (n, f) ↦ absurd (n refl) ])
IsDirectory-iff (c ∷ s) name dir = (
  (λ e. inr ((λ x. cons_nil c s x), sym e)),
  λ d. elim d [ inl (e, f) ↦ absurd (cons_nil c s e) | inr (n, f) ↦ sym f ],
)
  where
    cons_nil : (d : ℕ) (t : Text) → d ∷ t ≡ [] → ⊥
    cons_nil d t e = cc

usable_iff : (x : Made) → (is_usable x ≡ true) ↔ ((x ≡ made) ⊎ (x ≡ already_exists))
usable_iff made = ((λ e. inl refl), λ d. refl)
usable_iff already_exists = ((λ e. inr refl), λ d. refl)
usable_iff not_made = ((λ e. cc), λ d. elim d [ inl e ↦ cc | inr e ↦ cc ])

abbrev secrets : Machine → Text
secrets m = data_directory m.state_directory (bytes "acme-secrets")

acme_cache_found :
    (m : Machine) (cache : Text)
    → (acme_cache m ≡ some cache) ↔ ((is_usable (m.mkdir (secrets m)) ≡ true) × (secrets m ≡ cache))
unfolding acme_cache
acme_cache_found m cache = ground arith

acme_cache_iff :
    (m : Machine) (cache : Text)
    → (acme_cache m ≡ some cache)
      ↔ (IsDirectory m.state_directory (bytes "acme-secrets") cache × IsThere m cache)
acme_cache_iff m cache = (
  (λ e.
      (let (u, same) = (acme_cache_found m cache).0 e in
        (
          (IsDirectory-iff m.state_directory (bytes "acme-secrets") cache).0 same,
          (usable_iff (m.mkdir cache)).0 (subst (λ d. is_usable (m.mkdir d) ≡ true) same u),
        ))),
  λ (d, t).
      let same = (IsDirectory-iff m.state_directory (bytes "acme-secrets") cache).1 d in
      (acme_cache_found m cache).1 (
        subst (λ x. is_usable (m.mkdir x) ≡ true) (sym same) ((usable_iff (m.mkdir cache)).1 t),
        same,
      ),
)

-- What the machine gives for the program to serve.
abbrev pub CanServe : Machine → Router → Text → List (Text × ℕ) → Type 0
CanServe m r cache ls =
    (routes : Text) × IsDirectory m.state_directory (bytes "routerdata") routes
    × IsThere m routes
    × (new_router routes (m.disk_of routes) (m.walk_of routes) ≡ up r)
    × IsDirectory m.state_directory (bytes "acme-secrets") cache
    × IsThere m cache
    × (m.has_host_keys ≡ true)
    × (accepted m ≡ ls)

-- The program serves, with a router, a directory for certificates and ports, if and only if: the
-- directory "routerdata", below the state directory if there is one, has been made or was there, and
-- NewRouter comes up from its files with that router; the directory for certificates is
-- "acme-secrets", at the same place, and has been made or was there; the host keys can be managed; and
-- the ports are those of http, https and ssh on which it can listen: none on which it cannot keeps it
-- from the others.
pub main_serves_iff :
    (m : Machine) (r : Router) (cache : Text) (ls : List (Text × ℕ))
    → ((main m ≡ serves r cache ls) ↔ CanServe m r cache ls)
      × ((s : Text) (p : ℕ)
          → In (s, p) (accepted m)
            ↔ (IsService s × In p (service_ports s) × (m.can_listen p ≡ true)))
main_serves_iff m r cache ls = (
  (
    (λ e.
        (let (u, comes_up, c, keys, l) = (main_serves_calls m r cache ls).0 e in
          let (d, t) = (acme_cache_iff m cache).0 c in
          (
            router_data m,
            (IsDirectory-iff m.state_directory (bytes "routerdata") (router_data m)).0 refl,
            (usable_iff (m.mkdir (router_data m))).0 u,
            comes_up,
            d,
            t,
            keys,
            l,
          ))),
    λ (routes, d, t, comes_up, dc, tc, keys, l).
        let same = (IsDirectory-iff m.state_directory (bytes "routerdata") routes).1 d in
        (main_serves_calls m r cache ls).1 (
          subst (λ x. is_usable (m.mkdir x) ≡ true) (sym same) ((usable_iff (m.mkdir routes)).1 t),
          subst (λ x. new_router x (m.disk_of x) (m.walk_of x) ≡ up r) (sym same) comes_up,
          (acme_cache_iff m cache).1 (dc, tc),
          keys,
          l,
        ),
  ),
  λ s p. (of_In-accepted m s p, λ (v, i, l). to_In-accepted m s p v i l),
)
